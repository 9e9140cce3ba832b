-- ===== src/Chassis/Switch.antt =====
-- The value of the run switch of wtb_car.cpp after a sequence of callbacks.
use wtbcar_autoware_nav.Prelude.{ℕ, ◌≡◌, refl, ◌∙◌, ap, eq_iff, true, List, [], ◌∷◌, ◌++◌, arith}
use wtbcar_autoware_nav.Floats.{Floats}
use wtbcar_autoware_nav.Chassis.{
  Car, Event, cmd_vel, twist_cmd, run_static, cmd_vel_callback, twist_cmd_vel_callback,
  run_static_callback, stop, send_speed_to_akm, step, run,
}

-- Speed commands and twist commands only.
abbrev pub OnlyDrives : {f : Floats} → List ((ℕ → ℕ) × Event f) → Type 0
OnlyDrives [] = Unit
OnlyDrives ((clock, run_static command) ∷ es) = ⊥
OnlyDrives ((clock, _) ∷ es) = OnlyDrives es

module _ (f : Floats) where
  pub state-run-append :
      (c : Car f) (es gs : List ((ℕ → ℕ) × Event f))
      → (run f c (es ++ gs)).0 ≡ (run f (run f c es).0 gs).0
  unfolding run
  state-run-append c [] gs = refl
  state-run-append c (e ∷ es) gs = state-run-append (step f c e).0 es gs

  last_command-run :
      (c : Car f) (es : List ((ℕ → ℕ) × Event f))
      → OnlyDrives es
      → (run f c es).0.last_run_static_command ≡ c.last_run_static_command
  unfolding run step cmd_vel_callback twist_cmd_vel_callback send_speed_to_akm
  last_command-run c [] h = refl
  last_command-run c ((clock, cmd_vel x z) ∷ es) h =
      last_command-run (cmd_vel_callback f c clock x z).0 es h ∙ ground arith
  last_command-run c ((clock, twist_cmd x z) ∷ es) h =
      last_command-run (twist_cmd_vel_callback f c clock x z).0 es h
  last_command-run c ((clock, run_static command) ∷ es) h = absurd h

  last_command-stop :
      (c : Car f) (clock : ℕ → ℕ)
      → (run_static_callback f c clock "stop").0.last_run_static_command ≡ "stop"
  unfolding run_static_callback stop send_speed_to_akm
  last_command-stop c clock = ground (arith, eq_iff "stop" c.last_run_static_command)

  start_enables :
      (c : Car f) (clock : ℕ → ℕ)
      → c.last_run_static_command ≡ "stop"
      → (run_static_callback f c clock "start").0.enable_run ≡ true
  unfolding run_static_callback
  start_enables c clock h = rw h

  -- After a "stop", speed and twist commands and then a "start" leave the driver enabled.
  pub start_after_stop :
      (c : Car f) (clock now : ℕ → ℕ) (es : List ((ℕ → ℕ) × Event f))
      → OnlyDrives es
      → (run f
          (run_static_callback f c clock "stop").0
          (es ++ ((now, run_static "start") ∷ []))).0.enable_run
        ≡ true
  unfolding run step
  start_after_stop c clock now es h =
      let d = (run_static_callback f c clock "stop").0 in
      ap (λ (e : Car f). e.enable_run) (state-run-append d es ((now, run_static "start") ∷ []))
      ∙ start_enables (run f d es).0 now (last_command-run d es h ∙ last_command-stop c clock)
