-- ===== src/Chassis/Stopped.antt =====
-- A driver of wtb_car.cpp that is stopped and never resumes by itself.
use wtbcar_autoware_nav.Prelude.{
  ℕ, ◌≡◌, ◌≢◌, refl, sym, ◌∙◌, subst, String, false, List, [], ◌∷◌, arith,
}
use wtbcar_autoware_nav.Floats.{Floats}
use wtbcar_autoware_nav.Chassis.{
  Car, Output, Event, cmd_vel, twist_cmd, run_static, cmd_vel_callback, run_static_callback, step,
  run, may_resume,
}
use wtbcar_autoware_nav.Chassis.Enable.{differs}

-- No twist command, and no "start".
abbrev pub NeverStarts : {f : Floats} → List ((ℕ → ℕ) × Event f) → Type 0
NeverStarts [] = Unit
NeverStarts ((clock, cmd_vel x z) ∷ es) = NeverStarts es
NeverStarts ((clock, twist_cmd x z) ∷ es) = ⊥
NeverStarts ((clock, run_static command) ∷ es) = (command ≢ "start") × NeverStarts es

-- A driver that is stopped, as far as speed commands can tell.
pub record Silent {f : Floats} (c : Car f) (r : Car f × List (Output f)) : Type 0 where
  pub nothing : r.1 ≡ []
  pub stopped : r.0.enable_run ≡ false
  pub same_config : r.0.config ≡ c.config

module _ (f : Floats) where
  cmd_vel-Silent :
      (c : Car f) (clock : ℕ → ℕ) (x z : f.F64)
      → c.enable_run ≡ false
      → may_resume f c (clock 0) ≡ false
      → Silent c (cmd_vel_callback f c clock x z)
  unfolding cmd_vel_callback
  cmd_vel-Silent c clock x z h k = ground arith

  never_resumes :
      (c : Car f) (now : ℕ)
      → f.le (f.literal 0 0) c.stop_time_threshold ≡ false
      → may_resume f c now ≡ false
  unfolding may_resume
  never_resumes c now k = ground arith

  run_static-Silent :
      (c : Car f) (clock : ℕ → ℕ) (command : String)
      → c.enable_run ≡ false
      → command ≢ "start"
      → Silent c (run_static_callback f c clock command)
  unfolding run_static_callback
  run_static-Silent c clock command h n = ground (arith, differs command "start" n)

  -- With a negative threshold a stopped driver sends nothing and stays stopped, whatever speed
  -- commands and run commands come, until a "start" or a twist command does.
  pub stopped-Silent :
      (c : Car f) (es : List ((ℕ → ℕ) × Event f))
      → c.enable_run ≡ false
      → f.le (f.literal 0 0) c.stop_time_threshold ≡ false
      → NeverStarts es
      → Silent c (run f c es)
  unfolding run step
  stopped-Silent c [] h k n = record { nothing = refl; stopped = h; same_config = refl }
  stopped-Silent c ((clock, cmd_vel x z) ∷ es) h k n =
      let one = cmd_vel-Silent c clock x z h (never_resumes c (clock 0) k) in
      let rest =
        stopped-Silent (cmd_vel_callback f c clock x z).0 es one.stopped
          (subst (λ g. f.le (f.literal 0 0) g.stop_time_threshold ≡ false) (sym one.same_config) k)
          n in
      record {
        nothing = rw one.nothing rest.nothing;
        stopped = rest.stopped;
        same_config = rest.same_config ∙ one.same_config;
      }
  stopped-Silent c ((clock, twist_cmd x z) ∷ es) h k n = absurd n
  stopped-Silent c ((clock, run_static command) ∷ es) h k n =
      let one = run_static-Silent c clock command h n.0 in
      let rest =
        stopped-Silent (run_static_callback f c clock command).0 es one.stopped
          (subst (λ g. f.le (f.literal 0 0) g.stop_time_threshold ≡ false) (sym one.same_config) k)
          n.1 in
      record {
        nothing = rw one.nothing rest.nothing;
        stopped = rest.stopped;
        same_config = rest.same_config ∙ one.same_config;
      }
