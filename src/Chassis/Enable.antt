-- ===== src/Chassis/Enable.antt =====
-- The run switch of wtb_car.cpp: "start" and "stop" on run_static, and which commands it gates.
use wtbcar_autoware_nav.Prelude.{
  ℕ, ◌≡◌, ◌≢◌, refl, sym, ap, ◌∙◌, String, str_eq, eq_iff, Bool, true, false, List, [], ◌∷◌, arith,
  if◌then◌else◌, length, Bool-cases, inl, inr,
}
use wtbcar_autoware_nav.Prelude.Int.{sub_ℕ}
use wtbcar_autoware_nav.Floats.{Floats}
use wtbcar_autoware_nav.Chassis.Heartbeat.{payloads}
use wtbcar_autoware_nav.Chassis.{
  Car, Event, cmd_vel, send_frames, send_speed_to_akm, cmd_vel_callback, twist_cmd_vel_callback,
  run_static_callback, stop, step, run, may_resume, limit_speed,
}

pub differs : (s t : String) → s ≢ t → str_eq s t ≡ false
differs s t h = elim (Bool-cases (str_eq s t)) [ inl e ↦ absurd (h ((eq_iff s t).0 e)) | inr e ↦ e ]

agrees : (s t : String) → s ≡ t → str_eq s t ≡ true
agrees s t e = (eq_iff s t).1 e

-- A driver that a "stop" at time `since` has stopped.
pub record Held {f : Floats} (c : Car f) (since : ℕ) (d : Car f) : Type 0 where
  pub stopped : d.enable_run ≡ false
  pub stop_time : d.enable_last_time ≡ since
  pub last_command : d.last_run_static_command ≡ "stop"
  pub same_config : d.config ≡ c.config

module _ (f : Floats) where
  stop-Held :
      (c : Car f) (clock : ℕ → ℕ)
      → c.last_run_static_command ≢ "stop"
      → Held c (clock 0) (run_static_callback f c clock "stop").0
  unfolding run_static_callback stop send_speed_to_akm
  stop-Held c clock h =
      rw (differs "stop" c.last_run_static_command (λ e. h (sym e))) (ground arith)

  -- Whether more than the threshold has passed between two times.
  abbrev pub has_waited : Car f → ℕ → ℕ → Bool
  has_waited c since now = may_resume f (record c { enable_last_time = since }) now

  Held-may_resume :
      (c d : Car f) (since now : ℕ) → Held c since d → may_resume f d now ≡ has_waited c since now
  unfolding may_resume
  Held-may_resume c d since now h = rw (h.stop_time, h.same_config)

  -- Speed commands that come before the threshold has passed.
  abbrev pub AllEarly : Car f → ℕ → List ((ℕ → ℕ) × f.F64 × f.F64) → Type 0
  AllEarly c since [] = Unit
  AllEarly c since ((clock, x, z) ∷ ms) =
      (has_waited c since (clock 0) ≡ false) × AllEarly c since ms

  abbrev pub speed_commands : List ((ℕ → ℕ) × f.F64 × f.F64) → List ((ℕ → ℕ) × Event f)
  speed_commands [] = []
  speed_commands ((clock, x, z) ∷ ms) = (clock, cmd_vel x z) ∷ speed_commands ms

  early_commands_ignored :
      (c d : Car f) (since : ℕ) (ms : List ((ℕ → ℕ) × f.F64 × f.F64))
      → Held c since d
      → AllEarly c since ms
      → run f d (speed_commands ms) ≡ (d, [])
  unfolding run step may_resume
  early_commands_ignored c d since [] h early = refl
  early_commands_ignored c d since ((clock, x, z) ∷ ms) h early =
      rw one (rw (early_commands_ignored c d since ms h early.1))
    where
      one : cmd_vel_callback f d clock x z ≡ (d, [])
      one =
          unfold cmd_vel_callback in rw (h.stopped, Held-may_resume c d since (clock 0) h, early.0)

  cmd_vel_resumes :
      (d : Car f) (clock : ℕ → ℕ) (x z : f.F64)
      → d.enable_run ≡ false
      → let r = cmd_vel_callback f d clock x z in
        (r.0.enable_run ≡ may_resume f d (clock 0))
        × (length (payloads r.1) ≡ (if may_resume f d (clock 0) then 3 else 0))
  unfolding cmd_vel_callback send_speed_to_akm send_frames
  cmd_vel_resumes d clock x z h = ground arith

  -- Whether more than the threshold has passed between two times, in seconds as a `float`.
  abbrev pub has_passed : Car f → ℕ → ℕ → Bool
  has_passed c since now =
      f.lt c.stop_time_threshold (f.widen (f.narrow (f.seconds (sub_ℕ now since))))

  -- Speed commands that come before that.
  abbrev pub AllBefore : Car f → ℕ → List ((ℕ → ℕ) × f.F64 × f.F64) → Type 0
  AllBefore c since [] = Unit
  AllBefore c since ((clock, x, z) ∷ ms) =
      (has_passed c since (clock 0) ≡ false) × AllBefore c since ms

  waited-passed :
      (c : Car f) (since now : ℕ)
      → f.le (f.literal 0 0) c.stop_time_threshold ≡ true
      → has_waited c since now ≡ has_passed c since now
  unfolding may_resume
  waited-passed c since now h = rw h refl

  AllBefore-AllEarly :
      (c : Car f) (since : ℕ) (ms : List ((ℕ → ℕ) × f.F64 × f.F64))
      → f.le (f.literal 0 0) c.stop_time_threshold ≡ true
      → AllBefore c since ms
      → AllEarly c since ms
  AllBefore-AllEarly c since [] h before = tt
  AllBefore-AllEarly c since ((clock, x, z) ∷ ms) h before =
      (waited-passed c since (clock 0) h ∙ before.0, AllBefore-AllEarly c since ms h before.1)

  -- With a threshold that is not negative, a "stop" that follows another command makes the driver deaf
  -- to speed commands: those that come when no more than the threshold has passed since change nothing
  -- and send nothing, and the next one enables the driver again, and sends its three frames, exactly
  -- when more than the threshold has passed.
  pub stop_gates_cmd_vel :
      (c : Car f) (clock : ℕ → ℕ) (ms : List ((ℕ → ℕ) × f.F64 × f.F64)) (later : ℕ → ℕ)
      (x z : f.F64)
      → f.le (f.literal 0 0) c.stop_time_threshold ≡ true
      → c.last_run_static_command ≢ "stop"
      → AllBefore c (clock 0) ms
      → let d = (run_static_callback f c clock "stop").0 in
        let r = cmd_vel_callback f d later x z in
        (run f d (speed_commands ms) ≡ (d, []))
        × (r.0.enable_run ≡ has_passed c (clock 0) (later 0))
        × (length (payloads r.1) ≡ (if has_passed c (clock 0) (later 0) then 3 else 0))
  stop_gates_cmd_vel c clock ms later x z nonnegative h before =
      let held = stop-Held c clock h in
      let d = (run_static_callback f c clock "stop").0 in
      let resumed = cmd_vel_resumes d later x z held.stopped in
      let same =
        Held-may_resume c d (clock 0) (later 0) held
        ∙ waited-passed c (clock 0) (later 0) nonnegative in
      (
        early_commands_ignored c d (clock 0) ms held
            (AllBefore-AllEarly c (clock 0) ms nonnegative before),
        resumed.0 ∙ same,
        resumed.1 ∙ ap (λ (b : Bool). if b then 3 else 0) same,
      )

  last_command-cmd_vel :
      (d : Car f) (clock : ℕ → ℕ) (x z : f.F64)
      → (cmd_vel_callback f d clock x z).0.last_run_static_command ≡ d.last_run_static_command
  unfolding cmd_vel_callback send_speed_to_akm
  last_command-cmd_vel d clock x z = ground arith

  -- Once a driver that was stopped has resumed by itself, a second "stop" is taken for a repetition
  -- of the first: it changes nothing, sends nothing, and leaves the driver enabled.
  pub second_stop_ignored :
      (c : Car f) (clock later last : ℕ → ℕ) (x z : f.F64)
      → c.last_run_static_command ≢ "stop"
      → has_waited c (clock 0) (later 0) ≡ true
      → let d = (run_static_callback f c clock "stop").0 in
        let e = (cmd_vel_callback f d later x z).0 in
        (run_static_callback f e last "stop" ≡ (e, [])) × (e.enable_run ≡ true)
  second_stop_ignored c clock later last x z h waited =
      let held = stop-Held c clock h in
      let d = (run_static_callback f c clock "stop").0 in
      let e = (cmd_vel_callback f d later x z).0 in
      let named = last_command-cmd_vel d later x z ∙ held.last_command in
      (
        repeated e last named,
        (cmd_vel_resumes d later x z held.stopped).0
            ∙ Held-may_resume c d (clock 0) (later 0) held
            ∙ waited,
      )
    where
      repeated :
          (e : Car f) (now : ℕ → ℕ)
          → e.last_run_static_command ≡ "stop"
          → run_static_callback f e now "stop" ≡ (e, [])
      repeated e now k =
          unfold run_static_callback in rw (agrees "stop" e.last_run_static_command (sym k))

  -- The run switch does not reach twist commands: a stopped driver sends for them the frames that it
  -- would send if it were enabled, three of them.
  pub stop_misses_twist_cmd :
      (c : Car f) (clock : ℕ → ℕ) (x z : f.F64)
      → let r = twist_cmd_vel_callback f (record c { enable_run = false }) clock x z in
        (r.1 ≡ (twist_cmd_vel_callback f (record c { enable_run = true }) clock x z).1)
        × (length (payloads r.1) ≡ 3)
        × (r.0.enable_run ≡ false)
  unfolding twist_cmd_vel_callback send_speed_to_akm send_frames limit_speed
  stop_misses_twist_cmd c clock x z = (refl, refl, refl)
