-- ===== src/Vehicle/Mode.antt =====
-- The control mode of vehicle_interface.cpp: which values it takes, and what the node may command
-- while it is not autonomous.
use wtbcar_autoware_nav.Prelude.{
  ℕ, ◌≡◌, ◌≢◌, ◌⊎◌, inl, refl, Bool, false, List, [], ◌∷◌, arith, ◌==◌, ◌||◌,
}
use wtbcar_autoware_nav.Floats.{Floats}
use wtbcar_autoware_nav.Vehicle.Commands.{
  EachCommand, EachCommand-append, no_command, on_control_cmd_holds, on_gear_cmd_holds,
  on_timer_holds, on_control_mode_request_holds,
}
use wtbcar_autoware_nav.Vehicle.{
  Codes, Config, Vehicle, Event, control_cmd, gear_cmd, odom, car_status, timer,
  control_mode_request, is_autonomous_control_mode, on_control_cmd, on_gear_cmd, on_odom,
  on_car_status, on_control_mode_request, enter_mode, step, run, init,
}

-- What the node relies on in autoware_vehicle_msgs: the request and the report name a mode by the
-- same code, and MANUAL is no autonomous mode.
pub record CodesAgree (c : Codes) : Type 0 where
  pub same_autonomous : c.request_autonomous ≡ c.autonomous
  pub same_steer : c.request_autonomous_steer_only ≡ c.autonomous_steer_only
  pub same_velocity : c.request_autonomous_velocity_only ≡ c.autonomous_velocity_only
  pub same_manual : c.request_manual ≡ c.manual
  pub not_autonomous : c.manual ≢ c.autonomous
  pub not_steer : c.manual ≢ c.autonomous_steer_only
  pub not_velocity : c.manual ≢ c.autonomous_velocity_only

-- A command that stops the car.
abbrev pub IsStop : (f : Floats) → f.F64 → f.F64 → Type 0
IsStop f speed steer = (speed ≡ f.literal 0 0) × (steer ≡ f.literal 0 0)

-- A request for one of the autonomous modes.
abbrev pub engages : {f : Floats} → Codes → Event f → Bool
engages codes (control_mode_request mode) =
    mode == codes.request_autonomous
    || (mode == codes.request_autonomous_steer_only
        || mode == codes.request_autonomous_velocity_only)
engages codes _ = false

abbrev pub NeverEngages : {f : Floats} → Codes → List ((ℕ → ℕ) × Event f) → Type 0
NeverEngages codes [] = Unit
NeverEngages codes ((clock, e) ∷ es) = (engages codes e ≡ false) × NeverEngages codes es

-- A mode that the node reports as its own.
abbrev pub IsKnownMode : Codes → ℕ → Type 0
IsKnownMode c m =
    (m ≡ c.manual)
    ⊎ ((m ≡ c.autonomous) ⊎ ((m ≡ c.autonomous_steer_only) ⊎ (m ≡ c.autonomous_velocity_only)))

module _ (f : Floats) (codes : Codes) where
  step_stops :
      (v : Vehicle f) (e : (ℕ → ℕ) × Event f)
      → is_autonomous_control_mode f codes v ≡ false
      → EachCommand f (IsStop f) (step f codes v e).1
  unfolding step on_odom EachCommand
  step_stops v (clock, control_cmd velocity steer) h =
      on_control_cmd_holds f codes _ v clock velocity steer (λ e. cc)
  step_stops v (clock, gear_cmd command) h =
      on_gear_cmd_holds f codes _ (refl, refl) v clock command
  step_stops v (clock, odom stamp x y z) h = tt
  step_stops v (clock, car_status angle) h = tt
  step_stops v (clock, timer) h = on_timer_holds f codes _ (refl, refl) v clock
  step_stops v (clock, control_mode_request mode) h =
      on_control_mode_request_holds f codes _ (refl, refl) v clock mode

module _ (f : Floats) (codes : Codes) (agree : CodesAgree codes) where
  stays_manual :
      (v : Vehicle f) (e : (ℕ → ℕ) × Event f)
      → v.current_control_mode ≡ codes.manual
      → engages codes e.1 ≡ false
      → (step f codes v e).0.current_control_mode ≡ codes.manual
  unfolding step on_control_cmd on_gear_cmd on_odom on_car_status on_control_mode_request enter_mode
  stays_manual v (clock, control_cmd velocity steer) h k = ground arith
  stays_manual v (clock, gear_cmd command) h k = h
  stays_manual v (clock, odom stamp x y z) h k = h
  stays_manual v (clock, car_status angle) h k = h
  stays_manual v (clock, timer) h k = h
  stays_manual v (clock, control_mode_request mode) h k = ground arith

  manual_not_autonomous :
      (v : Vehicle f)
      → v.current_control_mode ≡ codes.manual
      → is_autonomous_control_mode f codes v ≡ false
  unfolding is_autonomous_control_mode
  manual_not_autonomous v h = ground arith

  -- While nobody requests an autonomous mode, a node in MANUAL stays in MANUAL, and the only chassis
  -- commands that it publishes are stops.
  pub run_manual :
      (v : Vehicle f) (es : List ((ℕ → ℕ) × Event f))
      → v.current_control_mode ≡ codes.manual
      → NeverEngages codes es
      → ((run f codes v es).0.current_control_mode ≡ codes.manual)
        × EachCommand f (IsStop f) (run f codes v es).1
  unfolding run
  run_manual v [] h n = (h, no_command f codes (IsStop f))
  run_manual v (e ∷ es) h n =
      let rest = run_manual (step f codes v e).0 es (stays_manual v e h n.0) n.1 in
      (
        rest.0,
        EachCommand-append f codes (IsStop f) (step f codes v e).1 _
            (step_stops f codes v e (manual_not_autonomous v h)) rest.1,
      )

  step-IsKnownMode :
      (v : Vehicle f) (e : (ℕ → ℕ) × Event f)
      → IsKnownMode codes v.current_control_mode
      → IsKnownMode codes (step f codes v e).0.current_control_mode
  unfolding step on_control_cmd on_gear_cmd on_odom on_car_status on_control_mode_request enter_mode
  step-IsKnownMode v (clock, control_cmd velocity steer) h = ground arith
  step-IsKnownMode v (clock, gear_cmd command) h = h
  step-IsKnownMode v (clock, odom stamp x y z) h = h
  step-IsKnownMode v (clock, car_status angle) h = h
  step-IsKnownMode v (clock, timer) h = h
  step-IsKnownMode v (clock, control_mode_request mode) h = ground arith

  run-IsKnownMode_from :
      (v : Vehicle f) (es : List ((ℕ → ℕ) × Event f))
      → IsKnownMode codes v.current_control_mode
      → IsKnownMode codes (run f codes v es).0.current_control_mode
  unfolding run
  run-IsKnownMode_from v [] h = h
  run-IsKnownMode_from v (e ∷ es) h =
      run-IsKnownMode_from (step f codes v e).0 es (step-IsKnownMode v e h)

  -- Whatever callbacks run after the constructor, the control mode is MANUAL or one of the three
  -- autonomous modes, by their codes in ControlModeReport.
  pub run-IsKnownMode :
      (config : Config f) (now : ℕ) (es : List ((ℕ → ℕ) × Event f))
      → IsKnownMode codes (run f codes (init f codes config now) es).0.current_control_mode
  unfolding init
  run-IsKnownMode config now es = run-IsKnownMode_from (init f codes config now) es (inl refl)
