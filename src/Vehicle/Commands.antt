-- ===== src/Vehicle/Commands.antt =====
-- The chassis commands that vehicle_interface.cpp publishes, and their bounds.
use wtbcar_autoware_nav.Prelude.{
  ℕ, ◌≡◌, refl, Bool, true, false, List, [], ◌∷◌, ◌++◌, arith, ◌==◌, ◌||◌, if_cases, not,
}
use wtbcar_autoware_nav.Floats.{Floats, LtIrrefl, Within, clamp, clamp-Within}
use wtbcar_autoware_nav.Vehicle.{
  Codes, Config, Vehicle, Message, Event, twist_cmd, cmd_vel, run_static, steering_report,
  control_mode_report, control_cmd, gear_cmd, odom, car_status, timer, control_mode_request,
  publish_chassis_command, is_autonomous_control_mode, on_control_cmd, on_gear_cmd, on_odom,
  on_car_status, on_timer, watchdog, keep_running, sets_mode, enter_mode, on_control_mode_request,
  step, run, publish_gear_report,
}

-- Every chassis command among the messages has a speed and a steering angle that satisfy `P`.
unfoldable pub EachCommand {ℓ} : (f : Floats) → (f.F64 → f.F64 → Type ℓ) → List (Message f) → Type ℓ
EachCommand f P [] = Unit
EachCommand f P (twist_cmd stamp frame speed steer ∷ ms) = P speed steer × EachCommand f P ms
EachCommand f P (cmd_vel speed steer ∷ ms) = P speed steer × EachCommand f P ms
EachCommand f P (_ ∷ ms) = EachCommand f P ms

not-eq-false : (b : Bool) → not b ≡ false → b ≡ true
not-eq-false b h = ground arith

module _ {ℓ} (f : Floats) (codes : Codes) (P : f.F64 → f.F64 → Type ℓ) where
  pub EachCommand-append :
      (ms ns : List (Message f))
      → EachCommand f P ms
      → EachCommand f P ns
      → EachCommand f P (ms ++ ns)
  unfolding EachCommand
  EachCommand-append [] ns h k = k
  EachCommand-append (twist_cmd _ _ _ _ ∷ ms) ns h k = (h.0, EachCommand-append ms ns h.1 k)
  EachCommand-append (cmd_vel _ _ ∷ ms) ns h k = (h.0, EachCommand-append ms ns h.1 k)
  EachCommand-append (_ ∷ ms) ns h k = EachCommand-append ms ns h k

  pub no_command : EachCommand f P []
  unfolding EachCommand
  no_command = tt

  command_holds :
      (v : Vehicle f) (now : ℕ) (speed steer : f.F64)
      → P speed steer
      → EachCommand f P (publish_chassis_command f codes v now speed steer ∷ [])
  unfolding publish_chassis_command EachCommand
  command_holds v now speed steer h =
      if_cases (λ m. EachCommand f P (m ∷ [])) v.publish_twist_cmd (λ _. (h, tt)) (λ _. (h, tt))

  gear_report_holds :
      (v : Vehicle f) (now : ℕ) → EachCommand f P (publish_gear_report f codes v now ∷ [])
  unfolding publish_gear_report EachCommand
  gear_report_holds v now = tt

  abbrev Outcome : Vehicle f × List (Message f) → Type ℓ
  Outcome r = EachCommand f P r.1

  pub on_control_cmd_holds :
      (v : Vehicle f) (clock : ℕ → ℕ) (velocity steer : f.F32)
      → (is_autonomous_control_mode f codes v ≡ true
          → P
              (clamp f (f.widen velocity) (f.neg v.max_speed) v.max_speed)
              (clamp f (f.widen steer) (f.neg v.max_steering_angle) v.max_steering_angle))
      → EachCommand f P (on_control_cmd f codes v clock velocity steer).1
  unfolding on_control_cmd
  on_control_cmd_holds v clock velocity steer h =
      if_cases Outcome (not (is_autonomous_control_mode f codes v)) (λ _. no_command)
        (λ e. command_holds _ (clock 1) _ _ (h (not-eq-false _ e)))

  -- The other handlers stop the car, or command nothing.
  module _ (stop : P (f.literal 0 0) (f.literal 0 0)) where
    watchdog_holds : (v : Vehicle f) (clock : ℕ → ℕ) → EachCommand f P (watchdog f codes v clock)
    unfolding watchdog
    watchdog_holds v clock =
        if_cases (EachCommand f P) _ (λ _. command_holds v (clock 1) _ _ stop) (λ _. no_command)

    reports_hold :
        (v : Vehicle f) (clock : ℕ → ℕ)
        → EachCommand f P (
            steering_report (clock 0) (f.narrow v.latest_steering_angle)
            ∷ control_mode_report (clock 0) v.current_control_mode
            ∷ (keep_running f codes v ++ (publish_gear_report f codes v (clock 2) ∷ [])))
    unfolding EachCommand
    reports_hold v clock =
        EachCommand-append (keep_running f codes v) _ (start_holds v)
          (gear_report_holds v (clock 2))
      where
        start_holds : (w : Vehicle f) → EachCommand f P (keep_running f codes w)
        start_holds w =
            unfold keep_running in
            if_cases (EachCommand f P) (w.current_gear == codes.gear_drive)
              {x = run_static "start" ∷ []} {y = []} (λ _. tt) (λ _. tt)

    pub on_timer_holds :
        (v : Vehicle f) (clock : ℕ → ℕ) → EachCommand f P (on_timer f codes v clock)
    unfolding on_timer
    on_timer_holds v clock = EachCommand-append _ _ (watchdog_holds v clock) (reports_hold v clock)

    pub on_gear_cmd_holds :
        (v : Vehicle f) (clock : ℕ → ℕ) (command : ℕ)
        → EachCommand f P (on_gear_cmd f codes v clock command).1
    unfolding on_gear_cmd
    on_gear_cmd_holds v clock command =
        let v' : Vehicle f = record v { current_gear = command } in
        EachCommand-append _ _
          (if_cases (EachCommand f P) (command == codes.gear_park || command == codes.gear_neutral)
            (λ _. command_holds v' (clock 0) _ _ stop) (λ _. no_command))
          (gear_report_holds v' (clock 1))

    enter_mode_holds : (v : Vehicle f) (clock : ℕ → ℕ) → Outcome (enter_mode f codes v clock)
    unfolding enter_mode
    enter_mode_holds v clock =
        if_cases (EachCommand f P) (is_autonomous_control_mode f codes v) (λ _. no_command)
          (λ _. command_holds v (clock 0) _ _ stop)

    pub on_control_mode_request_holds :
        (v : Vehicle f) (clock : ℕ → ℕ) (mode : ℕ)
        → EachCommand f P (on_control_mode_request f codes v clock mode).0.1
    unfolding on_control_mode_request
    on_control_mode_request_holds v clock mode =
        if_cases Q (sets_mode f codes mode) (λ _. enter_mode_holds _ clock)
          (λ _. if_cases Q (mode == codes.request_no_command) (λ _. no_command) (λ _. no_command))
      where
        Q : (Vehicle f × List (Message f)) × Bool → Type ℓ
        Q r = Outcome r.0

-- The bound of each chassis command: neither value leaves the configured range. (A NaN is not less
-- than anything, so the node passes it on.)
abbrev pub Allowed : (f : Floats) → Config f → f.F64 → f.F64 → Type 0
Allowed f config speed steer =
    Within f (f.neg config.max_speed) config.max_speed speed
    × Within f (f.neg config.max_steering_angle) config.max_steering_angle steer

-- A configuration whose limits are ordered about zero.
pub record IsSane (f : Floats) (config : Config f) : Type 0 where
  pub speed_ordered : f.lt config.max_speed (f.neg config.max_speed) ≡ false
  pub steer_ordered : f.lt config.max_steering_angle (f.neg config.max_steering_angle) ≡ false
  pub rest : Allowed f config (f.literal 0 0) (f.literal 0 0)

module _ (f : Floats) (codes : Codes) where
  pub config-step : (v : Vehicle f) (e : (ℕ → ℕ) × Event f) → (step f codes v e).0.config ≡ v.config
  unfolding step on_control_cmd on_gear_cmd on_odom on_car_status on_control_mode_request enter_mode
  config-step v (clock, control_cmd velocity steer) = ground arith
  config-step v (clock, gear_cmd command) = refl
  config-step v (clock, odom stamp x y z) = refl
  config-step v (clock, car_status angle) = refl
  config-step v (clock, timer) = refl
  config-step v (clock, control_mode_request mode) = ground arith

module _ (f : Floats) (codes : Codes) (irrefl : LtIrrefl f) where
  step-Allowed :
      (v : Vehicle f) (e : (ℕ → ℕ) × Event f)
      → IsSane f v.config
      → EachCommand f (Allowed f v.config) (step f codes v e).1
  unfolding step on_odom EachCommand
  step-Allowed v (clock, control_cmd velocity steer) h =
      on_control_cmd_holds f codes _ v clock velocity steer λ _.
        (clamp-Within f irrefl _ _ _ h.speed_ordered, clamp-Within f irrefl _ _ _ h.steer_ordered)
  step-Allowed v (clock, gear_cmd command) h = on_gear_cmd_holds f codes _ h.rest v clock command
  step-Allowed v (clock, odom stamp x y z) h = tt
  step-Allowed v (clock, car_status angle) h = tt
  step-Allowed v (clock, timer) h = on_timer_holds f codes _ h.rest v clock
  step-Allowed v (clock, control_mode_request mode) h =
      on_control_mode_request_holds f codes _ h.rest v clock mode

  -- From a state with ordered limits, no sequence of callbacks makes the node publish a chassis
  -- command whose speed or steering angle compares as below or above its configured range. A NaN
  -- compares as neither.
  pub run-Allowed :
      (v : Vehicle f) (es : List ((ℕ → ℕ) × Event f))
      → IsSane f v.config
      → EachCommand f (Allowed f v.config) (run f codes v es).1
  unfolding run
  run-Allowed v [] h = no_command f codes (Allowed f v.config)
  run-Allowed v (e ∷ es) h =
      EachCommand-append f codes (Allowed f v.config) (step f codes v e).1 _ (step-Allowed v e h) (
        rw (config-step f codes v e) at
          (run-Allowed (step f codes v e).0 es (rw (config-step f codes v e) h)))
