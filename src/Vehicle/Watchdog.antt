-- ===== src/Vehicle/Watchdog.antt =====
-- The command timeout of vehicle_interface.cpp, over a sequence of callbacks.
use wtbcar_autoware_nav.Prelude.{
  ℕ, ◌≡◌, refl, Bool, true, List, [], ◌∷◌, arith, ap₂, ◌∙◌, if◌then◌else◌,
}
use wtbcar_autoware_nav.Prelude.Int.{sub_ℕ}
use wtbcar_autoware_nav.Floats.{Floats}
use wtbcar_autoware_nav.Vehicle.{
  Codes, Vehicle, Message, Event, twist_cmd, cmd_vel, control_cmd, gear_cmd, odom, car_status,
  timer, control_mode_request, is_autonomous_control_mode, on_gear_cmd, on_odom, on_car_status,
  on_timer, watchdog, keep_running, publish_chassis_command, publish_gear_report, step, run,
}

-- The speeds and steering angles of the chassis commands among the messages, in order.
abbrev pub commands : {f : Floats} → List (Message f) → List (f.F64 × f.F64)
commands [] = []
commands (twist_cmd stamp frame speed steer ∷ ms) = (speed, steer) ∷ commands ms
commands (cmd_vel speed steer ∷ ms) = (speed, steer) ∷ commands ms
commands (_ ∷ ms) = commands ms

-- Neither a control command nor a request for a mode: nothing that restarts the timeout.
abbrev pub IsSilent : {f : Floats} → List ((ℕ → ℕ) × Event f) → Type 0
IsSilent [] = Unit
IsSilent ((clock, control_cmd velocity steer) ∷ es) = ⊥
IsSilent ((clock, control_mode_request mode) ∷ es) = ⊥
IsSilent ((clock, _) ∷ es) = IsSilent es

-- What the timeout depends on, and the topic of the command that follows it.
pub record SameDeadline (f : Floats) (v w : Vehicle f) : Type 0 where
  pub same_time : w.last_control_time ≡ v.last_control_time
  pub same_mode : w.current_control_mode ≡ v.current_control_mode
  pub same_timeout : w.command_timeout_sec ≡ v.command_timeout_sec
  pub same_topic : w.publish_twist_cmd ≡ v.publish_twist_cmd

module _ (f : Floats) (codes : Codes) where
  silence_keeps :
      (v w : Vehicle f) (es : List ((ℕ → ℕ) × Event f))
      → IsSilent es
      → SameDeadline f v w
      → SameDeadline f v (run f codes w es).0
  unfolding run step on_gear_cmd on_odom on_car_status
  silence_keeps v w [] s d = d
  silence_keeps v w ((clock, control_cmd velocity steer) ∷ es) s d = absurd s
  silence_keeps v w ((clock, control_mode_request mode) ∷ es) s d = absurd s
  silence_keeps v w ((clock, gear_cmd command) ∷ es) s d =
      silence_keeps v (step f codes w (clock, gear_cmd command)).0 es s (ground arith)
  silence_keeps v w ((clock, odom stamp x y z) ∷ es) s d =
      silence_keeps v (step f codes w (clock, odom stamp x y z)).0 es s (ground arith)
  silence_keeps v w ((clock, car_status angle) ∷ es) s d =
      silence_keeps v (step f codes w (clock, car_status angle)).0 es s (ground arith)
  silence_keeps v w ((clock, timer) ∷ es) s d = silence_keeps v w es s d

  pub silent-SameDeadline :
      (v : Vehicle f) (es : List ((ℕ → ℕ) × Event f))
      → IsSilent es
      → SameDeadline f v (run f codes v es).0
  silent-SameDeadline v es s =
      silence_keeps v v es s
        (record { same_time = refl; same_mode = refl; same_timeout = refl; same_topic = refl })

  pub still_autonomous :
      (v w : Vehicle f)
      → SameDeadline f v w
      → is_autonomous_control_mode f codes v ≡ true
      → is_autonomous_control_mode f codes w ≡ true
  still_autonomous v w d h = unfold is_autonomous_control_mode in rw d.same_mode h

  abbrev pub is_overdue : Vehicle f → ℕ → Bool
  is_overdue v now = f.lt v.command_timeout_sec (f.seconds (sub_ℕ now v.last_control_time))

  commands-on_timer :
      (v : Vehicle f) (clock : ℕ → ℕ)
      → is_autonomous_control_mode f codes v ≡ true
      → commands (on_timer f codes v clock)
        ≡ (if is_overdue v (clock 0) then (f.literal 0 0, f.literal 0 0) ∷ [] else [])
  unfolding on_timer watchdog keep_running publish_chassis_command publish_gear_report
  commands-on_timer v clock h = ground arith

  -- An autonomous node that gets neither control commands nor mode requests, whatever else happens,
  -- keeps the time of its last control command as its deadline's start: a tick of the timer stops
  -- the car if more than the timeout has passed since, and commands nothing otherwise.
  pub run_timeout :
      (v : Vehicle f) (es : List ((ℕ → ℕ) × Event f)) (clock : ℕ → ℕ)
      → is_autonomous_control_mode f codes v ≡ true
      → IsSilent es
      → commands (on_timer f codes (run f codes v es).0 clock)
        ≡ (if is_overdue v (clock 0) then (f.literal 0 0, f.literal 0 0) ∷ [] else [])
  run_timeout v es clock h s =
      commands-on_timer w clock (still_autonomous v w d h)
      ∙ ap₂
          (λ (limit : f.F64) (start : ℕ).
            if f.lt limit (f.seconds (sub_ℕ (clock 0) start))
            then (f.literal 0 0, f.literal 0 0) ∷ []
            else [])
          d.same_timeout d.same_time
    where
      w : Vehicle f
      w = (run f codes v es).0

      d : SameDeadline f v w
      d = silent-SameDeadline v es s
