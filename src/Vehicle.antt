-- ===== src/Vehicle.antt =====
-- wtb_vehicle_interface/src/vehicle_interface.cpp: the node between Autoware and the chassis driver.
-- A handler takes the node's state, the readings of the clock during the callback (`clock i` is what
-- the i-th `now()` of the callback returns, in the order of the text) and the message, and returns
-- the new state with the messages that it publishes, in order.
pub mod Commands
pub mod Mode
pub mod Watchdog
pub mod Startup
pub mod Tests
use wtbcar_autoware_nav.Prelude.{
  ℕ, String, Bool, true, false, ◌&&◌, ◌||◌, not, ◌==◌, if◌then◌else◌, List, [], ◌∷◌, ◌++◌,
}
use wtbcar_autoware_nav.Prelude.Int.{sub_ℕ}
use wtbcar_autoware_nav.Floats.{Floats, clamp}

-- The constants of autoware_vehicle_msgs, which other packages declare: those of ControlModeReport,
-- of the request of ControlModeCommand, and of GearCommand.
pub record Codes : Type 0 where
  pub autonomous : ℕ
  pub autonomous_steer_only : ℕ
  pub autonomous_velocity_only : ℕ
  pub manual : ℕ
  pub request_no_command : ℕ
  pub request_autonomous : ℕ
  pub request_autonomous_steer_only : ℕ
  pub request_autonomous_velocity_only : ℕ
  pub request_manual : ℕ
  pub gear_drive : ℕ
  pub gear_park : ℕ
  pub gear_neutral : ℕ

-- The parameters that the constructor declares.
pub record Config (f : Floats) : Type 0 where
  pub max_speed : f.F64
  pub max_steering_angle : f.F64
  pub command_timeout_sec : f.F64
  pub publish_twist_cmd : Bool

-- The members that the handlers read and write. Times are counts of nanoseconds.
pub record Vehicle (f : Floats) : Type 0 where
  pub config : Config f
  pub open config use *
  pub current_gear : ℕ
  pub current_control_mode : ℕ
  pub last_control_time : ℕ
  pub latest_velocity : f.F64
  pub latest_lateral_velocity : f.F64
  pub latest_heading_rate : f.F64
  pub latest_steering_angle : f.F64

-- What the node publishes, one constructor for each publisher. A stamp comes first.
pub data Message (f : Floats) : Type 0 where
  twist_cmd : ℕ → String → f.F64 → f.F64 → Message f
  cmd_vel : f.F64 → f.F64 → Message f
  run_static : String → Message f
  velocity_report : ℕ → String → f.F32 → f.F32 → f.F32 → Message f
  steering_report : ℕ → f.F32 → Message f
  control_mode_report : ℕ → ℕ → Message f
  gear_report : ℕ → ℕ → Message f

module _ (f : Floats) (codes : Codes) where
  unfoldable pub init : Config f → ℕ → Vehicle f
  init config now = record {
    config = config;
    current_gear = codes.gear_drive;
    current_control_mode = codes.manual;
    last_control_time = now;
    latest_velocity = f.literal 0 0;
    latest_lateral_velocity = f.literal 0 0;
    latest_heading_rate = f.literal 0 0;
    latest_steering_angle = f.literal 0 0;
  }

  unfoldable pub is_autonomous_control_mode : Vehicle f → Bool
  is_autonomous_control_mode v =
      v.current_control_mode == codes.autonomous
      || (v.current_control_mode == codes.autonomous_steer_only
          || v.current_control_mode == codes.autonomous_velocity_only)

  unfoldable pub publish_chassis_command : Vehicle f → ℕ → f.F64 → f.F64 → Message f
  publish_chassis_command v now speed steer =
      if v.publish_twist_cmd then twist_cmd now "base_link" speed steer else cmd_vel speed steer

  unfoldable pub publish_gear_report : Vehicle f → ℕ → Message f
  publish_gear_report v now = gear_report now v.current_gear

  unfoldable pub on_control_cmd : Vehicle f → (ℕ → ℕ) → f.F32 → f.F32 → Vehicle f × List (Message f)
  on_control_cmd v clock velocity steering_tire_angle =
      if not (is_autonomous_control_mode v) then (v, []) else (
        record v { last_control_time = clock 0 },
        publish_chassis_command v (clock 1)
              (clamp f (f.widen velocity) (f.neg v.max_speed) v.max_speed)
              (clamp f (f.widen steering_tire_angle) (f.neg v.max_steering_angle)
                v.max_steering_angle)
            ∷ [],
      )

  pub on_gear_cmd : Vehicle f → (ℕ → ℕ) → ℕ → Vehicle f × List (Message f)
  on_gear_cmd v clock command =
      let v' : Vehicle f = record v { current_gear = command } in
      (
        v',
        (if command == codes.gear_park || command == codes.gear_neutral
              then publish_chassis_command v' (clock 0) (f.literal 0 0) (f.literal 0 0) ∷ []
              else [])
            ++ (publish_gear_report v' (clock 1) ∷ []),
      )

  unfoldable pub on_odom : Vehicle f → ℕ → f.F64 → f.F64 → f.F64 → Vehicle f × List (Message f)
  on_odom v stamp linear_x linear_y angular_z = (
    record v {
      latest_velocity = linear_x;
      latest_lateral_velocity = linear_y;
      latest_heading_rate = angular_z;
    },
    velocity_report stamp "base_link" (f.narrow linear_x) (f.narrow linear_y) (f.narrow angular_z)
        ∷ [],
  )

  unfoldable pub on_car_status : Vehicle f → f.F64 → Vehicle f
  on_car_status v angle = record v {
    latest_steering_angle = clamp f angle (f.neg v.max_steering_angle) v.max_steering_angle;
  }

  -- The watchdog's command, if it is due.
  unfoldable pub watchdog : Vehicle f → (ℕ → ℕ) → List (Message f)
  watchdog v clock =
      if is_autonomous_control_mode v
        && f.lt v.command_timeout_sec (f.seconds (sub_ℕ (clock 0) v.last_control_time))
      then publish_chassis_command v (clock 1) (f.literal 0 0) (f.literal 0 0) ∷ []
      else []

  -- "start" for the chassis, in DRIVE only.
  unfoldable pub keep_running : Vehicle f → List (Message f)
  keep_running v = if v.current_gear == codes.gear_drive then run_static "start" ∷ [] else []

  unfoldable pub on_timer : Vehicle f → (ℕ → ℕ) → List (Message f)
  on_timer v clock =
      watchdog v clock
      ++ (steering_report (clock 0) (f.narrow v.latest_steering_angle)
          ∷ control_mode_report (clock 0) v.current_control_mode
          ∷ (keep_running v ++ (publish_gear_report v (clock 2) ∷ [])))

  -- The four case labels that set the mode.
  pub sets_mode : ℕ → Bool
  sets_mode mode =
      mode == codes.request_autonomous
      || (mode == codes.request_autonomous_steer_only
          || (mode == codes.request_autonomous_velocity_only || mode == codes.request_manual))

  -- What follows those labels, where `v` has the new mode already.
  pub enter_mode : Vehicle f → (ℕ → ℕ) → Vehicle f × List (Message f)
  enter_mode v clock = (
    record v { last_control_time = clock 1 },
    (if is_autonomous_control_mode v
        then []
        else publish_chassis_command v (clock 0) (f.literal 0 0) (f.literal 0 0) ∷ []),
  )

  -- The response's `success` comes second.
  pub on_control_mode_request : Vehicle f → (ℕ → ℕ) → ℕ → (Vehicle f × List (Message f)) × Bool
  unfolding sets_mode
  on_control_mode_request v clock mode =
      if sets_mode mode
      then (enter_mode (record v { current_control_mode = mode }) clock, true)
      else if mode == codes.request_no_command
      then ((v, []), true)
      else ((v, []), false)

-- The callbacks that the executor runs, one at a time.
pub data Event (f : Floats) : Type 0 where
  control_cmd : f.F32 → f.F32 → Event f
  gear_cmd : ℕ → Event f
  odom : ℕ → f.F64 → f.F64 → f.F64 → Event f
  car_status : f.F64 → Event f
  timer : Event f
  control_mode_request : ℕ → Event f

module _ (f : Floats) (codes : Codes) where
  unfoldable pub step : Vehicle f → (ℕ → ℕ) × Event f → Vehicle f × List (Message f)
  step v (clock, control_cmd velocity steer) = on_control_cmd f codes v clock velocity steer
  step v (clock, gear_cmd command) = on_gear_cmd f codes v clock command
  step v (clock, odom stamp x y z) = on_odom f codes v stamp x y z
  step v (clock, car_status angle) = (on_car_status f codes v angle, [])
  step v (clock, timer) = (v, on_timer f codes v clock)
  step v (clock, control_mode_request mode) = (on_control_mode_request f codes v clock mode).0

  unfoldable pub run : Vehicle f → List ((ℕ → ℕ) × Event f) → Vehicle f × List (Message f)
  run v [] = (v, [])
  run v (e ∷ es) = let (v', out) = step v e in let (v'', rest) = run v' es in (v'', out ++ rest)
