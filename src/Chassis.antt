-- ===== src/Chassis.antt =====
-- wtb_car_driver/src/wtb_car.cpp: the driver of the chassis. A callback takes the node's state, the
-- readings of the clock during the callback (`clock i` is what the i-th `now()` returns, in the order
-- of the text) and the message, and returns the new state with what it publishes, in order.
pub mod Codec
pub mod Odometry
pub mod Heartbeat
pub mod Enable
pub mod Speed
pub mod Stopped
pub mod Stopping
pub mod Switch
pub mod Headers
pub mod Feedback
pub mod Bounded
pub mod Startup
pub mod Tests
use wtbcar_autoware_nav.Prelude.{
  ℕ, zero, suc, String, str_eq, Bool, true, false, ◌==◌, not, if◌then◌else◌, List, [], ◌∷◌, ◌++◌,
  map, Option, none, map, some,
}
use wtbcar_autoware_nav.Prelude.Int.{ℤ, pos, ◌-ℤ◌, sub_ℕ}
use wtbcar_autoware_nav.Floats.{Floats}
use wtbcar_autoware_nav.Chassis.Codec.{Payload, build_ctrl_cmd_data, parse_ctrl_fb}
use wtbcar_autoware_nav.Chassis.Odometry.{Pose, Odom, Calibration, calculate_and_published}

-- The parameters that the callbacks read.
pub record Config (f : Floats) : Type 0 where
  pub calibration : Calibration f
  pub max_speed : f.F64
  pub stop_time_threshold : f.F64

-- can_msgs/Frame, as this node fills and reads it.
pub record Frame : Type 0 where
  pub stamp : ℕ
  pub id : ℕ
  pub is_extended : Bool
  pub is_rtr : Bool
  pub is_error : Bool
  pub dlc : ℕ
  pub payload : Payload

-- wtb_car_driver/msg/CarMsg.msg.
pub record CarMsg (f : Floats) : Type 0 where
  pub stamp : ℕ
  pub frame_id : String
  pub speed : f.F64
  pub angle : f.F64
  pub battery : ℕ

pub record Car (f : Floats) : Type 0 where
  pub config : Config f
  pub open config use *
  pub pose : Pose f
  pub alive_counter : ℕ
  pub latest_linear_velocity : f.F64
  pub latest_steering_angle : f.F64
  pub latest_stamp : ℕ
  pub current_speed : f.F64
  pub current_angle : f.F64
  pub enable_run : Bool
  pub enable_last_time : ℕ
  pub last_run_static_command : String
  pub car_msg : CarMsg f

-- What the node publishes, one constructor for each publisher.
pub data Output (f : Floats) : Type 0 where
  can : Frame → Output f
  odom : Odom f → Output f
  car : CarMsg f → Output f

-- The node as the constructor leaves it; `now` is the clock's reading there.
abbrev pub init : (f : Floats) → Config f → ℕ → Car f
init f config now = record {
  config = config;
  pose = record { x = f.literal 0 0; y = f.literal 0 0; theta = f.literal 0 0; last_time = now };
  alive_counter = 0;
  latest_linear_velocity = f.literal 0 0;
  latest_steering_angle = f.literal 0 0;
  latest_stamp = 0;
  current_speed = f.literal 0 0;
  current_angle = f.literal 0 0;
  enable_run = true;
  enable_last_time = 0;
  last_run_static_command = "";
  car_msg = record {
    stamp = 0;
    frame_id = "";
    speed = f.literal 0 0;
    angle = f.literal 0 0;
    battery = 0;
  };
}

abbrev pub blank : Payload
blank = record { b0 = 0; b1 = 0; b2 = 0; b3 = 0; b4 = 0; b5 = 0; b6 = 0; b7 = 0 }

-- The frame that `SendSpeedToAKM` fills in, before its payload.
abbrev pub command_frame : ℕ → Frame
command_frame now = record {
  stamp = now;
  id = 0x18C4D2D0;
  is_extended = true;
  is_rtr = false;
  is_error = false;
  dlc = 8;
  payload = blank;
}

module _ (f : Floats) where
  -- `rounds` frames for one command, each with the next value of the heartbeat counter.
  unfoldable pub send_frames : ℕ → Frame → String → f.F32 → f.F32 → ℕ → ℕ × List (Output f)
  send_frames zero msg gear speed angle counter = (counter, [])
  send_frames (suc rounds) msg gear speed angle counter =
      let (payload, next) = build_ctrl_cmd_data f gear speed angle counter in
      let (last, rest) = send_frames rounds msg gear speed angle next in
      (last, can (record msg { payload = payload }) ∷ rest)

  -- `Angle = angle * 180 / M_PI`, cut to whole degrees.
  unfoldable pub whole_degrees : f.F32 → ℤ
  whole_degrees angle = f.to_int (f.div (f.widen (f.mul32 angle (f.literal32 180 0))) f.pi)

  -- Gear, speed and whole degrees of a command: a negative speed is driven in reverse.
  pub gear_command : f.F32 → f.F32 → String × f.F32 × ℤ
  gear_command line_speed angle =
      if f.lt32 line_speed (f.literal32 0 0)
      then ("R", f.neg32 line_speed, pos 0 -ℤ whole_degrees angle)
      else ("D", line_speed, whole_degrees angle)

  unfoldable pub send_speed_to_akm : Car f → ℕ → f.F32 → f.F32 → Car f × List (Output f)
  send_speed_to_akm c now line_speed angle =
      let (gear, speed, degrees) = gear_command line_speed angle in
      let (counter, frames) =
        send_frames 3 (command_frame now) gear speed (f.of_int32 degrees) c.alive_counter in
      (record c { alive_counter = counter }, frames)

  -- `if (x > max_speed_) x = max_speed_`.
  unfoldable pub limit_speed : Car f → f.F64 → f.F64
  limit_speed c linear_x = if f.lt c.max_speed linear_x then c.max_speed else linear_x

  -- Whether a node that was stopped may run again by itself.
  pub may_resume : Car f → ℕ → Bool
  may_resume c now =
      if f.le (f.literal 0 0) c.stop_time_threshold
      then f.lt c.stop_time_threshold
          (f.widen (f.narrow (f.seconds (sub_ℕ now c.enable_last_time))))
      else false

  unfoldable pub cmd_vel_callback : Car f → (ℕ → ℕ) → f.F64 → f.F64 → Car f × List (Output f)
  cmd_vel_callback c clock linear_x angular_z =
      if c.enable_run
      then send_speed_to_akm c (clock 1) (f.narrow (limit_speed c linear_x)) (f.narrow angular_z)
      else if may_resume c (clock 0)
      then send_speed_to_akm (record c { enable_run = true }) (clock 1)
          (f.narrow (limit_speed c linear_x)) (f.narrow angular_z)
      else (c, [])

  unfoldable pub twist_cmd_vel_callback : Car f → (ℕ → ℕ) → f.F64 → f.F64 → Car f × List (Output f)
  twist_cmd_vel_callback c clock linear_x angular_z =
      send_speed_to_akm c (clock 0) (f.narrow (limit_speed c linear_x)) (f.narrow angular_z)

  pub stop : Car f → ℕ → Car f × List (Output f)
  stop c now = send_speed_to_akm c now (f.narrow (f.literal 0 0)) (f.narrow (f.literal 0 0))

  pub run_static_callback : Car f → (ℕ → ℕ) → String → Car f × List (Output f)
  run_static_callback c clock command =
      if str_eq command c.last_run_static_command
      then (c, [])
      else if str_eq command "start"
      then (record c { last_run_static_command = command; enable_run = true }, [])
      else if str_eq command "stop"
      then (if c.enable_run
          then stop
              (record c {
                last_run_static_command = command;
                enable_last_time = clock 0;
                enable_run = false;
              })
              (clock 1)
          else (record c { last_run_static_command = command; enable_last_time = clock 0 }, []))
      else (record c { last_run_static_command = command }, [])

  -- Feedback of the drive, once its angle is in radians and its speed has a sign.
  unfoldable pub on_feedback :
      Car f → (ℕ → ℕ) → ℕ → f.F64 → f.F64 → Pose f × List (Odom f) → Car f × List (Output f)
  on_feedback c clock stamp speed angle (pose, odoms) =
      let msg : CarMsg f = record {
        stamp = clock 2;
        frame_id = "base_link";
        speed = speed;
        angle = angle;
        battery = c.car_msg.battery;
      } in
      (
        record c {
          pose = pose;
          latest_linear_velocity = speed;
          latest_steering_angle = angle;
          latest_stamp = stamp;
          current_speed = speed;
          current_angle = angle;
          car_msg = msg;
        },
        map odom odoms ++ (car msg ∷ []),
      )

  -- The speed with the gear's sign, and the angle in radians.
  pub read_feedback : Payload → f.F64 × f.F64
  read_feedback payload =
      let (gear, speed, angle) = parse_ctrl_fb f payload in
      (if str_eq gear "R" then f.neg speed else speed, f.div (f.mul angle f.pi) (f.literal 180 0))

  -- `none`: the loop of the odometry runs out of fuel.
  pub can_tx_callback : ℕ → Car f → (ℕ → ℕ) → Frame → Option (Car f × List (Output f))
  can_tx_callback fuel c clock msg =
      if msg.id == 0x18C4D2EF
      then (let (speed, angle) = read_feedback msg.payload in
          elim (calculate_and_published f fuel c.calibration c.pose clock speed angle) [
            | none ↦ none
            | some r ↦ some (on_feedback c clock msg.stamp speed angle r)
          ])
      else if msg.id == 0x18C4E2EF
      then some (record c { car_msg = record (c.car_msg) { battery = msg.payload.b0 } }, [])
      else some (c, [])

-- The callbacks that send commands to the chassis.
pub data Event (f : Floats) : Type 0 where
  cmd_vel : f.F64 → f.F64 → Event f
  twist_cmd : f.F64 → f.F64 → Event f
  run_static : String → Event f

module _ (f : Floats) where
  unfoldable pub step : Car f → (ℕ → ℕ) × Event f → Car f × List (Output f)
  step c (clock, cmd_vel linear_x angular_z) = cmd_vel_callback f c clock linear_x angular_z
  step c (clock, twist_cmd linear_x angular_z) = twist_cmd_vel_callback f c clock linear_x angular_z
  step c (clock, run_static command) = run_static_callback f c clock command

  unfoldable pub run : Car f → List ((ℕ → ℕ) × Event f) → Car f × List (Output f)
  run c [] = (c, [])
  run c (e ∷ es) = let (c', out) = step c e in let (c'', rest) = run c' es in (c'', out ++ rest)
