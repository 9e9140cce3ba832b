-- ===== src/CarOnly.antt =====
-- wtb_car_driver/src/wtb_car_only.cpp, the driver of the chassis without the run switch and the speed
-- limit. The codec, the frames of a command and the helpers of the odometry have the text that they
-- have in wtb_car.cpp, and are its models; what differs is defined here.
pub mod Agreement
pub mod Startup
mod Tests
use wtbcar_autoware_nav.Prelude.{
  ℕ, zero, suc, String, str_eq, Bool, ◌==◌, ◌||◌, if◌then◌else◌, List, [], ◌∷◌, ◌++◌, map, Option,
  none, some,
}
use wtbcar_autoware_nav.Prelude.Int.{ℤ, sub_ℕ}
use wtbcar_autoware_nav.Floats.{Floats}
use wtbcar_autoware_nav.Chassis.{Frame, command_frame, gear_command}
use wtbcar_autoware_nav.Chassis.Codec.{Payload, build_ctrl_cmd_data, parse_ctrl_fb}
use wtbcar_autoware_nav.Chassis.Odometry.{
  Calibration, Pose, normalize_angle, limit_dt, settle_speed, yaw_rate,
}

-- The members of WtbCarNode that its callbacks read and write.
pub record Car (f : Floats) : Type 0 where
  pub calibration : Calibration f
  pub pose : Pose f
  pub alive_counter : ℕ
  pub latest_linear_velocity : f.F64
  pub latest_steering_angle : f.F64
  pub latest_stamp : ℕ

-- nav_msgs/Odometry, the entries that are set; the covariances stay zero.
pub record Odom (f : Floats) : Type 0 where
  pub stamp : ℕ
  pub frame_id : String
  pub child_frame_id : String
  pub position_x : f.F64
  pub position_y : f.F64
  pub orientation_z : f.F64
  pub orientation_w : f.F64
  pub linear_x : f.F64
  pub angular_z : f.F64

pub data Output (f : Floats) : Type 0 where
  can : Frame → Output f
  odom : Odom f → Output f

module _ (f : Floats) where
  -- The node as the constructor leaves it.
  abbrev pub init : Calibration f → ℕ → Car f
  init calibration now = record {
    calibration = calibration;
    pose = record { x = f.literal 0 0; y = f.literal 0 0; theta = f.literal 0 0; last_time = now };
    alive_counter = 0;
    latest_linear_velocity = f.literal 0 0;
    latest_steering_angle = f.literal 0 0;
    latest_stamp = 0;
  }

  -- The loop of `SendSpeedToAKM`.
  pub send_frames : ℕ → Frame → String → f.F32 → f.F32 → ℕ → ℕ × List (Output f)
  send_frames zero msg gear speed angle counter = (counter, [])
  send_frames (suc rounds) msg gear speed angle counter =
      let (payload, next) = build_ctrl_cmd_data f gear speed angle counter in
      let (last, rest) = send_frames rounds msg gear speed angle next in
      (last, can (record msg { payload = payload }) ∷ rest)

  pub send_speed_to_akm : Car f → ℕ → f.F32 → f.F32 → Car f × List (Output f)
  send_speed_to_akm c now line_speed angle =
      let (gear, speed, degrees) = gear_command f line_speed angle in
      let (counter, frames) =
        send_frames 3 (command_frame now) gear speed (f.of_int32 degrees) c.alive_counter in
      (record c { alive_counter = counter }, frames)

  pub cmd_vel_callback : Car f → (ℕ → ℕ) → f.F64 → f.F64 → Car f × List (Output f)
  cmd_vel_callback c clock linear_x angular_z =
      send_speed_to_akm c (clock 0) (f.narrow linear_x) (f.narrow angular_z)

  -- The steering angle for a speed and a yaw rate; the wheelbase is the macro's.
  pub angz_to_angle : f.F32 → f.F32 → f.F32
  angz_to_angle vx vz =
      if f.eq32 vx (f.literal32 0 0) || f.eq32 vz (f.literal32 0 0)
      then f.literal32 0 0
      else f.narrow
          (f.mul (f.literal 7 1) (f.atan (f.div (f.literal 54 2) (f.widen (f.div32 vx vz)))))

  pub twist_cmd_vel_callback : Car f → (ℕ → ℕ) → f.F64 → f.F64 → Car f × List (Output f)
  twist_cmd_vel_callback c clock linear_x angular_z =
      send_speed_to_akm c (clock 0) (f.narrow linear_x)
        (angz_to_angle (f.narrow linear_x) (f.narrow angular_z))

  pub publish_odom : Calibration f → ℕ → f.F64 → f.F64 → f.F64 → f.F64 → f.F64 → Odom f
  publish_odom k now x y theta vx wz = record {
    stamp = now;
    frame_id = "odom";
    child_frame_id = k.child_frame_id;
    position_x = x;
    position_y = y;
    orientation_z = f.sin (f.div theta (f.literal 2 0));
    orientation_w = f.cos (f.div theta (f.literal 2 0));
    linear_x = vx;
    angular_z = wz;
  }

  -- `max_delta`, thirty degrees.
  pub max_delta : f.F64
  max_delta = f.div f.pi (f.literal 6 0)

  -- `std::max(std::min(steering_angle, max_delta), -max_delta)`.
  pub limit_steering : f.F64 → f.F64
  limit_steering steering_angle =
      let below = if f.lt max_delta steering_angle then max_delta else steering_angle in
      if f.lt below (f.neg max_delta) then f.neg max_delta else below

  pub advance :
      ℕ → Calibration f → Pose f → (ℕ → ℕ) → f.F64 → f.F64 → f.F64 → Option (Pose f × Odom f)
  advance fuel k p clock dt v omega =
      let x = f.add p.x (f.mul (f.mul v (f.cos p.theta)) dt) in
      let y = f.add p.y (f.mul (f.mul v (f.sin p.theta)) dt) in
      elim (normalize_angle f fuel (f.add p.theta (f.mul omega dt))) [
        | none ↦ none
        | some theta ↦ some (
          record { x = x; y = y; theta = theta; last_time = clock 0 },
          publish_odom k (clock 1) x y theta v omega,
        )
      ]

  -- The new pose with at most one odometry message. `none`: the angle's loop runs out of fuel.
  pub calculate_and_published :
      ℕ → Calibration f → Pose f → (ℕ → ℕ) → f.F64 → f.F64 → Option (Pose f × List (Odom f))
  calculate_and_published fuel k p clock latest_linear_velocity latest_steering_angle =
      let dt = f.seconds (sub_ℕ (clock 0) p.last_time) in
      let v = settle_speed f (f.mul latest_linear_velocity k.vel_scale) in
      let omega = yaw_rate f k v (limit_steering (f.sub latest_steering_angle k.steer_offset)) in
      if f.le dt (f.literal 0 0)
      then some (p, [])
      else elim (advance fuel k p clock (limit_dt f dt) v omega) [
        | none ↦ none
        | some (p', out) ↦ some (p', out ∷ [])
      ]

  -- The speed with the gear's sign, and the angle in radians.
  pub read_feedback : Payload → f.F64 × f.F64
  read_feedback payload =
      let (gear, speed, angle) = parse_ctrl_fb f payload in
      (if str_eq gear "R" then f.neg speed else speed, f.div (f.mul angle f.pi) (f.literal 180 0))

  pub can_tx_callback : ℕ → Car f → (ℕ → ℕ) → Frame → Option (Car f × List (Output f))
  can_tx_callback fuel c clock msg =
      if msg.id == 0x18C4D2EF
      then (let (speed, angle) = read_feedback msg.payload in
          elim (calculate_and_published fuel c.calibration c.pose clock speed angle) [
            | none ↦ none
            | some (pose, odoms) ↦ some (
              record c {
                pose = pose;
                latest_linear_velocity = speed;
                latest_steering_angle = angle;
                latest_stamp = msg.stamp;
              },
              map odom odoms,
            )
          ])
      else some (c, [])
