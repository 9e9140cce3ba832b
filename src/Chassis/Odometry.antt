-- ===== src/Chassis/Odometry.antt =====
-- The dead reckoning of wtb_car.cpp: `CalculateAndPublished`, `normalizeAngle` and `publishOdom`.
pub mod Heading
pub mod Update
pub mod Tests
use wtbcar_autoware_nav.Prelude.{
  ℕ, zero, suc, String, if◌then◌else◌, List, [], ◌∷◌, Option, none, some, replicate, set,
}
use wtbcar_autoware_nav.Prelude.Int.{sub_ℕ}
use wtbcar_autoware_nav.Floats.{Floats}

pub record Calibration (f : Floats) : Type 0 where
  pub wheelbase : f.F64
  pub vel_scale : f.F64
  pub steer_offset : f.F64
  pub child_frame_id : String

pub record Pose (f : Floats) : Type 0 where
  pub x : f.F64
  pub y : f.F64
  pub theta : f.F64
  pub last_time : ℕ

-- nav_msgs/Odometry, the entries that are not always zero.
pub record Odom (f : Floats) : Type 0 where
  pub stamp : ℕ
  pub frame_id : String
  pub child_frame_id : String
  pub position_x : f.F64
  pub position_y : f.F64
  pub orientation_z : f.F64
  pub orientation_w : f.F64
  pub linear_x : f.F64
  pub angular_z : f.F64
  pub pose_covariance : List f.F64
  pub twist_covariance : List f.F64

module _ (f : Floats) where
  -- A covariance with all entries zero but the six of its diagonal.
  pub diagonal : f.F64 → f.F64 → f.F64 → f.F64 → f.F64 → f.F64 → List f.F64
  diagonal a b c d e g =
      set (set (set (set (set (set (replicate 36 (f.literal 0 0)) 0 a) 7 b) 14 c) 21 d) 28 e) 35 g

  unfoldable pub publish_odom : Calibration f → ℕ → f.F64 → f.F64 → f.F64 → f.F64 → f.F64 → Odom f
  publish_odom k now x y theta vx wz = record {
    stamp = now;
    frame_id = "odom";
    child_frame_id = k.child_frame_id;
    position_x = x;
    position_y = y;
    orientation_z = f.sin (f.div theta (f.literal 2 0));
    orientation_w = f.cos (f.div theta (f.literal 2 0));
    linear_x = vx;
    angular_z = wz;
    pose_covariance =
        diagonal (f.literal 5 2) (f.literal 5 2) (f.literal 9999 0) (f.literal 9999 0)
          (f.literal 9999 0) (f.literal 1 1);
    twist_covariance =
        diagonal (f.literal 4 2) (f.literal 9999 0) (f.literal 9999 0) (f.literal 9999 0)
          (f.literal 9999 0) (f.literal 4 2);
  }

  abbrev pub full_turn : f.F64
  full_turn = f.mul (f.literal 2 0) f.pi

  -- The two loops of `normalizeAngle`, on fuel; `none` means that the fuel ran out.
  unfoldable pub turn_down : ℕ → f.F64 → Option f.F64
  turn_down zero angle = none
  turn_down (suc fuel) angle =
      let rest = turn_down fuel (f.sub angle full_turn) in
      if f.lt f.pi angle then rest else some angle

  unfoldable pub turn_up : ℕ → f.F64 → Option f.F64
  turn_up zero angle = none
  turn_up (suc fuel) angle =
      let rest = turn_up fuel (f.add angle full_turn) in
      if f.lt angle (f.neg f.pi) then rest else some angle

  unfoldable pub normalize_angle : ℕ → f.F64 → Option f.F64
  normalize_angle fuel angle = elim (turn_down fuel angle) [ none ↦ none | some a ↦ turn_up fuel a ]

  -- The time step, cut to 0.1 s.
  unfoldable pub limit_dt : f.F64 → f.F64
  limit_dt dt = if f.lt (f.literal 1 1) dt then f.literal 1 1 else dt

  -- The speed, and zero below 0.005 m/s.
  unfoldable pub settle_speed : f.F64 → f.F64
  settle_speed v = if f.lt (f.abs v) (f.literal 5 3) then f.literal 0 0 else v

  unfoldable pub yaw_rate : Calibration f → f.F64 → f.F64 → f.F64
  yaw_rate k v delta =
      if f.lt (f.literal 1 6) (f.abs k.wheelbase)
      then f.div (f.mul v (f.tan delta)) k.wheelbase
      else f.literal 0 0

  -- One step of the integration, of length `dt`, and what it publishes.
  unfoldable pub advance :
      ℕ → Calibration f → Pose f → (ℕ → ℕ) → f.F64 → f.F64 → f.F64 → Option (Pose f × Odom f)
  advance fuel k p clock dt v omega =
      let x = f.add p.x (f.mul (f.mul v (f.cos p.theta)) dt) in
      let y = f.add p.y (f.mul (f.mul v (f.sin p.theta)) dt) in
      elim (normalize_angle fuel (f.add p.theta (f.mul omega dt))) [
        | none ↦ none
        | some theta ↦ some (
          record { x = x; y = y; theta = theta; last_time = clock 0 },
          publish_odom k (clock 1) x y theta v omega,
        )
      ]

  -- The new pose with at most one odometry message. `none`: the angle's loop runs out of fuel.
  unfoldable pub calculate_and_published :
      ℕ → Calibration f → Pose f → (ℕ → ℕ) → f.F64 → f.F64 → Option (Pose f × List (Odom f))
  calculate_and_published fuel k p clock latest_linear_velocity latest_steering_angle =
      let dt = f.seconds (sub_ℕ (clock 0) p.last_time) in
      let v = settle_speed (f.mul latest_linear_velocity k.vel_scale) in
      let omega = yaw_rate k v (f.sub latest_steering_angle k.steer_offset) in
      if f.le dt (f.literal 0 0)
      then some (p, [])
      else elim (advance fuel k p clock (limit_dt dt) v omega) [
        | none ↦ none
        | some (p', out) ↦ some (p', out ∷ [])
      ]
