-- ===== src/Ahrs/Messages.antt =====
-- The messages that fdilink_ahrs_ROS2/src/ahrs_driver.cpp fills from the packets. Eigen's quaternions are
-- a parameter.
pub mod Packets
pub mod Reported
pub mod Tests
use wtbcar_autoware_nav.Prelude.{
  ℕ, zero, suc, ◌+◌, ◌*◌, ◌==◌, String, if◌then◌else◌, List, [], ◌∷◌, length, map, take, drop,
}
use wtbcar_autoware_nav.Prelude.Int.{ℤ, pos, negsuc}
use wtbcar_autoware_nav.Floats.{Floats}
use wtbcar_autoware_nav.Ahrs.Frame.{
  Kind, Driver, Output, publish, imu_data, mag_pose_2d, euler_angles, magnetic, gps_fix,
  ned_odometry, system_speed,
}
use wtbcar_autoware_nav.Ahrs.Packet.{
  Memory, ImuPacket, AhrsPacket, InsgpsPacket, GeodeticPositionPacket, imu_packet, ahrs_packet,
  insgps_packet, geodetic_position_packet,
}

-- Eigen::Quaterniond, with the rotations about the axes.
pub record Rotations (f : Floats) : Type 1 where
  pub Rotation : Type 0
  pub of_numbers : f.F64 → f.F64 → f.F64 → f.F64 → Rotation
  pub about_x : f.F64 → Rotation
  pub about_y : f.F64 → Rotation
  pub about_z : f.F64 → Rotation
  pub mul : Rotation → Rotation → Rotation
  pub w : Rotation → f.F64
  pub x : Rotation → f.F64
  pub y : Rotation → f.F64
  pub z : Rotation → f.F64

pub record Vector3 (f : Floats) : Type 0 where
  pub x : f.F64
  pub y : f.F64
  pub z : f.F64

pub record Quaternion (f : Floats) : Type 0 where
  pub w : f.F64
  pub x : f.F64
  pub y : f.F64
  pub z : f.F64

-- What a device type puts into the message about the motion.
pub record Motion (f : Floats) : Type 0 where
  pub orientation : Quaternion f
  pub angular_velocity : Vector3 f
  pub linear_acceleration : Vector3 f

-- The parameters that the messages use, and the motion of a fresh sensor_msgs/Imu.
pub record Settings (f : Floats) : Type 0 where
  pub device_type : ℤ
  pub imu_frame_id : String
  pub imu_orientation_covariance : List (f.F64)
  pub imu_angular_velocity_covariance : List (f.F64)
  pub imu_linear_acceleration_covariance : List (f.F64)
  pub initial : Motion f

pub record Imu (f : Floats) : Type 0 where
  pub stamp : ℕ
  pub frame_id : String
  pub motion : Motion f
  pub orientation_covariance : List (f.F64)
  pub angular_velocity_covariance : List (f.F64)
  pub linear_acceleration_covariance : List (f.F64)

-- The messages, by their publishers. A message has the fields that the node fills.
pub data Message (f : Floats) : Type 0 where
  imu_pub : Imu f → Message f
  mag_pose_pub : f.F64 → Message f
  euler_angles_pub : Vector3 f → Message f
  magnetic_pub : Vector3 f → Message f
  gps_pub : ℕ → String → Vector3 f → Message f
  ned_odom_pub : ℕ → Vector3 f → Vector3 f → Message f
  twist_pub : Vector3 f → Message f

-- `load_covariance`: the values of a parameter, if they are as many as the target has.
pub load_covariance {ℓ} : {A : Type ℓ} → List A → List A → List A
load_covariance values target = if length values == length target then values else target

module _ (f : Floats) where
  -- A covariance of three by three, by its diagonal.
  abbrev pub covariance_of : f.F64 → f.F64 → f.F64 → List (f.F64)
  covariance_of a b c =
      let none = f.literal 0 0 in a ∷ none ∷ none ∷ none ∷ b ∷ none ∷ none ∷ none ∷ c ∷ []

  -- The parameters as the constructor reads them.
  unfoldable pub settings :
      ℤ → String → List (f.F64) → List (f.F64) → List (f.F64) → Motion f → Settings f
  settings device_type imu_frame_id orientation angular_velocity linear_acceleration initial =
      record {
        device_type = device_type;
        imu_frame_id = imu_frame_id;
        imu_orientation_covariance =
            load_covariance orientation
              (covariance_of (f.literal 5 2) (f.literal 5 2) (f.literal 10 2));
        imu_angular_velocity_covariance =
            load_covariance angular_velocity
              (covariance_of (f.literal 1 3) (f.literal 1 3) (f.literal 25 4));
        imu_linear_acceleration_covariance =
            load_covariance linear_acceleration
              (covariance_of (f.literal 10 2) (f.literal 10 2) (f.literal 15 2));
        initial = initial;
      }

module _ (f : Floats) where
  unfoldable pub vector : f.F32 → f.F32 → f.F32 → Vector3 f
  vector x y z = record { x = f.widen x; y = f.widen y; z = f.widen z }

  -- The three numbers under half a turn about the x axis.
  unfoldable pub turned : f.F32 → f.F32 → f.F32 → Vector3 f
  turned x y z = vector x (f.neg32 y) (f.neg32 z)

module _ (f : Floats) (r : Rotations f) where
  -- `q_out`; the macro PI is the number of M_PI.
  unfoldable pub q_out : AhrsPacket f → r.Rotation
  q_out p =
      let q_ahrs = r.of_numbers (f.widen p.qw) (f.widen p.qx) (f.widen p.qy) (f.widen p.qz) in
      let none = f.literal 0 0 in
      let q_r = r.mul (r.mul (r.about_z f.pi) (r.about_y f.pi)) (r.about_x none) in
      let q_rr = r.mul (r.mul (r.about_z none) (r.about_y none)) (r.about_x f.pi) in
      r.mul (r.mul q_r q_ahrs) q_rr

  -- The motion, by the type of the device.
  unfoldable pub motion : ℤ → Motion f → AhrsPacket f → ImuPacket f → Motion f
  motion (pos zero) initial a i = record {
    orientation = record { w = f.widen a.qw; x = f.widen a.qx; y = f.widen a.qy; z = f.widen a.qz };
    angular_velocity = vector f i.gyroscope_x i.gyroscope_y i.gyroscope_z;
    linear_acceleration = vector f i.accelerometer_x i.accelerometer_y i.accelerometer_z;
  }
  motion (pos (suc zero)) initial a i = record {
    orientation = record {
      w = r.w (q_out a);
      x = r.x (q_out a);
      y = r.y (q_out a);
      z = r.z (q_out a);
    };
    angular_velocity = turned f i.gyroscope_x i.gyroscope_y i.gyroscope_z;
    linear_acceleration = turned f i.accelerometer_x i.accelerometer_y i.accelerometer_z;
  }
  motion (pos (suc (suc n))) initial a i = initial
  motion (negsuc n) initial a i = initial

module _ (f : Floats) (memory : Memory f) (r : Rotations f) (settings : Settings f) where
  -- A message, from the bytes of the packets that it is computed from.
  pub message : ℕ → Output → Message f
  message now (imu_data ahrs_bytes imu_bytes) = imu_pub (record {
    stamp = now;
    frame_id = settings.imu_frame_id;
    motion =
        motion f r settings.device_type settings.initial (ahrs_packet f memory ahrs_bytes)
          (imu_packet f memory imu_bytes);
    orientation_covariance = settings.imu_orientation_covariance;
    angular_velocity_covariance = settings.imu_angular_velocity_covariance;
    linear_acceleration_covariance = settings.imu_linear_acceleration_covariance;
  })
  message now (mag_pose_2d ahrs_bytes) =
      mag_pose_pub (f.widen (ahrs_packet f memory ahrs_bytes).heading)
  message now (euler_angles ahrs_bytes) =
      let p = ahrs_packet f memory ahrs_bytes in
      euler_angles_pub (vector f p.roll p.pitch p.heading)
  message now (magnetic imu_bytes) =
      let p = imu_packet f memory imu_bytes in
      magnetic_pub (vector f p.magnetometer_x p.magnetometer_y p.magnetometer_z)
  message now (gps_fix bytes) =
      let p = geodetic_position_packet f memory bytes in
      let deg_to_rad = f.literal 17453292519943295 18 in
      gps_pub now "navsat_link"
        (record { x = f.div p.latitude deg_to_rad; y = f.div p.longitude deg_to_rad; z = p.height })
  message now (ned_odometry bytes) =
      let p = insgps_packet f memory bytes in
      ned_odom_pub now (vector f p.location_north p.location_east p.location_down)
        (vector f p.velocity_north p.velocity_east p.velocity_down)
  message now (system_speed bytes) =
      let p = insgps_packet f memory bytes in
      twist_pub (vector f p.body_velocity_x p.body_velocity_y p.body_velocity_z)
