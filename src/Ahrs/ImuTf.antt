-- ===== src/Ahrs/ImuTf.antt =====
-- fdilink_ahrs_ROS2/src/imu_tf.cpp: the orientation of an inertial message, broadcast as a transform. The
-- quaternion that `normalized` returns is not used, and so is left out.
pub mod Turned
mod Tests
use wtbcar_autoware_nav.Prelude.{ℕ, String}
use wtbcar_autoware_nav.Prelude.Int.{ℤ}
use wtbcar_autoware_nav.Floats.{Floats}
use wtbcar_autoware_nav.Ahrs.Messages.{Quaternion, Vector3, Imu}

-- The global position parameters.
pub record Position : Type 0 where
  pub position_x : ℤ
  pub position_y : ℤ
  pub position_z : ℤ

-- geometry_msgs/TransformStamped.
pub record TransformStamped (f : Floats) : Type 0 where
  pub stamp : ℕ
  pub frame_id : String
  pub child_frame_id : String
  pub translation : Vector3 f
  pub rotation : Quaternion f

module _ (f : Floats) where
  unfoldable pub imu_callback : Position → ℕ → Imu f → TransformStamped f
  imu_callback position now imu_data = record {
    stamp = now;
    frame_id = "world";
    child_frame_id = "imu";
    translation = record {
      x = f.of_int position.position_x;
      y = f.of_int position.position_y;
      z = f.of_int position.position_z;
    };
    rotation = imu_data.motion.orientation;
  }
