-- ===== src/Ahrs/Startup.antt =====
-- The constructors of ahrs_driver.cpp and imu_tf.cpp: their parameters and topics, and the serial port.
use wtbcar_autoware_nav.Prelude.{
  ◌≡◌, ◌>>=◌, ℕ, String, Bool, false, if◌then◌else◌, [], ◌∷◌, Option, some,
}
use wtbcar_autoware_nav.Prelude.Int.{ℤ, pos}
use wtbcar_autoware_nav.Floats.{Floats}
use wtbcar_autoware_nav.Ros.{Parameters, Unset, Topics}
use wtbcar_autoware_nav.Ahrs.Messages.{Motion, Settings, settings, covariance_of}
use wtbcar_autoware_nav.Ahrs.ImuTf.{Position}

pub data Publisher : Type 0 where
  imu : Publisher
  gps : Publisher
  mag_pose : Publisher
  euler_angles : Publisher
  magnetic : Publisher
  twist : Publisher
  ned_odom : Publisher

-- The topics of the publishers.
abbrev pub names : String → String → String → String → String → String → String → Publisher → String
names imu_topic gps_topic mag_topic euler_topic magnetic_topic twist_topic ned_topic imu = imu_topic
names imu_topic gps_topic mag_topic euler_topic magnetic_topic twist_topic ned_topic gps = gps_topic
names imu_topic gps_topic mag_topic euler_topic magnetic_topic twist_topic ned_topic mag_pose =
    mag_topic
names imu_topic gps_topic mag_topic euler_topic magnetic_topic twist_topic ned_topic euler_angles =
    euler_topic
names imu_topic gps_topic mag_topic euler_topic magnetic_topic twist_topic ned_topic magnetic =
    magnetic_topic
names imu_topic gps_topic mag_topic euler_topic magnetic_topic twist_topic ned_topic twist =
    twist_topic
names imu_topic gps_topic mag_topic euler_topic magnetic_topic twist_topic ned_topic ned_odom =
    ned_topic

-- The serial port that the parameters name: its path, the baud rate, and the timeout in milliseconds.
pub record Port : Type 0 where
  pub path : String
  pub baud : ℤ
  pub timeout : ℤ

-- What the constructor knows when it opens the port.
pub record Setup (f : Floats) : Type 0 where
  pub settings : Settings f
  pub port : Port
  pub topics : Topics ⊥ Publisher

module _ (f : Floats) where
  -- What the constructor knows where the launch sets no parameter.
  abbrev pub default_setup : Motion f → Setup f
  default_setup initial = record {
    settings =
        settings f (pos 1) "gyro_link"
          (covariance_of f (f.literal 5 2) (f.literal 5 2) (f.literal 10 2))
          (covariance_of f (f.literal 1 3) (f.literal 1 3) (f.literal 25 4))
          (covariance_of f (f.literal 10 2) (f.literal 10 2) (f.literal 15 2)) initial;
    port = record { path = "/dev/ttyUSB0"; baud = pos 921600; timeout = pos 50 };
    topics = record {
      subscriptions = [];
      topic_of =
          names "/imu" "/gps/fix" "/mag_pose_2d" "/euler_angles" "/magnetic" "/system_speed"
            "/NED_odometry";
    };
  }

module _ (f : Floats) (params : Parameters f) where
  -- `initial` is what an Imu message holds before it is filled.
  unfoldable pub construct : Motion f → Option (Setup f)
  unfolding settings
  construct initial = do
    if_debug ← params.truth "if_debug_" false
    device_type ← params.whole "device_type_" (pos 1)
    imu_topic ← params.text "imu_topic" "/imu"
    imu_frame_id ← params.text "imu_frame_id_" "gyro_link"
    mag_pose_2d_topic ← params.text "mag_pose_2d_topic" "/mag_pose_2d"
    euler_angles_topic ← params.text "Euler_angles_topic" "/euler_angles"
    gps_topic ← params.text "gps_topic" "/gps/fix"
    magnetic_topic ← params.text "Magnetic_topic" "/magnetic"
    twist_topic ← params.text "twist_topic" "/system_speed"
    ned_odom_topic ← params.text "NED_odom_topic" "/NED_odometry"
    serial_port ← params.text "serial_port_" "/dev/ttyUSB0"
    serial_baud ← params.whole "serial_baud_" (pos 921600)
    serial_timeout ← params.whole "serial_timeout_" (pos 50)
    orientation ←
        params.numbers "imu_orientation_covariance"
          (covariance_of f (f.literal 5 2) (f.literal 5 2) (f.literal 10 2))
    angular_velocity ←
        params.numbers "imu_angular_velocity_covariance"
          (covariance_of f (f.literal 1 3) (f.literal 1 3) (f.literal 25 4))
    linear_acceleration ←
        params.numbers "imu_linear_acceleration_covariance"
          (covariance_of f (f.literal 10 2) (f.literal 10 2) (f.literal 15 2))
    some (record {
      settings =
          settings f device_type imu_frame_id orientation angular_velocity linear_acceleration
            initial;
      port = record { path = serial_port; baud = serial_baud; timeout = serial_timeout };
      topics = record {
        subscriptions = [];
        topic_of =
            names imu_topic gps_topic mag_pose_2d_topic euler_angles_topic magnetic_topic
              twist_topic ned_odom_topic;
      };
    })

  pub construct-Unset :
      (initial : Motion f) → Unset f params → construct initial ≡ some (default_setup f initial)
  unfolding construct
  construct-Unset initial unset =
      simp (unset.numbers, unset.whole, unset.truth, unset.text, construct)

-- How the opening of the port ends, for the serial library: it throws an IOException, or it returns with the
-- port open or not.
pub data Opening : Type 0 where
  io_exception : Opening
  returned : Bool → Opening

-- The constructor goes on to processLoop, or ends the process with a status.
pub data Outcome (f : Floats) : Type 0 where
  loops : Settings f → Outcome f
  exits : ℕ → Outcome f

pub open_port : {f : Floats} → Opening → Settings f → Outcome f
open_port io_exception settings = exits 0
open_port (returned is_open) settings = if is_open then loops settings else exits 0

-- The one callback of imu_tf.cpp.
pub data Callback : Type 0 where
  imu_callback : Callback

module _ (f : Floats) (params : Parameters f) where
  -- The parameters for the two frames are read and not used.
  unfoldable pub construct_tf : Option (Position × Topics Callback ⊥)
  construct_tf = do
    world_frame_id ← params.text "world_frame_id" "/world"
    imu_frame_id ← params.text "imu_frame_id" "/imu"
    imu_topic ← params.text "imu_topic" "/imu"
    position_x ← params.whole "position_x" (pos 1)
    position_y ← params.whole "position_y" (pos 1)
    position_z ← params.whole "position_z" (pos 1)
    some (
      record { position_x = position_x; position_y = position_y; position_z = position_z },
      record {
        subscriptions = (imu_topic, imu_callback) ∷ [];
        topic_of = λ publisher. elim publisher [ ];
      },
    )

  pub construct_tf-Unset :
      Unset f params
      → construct_tf
        ≡ some (
          record { position_x = pos 1; position_y = pos 1; position_z = pos 1 },
          record {
            subscriptions = ("/imu", imu_callback) ∷ [];
            topic_of = λ publisher. elim publisher [ ];
          },
        )
  unfolding construct_tf
  construct_tf-Unset unset = simp (unset.whole, unset.text)
