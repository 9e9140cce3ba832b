-- ===== src/System/Topics.antt =====
-- The topics between the nodes, by their constructors, where the launch sets no parameter and gives no
-- namespace: which callbacks get what each node publishes.
use wtbcar_autoware_nav.Prelude.{ℕ, String, ◌≡◌, refl, true, [], ◌∷◌, map, some}
use wtbcar_autoware_nav.Floats.{Floats}
use wtbcar_autoware_nav.Prelude.Int.{pos}
use wtbcar_autoware_nav.Ros.{Parameters, Unset, Topics, receivers}
use wtbcar_autoware_nav.Vehicle
use wtbcar_autoware_nav.Vehicle.{Codes}
use wtbcar_autoware_nav.Chassis
use wtbcar_autoware_nav.CanBridge
use wtbcar_autoware_nav.Ahrs
use wtbcar_autoware_nav.Ahrs.Messages.{Motion}
use wtbcar_autoware_nav.Ahrs.ImuTf.{Position}
use wtbcar_autoware_nav.System.{deliver}
use wtbcar_autoware_nav.System.Wiring.{InRoot, publisher_of, callback_of, Connected}

module _ (resolve : String → String) (root : InRoot resolve) where
  complete_cmd_vel : resolve "/cmd_vel" ≡ "/cmd_vel"
  complete_cmd_vel = root.complete "/cmd_vel" refl

  complete_twist_cmd : resolve "/twist_cmd" ≡ "/twist_cmd"
  complete_twist_cmd = root.complete "/twist_cmd" refl

  complete_run_static : resolve "/run_static" ≡ "/run_static"
  complete_run_static = root.complete "/run_static" refl

  complete_velocity_status :
      resolve "/vehicle/status/velocity_status" ≡ "/vehicle/status/velocity_status"
  complete_velocity_status = root.complete "/vehicle/status/velocity_status" refl

  complete_steering_status :
      resolve "/vehicle/status/steering_status" ≡ "/vehicle/status/steering_status"
  complete_steering_status = root.complete "/vehicle/status/steering_status" refl

  complete_control_mode : resolve "/vehicle/status/control_mode" ≡ "/vehicle/status/control_mode"
  complete_control_mode = root.complete "/vehicle/status/control_mode" refl

  complete_gear_status : resolve "/vehicle/status/gear_status" ≡ "/vehicle/status/gear_status"
  complete_gear_status = root.complete "/vehicle/status/gear_status" refl

  complete_control_cmd : resolve "/control/command/control_cmd" ≡ "/control/command/control_cmd"
  complete_control_cmd = root.complete "/control/command/control_cmd" refl

  complete_gear_cmd : resolve "/control/command/gear_cmd" ≡ "/control/command/gear_cmd"
  complete_gear_cmd = root.complete "/control/command/gear_cmd" refl

  complete_car_odom : resolve "/car_odom" ≡ "/car_odom"
  complete_car_odom = root.complete "/car_odom" refl

  complete_wtb_car_message : resolve "/wtb_car_message" ≡ "/wtb_car_message"
  complete_wtb_car_message = root.complete "/wtb_car_message" refl

  complete_imu : resolve "/imu" ≡ "/imu"
  complete_imu = root.complete "/imu" refl

  relative_run_static : resolve "run_static" ≡ "/run_static"
  relative_run_static = root.relative "run_static" refl

  relative_can_tx_1 : resolve "can_tx_1" ≡ "/can_tx_1"
  relative_can_tx_1 = root.relative "can_tx_1" refl

  relative_can_tx_2 : resolve "can_tx_2" ≡ "/can_tx_2"
  relative_can_tx_2 = root.relative "can_tx_2" refl

  relative_can_rx_1 : resolve "can_rx_1" ≡ "/can_rx_1"
  relative_can_rx_1 = root.relative "can_rx_1" refl

  relative_can_rx_2 : resolve "can_rx_2" ≡ "/can_rx_2"
  relative_can_rx_2 = root.relative "can_rx_2" refl

  ruleset names = (
    complete_cmd_vel, complete_twist_cmd, complete_run_static, complete_velocity_status,
    complete_steering_status, complete_control_mode, complete_gear_status, complete_control_cmd,
    complete_gear_cmd, complete_car_odom, complete_wtb_car_message, complete_imu,
    relative_run_static, relative_can_tx_1, relative_can_tx_2, relative_can_rx_1, relative_can_rx_2,
  )

  module _ (f : Floats) where
    commands_reach :
        (clock : ℕ → ℕ) (m : Vehicle.Message f)
        → receivers resolve
            (Vehicle.Startup.names "/cmd_vel" "/twist_cmd" (publisher_of f m))
            (Chassis.Startup.topics "can_tx_2" "can_rx_2").subscriptions
          ≡ map (callback_of f) (deliver clock (m ∷ []))
    unfolding receivers Chassis.Startup.topics deliver
    commands_reach clock (Vehicle.twist_cmd stamp frame speed steer) = simp names
    commands_reach clock (Vehicle.cmd_vel speed steer) = simp names
    commands_reach clock (Vehicle.run_static command) = simp names
    commands_reach clock (Vehicle.velocity_report a b x y z) = simp names
    commands_reach clock (Vehicle.steering_report a b) = simp names
    commands_reach clock (Vehicle.control_mode_report a b) = simp names
    commands_reach clock (Vehicle.gear_report a b) = simp names

    default_connected :
        Connected resolve f
          (Vehicle.Startup.topics "/cmd_vel" "/twist_cmd")
          (Chassis.Startup.topics "can_tx_2" "can_rx_2")
          CanBridge.Startup.topics
          (record {
            subscriptions = [];
            topic_of =
                Ahrs.Startup.names "/imu" "/gps/fix" "/mag_pose_2d" "/euler_angles" "/magnetic"
                  "/system_speed" "/NED_odometry";
          })
          (record {
            subscriptions = ("/imu", Ahrs.Startup.imu_callback) ∷ [];
            topic_of = λ publisher. elim publisher [ ];
          })
    unfolding receivers Vehicle.Startup.topics Chassis.Startup.topics CanBridge.Startup.topics
    default_connected = record {
      commands = commands_reach;
      frames = simp names;
      second = simp names;
      first = simp names;
      odometry = simp names;
      status = simp names;
      orientation = simp names;
    }

    -- What the four constructors with parameters give, and the links between the nodes.
    pub record Started (codes : Codes)
        (vehicle_params car_params ahrs_params tf_params : Parameters f) (now : ℕ)
        (vci : CanBridge.Vci) (device : vci.Device) (initial : Motion f) : Type 0 where
      pub vehicle : Vehicle.Vehicle f × Topics Vehicle.Startup.Callback Vehicle.Startup.Publisher
      pub car : Chassis.Car f × Topics Chassis.Startup.Callback Chassis.Startup.Publisher
      pub ahrs : Ahrs.Startup.Setup f
      pub tf : Position × Topics Ahrs.Startup.Callback ⊥
      pub vehicle_made : Vehicle.Startup.construct f codes vehicle_params now ≡ some vehicle
      pub car_made : Chassis.Startup.construct f car_params now ≡ some car
      pub ahrs_made : Ahrs.Startup.construct f ahrs_params initial ≡ some ahrs
      pub tf_made : Ahrs.Startup.construct_tf f tf_params ≡ some tf
      pub connected :
          Connected resolve f vehicle.1 car.1
            (CanBridge.Startup.construct vci device).1
            ahrs.topics
            tf.1
      pub manual : vehicle.0.current_control_mode ≡ codes.manual
      pub enabled : car.0.enable_run ≡ true

    -- Where no parameter is set and no namespace given, the constructors give their nodes, the vehicle
    -- interface in MANUAL and the driver enabled, and the nodes are linked: a message of the vehicle
    -- interface gets to the callback of the driver that handles it, if there is one, and to no other;
    -- the driver's frames go to the second channel of the CAN box, and only that channel's messages to
    -- the driver; its odometry and its status go to the vehicle interface; and the messages about the
    -- motion go to the node that broadcasts their orientation.
    pub construct-Started :
        (codes : Codes) (vehicle_params car_params ahrs_params tf_params : Parameters f) (now : ℕ)
        (vci : CanBridge.Vci) (device : vci.Device) (initial : Motion f)
        → Unset f vehicle_params
        → Unset f car_params
        → Unset f ahrs_params
        → Unset f tf_params
        → Started codes vehicle_params car_params ahrs_params tf_params now vci device initial
    unfolding CanBridge.Startup.construct Vehicle.init
    construct-Started codes vehicle_params car_params ahrs_params tf_params now vci device initial v
          c a t =
        record {
          vehicle = (
            Vehicle.init f codes (Vehicle.Startup.default_config f) now,
            Vehicle.Startup.topics "/cmd_vel" "/twist_cmd",
          );
          car = (
            Chassis.init f (Chassis.Startup.default_config f) now,
            Chassis.Startup.topics "can_tx_2" "can_rx_2",
          );
          ahrs = Ahrs.Startup.default_setup f initial;
          tf = (
            record { position_x = pos 1; position_y = pos 1; position_z = pos 1 },
            record {
              subscriptions = ("/imu", Ahrs.Startup.imu_callback) ∷ [];
              topic_of = λ publisher. elim publisher [ ];
            },
          );
          vehicle_made = Vehicle.Startup.construct-Unset f codes vehicle_params now v;
          car_made = Chassis.Startup.construct-Unset f car_params now c;
          ahrs_made = Ahrs.Startup.construct-Unset f ahrs_params initial a;
          tf_made = Ahrs.Startup.construct_tf-Unset f tf_params t;
          connected = default_connected;
          manual = refl;
          enabled = refl;
        }
