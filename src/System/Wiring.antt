-- ===== src/System/Wiring.antt =====
-- What it means that the nodes are linked by their topics.
use wtbcar_autoware_nav.Prelude.{ℕ, ◌==◌, String, Bool, ◌≡◌, true, false, [], ◌∷◌, map}
use Prim.Native.Char.{code}
use Prim.Native.String.{◌++◌ as ◌<>◌}
use wtbcar_autoware_nav.Floats.{Floats}
use wtbcar_autoware_nav.Ros.{Topics, receivers}
use wtbcar_autoware_nav.Vehicle
use wtbcar_autoware_nav.Vehicle.{Codes}
use wtbcar_autoware_nav.Chassis
use wtbcar_autoware_nav.CanBridge
use wtbcar_autoware_nav.Ahrs
use wtbcar_autoware_nav.System.{deliver}

-- Whether a name starts with a slash.
abbrev pub is_absolute : String → Bool
is_absolute String.[] = false
is_absolute (String.◌∷◌ c s) = code c == b'/'

-- Names of topics outside every namespace: a complete name stands, another gets a slash in front.
pub record InRoot (resolve : String → String) : Type 0 where
  pub complete : (name : String) → is_absolute name ≡ true → resolve name ≡ name
  pub relative : (name : String) → is_absolute name ≡ false → resolve name ≡ "/" <> name

module _ (f : Floats) where
  -- The publisher that sends a message of the vehicle interface.
  abbrev pub publisher_of : Vehicle.Message f → Vehicle.Startup.Publisher
  publisher_of (Vehicle.twist_cmd stamp frame speed steer) = Vehicle.Startup.twist_cmd
  publisher_of (Vehicle.cmd_vel speed steer) = Vehicle.Startup.cmd_vel
  publisher_of (Vehicle.run_static command) = Vehicle.Startup.run_static
  publisher_of (Vehicle.velocity_report a b x y z) = Vehicle.Startup.velocity_report
  publisher_of (Vehicle.steering_report a b) = Vehicle.Startup.steering_report
  publisher_of (Vehicle.control_mode_report a b) = Vehicle.Startup.control_mode_report
  publisher_of (Vehicle.gear_report a b) = Vehicle.Startup.gear_report

  -- The callback of the driver that an event runs.
  abbrev pub callback_of : (ℕ → ℕ) × Chassis.Event f → Chassis.Startup.Callback
  callback_of (clock, Chassis.cmd_vel speed steer) = Chassis.Startup.cmd_vel
  callback_of (clock, Chassis.twist_cmd speed steer) = Chassis.Startup.twist_cmd
  callback_of (clock, Chassis.run_static command) = Chassis.Startup.run_static

module _ (resolve : String → String) where
  -- The driver and the vehicle interface with their default topics, the bridge, and imu_tf: who gets what
  -- the others publish.
  pub record Connected (f : Floats)
      (vehicle : Topics Vehicle.Startup.Callback Vehicle.Startup.Publisher)
      (car : Topics Chassis.Startup.Callback Chassis.Startup.Publisher)
      (bridge : Topics ℕ CanBridge.Startup.Publisher) (ahrs : Topics ⊥ Ahrs.Startup.Publisher)
      (tf : Topics Ahrs.Startup.Callback ⊥) : Type 0 where
    pub commands :
        (clock : ℕ → ℕ) (m : Vehicle.Message f)
        → receivers resolve (vehicle.topic_of (publisher_of f m)) car.subscriptions
          ≡ map (callback_of f) (deliver clock (m ∷ []))
    pub frames :
        receivers resolve (car.topic_of Chassis.Startup.can_pub) bridge.subscriptions ≡ 1 ∷ []
    pub second :
        receivers resolve (bridge.topic_of CanBridge.Startup.can_pub_2) car.subscriptions
        ≡ Chassis.Startup.can_tx ∷ []
    pub first :
        receivers resolve (bridge.topic_of CanBridge.Startup.can_pub_1) car.subscriptions ≡ []
    pub odometry :
        receivers resolve (car.topic_of Chassis.Startup.odom_pub) vehicle.subscriptions
        ≡ Vehicle.Startup.odom ∷ []
    pub status :
        receivers resolve (car.topic_of Chassis.Startup.car_pub) vehicle.subscriptions
        ≡ Vehicle.Startup.car_status ∷ []
    pub orientation :
        receivers resolve (ahrs.topic_of Ahrs.Startup.imu) tf.subscriptions
        ≡ Ahrs.Startup.imu_callback ∷ []
