-- ===== src/Vehicle/Startup.antt =====
-- The constructor of vehicle_interface.cpp: its parameters, its topics, and its first state.
use wtbcar_autoware_nav.Prelude.{◌≡◌, ◌>>=◌, ℕ, String, true, [], ◌∷◌, Option, some}
use wtbcar_autoware_nav.Floats.{Floats}
use wtbcar_autoware_nav.Ros.{Parameters, Unset, Topics}
use wtbcar_autoware_nav.Vehicle.{Config, Codes, Vehicle, init}

pub data Callback : Type 0 where
  control_cmd : Callback
  gear_cmd : Callback
  odom : Callback
  car_status : Callback

pub data Publisher : Type 0 where
  cmd_vel : Publisher
  twist_cmd : Publisher
  run_static : Publisher
  velocity_report : Publisher
  steering_report : Publisher
  control_mode_report : Publisher
  gear_report : Publisher

-- The topics of the publishers.
abbrev pub names : String → String → Publisher → String
names cmd_vel_topic twist_cmd_topic cmd_vel = cmd_vel_topic
names cmd_vel_topic twist_cmd_topic twist_cmd = twist_cmd_topic
names cmd_vel_topic twist_cmd_topic run_static = "/run_static"
names cmd_vel_topic twist_cmd_topic velocity_report = "/vehicle/status/velocity_status"
names cmd_vel_topic twist_cmd_topic steering_report = "/vehicle/status/steering_status"
names cmd_vel_topic twist_cmd_topic control_mode_report = "/vehicle/status/control_mode"
names cmd_vel_topic twist_cmd_topic gear_report = "/vehicle/status/gear_status"

-- The topics, of which two are parameters.
unfoldable pub topics : String → String → Topics Callback Publisher
topics cmd_vel_topic twist_cmd_topic = record {
  subscriptions =
      ("/control/command/control_cmd", control_cmd)
      ∷ ("/control/command/gear_cmd", gear_cmd)
      ∷ ("/car_odom", odom)
      ∷ ("/wtb_car_message", car_status)
      ∷ [];
  topic_of = names cmd_vel_topic twist_cmd_topic;
}

module _ (f : Floats) where
  -- The parameters where the launch sets none.
  abbrev pub default_config : Config f
  default_config = record {
    max_speed = f.literal 1 0;
    max_steering_angle = f.literal 6109 4;
    command_timeout_sec = f.literal 5 1;
    publish_twist_cmd = true;
  }

module _ (f : Floats) (codes : Codes) (params : Parameters f) where
  unfoldable pub construct : ℕ → Option (Vehicle f × Topics Callback Publisher)
  construct now = do
    max_speed ← params.number "max_speed" (f.literal 1 0)
    max_steering_angle ← params.number "max_steering_angle" (f.literal 6109 4)
    command_timeout_sec ← params.number "command_timeout_sec" (f.literal 5 1)
    publish_twist_cmd ← params.truth "publish_twist_cmd" true
    cmd_vel_topic ← params.text "cmd_vel_topic" "/cmd_vel"
    twist_cmd_topic ← params.text "twist_cmd_topic" "/twist_cmd"
    some (
      init f codes
          (record {
            max_speed = max_speed;
            max_steering_angle = max_steering_angle;
            command_timeout_sec = command_timeout_sec;
            publish_twist_cmd = publish_twist_cmd;
          })
          now,
      topics cmd_vel_topic twist_cmd_topic,
    )

  pub construct-Unset :
      (now : ℕ)
      → Unset f params
      → construct now ≡ some (init f codes (default_config f) now, topics "/cmd_vel" "/twist_cmd")
  unfolding construct
  construct-Unset now unset = simp (unset.number, unset.truth, unset.text, construct)
