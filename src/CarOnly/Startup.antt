-- ===== src/CarOnly/Startup.antt =====
-- The constructor of wtb_car_only.cpp: its parameters, its topics, and its first state.
use wtbcar_autoware_nav.Prelude.{◌>>=◌, ℕ, String, [], ◌∷◌, Option, some}
use wtbcar_autoware_nav.Floats.{Floats}
use wtbcar_autoware_nav.Ros.{Parameters, Topics}
use wtbcar_autoware_nav.CarOnly.{Car, init}

pub data Callback : Type 0 where
  can_tx : Callback
  cmd_vel : Callback
  twist_cmd : Callback

pub data Publisher : Type 0 where
  can_pub : Publisher
  odom_pub : Publisher

-- The topics of the publishers.
abbrev pub names : String → Publisher → String
names can_pub_topic can_pub = can_pub_topic
names can_pub_topic odom_pub = "/car_odom"

unfoldable pub topics : String → String → Topics Callback Publisher
topics can_sub_topic can_pub_topic = record {
  subscriptions = (can_sub_topic, can_tx) ∷ ("/cmd_vel", cmd_vel) ∷ ("/twist_cmd", twist_cmd) ∷ [];
  topic_of = names can_pub_topic;
}

module _ (f : Floats) (params : Parameters f) where
  -- `min_speed` and `frame_id` are declared and not used.
  unfoldable pub construct : ℕ → Option (Car f × Topics Callback Publisher)
  construct now = do
    wheelbase ← params.number "WHEELBASE" (f.literal 1 0)
    child_frame_id ← params.text "child_frame_id" "base_footprint"
    vel_scale ← params.number "vel_scale" (f.literal 1 0)
    steer_offset ← params.number "steer_offset" (f.literal 0 0)
    min_speed ← params.number "min_speed" (f.literal 5 4)
    can_sub_topic ← params.text "can_sub_topic" "can_tx_2"
    can_pub_topic ← params.text "can_pub_topic" "can_rx_2"
    frame_id ← params.text "frame_id" "base_link"
    some (
      init f
          (record {
            wheelbase = wheelbase;
            vel_scale = vel_scale;
            steer_offset = steer_offset;
            child_frame_id = child_frame_id;
          })
          now,
      topics can_sub_topic can_pub_topic,
    )
