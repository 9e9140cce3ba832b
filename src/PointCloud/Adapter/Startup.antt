-- ===== src/PointCloud/Adapter/Startup.antt =====
-- The constructor of pointcloud_xyzirt_to_xyzirc_node.cpp: its two parameters are its topics.
use wtbcar_autoware_nav.Prelude.{◌>>=◌, [], ◌∷◌, Option, some}
use wtbcar_autoware_nav.Floats.{Floats}
use wtbcar_autoware_nav.Ros.{Parameters, Topics}

pub data Callback : Type 0 where
  on_pointcloud : Callback

pub data Publisher : Type 0 where
  publisher : Publisher

module _ (f : Floats) (params : Parameters f) where
  pub construct : Option (Topics Callback Publisher)
  construct = do
    input_topic ← params.text "input_topic" "/sensing/lidar/pointcloud_raw"
    output_topic ← params.text "output_topic" "/sensing/lidar/pointcloud_autoware"
    some (record {
      subscriptions = (input_topic, on_pointcloud) ∷ [];
      topic_of = λ p. elim p [ publisher ↦ output_topic ];
    })
