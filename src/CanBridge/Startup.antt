-- ===== src/CanBridge/Startup.antt =====
-- The constructor of can_bridge_node.cpp: its topics, and the start of the CAN box. A callback stands for its
-- channel.
use wtbcar_autoware_nav.Prelude.{ℕ, String, [], ◌∷◌}
use wtbcar_autoware_nav.Ros.{Topics}
use wtbcar_autoware_nav.CanBridge.{Vci, Bridge, init_can}

pub data Publisher : Type 0 where
  can_pub_1 : Publisher
  can_pub_2 : Publisher

-- The topics of the publishers.
abbrev pub names : Publisher → String
names can_pub_1 = "can_tx_1"
names can_pub_2 = "can_tx_2"

unfoldable pub topics : Topics ℕ Publisher
topics = record { subscriptions = ("can_rx_1", 0) ∷ ("can_rx_2", 1) ∷ []; topic_of = names }

unfoldable pub construct : (vci : Vci) → vci.Device → (Bridge × vci.Device) × Topics ℕ Publisher
construct vci d = (init_can vci d, topics)
