-- ===== src/System/Bus.antt =====
-- The way of the driver's frames: wtb_car.cpp, the topic can_rx_2, can_bridge_node.cpp, and the second
-- channel of the CAN box.
use wtbcar_autoware_nav.Prelude.{ℕ, ◌+◌, ◌/◌, ◌%◌, ◌≡◌, List, [], ◌∷◌}
use wtbcar_autoware_nav.Floats.{Floats}
use wtbcar_autoware_nav.Chassis
use wtbcar_autoware_nav.Chassis.Codec.{Payload}
use wtbcar_autoware_nav.Chassis.Codec.Checksum.{Passes, IsBytes}
use wtbcar_autoware_nav.CanBridge
use wtbcar_autoware_nav.CanBridge.{CanObj, Vci, Bridge, can_rx_callback}

-- The bytes of a payload, in order.
abbrev pub bytes_of : Payload → List ℕ
bytes_of p = p.b0 ∷ p.b1 ∷ p.b2 ∷ p.b3 ∷ p.b4 ∷ p.b5 ∷ p.b6 ∷ p.b7 ∷ []

-- The message that the driver publishes, as the bridge receives it.
unfoldable pub bus_frame : Chassis.Frame → CanBridge.Frame
bus_frame frame = record {
  stamp = frame.stamp;
  frame_id = "";
  id = frame.id;
  is_extended = frame.is_extended;
  is_rtr = frame.is_rtr;
  is_error = frame.is_error;
  dlc = frame.dlc;
  payload = bytes_of frame.payload;
}

-- The driver's frames in order, as the bridge receives them.
unfoldable pub to_bridge : {f : Floats} → List (Chassis.Output f) → List CanBridge.Frame
to_bridge [] = []
to_bridge (Chassis.can frame ∷ os) = bus_frame frame ∷ to_bridge os
to_bridge (Chassis.odom o ∷ os) = to_bridge os
to_bridge (Chassis.car m ∷ os) = to_bridge os

-- An object that the chassis takes for a command with this heartbeat: an extended data frame of eight
-- bytes that pass its checksum.
pub record IsCommandObject (counter : ℕ) (obj : CanObj) : Type 0 where
  pub chassis : obj.id ≡ 0x18C4D2D0
  pub extended : obj.extern_flag ≡ 1
  pub no_remote : obj.remote_flag ≡ 0
  pub eight : obj.data_len ≡ 8
  pub payload : Payload
  pub whole : obj.payload ≡ bytes_of payload
  pub bytes : IsBytes payload
  pub passes : Passes payload
  pub numbered : payload.b6 / 16 ≡ counter

-- Commands whose heartbeats count on, modulo 16, from one value up to another.
pub data CommandObjects : ℕ → List CanObj → ℕ → Type 0 where
  none_left : {counter : ℕ} → CommandObjects counter [] counter
  command :
      {counter next : ℕ} {obj : CanObj} {objs : List CanObj}
      → IsCommandObject counter obj
      → CommandObjects ((counter + 1) % 16) objs next
      → CommandObjects counter (obj ∷ objs) next

module _ (vci : Vci) (channel : ℕ) where
  -- The callback for each message in turn.
  abbrev pub relay : Bridge → vci.Device → List CanBridge.Frame → Bridge × vci.Device
  relay b d [] = (b, d)
  relay b d (msg ∷ msgs) = let (b', d') = can_rx_callback vci channel b d msg in relay b' d' msgs

  -- The box after it was given these objects, one by one.
  abbrev pub given : vci.Device → List CanObj → vci.Device
  given d [] = d
  given d (obj ∷ objs) = given (vci.transmit channel obj d).1 objs
