-- ===== src/System/Hearing.antt =====
-- The topics that carry feedback: can_tx_2 from can_bridge_node.cpp to wtb_car.cpp, and car_odom and
-- wtb_car_message from there to vehicle_interface.cpp.
use wtbcar_autoware_nav.Prelude.{
  append-nil, ℕ, suc, ◌≡◌, ap, List, [], ◌∷◌, ◌++◌, get_or, Option, none, some,
}
use wtbcar_autoware_nav.Floats.{Floats}
use wtbcar_autoware_nav.Chassis
use wtbcar_autoware_nav.Chassis.{read_feedback, on_feedback, can_tx_callback}
use wtbcar_autoware_nav.Chassis.Codec.{Payload}
use wtbcar_autoware_nav.CanBridge
use wtbcar_autoware_nav.CanBridge.{CanObj, Vci, Bridge, objects, to_object, can_receive_parse}
use wtbcar_autoware_nav.Vehicle
use wtbcar_autoware_nav.Vehicle.{Codes}

-- The eight bytes of a message, as ParseCtrlFb reads them.
abbrev pub payload_of : List ℕ → Payload
payload_of bytes = record {
  b0 = get_or bytes 0 0;
  b1 = get_or bytes 1 0;
  b2 = get_or bytes 2 0;
  b3 = get_or bytes 3 0;
  b4 = get_or bytes 4 0;
  b5 = get_or bytes 5 0;
  b6 = get_or bytes 6 0;
  b7 = get_or bytes 7 0;
}

-- The message that the bridge publishes, as the driver receives it.
unfoldable pub car_frame : CanBridge.Frame → Chassis.Frame
car_frame msg = record {
  stamp = msg.stamp;
  id = msg.id;
  is_extended = msg.is_extended;
  is_rtr = msg.is_rtr;
  is_error = msg.is_error;
  dlc = msg.dlc;
  payload = payload_of msg.payload;
}

-- What the driver receives of the bridge's messages: those on can_tx_2.
unfoldable pub to_driver : List CanBridge.Output → List Chassis.Frame
to_driver [] = []
to_driver (CanBridge.can_tx_1 msg ∷ os) = to_driver os
to_driver (CanBridge.can_tx_2 msg ∷ os) = car_frame msg ∷ to_driver os

module _ (f : Floats) where
  -- The driver's callback for each message in turn; `clocks` has the readings during the i-th.
  unfoldable pub hear :
      ℕ
      → Chassis.Car f
      → (ℕ → ℕ → ℕ)
      → List Chassis.Frame
      → Option (Chassis.Car f × List (Chassis.Output f))
  hear fuel c clocks [] = some (c, [])
  hear fuel c clocks (msg ∷ msgs) = elim (can_tx_callback f fuel c (clocks 0) msg) [
    | none ↦ none
    | some (c', out) ↦ elim (hear fuel c' (λ i. clocks (suc i)) msgs) [
      | none ↦ none
      | some (c'', rest) ↦ some (c'', out ++ rest)
    ]
  ]

  pub hear_one :
      (fuel : ℕ) (c : Chassis.Car f) (clocks : ℕ → ℕ → ℕ) (msg : Chassis.Frame)
      (r : Chassis.Car f × List (Chassis.Output f))
      → can_tx_callback f fuel c (clocks 0) msg ≡ some r
      → hear fuel c clocks (msg ∷ []) ≡ some r
  unfolding hear
  hear_one fuel c clocks msg r h = rw (h, hear) (ap (λ l. some (r.0, l)) (append-nil r.1))

  -- What the vehicle interface receives of the driver's messages, as its callbacks.
  unfoldable pub to_vehicle : (ℕ → ℕ) → List (Chassis.Output f) → List ((ℕ → ℕ) × Vehicle.Event f)
  to_vehicle clock [] = []
  to_vehicle clock (Chassis.can frame ∷ os) = to_vehicle clock os
  to_vehicle clock (Chassis.odom o ∷ os) =
      (clock, Vehicle.odom o.stamp o.linear_x (f.literal 0 0) o.angular_z) ∷ to_vehicle clock os
  to_vehicle clock (Chassis.car m ∷ os) = (clock, Vehicle.car_status m.angle) ∷ to_vehicle clock os
