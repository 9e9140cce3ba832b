-- ===== src/CanBridge.antt =====
-- can_bridge/src/can_bridge_node.cpp: the node between the CAN box and the topics. The library of the
-- box (controlcan.h) is a parameter: its calls act on the state of the device. The node's state is
-- the flag and the last result; an operation returns it with the device and what it publishes.
pub mod Connection
pub mod Relay
pub mod Startup
pub mod Threads
pub mod Tests
use wtbcar_autoware_nav.Prelude.{
  ℕ, zero, suc, ◌+◌, ◌-◌, ◌==◌, leb, not, Bool, true, false, if◌then◌else◌, String, List, [], ◌∷◌,
  ◌++◌, map, take, drop, replicate, Option, none, some,
}

-- VCI_CAN_OBJ, the fields that the node uses. `payload` has eight bytes.
pub record CanObj : Type 0 where
  pub id : ℕ
  pub send_type : ℕ
  pub remote_flag : ℕ
  pub extern_flag : ℕ
  pub data_len : ℕ
  pub payload : List ℕ

-- VCI_INIT_CONFIG, the fields that the node sets.
pub record InitConfig : Type 0 where
  pub acc_code : ℕ
  pub acc_mask : ℕ
  pub filter : ℕ
  pub timing0 : ℕ
  pub timing1 : ℕ
  pub mode : ℕ

-- What VCI_Receive returns: -1, or the number of objects that it has written.
pub data Received : Type 0 where
  lost : Received
  objects : List CanObj → Received

-- The library, for the device of type 4 with index 0. Numbers are channels and results.
pub record Vci : Type 1 where
  pub Device : Type 0
  pub open_device : Device → ℕ × Device
  pub close_device : Device → ℕ × Device
  pub clear_buffer : ℕ → Device → Device
  pub init_channel : ℕ → InitConfig → Device → ℕ × Device
  pub start_channel : ℕ → Device → ℕ × Device
  pub transmit : ℕ → CanObj → Device → ℕ × Device
  pub receive : ℕ → Device → Received × Device

-- can_msgs/Frame.
pub record Frame : Type 0 where
  pub stamp : ℕ
  pub frame_id : String
  pub id : ℕ
  pub is_extended : Bool
  pub is_rtr : Bool
  pub is_error : Bool
  pub dlc : ℕ
  pub payload : List ℕ

-- `can_f` and `dwRel`.
pub record Bridge : Type 0 where
  pub can_f : Bool
  pub result : ℕ

pub data Output : Type 0 where
  can_tx_1 : Frame → Output
  can_tx_2 : Frame → Output

-- The configuration of a channel: 500 kbit/s, no filter.
abbrev pub init_config : InitConfig
init_config = record {
  acc_code = 0x80000008;
  acc_mask = 0xFFFFFFFF;
  filter = 1;
  timing0 = 0x00;
  timing1 = 0x1C;
  mode = 0;
}

abbrev pub flag : Bool → ℕ
flag b = if b then 1 else 0

-- The object that a callback for a topic sends: all eight bytes are copied.
unfoldable pub to_object : Frame → CanObj
to_object msg = record {
  id = msg.id;
  send_type = 1;
  remote_flag = flag msg.is_rtr;
  extern_flag = flag msg.is_extended;
  data_len = msg.dlc;
  payload = msg.payload;
}

-- The message for a received object, with as many bytes as the object names over a message of zeros;
-- `none`: the copy would run past the eight bytes of both.
pub to_message : ℕ → String → CanObj → Option Frame
to_message now frame_id rec =
    if leb rec.data_len 8
    then some (record {
      stamp = now;
      frame_id = frame_id;
      id = rec.id;
      is_extended = not (rec.extern_flag == 0);
      is_rtr = not (rec.remote_flag == 0);
      is_error = false;
      dlc = rec.data_len;
      payload = take rec.data_len rec.payload ++ replicate (8 - rec.data_len) 0;
    })
    else none

-- The messages for received objects, in order; `clock j` is the reading for the j-th.
pub to_messages : (ℕ → ℕ) → String → List CanObj → Option (List Frame)
to_messages clock frame_id [] = some []
to_messages clock frame_id (rec ∷ recs) = elim (to_message (clock 0) frame_id rec) [
  | none ↦ none
  | some msg ↦ elim (to_messages (λ j. clock (suc j)) frame_id recs) [
    | none ↦ none
    | some msgs ↦ some (msg ∷ msgs)
  ]
]

module _ (vci : Vci) where
  -- `dwRel = ...; if (dwRel != 1) { can_f = 0; return; }`, and what follows.
  pub checked : ℕ × vci.Device → (vci.Device → Bridge × vci.Device) → Bridge × vci.Device
  checked (result, d) rest =
      if result == 1 then rest d else (record { can_f = false; result = result }, d)

  pub init_can : vci.Device → Bridge × vci.Device
  init_can d = checked (vci.open_device d) (λ d0.
      checked (vci.init_channel 0 init_config (vci.clear_buffer 1 (vci.clear_buffer 0 d0))) (λ d1.
        checked (vci.start_channel 0 d1) (λ d2. checked (vci.init_channel 1 init_config d2) (λ d3.
          checked (vci.start_channel 1 d3) (λ d4. (record { can_f = true; result = 1 }, d4))))))

  pub can_close : Bridge → vci.Device → Bridge × vci.Device
  can_close b d =
      let (result, d') = vci.close_device d in
      if b.can_f then (record b { result = result }, d') else (b, d)

  -- A frame of the standard format with eight bytes, on a channel.
  pub send_msg : ℕ → Bridge → vci.Device → ℕ → List ℕ → Bridge × vci.Device
  send_msg channel b d id payload =
      let (result, d') =
        vci.transmit channel
          (record {
            id = id;
            send_type = 1;
            remote_flag = 0;
            extern_flag = 0;
            data_len = 8;
            payload = payload;
          })
          d in
      (record b { result = result }, d')

  -- The callbacks of can_rx_1 (channel 0) and can_rx_2 (channel 1).
  unfoldable pub can_rx_callback : ℕ → Bridge → vci.Device → Frame → Bridge × vci.Device
  can_rx_callback channel b d msg =
      let (result, d') = vci.transmit channel (to_object msg) d in
      (record b { result = result }, d')

  -- The second half of `can_receive_parse`, where `msgs` is published already.
  pub receive_second :
      Bridge → vci.Device → (ℕ → ℕ) → List Frame → Option ((Bridge × vci.Device) × List Output)
  receive_second b d clock msgs =
      let (result, d') = vci.receive 1 d in
      elim result [
        | lost ↦ some ((b, d'), map can_tx_1 msgs)
        | objects recs ↦ elim (to_messages clock "can2" recs) [
          | none ↦ none
          | some more ↦ some ((b, d'), map can_tx_1 msgs ++ map can_tx_2 more)
        ]
      ]

  -- One pass of the receiving thread; `clock` is read for the first channel's objects, `clock2` for
  -- the second's. `none`: an object names more than eight bytes.
  pub can_receive_parse :
      Bridge → vci.Device → (ℕ → ℕ) → (ℕ → ℕ) → Option ((Bridge × vci.Device) × List Output)
  can_receive_parse b d clock clock2 =
      let (result, d') = vci.receive 0 d in
      if b.can_f
      then elim result [
        | lost ↦ some ((record b { can_f = false }, d'), [])
        | objects recs ↦ elim (to_messages clock "" recs) [
          | none ↦ none
          | some msgs ↦ receive_second b d' clock2 msgs
        ]
      ]
      else some (init_can d, [])

  -- The receiving thread, for a number of passes; `clocks` has the readings of the i-th pass.
  pub can_receive_loop :
      ℕ
      → Bridge
      → vci.Device
      → (ℕ → (ℕ → ℕ) × (ℕ → ℕ))
      → Option ((Bridge × vci.Device) × List Output)
  can_receive_loop zero b d clocks = some ((b, d), [])
  can_receive_loop (suc passes) b d clocks =
      elim (can_receive_parse b d (clocks 0).0 (clocks 0).1) [
        | none ↦ none
        | some ((b', d'), out) ↦ elim (can_receive_loop passes b' d' (λ i. clocks (suc i))) [
          | none ↦ none
          | some (end, rest) ↦ some (end, out ++ rest)
        ]
      ]
