-- ===== src/CanBridge/Relay.antt =====
-- The two directions of can_bridge_node.cpp: objects to messages and messages to objects.
use wtbcar_autoware_nav.Prelude.{
  ℕ, suc, ◌↔◌, ◌-◌, ◌≤◌, ◌≡◌, refl, not, ◌==◌, String, Bool, true, false, leb, List, [], ◌∷◌, ◌++◌,
  map, take, replicate, some, arith,
}
use wtbcar_autoware_nav.CanBridge.{
  CanObj, objects, Vci, Frame, Bridge, can_tx_1, can_tx_2, flag, to_object, to_message, to_messages,
  receive_second, can_receive_parse,
}

-- The first `n` of eight bytes, with zeros for the others.
abbrev pub padded : ℕ → List ℕ → List ℕ
padded n payload = take n payload ++ replicate (8 - n) 0

-- Objects that name no more bytes than they have.
abbrev pub AllShort : List CanObj → Type 0
AllShort [] = Unit
AllShort (rec ∷ recs) = (rec.data_len ≤ 8) × AllShort recs

-- What a message tells of an object: identifier, the two flags, the length, and the named bytes with zeros
-- behind them.
pub record Conveys (frame_id : String) (rec : CanObj) (msg : Frame) : Type 0 where
  pub same_id : msg.id ≡ rec.id
  pub standard : (msg.is_extended ≡ false) ↔ (rec.extern_flag ≡ 0)
  pub no_remote : (msg.is_rtr ≡ false) ↔ (rec.remote_flag ≡ 0)
  pub no_error : msg.is_error ≡ false
  pub same_length : msg.dlc ≡ rec.data_len
  pub bytes : msg.payload ≡ padded rec.data_len rec.payload
  pub channel : msg.frame_id ≡ frame_id

-- One message for each object, in order.
pub data InOrder (frame_id : String) : List CanObj → List Frame → Type 0 where
  none_left : InOrder frame_id [] []
  conveyed :
      {rec : CanObj} {recs : List CanObj} {msg : Frame} {msgs : List Frame}
      → Conveys frame_id rec msg
      → InOrder frame_id recs msgs
      → InOrder frame_id (rec ∷ recs) (msg ∷ msgs)

short_test : (n : ℕ) → n ≤ 8 → leb n 8 ≡ true
short_test n h = ground arith

flag_read : (b : Bool) → not (flag b == 0) ≡ b
flag_read true = refl
flag_read false = refl

flag_clear : (n : ℕ) → (not (n == 0) ≡ false) ↔ (n ≡ 0)
flag_clear n = (λ e. ground arith, λ e. rw e refl)

-- A message that a topic hands to the bridge comes back from the bus of the other side with its
-- identifier, its two flags, its length and, up to that length, its bytes; the further bytes are zero,
-- the stamp and the frame are new, and it is no error frame. Its length must be at most 8.
pub to_message-to_object :
    (now : ℕ) (frame_id : String) (msg : Frame)
    → msg.dlc ≤ 8
    → to_message now frame_id (to_object msg)
      ≡ some (record msg {
        stamp = now;
        frame_id = frame_id;
        is_error = false;
        payload = padded msg.dlc msg.payload;
      })
unfolding to_message to_object
to_message-to_object now frame_id msg h =
    rw (short_test msg.dlc h, flag_read msg.is_extended, flag_read msg.is_rtr)

-- The message for an object that names no more than eight bytes.
to_message-Conveys :
    (now : ℕ) (frame_id : String) (rec : CanObj)
    → rec.data_len ≤ 8
    → (msg : Frame) × ((to_message now frame_id rec ≡ some msg) × Conveys frame_id rec msg)
unfolding to_message
to_message-Conveys now frame_id rec h = (
  record {
    stamp = now;
    frame_id = frame_id;
    id = rec.id;
    is_extended = not (rec.extern_flag == 0);
    is_rtr = not (rec.remote_flag == 0);
    is_error = false;
    dlc = rec.data_len;
    payload = padded rec.data_len rec.payload;
  },
  (
    rw (short_test rec.data_len h) refl,
    record {
      same_id = refl;
      standard = flag_clear rec.extern_flag;
      no_remote = flag_clear rec.remote_flag;
      no_error = refl;
      same_length = refl;
      bytes = refl;
      channel = refl;
    },
  ),
)

to_messages-InOrder :
    (clock : ℕ → ℕ) (frame_id : String) (recs : List CanObj)
    → AllShort recs
    → (msgs : List Frame) × ((to_messages clock frame_id recs ≡ some msgs)
        × InOrder frame_id recs msgs)
unfolding to_messages
to_messages-InOrder clock frame_id [] h = ([], (refl, none_left))
to_messages-InOrder clock frame_id (rec ∷ recs) h =
    let (msg, (made, same)) = to_message-Conveys (clock 0) frame_id rec h.0 in
    let (msgs, (made', same')) = to_messages-InOrder (λ j. clock (suc j)) frame_id recs h.1 in
    (msg ∷ msgs, (rw (made, made', to_messages) refl, conveyed same same'))

-- While the node is connected and neither channel is lost, one pass of the receiving thread publishes the
-- objects of the first channel on can_tx_1 and then those of the second on can_tx_2, each in order, one
-- message for one object. A message tells the identifier, whether the object is of the standard format,
-- whether it is a remote frame, the length, and the bytes that the object names, with zeros up to eight.
-- The node's state is left alone. No object may name more than eight bytes.
pub can_receive_parse_lem :
    (vci : Vci) (b : Bridge) (d : vci.Device) (clock clock2 : ℕ → ℕ) (recs more : List CanObj)
    → b.can_f ≡ true
    → (vci.receive 0 d).0 ≡ objects recs
    → (vci.receive 1 (vci.receive 0 d).1).0 ≡ objects more
    → AllShort recs
    → AllShort more
    → (first : List Frame) × ((second : List Frame) × ((can_receive_parse vci b d clock clock2
            ≡ some (
              (b, (vci.receive 1 (vci.receive 0 d).1).1),
              map can_tx_1 first ++ map can_tx_2 second,
            ))
          × InOrder "" recs first
          × InOrder "can2" more second))
unfolding can_receive_parse receive_second
can_receive_parse_lem vci b d clock clock2 recs more on got got' short short' =
    let (first, (made, same)) = to_messages-InOrder clock "" recs short in
    let (second, (made', same')) = to_messages-InOrder clock2 "can2" more short' in
    (
      first,
      (second, (simp (on, got, made, got', made', can_receive_parse, receive_second), same, same')),
    )
