-- ===== src/CanBridge/Threads/Tests.antt =====
-- The two threads of can_bridge_node.cpp on a box that is a pair of channels.
use wtbcar_autoware_nav.Prelude.{◌≡◌, refl, Bool, true, false, List, [], ◌∷◌, ◌++◌, replicate}
use wtbcar_autoware_nav.CanBridge.{Frame, Vci, Bridge, lost, can_rx_callback}
use wtbcar_autoware_nav.CanBridge.Tests.{box, box-Starts}
use wtbcar_autoware_nav.CanBridge.Threads.{
  can1, can2, index, open_call, start_call, ended, Turn, receiving, callback, tested, after_start,
  after_clear, advance, take_turns,
}
use wtbcar_autoware_nav.CanBridge.Threads.Races.{Sends, init_can_unraced, race_decides}

abbrev command : Frame
command = record {
  stamp = 3;
  frame_id = "base_link";
  id = 0x18C4D2D0;
  is_extended = true;
  is_rtr = false;
  is_error = false;
  dlc = 8;
  payload = 1 ∷ 2 ∷ 3 ∷ 4 ∷ 5 ∷ 6 ∷ 7 ∷ 8 ∷ [];
}

abbrev closed : Bool × Bool
closed = (false, false)

abbrev off : Bridge
off = record { can_f = false; result = 0 }

box-Sends : Sends (box lost lost) (box-Starts lost lost)
box-Sends = record { keeps = λ channel other obj d h. h }

-- Callbacks after the device is opened and before the second channel is started.
abbrev between : List Turn
between =
    receiving
    ∷ receiving
    ∷ callback can1 command
    ∷ (replicate 8 receiving ++ (callback can2 command ∷ replicate 3 receiving))

init_can_unraced_example :
    ((take_turns (box lost lost) open_call (off, closed) between).1.1.0 ≡ true)
    × ((take_turns (box lost lost) open_call (off, closed) between).1.1.1 ≡ true)
unfolding take_turns advance tested index after_start after_clear can_rx_callback
init_can_unraced_example =
    init_can_unraced (box lost lost) (box-Starts lost lost) box-Sends off closed between
      ((λ h. h), ((λ h. h), tt)) refl refl

-- A box whose channels do not start.
abbrev broken : Vci
broken = record (box lost lost) { start_channel = λ channel d. (0, d) }

race_decides_example :
    let r =
      take_turns broken
        (start_call can2)
        (off, (true, false))
        (receiving ∷ callback can1 command ∷ receiving ∷ receiving ∷ []) in
    (r.0 ≡ ended) × (r.1.0.can_f ≡ true)
unfolding index
race_decides_example = race_decides broken off (true, false) can1 command
