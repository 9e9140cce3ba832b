-- ===== src/CanBridge/Tests.antt =====
-- The CAN bridge over a box that is a pair of channels, each started or not.
use wtbcar_autoware_nav.Prelude.{
  ℕ, zero, suc, ◌≡◌, ◌≢◌, refl, Bool, true, false, List, [], ◌∷◌, ◌++◌, map, some, arith,
}
use wtbcar_autoware_nav.CanBridge.{
  CanObj, Received, lost, objects, Vci, Frame, Bridge, can_tx_1, can_tx_2, can_receive_parse,
  can_receive_loop,
}
use wtbcar_autoware_nav.CanBridge.Relay.{InOrder, can_receive_parse_lem}
use wtbcar_autoware_nav.CanBridge.Connection.{
  Starts, Ready, SecondLost, recovers, second_loss_unnoticed,
}

abbrev start : ℕ → Bool × Bool → ℕ × (Bool × Bool)
start zero (one, two) = (1, (true, two))
start (suc n) (one, two) = (1, (one, true))

abbrev read : Received → Received → ℕ → Received
read first second zero = first
read first second (suc n) = second

-- A box that accepts every call and always receives the same.
abbrev pub box : Received → Received → Vci
box first second = record {
  Device = Bool × Bool;
  open_device = λ d. (1, d);
  close_device = λ d. (1, (false, false));
  clear_buffer = λ channel d. d;
  init_channel = λ channel config d. (1, d);
  start_channel = start;
  transmit = λ channel obj d. (1, d);
  receive = λ channel d. (read first second channel, d);
}

abbrev Running : Bool × Bool → ℕ → Type 0
Running d zero = d.0 ≡ true
Running d (suc n) = d.1 ≡ true

abbrev pub box-Starts : (first second : Received) → Starts (box first second)
box-Starts first second = record {
  Started = Running;
  works = works;
  init_keeps = λ channel other config d ne h. h;
  start_keeps = keeps;
}
  where
    works :
        (channel : ℕ) (d : Bool × Bool)
        → (start channel d).0 ≡ 1
        → Running (start channel d).1 channel
    works zero d h = refl
    works (suc n) d h = refl

    keeps :
        (channel other : ℕ) (d : Bool × Bool)
        → other ≢ channel
        → Running d other
        → Running (start channel d).1 other
    keeps zero zero d ne h = refl
    keeps zero (suc m) d ne h = h
    keeps (suc n) zero d ne h = h
    keeps (suc n) (suc m) d ne h = refl

abbrev pub drive : CanObj
drive = record {
  id = 0x18C4D2EF;
  send_type = 1;
  remote_flag = 0;
  extern_flag = 1;
  data_len = 8;
  payload = 0x84 ∷ 0x3E ∷ 0 ∷ 0 ∷ 0 ∷ 0 ∷ 0x10 ∷ 0xAA ∷ [];
}

abbrev battery : CanObj
battery = record {
  id = 0x18C4E2EF;
  send_type = 0;
  remote_flag = 0;
  extern_flag = 1;
  data_len = 2;
  payload = 80 ∷ 1 ∷ 7 ∷ 7 ∷ 0 ∷ 0 ∷ 0 ∷ 0 ∷ [];
}

abbrev pub connected : Bridge
connected = record { can_f = true; result = 1 }

abbrev pub both : Bool × Bool
both = (true, true)

can_receive_parse_lem_example :
    (first : List Frame) × ((second : List Frame) × ((can_receive_parse
            (box (objects (drive ∷ [])) (objects (battery ∷ drive ∷ [])))
            connected
            both
            (λ j. j)
            (λ j. 50)
          ≡ some ((connected, both), map can_tx_1 first ++ map can_tx_2 second))
        × InOrder "" (drive ∷ []) first
        × InOrder "can2" (battery ∷ drive ∷ []) second))
can_receive_parse_lem_example =
    can_receive_parse_lem (box (objects (drive ∷ [])) (objects (battery ∷ drive ∷ []))) connected
      both (λ j. j) (λ j. 50) (drive ∷ []) (battery ∷ drive ∷ []) refl refl refl (omega arith, tt)
      (omega arith, (omega arith, tt))

recovers_example :
    (r : Bridge × (Bool × Bool)) × ((can_receive_loop
          (box lost lost)
          2
          connected
          both
          (λ i. (λ j. j, λ j. j))
        ≡ some (r, []))
      × Ready (box lost lost) (box-Starts lost lost) r)
recovers_example =
    recovers (box lost lost) (box-Starts lost lost) connected both (λ i. (λ j. j, λ j. j)) refl refl

half-SecondLost : SecondLost (box (objects []) lost) (λ d. d.0 ≡ true)
half-SecondLost = record { idle = λ d h. refl; gone = λ d h. refl; stays = λ d h. h }

second_loss_unnoticed_example :
    (d' : Bool × Bool) × ((can_receive_loop
          (box (objects []) lost)
          9
          connected
          both
          (λ i. (λ j. j, λ j. j))
        ≡ some ((connected, d'), []))
      × (d'.0 ≡ true))
second_loss_unnoticed_example =
    second_loss_unnoticed (box (objects []) lost) (λ d. d.0 ≡ true) 9 connected both
      (λ i. (λ j. j, λ j. j)) half-SecondLost refl refl
