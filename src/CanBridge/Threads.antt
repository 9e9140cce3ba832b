-- ===== src/CanBridge/Threads.antt =====
-- The two threads of can_bridge_node.cpp on their shared members: Init_Can in the receiving thread,
-- statement by statement, and the callbacks of the topics, which write dwRel too, between any two of
-- them.
pub mod Races
mod Tests
use wtbcar_autoware_nav.Prelude.{
  ℕ, zero, suc, ◌≡◌, refl, ap, ◌==◌, true, false, Bool-cases, inl, inr, if◌then◌else◌, List, [],
  ◌∷◌, replicate, ==_iff,
}
use wtbcar_autoware_nav.CanBridge.{
  Frame, Vci, Bridge, init_config, checked, init_can, can_rx_callback,
}

-- CANIndex and CANIndex2.
pub data Channel : Type 0 where
  can1 : Channel
  can2 : Channel

unfoldable pub index : Channel → ℕ
index can1 = 0
index can2 = 1

-- The statement of `Init_Can` that comes next; `tested` stands for a test of dwRel and what follows it
-- if dwRel is not 1.
pub data Point : Type 0 where
  open_call : Point
  open_tested : Point
  clear_call : Channel → Point
  init_call : Channel → Point
  init_tested : Channel → Point
  start_call : Channel → Point
  start_tested : Channel → Point
  set_flag : Point
  ended : Point

-- Whose turn it is: the receiving thread's, or that of a callback for a channel.
pub data Turn : Type 0 where
  receiving : Turn
  callback : Channel → Frame → Turn

module _ (vci : Vci) where
  -- `dwRel = ...`.
  abbrev stored : Bridge → ℕ × vci.Device → Bridge × vci.Device
  stored b (result, d) = (record b { result = result }, d)

  -- `if (dwRel != 1) { can_f = 0; return; }`.
  unfoldable pub tested : Point → Bridge → vci.Device → Point × (Bridge × vci.Device)
  tested next b d =
      if b.result == 1 then (next, (b, d)) else (ended, (record b { can_f = false }, d))

  pub after_start : Channel → Point
  after_start can1 = init_call can2
  after_start can2 = set_flag

  pub after_clear : Channel → Point
  after_clear can1 = clear_call can2
  after_clear can2 = init_call can1

  pub advance : Point → Bridge × vci.Device → Point × (Bridge × vci.Device)
  advance open_call (b, d) = (open_tested, stored b (vci.open_device d))
  advance open_tested (b, d) = tested (clear_call can1) b d
  advance (clear_call channel) (b, d) =
      (after_clear channel, (b, vci.clear_buffer (index channel) d))
  advance (init_call channel) (b, d) =
      (init_tested channel, stored b (vci.init_channel (index channel) init_config d))
  advance (init_tested channel) (b, d) = tested (start_call channel) b d
  advance (start_call channel) (b, d) =
      (start_tested channel, stored b (vci.start_channel (index channel) d))
  advance (start_tested channel) (b, d) = tested (after_start channel) b d
  advance set_flag (b, d) = (ended, (record b { can_f = true }, d))
  advance ended (b, d) = (ended, (b, d))

  -- One turn after the other.
  pub take_turns : Point → Bridge × vci.Device → List Turn → Point × (Bridge × vci.Device)
  take_turns p s [] = (p, s)
  take_turns p s (receiving ∷ ts) = let (p', s') = advance p s in take_turns p' s' ts
  take_turns p (b, d) (callback channel msg ∷ ts) =
      take_turns p (can_rx_callback vci (index channel) b d msg) ts

  abbrev alone : ℕ → List Turn
  alone n = replicate n receiving

  ended_stays : (n : ℕ) (s : Bridge × vci.Device) → take_turns ended s (alone n) ≡ (ended, s)
  unfolding take_turns advance
  ended_stays zero s = refl
  ended_stays (suc n) s = ended_stays n s

  -- A call and its test, with `rest` for the statements after them.
  tested-checked :
      (n : ℕ) (next : Point) (b : Bridge) (call : ℕ × vci.Device)
      (rest : vci.Device → Bridge × vci.Device)
      → (call.0 ≡ 1 → take_turns next (stored b call) (alone n) ≡ (ended, rest call.1))
      → let (p, s) = tested next (stored b call).0 (stored b call).1 in
        take_turns p s (alone n) ≡ (ended, checked vci call rest)
  unfolding tested checked
  tested-checked n next b call rest h = elim (Bool-cases (call.0 == 1)) [
    | inl e ↦ rw e (h ((==_iff call.0 1).0 e))
    | inr e ↦ rw e (ended_stays n _)
  ]

  -- What is left of `Init_Can` at its calls, from the last one on.
  abbrev second_start : vci.Device → Bridge × vci.Device
  second_start d =
      checked vci (vci.start_channel 1 d) (λ d'. (record { can_f = true; result = 1 }, d'))

  abbrev second_init : vci.Device → Bridge × vci.Device
  second_init d = checked vci (vci.init_channel 1 init_config d) second_start

  abbrev first_start : vci.Device → Bridge × vci.Device
  first_start d = checked vci (vci.start_channel 0 d) second_init

  abbrev first_init : vci.Device → Bridge × vci.Device
  first_init d = checked vci (vci.init_channel 0 init_config d) first_start

  second_start_turns :
      (b : Bridge) (d : vci.Device)
      → take_turns (start_call can2) (b, d) (alone 3) ≡ (ended, second_start d)
  unfolding take_turns advance index after_start
  second_start_turns b d = tested-checked 1 set_flag b (vci.start_channel 1 d) _ (λ e.
      ap {B = Point × (Bridge × vci.Device)}
        (λ r. (ended, (record { can_f = true; result = r }, (vci.start_channel 1 d).1))) e)

  second_init_turns :
      (b : Bridge) (d : vci.Device)
      → take_turns (init_call can2) (b, d) (alone 5) ≡ (ended, second_init d)
  unfolding take_turns advance index
  second_init_turns b d =
      tested-checked 3 (start_call can2) b (vci.init_channel 1 init_config d) second_start
        (λ e. second_start_turns (stored b (vci.init_channel 1 init_config d)).0 _)

  first_start_turns :
      (b : Bridge) (d : vci.Device)
      → take_turns (start_call can1) (b, d) (alone 7) ≡ (ended, first_start d)
  unfolding take_turns advance index after_start
  first_start_turns b d =
      tested-checked 5 (init_call can2) b (vci.start_channel 0 d) second_init
        (λ e. second_init_turns (stored b (vci.start_channel 0 d)).0 _)

  first_init_turns :
      (b : Bridge) (d : vci.Device)
      → take_turns (init_call can1) (b, d) (alone 9) ≡ (ended, first_init d)
  unfolding take_turns advance index
  first_init_turns b d =
      tested-checked 7 (start_call can1) b (vci.init_channel 0 init_config d) first_start
        (λ e. first_start_turns (stored b (vci.init_channel 0 init_config d)).0 _)

  -- Undisturbed by the callbacks, the statements of `Init_Can`, one after the other from any state, do
  -- what the operation does, in at most thirteen turns.
  pub take_turns-init_can :
      (b : Bridge) (d : vci.Device)
      → take_turns open_call (b, d) (alone 13) ≡ (ended, init_can vci d)
  unfolding take_turns advance index init_can after_clear
  take_turns-init_can b d =
      tested-checked 11 (clear_call can1) b (vci.open_device d) _
        (λ e. first_init_turns (stored b (vci.open_device d)).0 _)
