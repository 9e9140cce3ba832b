-- ===== src/CanBridge/Threads/Races.antt =====
-- Init_Can of can_bridge_node.cpp with callbacks between its statements.
use wtbcar_autoware_nav.Prelude.{
  ℕ, ◌≡◌, ◌≢◌, refl, subst, ◌==◌, true, false, Bool-cases, inl, inr, List, [], ◌∷◌, arith, ==_iff,
}
use wtbcar_autoware_nav.CanBridge.{CanObj, Frame, Vci, Bridge, can_rx_callback, to_object}
use wtbcar_autoware_nav.CanBridge.Connection.{Starts}
use wtbcar_autoware_nav.CanBridge.Threads.{
  Channel, can1, can2, index, Point, open_call, open_tested, clear_call, init_call, init_tested,
  start_call, start_tested, set_flag, ended, Turn, receiving, callback, tested, after_start,
  after_clear, advance, take_turns,
}

module _ (vci : Vci) where
  -- Where the member `dwRel` is about to be tested.
  abbrev pub IsTest : Point → Type 0
  IsTest open_tested = Unit
  IsTest (init_tested channel) = Unit
  IsTest (start_tested channel) = Unit
  IsTest _ = ⊥

  -- No callback comes between a call and the test of its result.
  abbrev pub Unraced : Point → Bridge × vci.Device → List Turn → Type 0
  Unraced p s [] = Unit
  Unraced p s (receiving ∷ ts) = let (p', s') = advance vci p s in Unraced p' s' ts
  Unraced p (b, d) (callback channel msg ∷ ts) =
      ¬ (IsTest p) × Unraced p (can_rx_callback vci (index channel) b d msg) ts

-- What the node relies on in the library: a frame that is sent stops no channel.
pub record Sends (vci : Vci) (starts : Starts vci) : Type 0 where
  pub keeps :
      (channel other : ℕ) (obj : CanObj) (d : vci.Device)
      → starts.Started d other
      → starts.Started (vci.transmit channel obj d).1 other

module _ (vci : Vci) (starts : Starts vci) where
  -- What the receiving thread knows at each statement.
  abbrev Knows : Point → Bridge × vci.Device → Type 0
  Knows (init_call can2) (b, d) = starts.Started d 0
  Knows (init_tested can2) (b, d) = starts.Started d 0
  Knows (start_call can2) (b, d) = starts.Started d 0
  Knows (start_tested can1) (b, d) = b.result ≡ 1 → starts.Started d 0
  Knows (start_tested can2) (b, d) = starts.Started d 0 × (b.result ≡ 1 → starts.Started d 1)
  Knows set_flag (b, d) = starts.Started d 0 × starts.Started d 1
  Knows ended (b, d) = b.can_f ≡ true → starts.Started d 0 × starts.Started d 1
  Knows _ s = Unit

  tested-Knows :
      (next : Point) (b : Bridge) (d : vci.Device)
      → (b.result ≡ 1 → Knows next (b, d))
      → let (p, s) = tested vci next b d in Knows p s
  unfolding tested
  tested-Knows next b d h = elim (Bool-cases (b.result == 1)) [
    | inl e ↦ rw e (h ((==_iff b.result 1).0 e))
    | inr e ↦ rw e (λ on. absurd (false_flag on))
  ]
    where
      false_flag : false ≢ true
      false_flag on = ground arith

  advance-Knows :
      (p : Point) (s : Bridge × vci.Device)
      → Knows p s
      → let (p', s') = advance vci p s in Knows p' s'
  unfolding advance index after_start after_clear
  advance-Knows open_call (b, d) k = tt
  advance-Knows open_tested (b, d) k = tested-Knows (clear_call can1) b d (λ _. tt)
  advance-Knows (clear_call can1) (b, d) k = tt
  advance-Knows (clear_call can2) (b, d) k = tt
  advance-Knows (init_call can1) (b, d) k = tt
  advance-Knows (init_call can2) (b, d) k = starts.init_keeps 1 0 _ d (omega arith) k
  advance-Knows (init_tested can1) (b, d) k = tested-Knows (start_call can1) b d (λ _. tt)
  advance-Knows (init_tested can2) (b, d) k = tested-Knows (start_call can2) b d (λ _. k)
  advance-Knows (start_call can1) (b, d) k = starts.works 0 d
  advance-Knows (start_call can2) (b, d) k =
      (starts.start_keeps 1 0 d (omega arith) k, starts.works 1 d)
  advance-Knows (start_tested can1) (b, d) k = tested-Knows (init_call can2) b d k
  advance-Knows (start_tested can2) (b, d) k = tested-Knows set_flag b d (λ e. (k.0, k.1 e))
  advance-Knows set_flag (b, d) k = λ _. k
  advance-Knows ended (b, d) k = k

  module _ (sends : Sends vci starts) where
    callback-Knows :
        (p : Point) (b : Bridge) (d : vci.Device) (channel : Channel) (msg : Frame)
        → ¬ (IsTest vci p)
        → Knows p (b, d)
        → Knows p (can_rx_callback vci (index channel) b d msg)
    unfolding can_rx_callback
    callback-Knows open_call b d channel msg h k = tt
    callback-Knows open_tested b d channel msg h k = tt
    callback-Knows (clear_call c) b d channel msg h k = tt
    callback-Knows (init_call can1) b d channel msg h k = tt
    callback-Knows (init_call can2) b d channel msg h k = sends.keeps _ 0 _ d k
    callback-Knows (init_tested c) b d channel msg h k = absurd (h tt)
    callback-Knows (start_call can1) b d channel msg h k = tt
    callback-Knows (start_call can2) b d channel msg h k = sends.keeps _ 0 _ d k
    callback-Knows (start_tested c) b d channel msg h k = absurd (h tt)
    callback-Knows set_flag b d channel msg h k = (sends.keeps _ 0 _ d k.0, sends.keeps _ 1 _ d k.1)
    callback-Knows ended b d channel msg h k =
        λ on. (sends.keeps _ 0 _ d (k on).0, sends.keeps _ 1 _ d (k on).1)

    turns-Knows :
        (p : Point) (s : Bridge × vci.Device) (ts : List Turn)
        → Unraced vci p s ts
        → Knows p s
        → let (p', s') = take_turns vci p s ts in Knows p' s'
    unfolding take_turns
    turns-Knows p s [] u k = k
    turns-Knows p s (receiving ∷ ts) u k =
        let (p', s') = advance vci p s in turns-Knows p' s' ts u (advance-Knows p s k)
    turns-Knows p (b, d) (callback channel msg ∷ ts) u k =
        turns-Knows p (can_rx_callback vci (index channel) b d msg) ts u.1
          (callback-Knows p b d channel msg u.0 k)

    -- However many callbacks come during `Init_Can` and after it, the flag is set only if both channels
    -- are started, as long as no callback comes between a call and the test of its result.
    pub init_can_unraced :
        (b : Bridge) (d : vci.Device) (ts : List Turn)
        → Unraced vci open_call (b, d) ts
        → (take_turns vci open_call (b, d) ts).0 ≡ ended
        → (take_turns vci open_call (b, d) ts).1.0.can_f ≡ true
        → starts.Started (take_turns vci open_call (b, d) ts).1.1 0
          × starts.Started (take_turns vci open_call (b, d) ts).1.1 1
    init_can_unraced b d ts u end on =
        subst (λ p. Knows p (take_turns vci open_call (b, d) ts).1) end
          (turns-Knows open_call (b, d) ts u tt) on

module _ (vci : Vci) where
  -- A callback between the start of the second channel and its test decides on the flag: `Init_Can` sets
  -- it exactly if that callback's frame has gone out, whatever the start of the channel has returned.
  pub race_decides :
      (b : Bridge) (d : vci.Device) (channel : Channel) (msg : Frame)
      → let r =
          take_turns vci
            (start_call can2)
            (b, d)
            (receiving ∷ callback channel msg ∷ receiving ∷ receiving ∷ []) in
        let sent = vci.transmit (index channel) (to_object msg) (vci.start_channel 1 d).1 in
        (r.0 ≡ ended) × (r.1.0.can_f ≡ (sent.0 == 1))
  unfolding take_turns advance can_rx_callback tested index after_start
  race_decides b d channel msg =
      let sent = vci.transmit (index channel) (to_object msg) (vci.start_channel 1 d).1 in
      elim (Bool-cases (sent.0 == 1)) [ inl e ↦ rw e (refl, refl) | inr e ↦ rw e (refl, refl) ]
