-- ===== src/CanBridge/Connection.antt =====
-- The connection of can_bridge_node.cpp to the CAN box: what the flag can_f promises, and how the
-- node reacts when the box is lost.
use wtbcar_autoware_nav.Prelude.{
  ℕ, zero, suc, ◌≡◌, ◌≢◌, refl, ◌==◌, true, false, if_cases, [], some, arith, ==_iff,
}
use wtbcar_autoware_nav.CanBridge.{
  InitConfig, lost, objects, Vci, Bridge, checked, init_can, to_messages, receive_second,
  can_receive_parse, can_receive_loop,
}

-- What the node relies on in the library: a channel whose start returns 1 is started, and stays so
-- while another channel is initialised or started.
pub record Starts (vci : Vci) : Type 1 where
  pub Started : vci.Device → ℕ → Type 0
  pub works :
      (channel : ℕ) (d : vci.Device)
      → (vci.start_channel channel d).0 ≡ 1
      → Started (vci.start_channel channel d).1 channel
  pub init_keeps :
      (channel other : ℕ) (config : InitConfig) (d : vci.Device)
      → other ≢ channel
      → Started d other
      → Started (vci.init_channel channel config d).1 other
  pub start_keeps :
      (channel other : ℕ) (d : vci.Device)
      → other ≢ channel
      → Started d other
      → Started (vci.start_channel channel d).1 other

module _ (vci : Vci) (starts : Starts vci) where
  -- If the flag is set, both channels are started.
  abbrev pub Ready : Bridge × vci.Device → Type 0
  Ready (b, d) = b.can_f ≡ true → starts.Started d 0 × starts.Started d 1

  false≢true : false ≢ true
  false≢true e = ground arith

  checked-Ready :
      (call : ℕ × vci.Device) (rest : vci.Device → Bridge × vci.Device)
      → (call.0 ≡ 1 → Ready (rest call.1))
      → Ready (checked vci call rest)
  unfolding checked
  checked-Ready call rest h =
      if_cases {A = Bridge × vci.Device} Ready (call.0 == 1) {x = rest call.1}
        {y = (record { can_f = false; result = call.0 }, call.1)} (λ e. h ((==_iff call.0 1).0 e))
        (λ _ e. absurd (false≢true e))

  -- After `Init_Can`, the flag is set only if both channels are started.
  pub init_can-Ready : (d : vci.Device) → Ready (init_can vci d)
  unfolding init_can
  init_can-Ready d = checked-Ready _ _ (λ _. checked-Ready _ _ (λ _. checked-Ready _ _ (λ one.
      checked-Ready _ _ (λ _. checked-Ready _ _ (λ two _. (
        starts.start_keeps 1 0 _ (omega arith)
            (starts.init_keeps 1 0 _ _ (omega arith) (starts.works 0 _ one)),
        starts.works 1 _ two,
      ))))))

  -- When a connected node loses the box, that pass of the receiving thread publishes nothing and
  -- clears the flag, the next one publishes nothing either, and if it leaves the flag set, both
  -- channels are started again.
  pub recovers :
      (b : Bridge) (d : vci.Device) (clocks : ℕ → (ℕ → ℕ) × (ℕ → ℕ))
      → b.can_f ≡ true
      → (vci.receive 0 d).0 ≡ lost
      → (r : Bridge × vci.Device) × ((can_receive_loop vci 2 b d clocks ≡ some (r, [])) × Ready r)
  unfolding can_receive_loop can_receive_parse
  recovers b d clocks on gone = (
    init_can vci (vci.receive 0 d).1,
    (rw (on, gone, can_receive_loop, can_receive_parse) refl, init_can-Ready _),
  )

module _ (vci : Vci) where
  -- A box on which the first channel is idle and the second is lost, for as long as it is only read.
  pub record SecondLost (Bad : vci.Device → Type 0) : Type 0 where
    pub idle : (d : vci.Device) → Bad d → (vci.receive 0 d).0 ≡ objects []
    pub gone : (d : vci.Device) → Bad d → (vci.receive 1 (vci.receive 0 d).1).0 ≡ lost
    pub stays : (d : vci.Device) → Bad d → Bad (vci.receive 1 (vci.receive 0 d).1).1

  -- The loss of the second channel alone goes unnoticed: over any number of passes the node stays
  -- connected as it was and publishes nothing.
  pub second_loss_unnoticed :
      (Bad : vci.Device → Type 0) (passes : ℕ) (b : Bridge) (d : vci.Device)
      (clocks : ℕ → (ℕ → ℕ) × (ℕ → ℕ))
      → SecondLost Bad
      → b.can_f ≡ true
      → Bad d
      → (d' : vci.Device) × ((can_receive_loop vci passes b d clocks ≡ some ((b, d'), [])) × Bad d')
  unfolding can_receive_loop can_receive_parse receive_second to_messages
  second_loss_unnoticed Bad zero b d clocks h on bad = (d, (refl, bad))
  second_loss_unnoticed Bad (suc passes) b d clocks h on bad =
      let (d', (same, bad')) =
        second_loss_unnoticed Bad passes b _ (λ i. clocks (suc i)) h on (h.stays d bad) in
      (
        d',
        (
          simp (
            on,
            h.idle d bad,
            h.gone d bad,
            same,
            can_receive_loop,
            can_receive_parse,
            receive_second,
          ),
          bad',
        ),
      )
