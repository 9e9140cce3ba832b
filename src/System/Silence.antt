-- ===== src/System/Silence.antt =====
-- What the car gets when Autoware falls silent: the watchdog of vehicle_interface.cpp, the topics
-- twist_cmd and cmd_vel, wtb_car.cpp, and the frames on the CAN bus.
use wtbcar_autoware_nav.Prelude.{
  append-nil, ℕ, ◌≡◌, refl, sym, subst, ap, ap₂, ◌∙◌, Bool, true, false, ◌==◌, List, [], ◌∷◌, ◌++◌,
  ◌⊎◌, inl, inr, if◌then◌else◌, arith,
}
use wtbcar_autoware_nav.Prelude.Int.{sub_ℕ}
use wtbcar_autoware_nav.Floats.{Floats}
use wtbcar_autoware_nav.Vehicle
use wtbcar_autoware_nav.Vehicle.{Codes}
use wtbcar_autoware_nav.Vehicle.Watchdog.{
  IsSilent, SameDeadline, is_overdue, silent-SameDeadline, still_autonomous,
}
use wtbcar_autoware_nav.Chassis
use wtbcar_autoware_nav.Chassis.Stopping.{
  ZeroLaws, Stops, twist_cmd-Stops, cmd_vel-Stops, start_sends_nothing,
}
use wtbcar_autoware_nav.System.{deliver, deliver-append}

module _ (f : Floats) (codes : Codes) where
  abbrev zero : f.F64
  zero = f.literal 0 0

  -- The command to stop, as the driver gets it.
  abbrev stop_event : Bool → Chassis.Event f
  stop_event twist = if twist then Chassis.twist_cmd zero zero else Chassis.cmd_vel zero zero

  -- At most a "start" for the driver among what a tick publishes after the watchdog's command.
  reports_deliver :
      (v : Vehicle.Vehicle f) (now : ℕ → ℕ) (a c d e : ℕ) (s : f.F32)
      → deliver now (
          Vehicle.steering_report a s
          ∷ Vehicle.control_mode_report c d
          ∷ (Vehicle.keep_running f codes v ++ (Vehicle.publish_gear_report f codes v e ∷ [])))
        ≡ (if v.current_gear == codes.gear_drive
            then (now, Chassis.run_static "start") ∷ []
            else [])
  unfolding deliver Vehicle.keep_running Vehicle.publish_gear_report
  reports_deliver v now a c d e s = ground arith

  reports_send_nothing :
      (c : Chassis.Car f) (now : ℕ → ℕ) (driving : Bool)
      → (Chassis.run f c (if driving then (now, Chassis.run_static "start") ∷ [] else [])).1 ≡ []
  unfolding Chassis.run Chassis.step
  reports_send_nothing c now true = ap (λ os. os ++ []) (start_sends_nothing f c now)
  reports_send_nothing c now false = refl

  overdue_watchdog :
      (v : Vehicle.Vehicle f) (clock now : ℕ → ℕ)
      → Vehicle.is_autonomous_control_mode f codes v ≡ true
      → is_overdue f codes v (clock 0) ≡ true
      → deliver now (Vehicle.watchdog f codes v clock) ≡ (now, stop_event v.publish_twist_cmd) ∷ []
  unfolding Vehicle.watchdog Vehicle.publish_chassis_command deliver
  overdue_watchdog v clock now mode late = rw (mode, late) (at v.publish_twist_cmd)
    where
      at :
          (b : Bool)
          → deliver {f = f} now (
              (if b
                then Vehicle.twist_cmd (clock 1) "base_link" zero zero
                else Vehicle.cmd_vel zero zero)
              ∷ [])
            ≡ (now, stop_event b) ∷ []
      at true = refl
      at false = refl

  overdue_tick :
      (v : Vehicle.Vehicle f) (clock now : ℕ → ℕ)
      → Vehicle.is_autonomous_control_mode f codes v ≡ true
      → is_overdue f codes v (clock 0) ≡ true
      → deliver now (Vehicle.on_timer f codes v clock)
        ≡ (now, stop_event v.publish_twist_cmd)
          ∷ (if v.current_gear == codes.gear_drive
              then (now, Chassis.run_static "start") ∷ []
              else [])
  unfolding Vehicle.on_timer
  overdue_tick v clock now mode late =
      deliver-append now (Vehicle.watchdog f codes v clock) _
      ∙ ap₂ (λ a b. a ++ b) (overdue_watchdog v clock now mode late)
          (reports_deliver v now _ _ _ _ _)

  stop_event-Stops :
      (laws : ZeroLaws f) (c : Chassis.Car f) (now : ℕ → ℕ) (twist : Bool)
      → f.lt c.max_speed zero ≡ false
      → (twist ≡ true) ⊎ (c.enable_run ≡ true)
      → Stops {f = f} (Chassis.step f c (now, stop_event twist)).1
  unfolding Chassis.step
  stop_event-Stops laws c now true h way = twist_cmd-Stops f laws c now h
  stop_event-Stops laws c now false h (inl e) = ground arith
  stop_event-Stops laws c now false h (inr e) = cmd_vel-Stops f laws c now h e

  -- Only the first of the events of a tick sends frames.
  first_sends :
      (c : Chassis.Car f) (now : ℕ → ℕ) (e : Chassis.Event f) (driving : Bool)
      → (Chassis.run f c
          ((now, e) ∷ (if driving then (now, Chassis.run_static "start") ∷ [] else []))).1
        ≡ (Chassis.step f c (now, e)).1
  unfolding Chassis.run
  first_sends c now e driving =
      ap (λ os. (Chassis.step f c (now, e)).1 ++ os) (reports_send_nothing _ now driving)
      ∙ append-nil (Chassis.step f c (now, e)).1

  -- An autonomous vehicle interface that has got neither a control command nor a mode request for
  -- longer than the timeout, whatever else it got meanwhile, stops the car at its next tick: the
  -- driver's frames for the messages of that tick are three, and all read as gear D, speed 0 and
  -- angle 0. Its commands must go over twist_cmd or the driver be enabled, the driver's speed limit
  -- must not be negative, and zero behave as in IEEE arithmetic.
  pub silence-Stops :
      (laws : ZeroLaws f) (v : Vehicle.Vehicle f) (c : Chassis.Car f)
      (es : List ((ℕ → ℕ) × Vehicle.Event f)) (clock now : ℕ → ℕ)
      → Vehicle.is_autonomous_control_mode f codes v ≡ true
      → IsSilent es
      → is_overdue f codes v (clock 0) ≡ true
      → f.lt c.max_speed (f.literal 0 0) ≡ false
      → (v.publish_twist_cmd ≡ true) ⊎ (c.enable_run ≡ true)
      → Stops {f = f}
          (Chassis.run f c
            (deliver now (Vehicle.on_timer f codes (Vehicle.run f codes v es).0 clock))).1
  silence-Stops laws v c es clock now mode silent late limit way =
      let w = (Vehicle.run f codes v es).0 in
      let d = silent-SameDeadline f codes v es silent in
      let driving = w.current_gear == codes.gear_drive in
      subst (Stops {f = f})
        (sym (
          ap (λ evs. (Chassis.run f c evs).1)
            (overdue_tick w clock now (still_autonomous f codes v w d mode) (still_late v w d late))
          ∙ first_sends c now (stop_event w.publish_twist_cmd) driving))
        (stop_event-Stops laws c now w.publish_twist_cmd limit
          (subst (λ b. (b ≡ true) ⊎ (c.enable_run ≡ true)) (sym d.same_topic) way))
    where
      still_late :
          (u w : Vehicle.Vehicle f)
          → SameDeadline f u w
          → is_overdue f codes u (clock 0) ≡ true
          → is_overdue f codes w (clock 0) ≡ true
      still_late u w d h =
          ap₂ (λ (limit : f.F64) (start : ℕ). f.lt limit (f.seconds (sub_ℕ (clock 0) start)))
            d.same_timeout d.same_time
          ∙ h
