-- ===== src/System/Reported.antt =====
-- The way of feedback from the chassis: the second channel of the CAN box, can_bridge_node.cpp, the topic
-- can_tx_2, wtb_car.cpp, the topics car_odom and wtb_car_message, and vehicle_interface.cpp.
use wtbcar_autoware_nav.Prelude.{
  subst, ap₂, ◌≤◌, ℕ, suc, ◌≡◌, refl, sym, ap, ◌∙◌, true, Bool-cases, inl, inr, if◌then◌else◌, List,
  [], ◌∷◌, ◌++◌, map, some, arith,
}
use wtbcar_autoware_nav.Floats.{Floats, clamp}
use wtbcar_autoware_nav.Chassis
use wtbcar_autoware_nav.Chassis.{read_feedback, on_feedback, can_tx_callback}
use wtbcar_autoware_nav.Chassis.Codec.{Payload}
use wtbcar_autoware_nav.Chassis.Feedback.{reckoned, can_tx_callback-drive}
use wtbcar_autoware_nav.Chassis.Odometry.{settle_speed, yaw_rate, publish_odom}
use wtbcar_autoware_nav.Chassis.Odometry.Heading.{Turns, Suffices}
use wtbcar_autoware_nav.Chassis.Odometry.Update.{elapsed, raw_heading}
use wtbcar_autoware_nav.CanBridge
use wtbcar_autoware_nav.CanBridge.{CanObj, Vci, Bridge, objects, to_object, can_receive_parse}
use wtbcar_autoware_nav.CanBridge.Relay.{
  AllShort, InOrder, none_left, conveyed, padded, can_receive_parse_lem,
}
use wtbcar_autoware_nav.Vehicle
use wtbcar_autoware_nav.Vehicle.{Codes}
use wtbcar_autoware_nav.System.Bus.{bytes_of}
use wtbcar_autoware_nav.System.Hearing.{
  payload_of, car_frame, to_driver, hear, hear_one, to_vehicle,
}

-- An object as the chassis sends feedback of the drive: this identifier and these eight bytes, whatever
-- its other fields are.
pub record IsFeedback (p : Payload) (obj : CanObj) : Type 0 where
  pub drive : obj.id ≡ 0x18C4D2EF
  pub eight : obj.data_len ≡ 8
  pub whole : obj.payload ≡ bytes_of p

to_driver-first :
    (first second : List CanBridge.Frame)
    → to_driver (map CanBridge.can_tx_1 first ++ map CanBridge.can_tx_2 second)
      ≡ map car_frame second
unfolding to_driver
to_driver-first [] [] = refl
to_driver-first [] (msg ∷ msgs) = ap (λ l. car_frame msg ∷ l) (to_driver-first [] msgs)
to_driver-first (msg ∷ msgs) second = to_driver-first msgs second

-- The one message for an object with these bytes.
record Carries (p : Payload) (msgs : List CanBridge.Frame) : Type 0 where
  msg : CanBridge.Frame
  only : msgs ≡ msg ∷ []
  id : (car_frame msg).id ≡ 0x18C4D2EF
  payload : (car_frame msg).payload ≡ p

carried :
    (p : Payload) (obj : CanObj) (msgs : List CanBridge.Frame)
    → IsFeedback p obj
    → InOrder "can2" (obj ∷ []) msgs
    → Carries p msgs
unfolding car_frame
carried p obj [] h x = elim x [ ]
carried p obj (msg ∷ other ∷ msgs) h (conveyed same x) = elim x [ ]
carried p obj (msg ∷ []) h (conveyed same none_left) = record {
  msg = msg;
  only = refl;
  id = same.same_id ∙ h.drive;
  payload = ap payload_of (same.bytes ∙ ap₂ padded h.eight h.whole);
}

module _ (f : Floats) (codes : Codes) where
  -- The velocity report that feedback with these bytes leads to: none, if no time has passed since the
  -- driver's last update.
  abbrev pub velocity_reports : Chassis.Car f → (ℕ → ℕ) → Payload → List (Vehicle.Message f)
  velocity_reports c clock p =
      let (speed, angle) = read_feedback f p in
      let v = settle_speed f (f.mul speed c.calibration.vel_scale) in
      if f.le (elapsed f c.pose clock) (f.literal 0 0)
      then []
      else Vehicle.velocity_report (clock 1) "base_link" (f.narrow v) (f.narrow (f.literal 0 0))
          (f.narrow (yaw_rate f c.calibration v (f.sub angle c.calibration.steer_offset)))
        ∷ []

  -- What the callbacks of the vehicle interface make of it.
  pub record Reported (v : Vehicle.Vehicle f) (c : Chassis.Car f) (clock : ℕ → ℕ) (p : Payload)
      (r : Vehicle.Vehicle f × List (Vehicle.Message f)) : Type 0 where
    pub velocity : r.1 ≡ velocity_reports c clock p
    pub steering :
        r.0.latest_steering_angle
        ≡ clamp f (read_feedback f p).1 (f.neg v.max_steering_angle) v.max_steering_angle
    pub same_mode : r.0.current_control_mode ≡ v.current_control_mode
    pub same_gear : r.0.current_gear ≡ v.current_gear

  told :
      (v : Vehicle.Vehicle f) (c : Chassis.Car f) (clock now : ℕ → ℕ) (msg : Chassis.Frame)
      (theta : f.F64)
      → let (speed, angle) = read_feedback f msg.payload in
        let told =
          (on_feedback f c clock msg.stamp speed angle (reckoned f c clock msg.payload theta)).1 in
        Reported v c clock msg.payload (Vehicle.run f codes v (to_vehicle f now told))
  unfolding on_feedback to_vehicle Vehicle.run Vehicle.step Vehicle.on_odom Vehicle.on_car_status
      publish_odom
  told v c clock now msg theta = elim (Bool-cases (f.le (elapsed f c.pose clock) (f.literal 0 0))) [
    | inl e ↦
        rw e (record { velocity = rw e refl; steering = refl; same_mode = refl; same_gear = refl })
    | inr e ↦
        rw e (record { velocity = rw e refl; steering = refl; same_mode = refl; same_gear = refl })
  ]

  -- Feedback of the drive on the second channel of the CAN box, whatever objects of at most eight bytes
  -- the first one delivers, none included, if it is not lost: the bridge passes it on, the driver gives a result on one unit of fuel more than the turns that bring
  -- its heading back, and of what the driver publishes the vehicle interface makes one velocity report,
  -- with the speed and the yaw rate that the driver computes, or none if no time has passed. It then
  -- holds the reported angle within its limit, and its mode and its gear as they were.
  pub drive-Reported :
      (vci : Vci) (b : Bridge) (d : vci.Device) (clock clock2 now : ℕ → ℕ) (clocks : ℕ → ℕ → ℕ)
      (c : Chassis.Car f) (v : Vehicle.Vehicle f) (recs : List CanObj) (obj : CanObj) (p : Payload)
      (turns : ℕ)
      → b.can_f ≡ true
      → (vci.receive 0 d).0 ≡ objects recs
      → (vci.receive 1 (vci.receive 0 d).1).0 ≡ objects (obj ∷ [])
      → IsFeedback p obj
      → AllShort recs
      → Turns f
      → (let (speed, angle) = read_feedback f p in
          Suffices f turns (raw_heading f c.calibration c.pose (clocks 0) speed angle))
      → (out : List CanBridge.Output) × ((r : Chassis.Car f × List (Chassis.Output f))
          × ((can_receive_parse vci b d clock clock2
                ≡ some ((b, (vci.receive 1 (vci.receive 0 d).1).1), out))
              × ((hear f (suc turns) c clocks (to_driver out) ≡ some r)
                  × Reported v c (clocks 0) p (Vehicle.run f codes v (to_vehicle f now r.1)))))
  drive-Reported vci b d clock clock2 now clocks c v recs obj p turns on got got' feedback short
        laws enough =
      let (first, (second, (passed, back, back'))) =
        can_receive_parse_lem vci b d clock clock2 recs (obj ∷ []) on got got' short
          (subst (λ n. n ≤ 8) (sym feedback.eight) (omega arith), tt) in
      let q = carried p obj second feedback back' in
      let msg = car_frame q.msg in
      let (speed, angle) = read_feedback f msg.payload in
      let (theta, result) = can_tx_callback-drive f turns c (clocks 0) msg q.id laws (
        subst
          (λ x. Suffices f turns (
            raw_heading f c.calibration c.pose (clocks 0) (read_feedback f x).0
              (read_feedback f x).1))
          (sym q.payload) enough) in
      let r =
        on_feedback f c (clocks 0) msg.stamp speed angle
          (reckoned f c (clocks 0) msg.payload theta) in
      (
        map CanBridge.can_tx_1 first ++ map CanBridge.can_tx_2 second,
        (
          r,
          (
            passed,
            (
              ap (hear f (suc turns) c clocks)
                    (to_driver-first first second ∙ ap (map car_frame) q.only)
                  ∙ hear_one f (suc turns) c clocks msg r result,
              subst (λ x. Reported v c (clocks 0) x (Vehicle.run f codes v (to_vehicle f now r.1)))
                  q.payload (told v c (clocks 0) now msg theta),
            ),
          ),
        ),
      )
