-- ===== src/System/Tests/Feedback.antt =====
-- Feedback of the drive on its way to the reports, over thousandths for floating point.
use wtbcar_autoware_nav.Prelude.{ℕ, ◌≡◌, refl, List, [], ◌∷◌, some, arith}
use wtbcar_autoware_nav.Floats.Thousandths.{thousandths}
use wtbcar_autoware_nav.Chassis
use wtbcar_autoware_nav.Chassis.Tests.{fresh, feedback, no_turn}
use wtbcar_autoware_nav.Chassis.Odometry.Tests.{thousandths-Turns}
use wtbcar_autoware_nav.CanBridge
use wtbcar_autoware_nav.CanBridge.{CanObj, objects, can_receive_parse}
use wtbcar_autoware_nav.CanBridge.Tests.{box, both, connected, drive}
use wtbcar_autoware_nav.Vehicle
use wtbcar_autoware_nav.Vehicle.Tests.{codes, driving}
use wtbcar_autoware_nav.System.Reported.{Reported, IsFeedback, drive-Reported}
use wtbcar_autoware_nav.System.Bus.{bytes_of}
use wtbcar_autoware_nav.System.Hearing.{hear, to_driver, to_vehicle}

abbrev at : ℕ → ℕ → ℕ
at now i = now

-- Feedback as the library delivers it, with another send type than that of the node's own frames.
abbrev delivered : CanObj
delivered = record {
  id = 0x18C4D2EF;
  send_type = 0;
  remote_flag = 0;
  extern_flag = 1;
  data_len = 8;
  payload = bytes_of feedback.payload;
}

delivered-IsFeedback : IsFeedback feedback.payload delivered
delivered-IsFeedback = record { drive = refl; eight = refl; whole = refl }

-- 0.5 m/s in gear D on the second channel, while the first one delivers a frame of its own.
drive-Reported_example :
    (out : List CanBridge.Output) × ((r : Chassis.Car thousandths
        × List (Chassis.Output thousandths))
      × ((can_receive_parse
              (box (objects (drive ∷ [])) (objects (delivered ∷ [])))
              connected
              both
              (at 1)
              (at 2)
            ≡ some ((connected, both), out))
          × ((hear thousandths 1 fresh (λ i. at 50_000_000) (to_driver out) ≡ some r)
              × Reported thousandths codes driving fresh
                  (at 50_000_000)
                  feedback.payload
                  (Vehicle.run thousandths codes driving (to_vehicle thousandths (at 3) r.1)))))
drive-Reported_example =
    drive-Reported thousandths codes (box (objects (drive ∷ [])) (objects (delivered ∷ [])))
      connected both (at 1) (at 2) (at 3) (λ i. at 50_000_000) fresh driving (drive ∷ []) delivered
      feedback.payload 0 refl refl refl delivered-IsFeedback (omega arith, tt) thousandths-Turns
      no_turn
