-- ===== src/System/Tests.antt =====
-- A stopped car under one tick of the vehicle interface, over thousandths for floating point.
mod Drive
mod Feedback
mod Silence
mod Topics
use wtbcar_autoware_nav.Prelude.{ℕ, ◌≡◌, refl, true, List, [], ◌∷◌, length, arith}
use wtbcar_autoware_nav.Floats.Thousandths.{thousandths}
use wtbcar_autoware_nav.Vehicle
use wtbcar_autoware_nav.Vehicle.Tests.{codes, driving}
use wtbcar_autoware_nav.Chassis
use wtbcar_autoware_nav.Chassis.Tests.{fresh}
use wtbcar_autoware_nav.Prelude.Int.{pos, ◌-ℤ◌, ◌*ℤ◌}
use wtbcar_autoware_nav.Floats.{clamp}
use wtbcar_autoware_nav.Chassis.{whole_degrees, limit_speed}
use wtbcar_autoware_nav.Chassis.Codec.{steer_angle_int, speed_int}
use wtbcar_autoware_nav.Chassis.Heartbeat.{payloads}
use wtbcar_autoware_nav.Chassis.Speed.{AllRead, FitsField, sent_angle}
use wtbcar_autoware_nav.System.Commanded.{within_speed, within_steer, control_cmd-AllRead}
use wtbcar_autoware_nav.System.{deliver, tick_undoes_stop}

abbrev at : ℕ → ℕ → ℕ
at now i = now

tick_undoes_stop_example :
    (Chassis.run thousandths
      (Chassis.run_static_callback thousandths fresh (at 1_000_000_000) "stop").0
      (deliver
        (at 1_050_000_000)
        (Vehicle.on_timer thousandths codes driving (at 1_040_000_000)))).0.enable_run
    ≡ true
tick_undoes_stop_example =
    tick_undoes_stop thousandths codes driving fresh (at 1_000_000_000) (at 1_040_000_000)
      (at 1_050_000_000) refl

-- 2 m/s and 0.1 rad, cut to the driver's 1 m/s.
small_angle : FitsField (
    sent_angle thousandths fresh
      (within_speed thousandths codes driving (pos 2000))
      (within_steer thousandths codes driving (pos 100)))
unfolding whole_degrees limit_speed steer_angle_int clamp ◌-ℤ◌ ◌*ℤ◌
small_angle = (omega arith, omega arith)

control_cmd-AllRead_example :
    let out =
      payloads
        (Chassis.run thousandths fresh (
          deliver
            (at 2)
            (Vehicle.on_control_cmd thousandths codes driving (at 1) (pos 2000) (pos 100)).1)).1 in
    AllRead "D" 1000 (pos 500) out × (length out ≡ 3)
unfolding whole_degrees limit_speed steer_angle_int speed_int clamp
    Vehicle.is_autonomous_control_mode ◌-ℤ◌ ◌*ℤ◌
control_cmd-AllRead_example =
    control_cmd-AllRead thousandths codes driving fresh (at 1) (at 2) (pos 2000) (pos 100) refl refl
      small_angle

-- A stop and two commands, given to a box that takes everything.
abbrev commands : List ((ℕ → ℕ) × Chassis.Event thousandths)
commands =
    (at 1, Chassis.run_static "stop")
    ∷ (at 2, Chassis.cmd_vel (pos 500) (pos 0))
    ∷ (at 3, Chassis.twist_cmd (pos 500) (pos 100))
    ∷ []
