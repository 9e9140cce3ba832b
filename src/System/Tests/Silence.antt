-- ===== src/System/Tests/Silence.antt =====
-- A tick of the watchdog half a second after the last command, over thousandths for floating point.
use wtbcar_autoware_nav.Prelude.{ℕ, ◌≡◌, arith, refl, ap, false, List, [], ◌∷◌, inl}
use wtbcar_autoware_nav.Prelude.Int.{pos, ◌-ℤ◌, ◌*ℤ◌}
use wtbcar_autoware_nav.Floats.Thousandths.{thousandths, quot}
use wtbcar_autoware_nav.Vehicle
use wtbcar_autoware_nav.Vehicle.{is_autonomous_control_mode}
use wtbcar_autoware_nav.Vehicle.Tests.{codes, clock, driving}
use wtbcar_autoware_nav.Chassis
use wtbcar_autoware_nav.Chassis.Stopping.{ZeroLaws, Stops}
use wtbcar_autoware_nav.Chassis.Tests.{fresh}
use wtbcar_autoware_nav.System.{deliver}
use wtbcar_autoware_nav.System.Silence.{silence-Stops}

zero_times : (n : ℕ) → pos 0 *ℤ pos n ≡ pos 0
unfolding ◌*ℤ◌
zero_times n = ground arith

thousandths-ZeroLaws : ZeroLaws thousandths
unfolding ◌*ℤ◌
thousandths-ZeroLaws = record {
  narrow_zero = refl;
  widen_zero = refl;
  of_int_zero = refl;
  to_int_zero = refl;
  to_unsigned_zero = refl;
  no_less = refl;
  mul_zero = λ m e. ap (λ a. quot a 1000) (zero_times _);
  div_pi = refl;
  div_hundredth = refl;
}

abbrev at : ℕ → ℕ → ℕ
at now i = now

abbrev halted : Chassis.Car thousandths
halted = record fresh { enable_run = false }

-- The gear and an odometry message do not count as commands.
abbrev quiet : List ((ℕ → ℕ) × Vehicle.Event thousandths)
quiet =
    (clock, Vehicle.gear_cmd 2)
    ∷ (clock, Vehicle.odom 0 (pos 700) (pos 0) (pos 0))
    ∷ (clock, Vehicle.timer)
    ∷ []

silence-Stops_example :
    Stops {f = thousandths}
      (Chassis.run thousandths halted (
        deliver (at 9) (
          Vehicle.on_timer thousandths codes
            (Vehicle.run thousandths codes driving quiet).0
            (at 2_500_000_000)))).1
unfolding ◌-ℤ◌ is_autonomous_control_mode
silence-Stops_example =
    silence-Stops thousandths codes thousandths-ZeroLaws driving halted quiet (at 2_500_000_000)
      (at 9) refl tt refl refl (inl refl)
