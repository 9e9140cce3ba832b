-- ===== src/CarOnly/Tests.antt =====
-- The driver without the run switch next to the full one, over thousandths for floating point.
use wtbcar_autoware_nav.Prelude.{ℕ, ◌+◌, ◌≡◌, refl, List, [], ◌∷◌, some}
use wtbcar_autoware_nav.Prelude.Int.{pos, ◌+ℤ◌, ◌-ℤ◌, ◌*ℤ◌}
use wtbcar_autoware_nav.Floats.Thousandths.{thousandths, thousandths-LtIrrefl}
use wtbcar_autoware_nav.Chassis.Tests.{fresh}
use wtbcar_autoware_nav.Chassis.Odometry
use wtbcar_autoware_nav.Chassis.Odometry.{
  Pose, normalize_angle, turn_up, turn_down, limit_dt, settle_speed, yaw_rate,
}
use wtbcar_autoware_nav.Chassis.Odometry.Heading.{Suffices}
use wtbcar_autoware_nav.Chassis.Odometry.Tests.{thousandths-Turns}
use wtbcar_autoware_nav.CarOnly.{
  Odom, max_delta, limit_steering, publish_odom, advance, calculate_and_published,
}
use wtbcar_autoware_nav.CarOnly.Agreement.{
  as_only, Steerable, calculate_and_published-agree, AllSteerable, raw_heading,
  calculate_and_published-AllSteerable,
}

abbrev start : Pose thousandths
start = record { x = pos 0; y = pos 0; theta = pos 0; last_time = 1_000_000_000 }

abbrev clock : ℕ → ℕ
clock i = 1_050_000_000 + i

straight : Steerable thousandths (pos 100)
unfolding max_delta ◌-ℤ◌ ◌*ℤ◌
straight = (refl, refl)

calculate_and_published-agree_example :
    calculate_and_published thousandths 2 fresh.calibration start clock (pos 2000) (pos 100)
    ≡ as_only thousandths (
        Odometry.calculate_and_published thousandths 2 fresh.calibration start clock
          (pos 2000)
          (pos 100))
unfolding ◌-ℤ◌
calculate_and_published-agree_example =
    calculate_and_published-agree thousandths 2 fresh.calibration start clock (pos 2000) (pos 100)
      straight

-- Two radians are reported; the message has the yaw rate of 0.523.
abbrev turned : Pose thousandths
turned = record { x = pos 100; y = pos 0; theta = pos 52; last_time = 1_050_000_000 }

abbrev message : Odom thousandths
message = record {
  stamp = 1_050_000_001;
  frame_id = "odom";
  child_frame_id = "base_footprint";
  position_x = pos 100;
  position_y = pos 0;
  orientation_z = pos 26;
  orientation_w = pos 1000;
  linear_x = pos 2000;
  angular_z = pos 1046;
}

hard_turn :
    calculate_and_published thousandths 2 fresh.calibration start clock (pos 2000) (pos 2000)
    ≡ some (turned, message ∷ [])
unfolding calculate_and_published advance publish_odom limit_steering max_delta normalize_angle
    turn_up turn_down limit_dt settle_speed yaw_rate ◌+ℤ◌ ◌-ℤ◌ ◌*ℤ◌
hard_turn = refl

one_pass :
    Suffices thousandths 0
      (raw_heading thousandths fresh.calibration start clock (pos 2000) (pos 2000))
unfolding limit_steering max_delta limit_dt settle_speed yaw_rate ◌+ℤ◌ ◌-ℤ◌ ◌*ℤ◌
one_pass = record { downwards = refl; upwards = refl }

calculate_and_published-AllSteerable_example :
    (r : Pose thousandths × List (Odom thousandths)) × ((calculate_and_published thousandths 1
          fresh.calibration start clock
          (pos 2000)
          (pos 2000)
        ≡ some r)
      × AllSteerable thousandths fresh.calibration r.1)
calculate_and_published-AllSteerable_example =
    calculate_and_published-AllSteerable thousandths 0 fresh.calibration start clock (pos 2000)
      (pos 2000) (λ x. thousandths-LtIrrefl x) (unfold max_delta ◌-ℤ◌ ◌*ℤ◌ in refl)
      thousandths-Turns one_pass
