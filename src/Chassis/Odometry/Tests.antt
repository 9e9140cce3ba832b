-- ===== src/Chassis/Odometry/Tests.antt =====
-- The odometry of wtb_car.cpp over thousandths for floating point.
use wtbcar_autoware_nav.Prelude.{ℕ, ◌+◌, ◌≡◌, refl, true, false, List, some, arith}
use wtbcar_autoware_nav.Prelude.Int.{ℤ, pos, negsuc, ltb_ℤ, ◌+ℤ◌, ◌-ℤ◌, ◌*ℤ◌, +ℤ_parts, -ℤ_parts}
use wtbcar_autoware_nav.Floats.Thousandths.{thousandths}
use wtbcar_autoware_nav.Chassis.Odometry.{
  Calibration, Pose, Odom, limit_dt, settle_speed, yaw_rate, normalize_angle, turn_down, turn_up,
  calculate_and_published,
}
use wtbcar_autoware_nav.Chassis.Odometry.Heading.{Turns, Suffices}
use wtbcar_autoware_nav.Chassis.Odometry.Update.{Updated, raw_heading, calculate_and_published_lem}

pub thousandths-Turns : Turns thousandths
unfolding ◌+ℤ◌ ◌-ℤ◌ ◌*ℤ◌
thousandths-Turns = record { down_stays = λ a h. down_stays a h; up_stays = λ a h. up_stays a h }
  where
    down_stays : (a : ℤ) → ltb_ℤ (pos 3142) a ≡ true → ltb_ℤ (a -ℤ pos 6284) (negsuc 3141) ≡ false
    down_stays a h = ground (arith, -ℤ_parts a (pos 6284))

    up_stays : (a : ℤ) → ltb_ℤ a (negsuc 3141) ≡ true → ltb_ℤ (pos 3142) (a +ℤ pos 6284) ≡ false
    up_stays a h = ground (arith, +ℤ_parts a (pos 6284))

-- Twelve radians take two turns.
normalize_twelve : normalize_angle thousandths 3 (pos 12000) ≡ some (negsuc 567)
unfolding normalize_angle turn_down turn_up ◌+ℤ◌ ◌-ℤ◌ ◌*ℤ◌
normalize_twelve = refl

abbrev calibration : Calibration thousandths
calibration = record {
  wheelbase = pos 1000;
  vel_scale = pos 1000;
  steer_offset = pos 0;
  child_frame_id = "base_footprint";
}

abbrev turning : Pose thousandths
turning = record { x = pos 0; y = pos 0; theta = pos 3140; last_time = 1_000_000_000 }

abbrev clock : ℕ → ℕ
clock i = 1_050_000_000 + i

-- 2 m/s at 0.5 rad for 50 ms turn the heading across the half turn.
crosses :
    Suffices thousandths 1 (raw_heading thousandths calibration turning clock (pos 2000) (pos 500))
unfolding ◌+ℤ◌ ◌-ℤ◌ ◌*ℤ◌ limit_dt settle_speed yaw_rate
crosses = record { downwards = refl; upwards = refl }

calculate_and_published_lem_example :
    (r : Pose thousandths × List (Odom thousandths)) × ((calculate_and_published thousandths 2
          calibration turning clock
          (pos 2000)
          (pos 500)
        ≡ some r)
      × Updated thousandths turning clock r)
calculate_and_published_lem_example =
    calculate_and_published_lem thousandths 1 calibration turning clock (pos 2000) (pos 500)
      thousandths-Turns crosses
