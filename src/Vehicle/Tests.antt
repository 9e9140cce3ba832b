-- ===== src/Vehicle/Tests.antt =====
-- Runs of the vehicle interface on concrete messages, over thousandths for floating point.
use wtbcar_autoware_nav.Prelude.{ℕ, ◌≡◌, refl, true, List, [], ◌∷◌, arith}
use wtbcar_autoware_nav.Prelude.Int.{pos, negsuc, ◌-ℤ◌}
use wtbcar_autoware_nav.Floats.{clamp}
use wtbcar_autoware_nav.Floats.Thousandths.{thousandths, thousandths-LtIrrefl}
use wtbcar_autoware_nav.Vehicle.{
  Codes, Config, Vehicle, Event, control_cmd, gear_cmd, timer, control_mode_request, run, step,
  on_timer, is_autonomous_control_mode, on_control_cmd, publish_chassis_command,
  on_control_mode_request, enter_mode,
}
use wtbcar_autoware_nav.Vehicle.Commands.{EachCommand, Allowed, IsSane, run-Allowed}
use wtbcar_autoware_nav.Vehicle.Mode.{CodesAgree, IsStop, run_manual}
use wtbcar_autoware_nav.Vehicle.Watchdog.{commands, run_timeout}

-- The values in the message definitions that the node is built against.
abbrev pub codes : Codes
codes = record {
  autonomous = 1;
  autonomous_steer_only = 2;
  autonomous_velocity_only = 3;
  manual = 4;
  request_no_command = 0;
  request_autonomous = 1;
  request_autonomous_steer_only = 2;
  request_autonomous_velocity_only = 3;
  request_manual = 4;
  gear_drive = 2;
  gear_park = 22;
  gear_neutral = 1;
}

abbrev pub config : Config thousandths
config = record {
  max_speed = pos 1000;
  max_steering_angle = pos 611;
  command_timeout_sec = pos 500;
  publish_twist_cmd = true;
}

abbrev pub clock : ℕ → ℕ
clock i = 2_000_000_000

abbrev parked : Vehicle thousandths
parked = record {
  config = config;
  current_gear = 2;
  current_control_mode = 4;
  last_control_time = 0;
  latest_velocity = pos 0;
  latest_lateral_velocity = pos 0;
  latest_heading_rate = pos 0;
  latest_steering_angle = pos 0;
}

abbrev pub driving : Vehicle thousandths
driving = record parked { current_control_mode = 1; last_control_time = 1_900_000_000 }

abbrev drive : List ((ℕ → ℕ) × Event thousandths)
drive = (clock, control_mode_request 1) ∷ (clock, control_cmd (pos 5000) (negsuc 799)) ∷ []

codes-CodesAgree : CodesAgree codes
codes-CodesAgree = omega arith

pub config-IsSane : IsSane thousandths config
unfolding ◌-ℤ◌
config-IsSane = record {
  speed_ordered = refl;
  steer_ordered = refl;
  rest = ((refl, refl), (refl, refl));
}

-- A command beyond the limits is clamped.
drive_clamps : commands (run thousandths codes parked drive).1 ≡ (pos 1000, negsuc 610) ∷ []
unfolding run step on_control_mode_request enter_mode is_autonomous_control_mode on_control_cmd
    publish_chassis_command clamp ◌-ℤ◌
drive_clamps = refl

run-Allowed_example :
    EachCommand thousandths (Allowed thousandths config) (run thousandths codes parked drive).1
run-Allowed_example = run-Allowed thousandths codes thousandths-LtIrrefl parked drive config-IsSane

run_manual_example :
    ((run thousandths codes parked
        ((clock, control_cmd (pos 5) (pos 5)) ∷ (clock, gear_cmd 22) ∷ [])).0.current_control_mode
      ≡ 4)
    × EachCommand thousandths
        (IsStop thousandths)
        (run thousandths codes parked
          ((clock, control_cmd (pos 5) (pos 5)) ∷ (clock, gear_cmd 22) ∷ [])).1
run_manual_example =
    run_manual thousandths codes codes-CodesAgree parked
      ((clock, control_cmd (pos 5) (pos 5)) ∷ (clock, gear_cmd 22) ∷ []) refl (refl, (refl, tt))

abbrev late : ℕ → ℕ
late i = 2_500_000_000

run_timeout_example :
    commands (
      on_timer thousandths codes
        (run thousandths codes driving ((clock, gear_cmd 2) ∷ (clock, timer) ∷ [])).0
        late)
    ≡ (pos 0, pos 0) ∷ []
unfolding ◌-ℤ◌ is_autonomous_control_mode
run_timeout_example =
    run_timeout thousandths codes driving ((clock, gear_cmd 2) ∷ (clock, timer) ∷ []) late refl tt
