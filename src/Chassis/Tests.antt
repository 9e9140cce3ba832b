-- ===== src/Chassis/Tests.antt =====
-- Runs of the chassis driver on concrete commands, over thousandths for floating point.
use wtbcar_autoware_nav.Prelude.{
  ℕ, String, eq_iff, ◌≡◌, ◌≢◌, refl, true, false, List, [], ◌∷◌, length, some, arith,
}
use wtbcar_autoware_nav.Prelude.Int.{pos, negsuc, ◌-ℤ◌, ◌+ℤ◌, ◌*ℤ◌}
use wtbcar_autoware_nav.Floats.Thousandths.{thousandths}
use wtbcar_autoware_nav.Chassis.{
  Config, Car, init, Event, Frame, Output, read_feedback, can_tx_callback, cmd_vel, twist_cmd,
  run_static, may_resume, cmd_vel_callback, twist_cmd_vel_callback, run_static_callback, run,
}
use wtbcar_autoware_nav.Chassis.Odometry.{limit_dt, settle_speed, yaw_rate}
use wtbcar_autoware_nav.Chassis.Odometry.Heading.{Suffices}
use wtbcar_autoware_nav.Chassis.Odometry.Tests.{thousandths-Turns}
use wtbcar_autoware_nav.Chassis.Odometry.Update.{raw_heading}
use wtbcar_autoware_nav.Chassis.Feedback.{Fed, Untouched, can_tx_callback-Fed}
use wtbcar_autoware_nav.Chassis.Codec.{
  parse_ctrl_fb, parse_gear, gear_map, parse_speed, parse_angle, to_signed,
}
use wtbcar_autoware_nav.Chassis.Heartbeat.{payloads, Keeps, run-Keeps}
use wtbcar_autoware_nav.Chassis.Stopped.{Silent, stopped-Silent}
use wtbcar_autoware_nav.Chassis.Enable.{
  speed_commands, stop_gates_cmd_vel, second_stop_ignored, stop_misses_twist_cmd,
}
use wtbcar_autoware_nav.Chassis.Speed.{FitsField}

abbrev config : Config thousandths
config = record {
  calibration = record {
    wheelbase = pos 1000;
    vel_scale = pos 1000;
    steer_offset = pos 0;
    child_frame_id = "base_footprint";
  };
  max_speed = pos 1000;
  stop_time_threshold = pos 3000;
}

abbrev pub fresh : Car thousandths
fresh = record (init thousandths config 0) { alive_counter = 14 }

-- A stopped driver that never resumes by itself.
abbrev parked : Car thousandths
parked = record fresh {
  enable_run = false;
  config = record config { stop_time_threshold = negsuc 999 };
}

abbrev at : ℕ → ℕ → ℕ
at now i = now

empty-stop : ◌≢◌ {A = String} "" "stop"
empty-stop e = ground (arith, eq_iff "" "stop")

abbrev commands : List ((ℕ → ℕ) × Event thousandths)
commands =
    (at 0, cmd_vel (pos 400) (pos 100))
    ∷ (at 1, run_static "stop")
    ∷ (at 2, twist_cmd (negsuc 299) (pos 0))
    ∷ []

run-Keeps_example : Keeps fresh (run thousandths fresh commands)
run-Keeps_example = run-Keeps thousandths fresh commands (omega arith)

abbrev quiet : List ((ℕ → ℕ) × Event thousandths)
quiet = (at 5, cmd_vel (pos 400) (pos 0)) ∷ (at 6, run_static "stop") ∷ []

stopped-Silent_example : Silent parked (run thousandths parked quiet)
stopped-Silent_example = stopped-Silent thousandths parked quiet refl refl (stop-start, tt)
  where
    stop-start : ◌≢◌ {A = String} "stop" "start"
    stop-start e = ground (arith, eq_iff "stop" "start")

stop_gates_cmd_vel_example :
    let d = (run_static_callback thousandths fresh (at 1_000_000_000) "stop").0 in
    let r = cmd_vel_callback thousandths d (at 4_500_000_000) (pos 400) (pos 0) in
    (run thousandths d (speed_commands thousandths ((at 3_000_000_000, pos 400, pos 0) ∷ []))
      ≡ (d, []))
    × (r.0.enable_run ≡ true)
    × (length (payloads r.1) ≡ 3)
unfolding may_resume
stop_gates_cmd_vel_example =
    stop_gates_cmd_vel thousandths fresh (at 1_000_000_000)
      ((at 3_000_000_000, pos 400, pos 0) ∷ []) (at 4_500_000_000) (pos 400) (pos 0) refl empty-stop
      (refl, tt)

second_stop_ignored_example :
    let d = (run_static_callback thousandths fresh (at 1_000_000_000) "stop").0 in
    let e = (cmd_vel_callback thousandths d (at 4_500_000_000) (pos 400) (pos 0)).0 in
    (run_static_callback thousandths e (at 5_000_000_000) "stop" ≡ (e, [])) × (e.enable_run ≡ true)
unfolding may_resume
second_stop_ignored_example =
    second_stop_ignored thousandths fresh (at 1_000_000_000) (at 4_500_000_000) (at 5_000_000_000)
      (pos 400) (pos 0) empty-stop refl

stop_misses_twist_cmd_example :
    let r =
      twist_cmd_vel_callback thousandths
        (record fresh { enable_run = false })
        (at 7)
        (pos 400)
        (pos 0) in
    (r.1
      ≡ (twist_cmd_vel_callback thousandths
          (record fresh { enable_run = true })
          (at 7)
          (pos 400)
          (pos 0)).1)
    × (length (payloads r.1) ≡ 3)
    × (r.0.enable_run ≡ false)
stop_misses_twist_cmd_example = stop_misses_twist_cmd thousandths fresh (at 7) (pos 400) (pos 0)

small_angle : FitsField (negsuc 1099)
small_angle = (omega arith, omega arith)

-- Feedback of gear D at 0.5 m/s, straight on, 50 ms after the start.
abbrev pub feedback : Frame
feedback = record {
  stamp = 49_000_000;
  id = 0x18C4D2EF;
  is_extended = true;
  is_rtr = false;
  is_error = false;
  dlc = 8;
  payload = record { b0 = 0x44; b1 = 0x1F; b2 = 0; b3 = 0; b4 = 0; b5 = 0; b6 = 0; b7 = 0 };
}

pub no_turn : Suffices thousandths 0 (
    raw_heading thousandths fresh.calibration fresh.pose
      (at 50_000_000)
      (read_feedback thousandths feedback.payload).0
      (read_feedback thousandths feedback.payload).1)
unfolding read_feedback parse_ctrl_fb parse_gear gear_map parse_speed parse_angle to_signed limit_dt
    settle_speed yaw_rate ◌+ℤ◌ ◌-ℤ◌ ◌*ℤ◌
no_turn = record { downwards = refl; upwards = refl }

can_tx_callback-Fed_example :
    (r : Car thousandths × List (Output thousandths)) × ((can_tx_callback thousandths 1 fresh
          (at 50_000_000)
          feedback
        ≡ some r)
      × (Fed thousandths fresh (at 50_000_000) feedback r × Untouched thousandths fresh r.0))
can_tx_callback-Fed_example =
    can_tx_callback-Fed thousandths 0 fresh (at 50_000_000) feedback thousandths-Turns no_turn
