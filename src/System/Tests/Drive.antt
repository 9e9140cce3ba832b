-- ===== src/System/Tests/Drive.antt =====
-- A drive with a stop in it, over thousandths for floating point.
use wtbcar_autoware_nav.Prelude.{ℕ, refl, List, [], ◌∷◌}
use wtbcar_autoware_nav.Prelude.Int.{pos, negsuc, ◌-ℤ◌}
use wtbcar_autoware_nav.Floats.{clamp}
use wtbcar_autoware_nav.Floats.Thousandths.{thousandths, thousandths-LtIrrefl}
use wtbcar_autoware_nav.Vehicle
use wtbcar_autoware_nav.Vehicle.{
  run, step, is_autonomous_control_mode, on_control_cmd, publish_chassis_command,
}
use wtbcar_autoware_nav.Vehicle.Commands.{Allowed}
use wtbcar_autoware_nav.Vehicle.Tests.{codes, clock, driving, config, config-IsSane}
use wtbcar_autoware_nav.Chassis
use wtbcar_autoware_nav.Chassis.Bounded.{AllSent}
use wtbcar_autoware_nav.Chassis.Heartbeat.{payloads}
use wtbcar_autoware_nav.Chassis.Tests.{fresh}
use wtbcar_autoware_nav.System.Bounded.{Hears, silence, twist, switch, run-AllBounded}

abbrev at : ℕ → ℕ → ℕ
at now i = now

-- 5 m/s at -0.8 rad, which is clamped.
abbrev beyond : List ((ℕ → ℕ) × Vehicle.Event thousandths)
beyond = (clock, Vehicle.control_cmd (pos 5000) (negsuc 799)) ∷ []

abbrev heard : List ((ℕ → ℕ) × Chassis.Event thousandths)
heard = (at 1, Chassis.run_static "stop") ∷ (at 2, Chassis.twist_cmd (pos 1000) (negsuc 610)) ∷ []

drive-Hears : Hears (Vehicle.run thousandths codes driving beyond).1 heard
unfolding run step is_autonomous_control_mode on_control_cmd publish_chassis_command clamp ◌-ℤ◌
drive-Hears =
    switch "stop" (at 1) (twist 2_000_000_000 "base_link" (pos 1000) (negsuc 610) (at 2) silence)

run-AllBounded_example :
    AllSent thousandths fresh.config
      (Allowed thousandths config)
      (payloads (Chassis.run thousandths fresh heard).1)
run-AllBounded_example =
    run-AllBounded thousandths codes thousandths-LtIrrefl driving fresh beyond heard config-IsSane
      refl drive-Hears
