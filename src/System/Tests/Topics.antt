-- ===== src/System/Tests/Topics.antt =====
-- The nodes as a launch without parameters starts them, over thousandths for floating point.
use wtbcar_autoware_nav.Prelude.{String, if◌then◌else◌}
use wtbcar_autoware_nav.Prelude.Int.{pos}
use Prim.Native.String.{◌++◌ as ◌<>◌}
use wtbcar_autoware_nav.Floats.Thousandths.{thousandths}
use wtbcar_autoware_nav.Ros.Tests.{unset, unset-Unset}
use wtbcar_autoware_nav.CanBridge.{lost}
use wtbcar_autoware_nav.CanBridge.Tests.{box, both}
use wtbcar_autoware_nav.Ahrs.Messages.{Motion}
use wtbcar_autoware_nav.Vehicle.Tests.{codes}
use wtbcar_autoware_nav.System.Wiring.{is_absolute, InRoot}
use wtbcar_autoware_nav.System.Topics.{Started, construct-Started}

abbrev in_root : String → String
in_root name = if is_absolute name then name else "/" <> name

in_root-InRoot : InRoot in_root
in_root-InRoot = record { complete = λ name h. rw h; relative = λ name h. rw h }

abbrev blank : Motion thousandths
blank = record {
  orientation = record { w = pos 1000; x = pos 0; y = pos 0; z = pos 0 };
  angular_velocity = record { x = pos 0; y = pos 0; z = pos 0 };
  linear_acceleration = record { x = pos 0; y = pos 0; z = pos 0 };
}

construct-Started_example :
    Started in_root in_root-InRoot thousandths codes unset unset unset unset 7
      (box lost lost)
      both
      blank
construct-Started_example =
    construct-Started in_root in_root-InRoot thousandths codes unset unset unset unset 7
      (box lost lost) both blank unset-Unset unset-Unset unset-Unset unset-Unset
