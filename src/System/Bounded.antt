-- ===== src/System/Bounded.antt =====
-- The speeds and angles on the CAN bus over a whole drive: vehicle_interface.cpp, the topics cmd_vel and
-- twist_cmd, and wtb_car.cpp, with run commands from elsewhere in between.
use wtbcar_autoware_nav.Prelude.{ℕ, String, ◌≡◌, refl, false, List, [], ◌∷◌}
use wtbcar_autoware_nav.Floats.{Floats, LtIrrefl}
use wtbcar_autoware_nav.Vehicle
use wtbcar_autoware_nav.Vehicle.{Codes}
use wtbcar_autoware_nav.Vehicle.Commands.{EachCommand, Allowed, IsSane, run-Allowed}
use wtbcar_autoware_nav.Chassis
use wtbcar_autoware_nav.Chassis.Bounded.{AllSent, EachDrive, run-AllSent}
use wtbcar_autoware_nav.Chassis.Heartbeat.{payloads}

-- The messages that are no chassis command.
abbrev pub IsReport : {f : Floats} → Vehicle.Message f → Type 0
IsReport (Vehicle.twist_cmd stamp frame speed steer) = ⊥
IsReport (Vehicle.cmd_vel speed steer) = ⊥
IsReport (Vehicle.run_static command) = Unit
IsReport (Vehicle.velocity_report a b x y z) = Unit
IsReport (Vehicle.steering_report a b) = Unit
IsReport (Vehicle.control_mode_report a b) = Unit
IsReport (Vehicle.gear_report a b) = Unit

-- The driver's callbacks over a drive: the chassis commands that the vehicle interface publishes, each
-- once, in order and at any time, and between them any commands of the run switch.
pub data Hears {f : Floats}
    : List (Vehicle.Message f) → List ((ℕ → ℕ) × Chassis.Event f) → Type 0 where
  silence : Hears [] []
  twist :
      {ms : List (Vehicle.Message f)} {es : List ((ℕ → ℕ) × Chassis.Event f)} (stamp : ℕ)
      (frame : String) (speed steer : f.F64) (clock : ℕ → ℕ)
      → Hears ms es
      → Hears
          (Vehicle.twist_cmd stamp frame speed steer ∷ ms)
          ((clock, Chassis.twist_cmd speed steer) ∷ es)
  velocity :
      {ms : List (Vehicle.Message f)} {es : List ((ℕ → ℕ) × Chassis.Event f)} (speed steer : f.F64)
      (clock : ℕ → ℕ)
      → Hears ms es
      → Hears (Vehicle.cmd_vel speed steer ∷ ms) ((clock, Chassis.cmd_vel speed steer) ∷ es)
  switch :
      {ms : List (Vehicle.Message f)} {es : List ((ℕ → ℕ) × Chassis.Event f)} (command : String)
      (clock : ℕ → ℕ)
      → Hears ms es
      → Hears ms ((clock, Chassis.run_static command) ∷ es)
  other :
      {ms : List (Vehicle.Message f)} {es : List ((ℕ → ℕ) × Chassis.Event f)}
      (m : Vehicle.Message f)
      → IsReport m
      → Hears ms es
      → Hears (m ∷ ms) es

module _ {ℓ} (f : Floats) (P : f.F64 → f.F64 → Type ℓ) where
  report_holds :
      (m : Vehicle.Message f) (ms : List (Vehicle.Message f))
      → IsReport m
      → EachCommand f P (m ∷ ms)
      → EachCommand f P ms
  unfolding EachCommand
  report_holds (Vehicle.twist_cmd stamp frame speed steer) ms r h = h.1
  report_holds (Vehicle.cmd_vel speed steer) ms r h = h.1
  report_holds (Vehicle.run_static command) ms r h = h
  report_holds (Vehicle.velocity_report a b x y z) ms r h = h
  report_holds (Vehicle.steering_report a b) ms r h = h
  report_holds (Vehicle.control_mode_report a b) ms r h = h
  report_holds (Vehicle.gear_report a b) ms r h = h

  heard-EachDrive :
      {ms : List (Vehicle.Message f)} {es : List ((ℕ → ℕ) × Chassis.Event f)}
      → Hears ms es
      → EachCommand f P ms
      → EachDrive f P es
  unfolding EachCommand
  heard-EachDrive silence h = tt
  heard-EachDrive (twist stamp frame speed steer clock k) h = (h.0, heard-EachDrive k h.1)
  heard-EachDrive (velocity speed steer clock k) h = (h.0, heard-EachDrive k h.1)
  heard-EachDrive (switch command clock k) h = heard-EachDrive k h
  heard-EachDrive (other m r k) h = heard-EachDrive k (report_holds m _ r h)

module _ (f : Floats) (codes : Codes) (irrefl : LtIrrefl f) where
  -- Over any sequence of callbacks of the vehicle interface, with its commands heard by the driver at
  -- any times and any run commands in between, every frame on the bus is packed for a speed, cut to
  -- the driver's limit, and an angle of which neither compares as below or above its configured range in
  -- the vehicle interface. A NaN compares as neither, and is packed. The limits of the vehicle interface
  -- are ordered, and the driver's limit is not below zero.
  pub run-AllBounded :
      (v : Vehicle.Vehicle f) (c : Chassis.Car f) (es : List ((ℕ → ℕ) × Vehicle.Event f))
      (heard : List ((ℕ → ℕ) × Chassis.Event f))
      → IsSane f v.config
      → f.lt c.max_speed (f.literal 0 0) ≡ false
      → Hears (Vehicle.run f codes v es).1 heard
      → AllSent f c.config (Allowed f v.config) (payloads (Chassis.run f c heard).1)
  run-AllBounded v c es heard sane forwards h =
      (run-AllSent f c.config (Allowed f v.config) sane.rest forwards c heard refl
        (heard-EachDrive f (Allowed f v.config) h (run-Allowed f codes irrefl v es sane))).1
