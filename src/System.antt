-- ===== src/System.antt =====
-- The two nodes together: the run switch of wtb_car_driver/src/wtb_car.cpp under the periodic "start"
-- of wtb_vehicle_interface/src/vehicle_interface.cpp, over the topic run_static.
pub mod Commanded
pub mod Bus
pub mod Hearing
pub mod Reported
pub mod Bounded
pub mod Silence
pub mod Wiring
pub mod Topics
mod Tests
use wtbcar_autoware_nav.Prelude.{
  ℕ, ◌≡◌, ◌≢◌, refl, sym, ap, ◌∙◌, subst, String, str_eq, eq_iff, Bool, true, false, List, [], ◌∷◌,
  ◌++◌, arith, ◌==◌, ◌&&◌, if_cases,
}
use wtbcar_autoware_nav.Prelude.Int.{sub_ℕ}
use wtbcar_autoware_nav.Floats.{Floats}
use wtbcar_autoware_nav.Vehicle
use wtbcar_autoware_nav.Vehicle.{Codes, Message, Event}
use wtbcar_autoware_nav.Chassis
use wtbcar_autoware_nav.Chassis.Switch.{OnlyDrives, start_after_stop}

-- What the vehicle interface publishes that the chassis driver subscribes to, as the driver's
-- callbacks, each with the readings of the clock during it.
unfoldable pub deliver :
    {f : Floats} → (ℕ → ℕ) → List (Vehicle.Message f) → List ((ℕ → ℕ) × Chassis.Event f)
deliver clock [] = []
deliver clock (Vehicle.twist_cmd stamp frame speed steer ∷ ms) =
    (clock, Chassis.twist_cmd speed steer) ∷ deliver clock ms
deliver clock (Vehicle.cmd_vel speed steer ∷ ms) =
    (clock, Chassis.cmd_vel speed steer) ∷ deliver clock ms
deliver clock (Vehicle.run_static command ∷ ms) =
    (clock, Chassis.run_static command) ∷ deliver clock ms
deliver clock (_ ∷ ms) = deliver clock ms

pub deliver-append :
    {f : Floats} (clock : ℕ → ℕ) (ms ns : List (Vehicle.Message f))
    → deliver clock (ms ++ ns) ≡ deliver clock ms ++ deliver clock ns
unfolding deliver
deliver-append clock [] ns = refl
deliver-append clock (Vehicle.twist_cmd stamp frame speed steer ∷ ms) ns =
    ap (λ l. (clock, Chassis.twist_cmd speed steer) ∷ l) (deliver-append clock ms ns)
deliver-append clock (Vehicle.cmd_vel speed steer ∷ ms) ns =
    ap (λ l. (clock, Chassis.cmd_vel speed steer) ∷ l) (deliver-append clock ms ns)
deliver-append clock (Vehicle.run_static command ∷ ms) ns =
    ap (λ l. (clock, Chassis.run_static command) ∷ l) (deliver-append clock ms ns)
deliver-append clock (Vehicle.velocity_report a b x y z ∷ ms) ns = deliver-append clock ms ns
deliver-append clock (Vehicle.steering_report a b ∷ ms) ns = deliver-append clock ms ns
deliver-append clock (Vehicle.control_mode_report a b ∷ ms) ns = deliver-append clock ms ns
deliver-append clock (Vehicle.gear_report a b ∷ ms) ns = deliver-append clock ms ns

module _ (f : Floats) (codes : Codes) where
  Drives : (ℕ → ℕ) → List (Message f) → Type 0
  Drives now ms = OnlyDrives (deliver now ms)

  command-Drives :
      (v : Vehicle.Vehicle f) (t : ℕ) (now : ℕ → ℕ) (speed steer : f.F64)
      → Drives now (Vehicle.publish_chassis_command f codes v t speed steer ∷ [])
  unfolding Drives deliver Vehicle.publish_chassis_command
  command-Drives v t now speed steer =
      if_cases {A = Vehicle.Message f} (λ m. OnlyDrives {f = f} (deliver now (m ∷ [])))
        v.publish_twist_cmd {x = Vehicle.twist_cmd t "base_link" speed steer}
        {y = Vehicle.cmd_vel speed steer} (λ _. tt) (λ _. tt)

  nothing-Drives : (now : ℕ → ℕ) → Drives now []
  unfolding Drives deliver
  nothing-Drives now = tt

  watchdog-OnlyDrives :
      (v : Vehicle.Vehicle f) (clock now : ℕ → ℕ) → Drives now (Vehicle.watchdog f codes v clock)
  unfolding Vehicle.watchdog
  watchdog-OnlyDrives v clock now =
      if_cases (Drives now)
        (Vehicle.is_autonomous_control_mode f codes v
          && f.lt v.command_timeout_sec (f.seconds (sub_ℕ (clock 0) v.last_control_time)))
        {x = Vehicle.publish_chassis_command f codes v (clock 1) (f.literal 0 0) (f.literal 0 0)
          ∷ []}
        (λ _. command-Drives v (clock 1) now _ _) (λ _. nothing-Drives now)

  reports_start :
      (v : Vehicle.Vehicle f) (now : ℕ → ℕ) (a c d e : ℕ) (s : f.F32)
      → v.current_gear ≡ codes.gear_drive
      → deliver now (
          Vehicle.steering_report a s
          ∷ Vehicle.control_mode_report c d
          ∷ (Vehicle.keep_running f codes v ++ (Vehicle.publish_gear_report f codes v e ∷ [])))
        ≡ (now, Chassis.run_static "start") ∷ []
  unfolding deliver Vehicle.keep_running Vehicle.publish_gear_report
  reports_start v now a c d e s h = ground arith

  timer_starts :
      (v : Vehicle.Vehicle f) (clock now : ℕ → ℕ)
      → v.current_gear ≡ codes.gear_drive
      → deliver now (Vehicle.on_timer f codes v clock)
        ≡ deliver now (Vehicle.watchdog f codes v clock) ++ ((now, Chassis.run_static "start") ∷ [])
  unfolding Vehicle.on_timer
  timer_starts v clock now h =
      deliver-append now (Vehicle.watchdog f codes v clock) _
      ∙ ap (λ l. deliver now (Vehicle.watchdog f codes v clock) ++ l)
          (reports_start v now _ _ _ _ _ h)

  -- While the vehicle interface is in DRIVE, a "stop" from elsewhere lasts until its next tick only:
  -- whatever the driver's state was, the messages of one tick of the timer leave it enabled.
  pub tick_undoes_stop :
      (v : Vehicle.Vehicle f) (c : Chassis.Car f) (stop_clock clock now : ℕ → ℕ)
      → v.current_gear ≡ codes.gear_drive
      → (Chassis.run f
          (Chassis.run_static_callback f c stop_clock "stop").0
          (deliver now (Vehicle.on_timer f codes v clock))).0.enable_run
        ≡ true
  tick_undoes_stop v c stop_clock clock now h =
      rw (timer_starts v clock now h)
        (start_after_stop f c stop_clock now _ (unfold Drives in watchdog-OnlyDrives v clock now))
