-- ===== src/Chassis/Stopping.antt =====
-- The command that stops the car: what SendSpeedToAKM of wtb_car.cpp sends for speed 0 and angle 0.
use wtbcar_autoware_nav.Prelude.{
  ℕ, ◌≡◌, refl, sym, List, inr, ap, false, true, [], String, subst, ◌%◌, length, if_cases, str_eq,
  arith,
}
use wtbcar_autoware_nav.Prelude.Int.{ℤ, pos}
use wtbcar_autoware_nav.Floats.{Floats}
use wtbcar_autoware_nav.Chassis.Codec.{speed_int, steer_angle_int}
use wtbcar_autoware_nav.Chassis.Heartbeat.{payloads}
use wtbcar_autoware_nav.Chassis.Speed.{AllRead, FitsField, send_frames-AllRead, length-send_frames}
use wtbcar_autoware_nav.Chassis.{
  Car, Frame, Output, command_frame, send_frames, gear_command, whole_degrees, send_speed_to_akm,
  limit_speed, cmd_vel_callback, twist_cmd_vel_callback, run_static_callback,
}

-- What IEEE arithmetic does with a zero that the driver is given.
pub record ZeroLaws (f : Floats) : Type 0 where
  pub narrow_zero : f.narrow (f.literal 0 0) ≡ f.literal32 0 0
  pub widen_zero : f.widen (f.literal32 0 0) ≡ f.literal 0 0
  pub of_int_zero : f.of_int32 (pos 0) ≡ f.literal32 0 0
  pub to_int_zero : f.to_int (f.literal 0 0) ≡ pos 0
  pub to_unsigned_zero : f.to_unsigned (f.literal32 0 0) ≡ 0
  pub no_less : f.lt32 (f.literal32 0 0) (f.literal32 0 0) ≡ false
  pub mul_zero : (m e : ℕ) → f.mul32 (f.literal32 0 0) (f.literal32 m e) ≡ f.literal32 0 0
  pub div_pi : f.div (f.literal 0 0) f.pi ≡ f.literal 0 0
  pub div_hundredth : f.div (f.literal 0 0) (f.literal 1 2) ≡ f.literal 0 0

-- Three frames, all read as gear D, speed 0 and angle 0.
abbrev pub Stops : {f : Floats} → List (Output f) → Type 0
Stops os = AllRead "D" 0 (pos 0) (payloads os) × (length (payloads os) ≡ 3)

module _ (f : Floats) where
  -- A speed that `max_speed` lets through.
  under_limit :
      (c : Car f) (speed : f.F64) → f.lt c.max_speed speed ≡ false → limit_speed f c speed ≡ speed
  unfolding limit_speed
  under_limit c speed h = rw h refl

  -- "start" sends nothing.
  pub start_sends_nothing :
      (c : Car f) (clock : ℕ → ℕ) → (run_static_callback f c clock "start").1 ≡ []
  unfolding run_static_callback
  start_sends_nothing c clock =
      if_cases (λ (r : Car f × List (Output f)). r.1 ≡ [])
        (str_eq "start" c.last_run_static_command) (λ _. refl) (λ _. refl)

module _ (f : Floats) (laws : ZeroLaws f) where
  whole_degrees-zero : whole_degrees f (f.literal32 0 0) ≡ pos 0
  unfolding whole_degrees
  whole_degrees-zero =
      rw (whole_degrees, laws.mul_zero 180 0, laws.widen_zero, laws.div_pi, laws.to_int_zero) refl

  speed_int-zero : speed_int f (f.literal32 0 0) ≡ 0
  unfolding speed_int
  speed_int-zero = rw (speed_int, laws.mul_zero 1000 0, laws.to_unsigned_zero) refl

  steer_angle_int-zero : steer_angle_int f (f.of_int32 (pos 0)) ≡ pos 0
  unfolding steer_angle_int
  steer_angle_int-zero =
      rw (steer_angle_int, laws.of_int_zero, laws.widen_zero, laws.div_hundredth, laws.to_int_zero)
        refl

  zero_frames :
      (msg : Frame) (counter : ℕ)
      → Stops {f = f} (send_frames f 3 msg "D" (f.literal32 0 0) (f.of_int32 (pos 0)) counter).1
  zero_frames msg counter =
      let out = (send_frames f 3 msg "D" (f.literal32 0 0) (f.of_int32 (pos 0)) counter).1 in
      (
        subst (λ n. AllRead "D" (n % 65536) (pos 0) (payloads out)) speed_int-zero
            (subst (λ a. AllRead "D" (speed_int f (f.literal32 0 0) % 65536) a (payloads out))
              steer_angle_int-zero
              (send_frames-AllRead f 3 msg "D" (f.literal32 0 0) (f.of_int32 (pos 0)) counter
                (inr (inr (inr (inr refl)))) small)),
        length-send_frames f 3 msg "D" (f.literal32 0 0) (f.of_int32 (pos 0)) counter,
      )
    where
      small : FitsField (steer_angle_int f (f.of_int32 (pos 0)))
      small = subst FitsField (sym steer_angle_int-zero) (omega arith, omega arith)

  zero_gear : gear_command f (f.literal32 0 0) (f.literal32 0 0) ≡ ("D", f.literal32 0 0, pos 0)
  unfolding gear_command
  zero_gear =
      rw (laws.no_less)
        (ap {B = String × f.F32 × ℤ} (λ d. ("D", f.literal32 0 0, d)) whole_degrees-zero)

  pub zero_command :
      (c : Car f) (now : ℕ)
      → Stops (send_speed_to_akm f c now (f.narrow (f.literal 0 0)) (f.narrow (f.literal 0 0))).1
  unfolding send_speed_to_akm
  zero_command c now =
      subst (λ z. Stops {f = f} (send_speed_to_akm f c now z z).1) (sym laws.narrow_zero)
        (subst
          (λ (g : String × f.F32 × ℤ).
            Stops {f = f}
              (send_frames f 3 (command_frame now) g.0 g.1 (f.of_int32 g.2) c.alive_counter).1)
          (sym zero_gear) (zero_frames (command_frame now) c.alive_counter))

  pub twist_cmd-Stops :
      (c : Car f) (clock : ℕ → ℕ)
      → f.lt c.max_speed (f.literal 0 0) ≡ false
      → Stops (twist_cmd_vel_callback f c clock (f.literal 0 0) (f.literal 0 0)).1
  unfolding twist_cmd_vel_callback
  twist_cmd-Stops c clock h =
      subst
        (λ x.
          Stops {f = f} (send_speed_to_akm f c (clock 0) (f.narrow x) (f.narrow (f.literal 0 0))).1)
        (sym (under_limit f c (f.literal 0 0) h)) (zero_command c (clock 0))

  pub cmd_vel-Stops :
      (c : Car f) (clock : ℕ → ℕ)
      → f.lt c.max_speed (f.literal 0 0) ≡ false
      → c.enable_run ≡ true
      → Stops (cmd_vel_callback f c clock (f.literal 0 0) (f.literal 0 0)).1
  unfolding cmd_vel_callback limit_speed send_speed_to_akm
  cmd_vel-Stops c clock h runs = rw runs (
      subst
        (λ x.
          Stops {f = f} (send_speed_to_akm f c (clock 1) (f.narrow x) (f.narrow (f.literal 0 0))).1)
        (sym (under_limit f c (f.literal 0 0) h)) (zero_command c (clock 1)))
