-- ===== src/Chassis/Speed.antt =====
-- What the frames of wtb_car.cpp command, read back with the driver's own parser: gear, speed and
-- the speed limit.
use wtbcar_autoware_nav.Prelude.{
  ℕ, zero, suc, ◌%◌, ◌≡◌, refl, ap, String, Bool, false, List, [], ◌∷◌, arith, Bool-cases, length,
  if◌then◌else◌, inl, inr,
}
use wtbcar_autoware_nav.Prelude.Int.{ℤ, pos, negsuc, ◌≤ℤ◌, ◌-ℤ◌}
use wtbcar_autoware_nav.Floats.{Floats, LtIrrefl}
use wtbcar_autoware_nav.Chassis.Codec.{
  Payload, build_ctrl_cmd_data, speed_int, steer_angle_int, parse_gear, parse_speed, parse_angle,
}
use wtbcar_autoware_nav.Chassis.Codec.Layout.{IsGear, parse-build_ctrl_cmd_data}
use wtbcar_autoware_nav.Chassis.Heartbeat.{payloads}
use wtbcar_autoware_nav.Chassis.{
  Car, Frame, send_frames, send_speed_to_akm, gear_command, whole_degrees, twist_cmd_vel_callback,
  limit_speed,
}

-- Every payload reads as this gear, this speed in mm/s and this angle in hundredths of a degree.
pub data AllRead (gear : String) (speed : ℕ) (angle : ℤ) : List Payload → Type 0 where
  done : AllRead gear speed angle []
  reads :
      {p : Payload} {ps : List Payload}
      → parse_gear p ≡ gear
      → parse_speed p ≡ speed
      → parse_angle p ≡ angle
      → AllRead gear speed angle ps
      → AllRead gear speed angle (p ∷ ps)

-- A steering angle that fits the signed field of 16 bits.
abbrev pub FitsField : ℤ → Type 0
FitsField angle = (negsuc 32767 ≤ℤ angle) × (angle ≤ℤ pos 32767)

module _ (f : Floats) where
  pub send_frames-AllRead :
      (rounds : ℕ) (msg : Frame) (gear : String) (speed angle : f.F32) (counter : ℕ)
      → IsGear gear
      → FitsField (steer_angle_int f angle)
      → AllRead gear
          (speed_int f speed % 65536)
          (steer_angle_int f angle)
          (payloads (send_frames f rounds msg gear speed angle counter).1)
  unfolding send_frames
  send_frames-AllRead zero msg gear speed angle counter known fits = done
  send_frames-AllRead (suc rounds) msg gear speed angle counter known fits =
      let l = parse-build_ctrl_cmd_data f gear speed angle counter known fits.0 fits.1 in
      reads l.0 l.1 l.2 (
        send_frames-AllRead rounds msg gear speed angle
          (build_ctrl_cmd_data f gear speed angle counter).1 known fits)

  pub length-send_frames :
      (rounds : ℕ) (msg : Frame) (gear : String) (speed angle : f.F32) (counter : ℕ)
      → length (payloads (send_frames f rounds msg gear speed angle counter).1) ≡ rounds
  unfolding send_frames
  length-send_frames zero msg gear speed angle counter = refl
  length-send_frames (suc rounds) msg gear speed angle counter = ap suc (
      length-send_frames rounds msg gear speed angle
        (build_ctrl_cmd_data f gear speed angle counter).1)

  -- Whether a speed is driven in reverse, after the cut to `max_speed`.
  abbrev pub is_reverse : Car f → f.F64 → Bool
  is_reverse c linear_x = f.lt32 (f.narrow (limit_speed f c linear_x)) (f.literal32 0 0)

  -- The angle that reaches the field: whole degrees, mirrored in reverse, in hundredths.
  abbrev pub sent_angle : Car f → f.F64 → f.F64 → ℤ
  sent_angle c linear_x angular_z =
      let degrees = whole_degrees f (f.narrow angular_z) in
      steer_angle_int f (f.of_int32 (if is_reverse c linear_x then pos 0 -ℤ degrees else degrees))

  -- The three frames that the driver sends for a twist command all read, by the driver's own parser,
  -- as gear D at the commanded speed cut to `max_speed`, or, if that is negative, as gear R at its
  -- negation; the angle is the commanded one in whole degrees, mirrored in reverse. The speed is
  -- modulo 2 ^ 16 mm/s, and the angle must fit its field.
  pub twist_cmd_frames :
      (c : Car f) (clock : ℕ → ℕ) (linear_x angular_z : f.F64)
      → FitsField (sent_angle c linear_x angular_z)
      → let speed = f.narrow (limit_speed f c linear_x) in
        let out = payloads (twist_cmd_vel_callback f c clock linear_x angular_z).1 in
        AllRead
          (if is_reverse c linear_x then "R" else "D")
          (speed_int f (if is_reverse c linear_x then f.neg32 speed else speed) % 65536)
          (sent_angle c linear_x angular_z)
          out
        × (length out ≡ 3)
  unfolding twist_cmd_vel_callback send_speed_to_akm gear_command
  twist_cmd_frames c clock linear_x angular_z fits = elim (Bool-cases (is_reverse c linear_x)) [
    | inl e ↦ rw e (
      send_frames-AllRead 3 _ "R" _ _ c.alive_counter (inr (inr (inl refl))) (rw e at fits),
      length-send_frames 3 _ "R" _ _ c.alive_counter,
    )
    | inr e ↦ rw e (
      send_frames-AllRead 3 _ "D" _ _ c.alive_counter (inr (inr (inr (inr refl)))) (rw e at fits),
      length-send_frames 3 _ "D" _ _ c.alive_counter,
    )
  ]

  pub limit_speed_lem :
      (c : Car f) (linear_x : f.F64)
      → LtIrrefl f
      → f.lt c.max_speed (limit_speed f c linear_x) ≡ false
  unfolding limit_speed
  limit_speed_lem c linear_x irrefl = ground (arith, irrefl c.max_speed)

  -- A driver with another `max_speed`.
  abbrev with_limit : Car f → f.F64 → Car f
  with_limit c limit = record c { config = record (c.config) { max_speed = limit } }

  same_speed :
      (c : Car f) (linear_x limit : f.F64)
      → f.lt c.max_speed linear_x ≡ false
      → f.lt limit linear_x ≡ false
      → limit_speed f (with_limit c limit) linear_x ≡ limit_speed f c linear_x
  unfolding limit_speed
  same_speed c linear_x limit h k = rw (h, k)

  -- `max_speed` bounds no speed from below: a speed that exceeds neither of two limits, such as any
  -- reverse speed where both are positive, is sent alike under both.
  reverse_is_unlimited :
      (c : Car f) (clock : ℕ → ℕ) (linear_x angular_z limit : f.F64)
      → f.lt c.max_speed linear_x ≡ false
      → f.lt limit linear_x ≡ false
      → (twist_cmd_vel_callback f (with_limit c limit) clock linear_x angular_z).1
        ≡ (twist_cmd_vel_callback f c clock linear_x angular_z).1
  unfolding twist_cmd_vel_callback send_speed_to_akm
  reverse_is_unlimited c clock linear_x angular_z limit h k =
      ap
        (λ (speed : f.F64).
          (send_speed_to_akm f c (clock 0) (f.narrow speed) (f.narrow angular_z)).1)
        (same_speed c linear_x limit h k)
