-- ===== src/System/Commanded.antt =====
-- The way of a control command of Autoware: vehicle_interface.cpp, the topic twist_cmd, wtb_car.cpp, and
-- the frames on the CAN bus.
use wtbcar_autoware_nav.Prelude.{
  append-nil, Bool, ℕ, ◌%◌, ◌≡◌, refl, true, [], ◌∷◌, ◌++◌, length, if◌then◌else◌,
}
use wtbcar_autoware_nav.Prelude.Int.{ℤ, pos, ◌-ℤ◌}
use wtbcar_autoware_nav.Floats.{Floats, clamp}
use wtbcar_autoware_nav.Vehicle
use wtbcar_autoware_nav.Vehicle.{Codes}
use wtbcar_autoware_nav.Chassis
use wtbcar_autoware_nav.Chassis.{limit_speed}
use wtbcar_autoware_nav.Chassis.Codec.{speed_int, steer_angle_int}
use wtbcar_autoware_nav.Chassis.Heartbeat.{payloads}
use wtbcar_autoware_nav.Chassis.Speed.{AllRead, FitsField, is_reverse, sent_angle, twist_cmd_frames}
use wtbcar_autoware_nav.System.{deliver}

module _ (f : Floats) (codes : Codes) where
  -- The commanded values within the limits of the vehicle interface.
  abbrev pub within_speed : Vehicle.Vehicle f → f.F32 → f.F64
  within_speed v velocity = clamp f (f.widen velocity) (f.neg v.max_speed) v.max_speed

  abbrev pub within_steer : Vehicle.Vehicle f → f.F32 → f.F64
  within_steer v steer = clamp f (f.widen steer) (f.neg v.max_steering_angle) v.max_steering_angle

  -- One event of the driver on its own.
  one_event :
      (c : Chassis.Car f) (now : ℕ → ℕ) (speed steer : f.F64)
      → (Chassis.run f c ((now, Chassis.twist_cmd speed steer) ∷ [])).1
        ≡ (Chassis.twist_cmd_vel_callback f c now speed steer).1 ++ []
  unfolding Chassis.run Chassis.step
  one_event c now speed steer = refl

  sent :
      (v : Vehicle.Vehicle f) (c : Chassis.Car f) (clock now : ℕ → ℕ) (velocity steer : f.F32)
      → Vehicle.is_autonomous_control_mode f codes v ≡ true
      → v.publish_twist_cmd ≡ true
      → deliver now (Vehicle.on_control_cmd f codes v clock velocity steer).1
        ≡ (now, Chassis.twist_cmd (within_speed v velocity) (within_steer v steer)) ∷ []
  unfolding deliver Vehicle.on_control_cmd Vehicle.publish_chassis_command
  sent v c clock now velocity steer mode twist = rw (mode, twist) refl

  control_cmd_frames :
      (v : Vehicle.Vehicle f) (c : Chassis.Car f) (clock now : ℕ → ℕ) (velocity steer : f.F32)
      → Vehicle.is_autonomous_control_mode f codes v ≡ true
      → v.publish_twist_cmd ≡ true
      → FitsField (sent_angle f c (within_speed v velocity) (within_steer v steer))
      → let linear_x = within_speed v velocity in
        let speed = f.narrow (limit_speed f c linear_x) in
        let reverse = is_reverse f c linear_x in
        let out =
          payloads
            (Chassis.run f c
              (deliver now (Vehicle.on_control_cmd f codes v clock velocity steer).1)).1 in
        AllRead
          (if reverse then "R" else "D")
          (speed_int f (if reverse then f.neg32 speed else speed) % 65536)
          (sent_angle f c linear_x (within_steer v steer))
          out
        × (length out ≡ 3)
  control_cmd_frames v c clock now velocity steer mode twist fits =
      rw
        (
          sent v c clock now velocity steer mode twist,
          one_event c now (within_speed v velocity) (within_steer v steer),
          append-nil
              (Chassis.twist_cmd_vel_callback f c now (within_speed v velocity)
                (within_steer v steer)).1,
        )
        (twist_cmd_frames f c now (within_speed v velocity) (within_steer v steer) fits)

  -- A speed cut to the driver's limit, as a `float`.
  abbrev pub cut : Chassis.Car f → f.F64 → f.F32
  cut c v = f.narrow (if f.lt c.max_speed v then c.max_speed else v)

  -- Whether that is driven in reverse, and its size.
  abbrev pub backward : Chassis.Car f → f.F64 → Bool
  backward c v = f.lt32 (cut c v) (f.literal32 0 0)

  abbrev pub size : Chassis.Car f → f.F64 → f.F32
  size c v = if backward c v then f.neg32 (cut c v) else cut c v

  -- Whole degrees of an angle in radians, mirrored for a speed in reverse.
  abbrev pub degrees : Chassis.Car f → f.F64 → f.F64 → ℤ
  degrees c v steer =
      let whole = f.to_int (f.div (f.widen (f.mul32 (f.narrow steer) (f.literal32 180 0))) f.pi) in
      if backward c v then pos 0 -ℤ whole else whole

  -- What the frame has room for: mm/s modulo 2 ^ 16, and hundredths of a degree.
  abbrev pub millimetres : f.F32 → ℕ
  millimetres v = f.to_unsigned (f.mul32 v (f.literal32 1000 0)) % 65536

  abbrev pub hundredths : ℤ → ℤ
  hundredths n = f.to_int (f.div (f.widen (f.of_int32 n)) (f.literal 1 2))

  -- In an autonomous mode, and with twist_cmd chosen, a control command of Autoware puts three frames
  -- on the bus. They read as the size of the commanded speed, clamped by the first node and cut to the
  -- driver's limit, in mm/s modulo 2 ^ 16, in gear R if it is negative and in gear D if not; and as the
  -- commanded angle, clamped by the first node and cut to whole degrees, negated in gear R, in
  -- hundredths of a degree, which must fit the field.
  pub control_cmd-AllRead :
      (v : Vehicle.Vehicle f) (c : Chassis.Car f) (clock now : ℕ → ℕ) (velocity steer : f.F32)
      → Vehicle.is_autonomous_control_mode f codes v ≡ true
      → v.publish_twist_cmd ≡ true
      → FitsField (hundredths (degrees c (within_speed v velocity) (within_steer v steer)))
      → let speed = within_speed v velocity in
        let out =
          payloads
            (Chassis.run f c
              (deliver now (Vehicle.on_control_cmd f codes v clock velocity steer).1)).1 in
        AllRead
          (if backward c speed then "R" else "D")
          (millimetres (size c speed))
          (hundredths (degrees c speed (within_steer v steer)))
          out
        × (length out ≡ 3)
  unfolding limit_speed Chassis.whole_degrees speed_int steer_angle_int
  control_cmd-AllRead v c clock now velocity steer mode twist fits =
      control_cmd_frames v c clock now velocity steer mode twist fits
