-- ===== src/Ahrs/ImuTf/Tests.antt =====
-- The transform for two frames, with rotations as quaternions of thousandths.
use wtbcar_autoware_nav.Prelude.{◌≡◌, refl, [], ◌∷◌, map}
use wtbcar_autoware_nav.Prelude.Int.{pos}
use wtbcar_autoware_nav.Floats.Thousandths.{thousandths}
use wtbcar_autoware_nav.Ahrs.Driver.{process}
use wtbcar_autoware_nav.Ahrs.Driver.Tests.{line, line-Delivers, fresh}
use wtbcar_autoware_nav.Ahrs.Messages.{Imu, imu_pub, message, settings}
use wtbcar_autoware_nav.Ahrs.Messages.Tests.{
  hamilton, memory, parts, device, attitude, rates, two_frames,
}
use wtbcar_autoware_nav.Ahrs.ImuTf.{Position}
use wtbcar_autoware_nav.Ahrs.ImuTf.Turned.{
  broadcast, half_turn, transform_of, between_turns, imu_turned,
}

abbrev position : Position
position = record { position_x = pos 1; position_y = pos 1; position_z = pos 1 }

imu_turned_example :
    let first = process line 0 fresh two_frames in
    let second = process line 0 first.0.0 first.0.1 in
    let out = map (message thousandths memory hamilton device 3) second.1 in
    (report : Imu thousandths) × ((out ≡ imu_pub report ∷ [])
      × ((broadcast thousandths position 4 out
            ≡ transform_of thousandths hamilton position 4
                (between_turns thousandths hamilton attitude)
              ∷ [])
          × ((report.motion.angular_velocity
                ≡ half_turn thousandths rates.gyroscope_x rates.gyroscope_y rates.gyroscope_z)
              × (report.motion.linear_acceleration
                  ≡ half_turn thousandths rates.accelerometer_x rates.accelerometer_y
                      rates.accelerometer_z))))
unfolding settings
imu_turned_example =
    imu_turned thousandths memory parts hamilton device line line-Delivers 0 3 4 position fresh
      two_frames 7 8 attitude rates (0xFC ∷ []) refl refl refl refl
