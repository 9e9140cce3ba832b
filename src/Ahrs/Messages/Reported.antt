-- ===== src/Ahrs/Messages/Reported.antt =====
-- From the bytes of the sensor to the messages of ahrs_driver.cpp.
use wtbcar_autoware_nav.Prelude.{ℕ, ◌≡◌, ◌≢◌, ap, ap₂, ◌∙◌, List, [], ◌∷◌, ◌++◌, map, length}
use wtbcar_autoware_nav.Floats.{Floats}
use wtbcar_autoware_nav.Ahrs.Frame.{imu, ahrs, Driver, FrameBuffer, frame_of, publish}
use wtbcar_autoware_nav.Ahrs.Driver.{Serial, process}
use wtbcar_autoware_nav.Ahrs.Driver.Data.{Delivers}
use wtbcar_autoware_nav.Ahrs.Driver.Framing.{encode, process_lem}
use wtbcar_autoware_nav.Ahrs.Driver.Others.{process-other}
use wtbcar_autoware_nav.Ahrs.Packet.{Memory, ImuPacket, AhrsPacket, imu_packet, ahrs_packet}
use wtbcar_autoware_nav.Ahrs.Messages.{Rotations, Settings, Message, imu_pub, motion, message}
use wtbcar_autoware_nav.Ahrs.Messages.Packets.{
  Stores, imu_bytes, ahrs_bytes, length-imu_bytes, length-ahrs_bytes, imu_packet-imu_bytes,
  ahrs_packet-ahrs_bytes,
}

imu-ne-ahrs : imu ≢ ahrs
imu-ne-ahrs e = cc

ahrs-ne-imu : ahrs ≢ imu
ahrs-ne-imu e = cc

module _ (f : Floats) (r : Rotations f) (settings : Settings f) where
  -- The message about the motion that two packets give.
  abbrev pub imu_message : ℕ → AhrsPacket f → ImuPacket f → Message f
  imu_message now a i = imu_pub (record {
    stamp = now;
    frame_id = settings.imu_frame_id;
    motion = motion f r settings.device_type settings.initial a i;
    orientation_covariance = settings.imu_orientation_covariance;
    angular_velocity_covariance = settings.imu_angular_velocity_covariance;
    linear_acceleration_covariance = settings.imu_linear_acceleration_covariance;
  })

module _ (f : Floats) (memory : Memory f) (stores : Stores f memory) (r : Rotations f)
    (settings : Settings f) (serial : Serial) (delivers : Delivers serial) where
  published :
      (now : ℕ) (d : Driver) (a : AhrsPacket f) (i : ImuPacket f)
      → length a.timestamp ≡ 8
      → length i.timestamp ≡ 8
      → d.ahrs_frame.data_buff ≡ ahrs_bytes f memory stores a
      → d.imu_frame.data_buff ≡ imu_bytes f memory stores i
      → map (message f memory r settings now) (publish imu d)
        ≡ imu_message f r settings now a i ∷ []
  unfolding publish message
  published now d a i ha hi ea ei =
      ap₂ (λ a' i'. imu_message f r settings now a' i' ∷ [])
        (ap (ahrs_packet f memory) ea ∙ ahrs_packet-ahrs_bytes f memory stores a ha)
        (ap (imu_packet f memory) ei ∙ imu_packet-imu_bytes f memory stores i hi)

  -- An AHRS frame and the IMU frame after it, whatever came before: in its second pass the node
  -- publishes one message about the motion, with the orientation of the one packet and the rates and
  -- accelerations of the other as the device type has them, and reads no byte of what follows.
  pub imu_reported :
      (unset now : ℕ) (d : Driver) (s : serial.Line) (sn sn' : ℕ) (a : AhrsPacket f)
      (i : ImuPacket f) (rest : List ℕ)
      → length a.timestamp ≡ 8
      → length i.timestamp ≡ 8
      → delivers.contents s
        ≡ encode ahrs sn (ahrs_bytes f memory stores a)
          ++ (encode imu sn' (imu_bytes f memory stores i) ++ rest)
      → let first = process serial unset d s in
        let second = process serial unset first.0.0 first.0.1 in
        (map (message f memory r settings now) second.1 ≡ imu_message f r settings now a i ∷ [])
        × (delivers.contents second.0.1 ≡ rest)
  unfolding frame_of
  imu_reported unset now d s sn sn' a i rest ha hi h =
      let one =
        process_lem serial delivers unset d s ahrs sn (ahrs_bytes f memory stores a)
          (encode imu sn' (imu_bytes f memory stores i) ++ rest)
          (length-ahrs_bytes f memory stores a ha) h in
      let first = process serial unset d s in
      let two =
        process_lem serial delivers unset first.0.0 first.0.1 imu sn' (imu_bytes f memory stores i)
          rest (length-imu_bytes f memory stores i hi) one.left in
      let kept =
        process-other serial delivers unset first.0.0 first.0.1 ahrs imu sn'
          (imu_bytes f memory stores i) rest ahrs-ne-imu one.left in
      let second = process serial unset first.0.0 first.0.1 in
      (
        ap (map (message f memory r settings now)) two.out
            ∙ published now second.0.0 a i ha hi
                (ap (λ (g : FrameBuffer). g.data_buff) kept ∙ one.stored) two.stored,
        two.left,
      )
