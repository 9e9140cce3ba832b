-- ===== src/Ahrs/ImuTf/Turned.antt =====
-- From the bytes of the sensor to the transform of imu_tf.cpp, for the device type 1.
use wtbcar_autoware_nav.Prelude.{ℕ, ◌≡◌, ap, ◌∙◌, List, [], ◌∷◌, ◌++◌, map, length}
use wtbcar_autoware_nav.Prelude.Int.{pos}
use wtbcar_autoware_nav.Floats.{Floats}
use wtbcar_autoware_nav.Ahrs.Frame.{imu, ahrs, Driver}
use wtbcar_autoware_nav.Ahrs.Driver.{Serial, process}
use wtbcar_autoware_nav.Ahrs.Driver.Data.{Delivers}
use wtbcar_autoware_nav.Ahrs.Driver.Framing.{encode}
use wtbcar_autoware_nav.Ahrs.Packet.{Memory, ImuPacket, AhrsPacket}
use wtbcar_autoware_nav.Ahrs.Messages.{
  Rotations, Settings, Vector3, Message, imu_pub, Motion, Imu, message, motion, turned, vector,
  q_out,
}
use wtbcar_autoware_nav.Ahrs.Messages.Packets.{Stores, imu_bytes, ahrs_bytes}
use wtbcar_autoware_nav.Ahrs.Messages.Reported.{imu_reported}
use wtbcar_autoware_nav.Ahrs.ImuTf.{Position, TransformStamped, imu_callback}

-- The transforms that the other node broadcasts for the messages of this one.
unfoldable pub broadcast :
    (f : Floats) → Position → ℕ → List (Message f) → List (TransformStamped f)
broadcast f position now [] = []
broadcast f position now (imu_pub imu_data ∷ ms) =
    imu_callback f position now imu_data ∷ broadcast f position now ms
broadcast f position now (_ ∷ ms) = broadcast f position now ms

module _ (f : Floats) where
  -- Three numbers with y and z negated, as numbers of type `double`.
  abbrev pub half_turn : f.F32 → f.F32 → f.F32 → Vector3 f
  half_turn x y z = record { x = f.widen x; y = f.widen (f.neg32 y); z = f.widen (f.neg32 z) }

  -- Half a turn about z and y, the quaternion of the packet, and half a turn about x, as Eigen multiplies
  -- them, with the turns by zero that the code has.
  abbrev pub between_turns : (r : Rotations f) → AhrsPacket f → r.Rotation
  between_turns r a =
      r.mul
        (r.mul (r.mul (r.mul (r.about_z f.pi) (r.about_y f.pi)) (r.about_x (f.literal 0 0)))
          (r.of_numbers (f.widen a.qw) (f.widen a.qx) (f.widen a.qy) (f.widen a.qz)))
        (r.mul (r.mul (r.about_z (f.literal 0 0)) (r.about_y (f.literal 0 0))) (r.about_x f.pi))

  -- The transform from "world" to "imu" at the position of the parameters, with this rotation.
  abbrev pub transform_of : (r : Rotations f) → Position → ℕ → r.Rotation → TransformStamped f
  transform_of r position now q = record {
    stamp = now;
    frame_id = "world";
    child_frame_id = "imu";
    translation = record {
      x = f.of_int position.position_x;
      y = f.of_int position.position_y;
      z = f.of_int position.position_z;
    };
    rotation = record { w = r.w q; x = r.x q; y = r.y q; z = r.z q };
  }

  transform_lem :
      (r : Rotations f) (position : Position) (later : ℕ) (a : AhrsPacket f) (i : ImuPacket f)
      (initial : Motion f) (report : Imu f)
      → report.motion ≡ motion f r (pos 1) initial a i
      → imu_callback f position later report ≡ transform_of r position later (between_turns r a)
  unfolding imu_callback motion q_out
  transform_lem r position later a i initial report e =
      ap
        (λ (m : Motion f). record {
          stamp = later;
          frame_id = "world";
          child_frame_id = "imu";
          translation = record {
            x = f.of_int position.position_x;
            y = f.of_int position.position_y;
            z = f.of_int position.position_z;
          };
          rotation = m.orientation;
        })
        e

module _ (f : Floats) (memory : Memory f) (stores : Stores f memory) (r : Rotations f)
    (settings : Settings f) (serial : Serial) (delivers : Delivers serial) where
  -- An AHRS frame and the IMU frame after it, for the device type 1: of the message that the second pass
  -- publishes the other node makes one transform from "world" to "imu", at the position of its
  -- parameters, whose rotation is Eigen's product of half a turn about z and y, the quaternion of the
  -- first frame, and half a turn about x. The message has the rates and accelerations of the second
  -- frame with y and z negated. The time stamps have eight bytes, and the line delivers its bytes in
  -- order.
  pub imu_turned :
      (unset now later : ℕ) (position : Position) (d : Driver) (s : serial.Line) (sn sn' : ℕ)
      (a : AhrsPacket f) (i : ImuPacket f) (rest : List ℕ)
      → length a.timestamp ≡ 8
      → length i.timestamp ≡ 8
      → delivers.contents s
        ≡ encode ahrs sn (ahrs_bytes f memory stores a)
          ++ (encode imu sn' (imu_bytes f memory stores i) ++ rest)
      → settings.device_type ≡ pos 1
      → let first = process serial unset d s in
        let second = process serial unset first.0.0 first.0.1 in
        let out = map (message f memory r settings now) second.1 in
        (report : Imu f) × ((out ≡ imu_pub report ∷ [])
          × ((broadcast f position later out
                ≡ transform_of f r position later (between_turns f r a) ∷ [])
              × ((report.motion.angular_velocity
                    ≡ half_turn f i.gyroscope_x i.gyroscope_y i.gyroscope_z)
                  × (report.motion.linear_acceleration
                      ≡ half_turn f i.accelerometer_x i.accelerometer_y i.accelerometer_z))))
  unfolding broadcast motion turned vector
  imu_turned unset now later position d s sn sn' a i rest ha hi arrives device =
      let reported =
        (imu_reported f memory stores r settings serial delivers unset now d s sn sn' a i rest ha hi
          arrives).0 in
      let report : Imu f = record {
        stamp = now;
        frame_id = settings.imu_frame_id;
        motion = motion f r settings.device_type settings.initial a i;
        orientation_covariance = settings.imu_orientation_covariance;
        angular_velocity_covariance = settings.imu_angular_velocity_covariance;
        linear_acceleration_covariance = settings.imu_linear_acceleration_covariance;
      } in
      let same : report.motion ≡ motion f r (pos 1) settings.initial a i =
        ap (λ t. motion f r t settings.initial a i) device in
      (
        report,
        (
          reported,
          (
            ap (broadcast f position later) reported
                ∙ ap (λ t. t ∷ [])
                    (transform_lem f r position later a i settings.initial report same),
            (
              ap (λ (m : Motion f). m.angular_velocity) same,
              ap (λ (m : Motion f). m.linear_acceleration) same,
            ),
          ),
        ),
      )
