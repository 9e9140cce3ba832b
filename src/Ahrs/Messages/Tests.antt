-- ===== src/Ahrs/Messages/Tests.antt =====
-- The messages of two frames, with the numbers of the sensor stored by their positive and negative parts.
use wtbcar_autoware_nav.Prelude.{ℕ, ◌≡◌, refl, List, [], ◌∷◌, ◌++◌, get_or, replicate, arith}
use wtbcar_autoware_nav.Prelude.Int.{ℤ, pos, negsuc, pos_part, neg_part, sub_ℕ, ◌+ℤ◌, ◌-ℤ◌}
use wtbcar_autoware_nav.Floats.Thousandths.{thousandths}
use wtbcar_autoware_nav.Ahrs.Frame.{imu, ahrs}
use wtbcar_autoware_nav.Ahrs.Driver.Framing.{encode}
use wtbcar_autoware_nav.Ahrs.Packet.{Memory, ImuPacket, AhrsPacket}
use wtbcar_autoware_nav.Ahrs.Messages.{Rotations, Settings, Quaternion, Vector3, settings}
use wtbcar_autoware_nav.Ahrs.Messages.Packets.{Stores, imu_bytes, ahrs_bytes}

abbrev pub memory : Memory thousandths
memory = record {
  float_of = λ b. sub_ℕ (get_or b 0 0) (get_or b 1 0);
  double_of = λ b. sub_ℕ (get_or b 0 0) (get_or b 1 0);
}

pub read_parts : (v : ℤ) → sub_ℕ (pos_part v) (neg_part v) ≡ v
read_parts (pos n) = ground arith
read_parts (negsuc n) = ground arith

abbrev pub parts : Stores thousandths memory
parts = record {
  float_bytes = λ v. pos_part v ∷ neg_part v ∷ 0 ∷ 0 ∷ [];
  length_float = λ v. refl;
  reads_back = λ v. read_parts v;
}

-- Rotations as quaternions under Hamilton's product.
abbrev times : ℤ → ℤ → ℤ
times a b = thousandths.mul a b

abbrev half : ℤ → ℤ
half a = thousandths.div a (pos 2000)

abbrev pub hamilton : Rotations thousandths
hamilton = record {
  Rotation = Quaternion thousandths;
  of_numbers = λ w x y z. record { w = w; x = x; y = y; z = z };
  about_x = λ a. record {
    w = thousandths.cos (half a);
    x = thousandths.sin (half a);
    y = pos 0;
    z = pos 0;
  };
  about_y = λ a. record {
    w = thousandths.cos (half a);
    x = pos 0;
    y = thousandths.sin (half a);
    z = pos 0;
  };
  about_z = λ a. record {
    w = thousandths.cos (half a);
    x = pos 0;
    y = pos 0;
    z = thousandths.sin (half a);
  };
  mul = λ p q. record {
    w = times p.w q.w -ℤ times p.x q.x -ℤ times p.y q.y -ℤ times p.z q.z;
    x = times p.w q.x +ℤ times p.x q.w +ℤ times p.y q.z -ℤ times p.z q.y;
    y = times p.w q.y -ℤ times p.x q.z +ℤ times p.y q.w +ℤ times p.z q.x;
    z = times p.w q.z +ℤ times p.x q.y -ℤ times p.y q.x +ℤ times p.z q.w;
  };
  w = λ q. q.w;
  x = λ q. q.x;
  y = λ q. q.y;
  z = λ q. q.z;
}

abbrev zeros : Vector3 thousandths
zeros = record { x = pos 0; y = pos 0; z = pos 0 }

abbrev pub device : Settings thousandths
device = settings thousandths (pos 1) "imu_link" (replicate 9 (pos 50)) [] [] (record {
  orientation = record { w = pos 1000; x = pos 0; y = pos 0; z = pos 0 };
  angular_velocity = zeros;
  linear_acceleration = zeros;
})

abbrev pub attitude : AhrsPacket thousandths
attitude = record {
  roll_speed = pos 0;
  pitch_speed = pos 0;
  heading_speed = pos 100;
  roll = pos 10;
  pitch = negsuc 19;
  heading = pos 1570;
  qw = pos 707;
  qx = pos 0;
  qy = pos 0;
  qz = pos 707;
  timestamp = replicate 8 1;
}

abbrev pub rates : ImuPacket thousandths
rates = record {
  gyroscope_x = pos 1;
  gyroscope_y = pos 2;
  gyroscope_z = negsuc 2;
  accelerometer_x = pos 0;
  accelerometer_y = pos 0;
  accelerometer_z = pos 9807;
  magnetometer_x = pos 200;
  magnetometer_y = pos 0;
  magnetometer_z = pos 400;
  imu_temperature = pos 25000;
  pressure = pos 101325000;
  pressure_temperature = pos 25000;
  timestamp = replicate 8 2;
}

abbrev pub two_frames : List ℕ
two_frames =
    encode ahrs 7 (ahrs_bytes thousandths memory parts attitude)
    ++ (encode imu 8 (imu_bytes thousandths memory parts rates) ++ (0xFC ∷ []))
