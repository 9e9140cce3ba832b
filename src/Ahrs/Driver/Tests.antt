-- ===== src/Ahrs/Driver/Tests.antt =====
-- The driver of the inertial sensor on a line that is a list of bytes, all of which have arrived.
use wtbcar_autoware_nav.Prelude.{
  ℕ, zero, suc, ◌≡◌, refl, false, List, [], ◌∷◌, ◌++◌, take, drop, replicate, arith,
}
use wtbcar_autoware_nav.Ahrs.Crc.Polynomial.{AllBytes, none_left, byte}
use wtbcar_autoware_nav.Ahrs.Frame.{
  imu, imu_data, geodetic_pos, ahrs, FrameBuffer, Driver, data_len,
}
use wtbcar_autoware_nav.Ahrs.Driver.{Serial, process}
use wtbcar_autoware_nav.Ahrs.Driver.{process_loop}
use wtbcar_autoware_nav.Ahrs.Driver.Line.{
  Segment, stray, whole, damaged, arriving, Damage, process_loop-messages,
}
use wtbcar_autoware_nav.Ahrs.Driver.Loss.{check_all, serials, check_sn_lem}
use wtbcar_autoware_nav.Ahrs.Driver.Checked.{Checked, process-Checked}
use wtbcar_autoware_nav.Ahrs.Driver.Data.{Delivers}
use wtbcar_autoware_nav.Ahrs.Driver.Framing.{with_header, encode}
use wtbcar_autoware_nav.Ahrs.Driver.Bursts.{corrupt_burst_dropped}

abbrev pub line : Serial
line = record { Line = List ℕ; read = λ n s. (take n s, drop n s) }

abbrev pub line-Delivers : Delivers line
line-Delivers = record { contents = λ s. s; reads = λ n s h. (refl, refl) }

abbrev empty_frame : FrameBuffer
empty_frame = record {
  header = record {
    header_start = 0;
    data_type = 0;
    data_size = 0;
    serial_num = 0;
    header_crc8 = 0;
    header_crc16_h = 0;
    header_crc16_l = 0;
  };
  data_buff = [];
  frame_end = 0;
}

abbrev pub fresh : Driver
fresh = record {
  sn_lost = 0;
  read_sn = 0;
  frist_sn = false;
  imu_frame = empty_frame;
  ahrs_frame = empty_frame;
  insgps_frame = empty_frame;
  geodetic_position_frame = empty_frame;
}

-- The serial numbers 255, 3 and 14 after 254.
check_sn_lem_example :
    (check_all (record fresh { read_sn = 254 }) (serials 254 (0 ∷ 3 ∷ 10 ∷ []))).sn_lost ≡ 13
check_sn_lem_example =
    check_sn_lem (record fresh { read_sn = 254 }) 254 (0 ∷ 3 ∷ 10 ∷ []) refl
      (omega arith, (omega arith, (omega arith, tt)))

process-Checked_example :
    let r = process line 0 fresh (encode ahrs 5 (replicate 48 9) ++ (0xFC ∷ [])) in
    Checked r.0.0 r.1
process-Checked_example =
    process-Checked line 0 fresh (encode ahrs 5 (replicate 48 9) ++ (0xFC ∷ []))

zeros-AllBytes : (n : ℕ) → AllBytes (replicate n 0)
zeros-AllBytes zero = none_left
zeros-AllBytes (suc n) = byte (omega arith) (zeros-AllBytes n)

abbrev two_changed : List ℕ
two_changed = replicate 7 0 ++ (1 ∷ 128 ∷ replicate 23 0)

-- Two bytes of a frame of position data are changed, and its end mark is lost.
corrupt_burst_dropped_example :
    let s =
      with_header geodetic_pos 5 (replicate 32 0) ((two_changed ++ (0 ∷ [])) ++ (0xFC ∷ [])) in
    ((process line 0 fresh s).1 ≡ []) × ((process line 0 fresh s).0.1 ≡ 0xFC ∷ [])
unfolding data_len
corrupt_burst_dropped_example =
    corrupt_burst_dropped line line-Delivers 0 fresh
      (with_header geodetic_pos 5 (replicate 32 0) ((two_changed ++ (0 ∷ [])) ++ (0xFC ∷ [])))
      geodetic_pos 5 (replicate 7 0) (replicate 23 0) 0 0 1 128 0 (0xFC ∷ []) (zeros-AllBytes 32)
      refl (omega arith) (omega arith) (λ e. absurd (omega (arith, e.0))) refl

-- An AHRS frame that arrives damaged and without its end mark, and an IMU frame after it.
abbrev damage : Damage
damage = record { before = replicate 7 0; after = replicate 39 0; a = 0; b = 0; v = 1; w = 128 }

abbrev mixed : List Segment
mixed = stray 0xFD ∷ damaged ahrs 8 damage 0 ∷ stray 0 ∷ whole imu 9 (replicate 56 2) ∷ []

process_loop-messages_example :
    let r = process_loop line 4 0 fresh (arriving mixed ++ (0xFC ∷ [])) in
    (r.1 ≡ imu_data (replicate 7 0 ++ (1 ∷ 128 ∷ replicate 39 0)) (replicate 56 2) ∷ [])
    × (r.0.1 ≡ 0xFC ∷ [])
unfolding data_len
process_loop-messages_example =
    process_loop-messages line line-Delivers 0 fresh (arriving mixed ++ (0xFC ∷ [])) mixed
      (0xFC ∷ [])
      (
        omega arith,
        (
          (zeros-AllBytes 48, refl, omega arith, omega arith, λ e. absurd (omega (arith, e.0))),
          (omega arith, (refl, tt)),
        ),
      )
      refl
