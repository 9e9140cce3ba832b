-- ===== src/Ahrs/Driver.antt =====
-- fdilink_ahrs_ROS2/src/ahrs_driver.cpp: `processLoop`, one stage for each test and `continue`. The
-- serial line is a parameter. A stage returns the node's state, the line and what is published.
pub mod Loss
pub mod Checked
mod Buffers
pub mod Bursts
pub mod Data
pub mod Framing
pub mod Stream
pub mod Line
pub mod Others
pub mod Tests
use wtbcar_autoware_nav.Prelude.{
  ℕ, zero, suc, ◌+◌, ◌-◌, ◌*◌, ◌%◌, ◌==◌, ltb, not, ◌&&◌, ◌||◌, Bool, true, false, if◌then◌else◌,
  List, [], ◌∷◌, ◌++◌, take, drop, length, get_or, Option, none, some,
}
use wtbcar_autoware_nav.Ahrs.Frame.{
  Driver, FrameBuffer, Header, Kind, Output, ahrs, check_data, check_header, check_sn, data_len,
  euler_angles, fill, first_serial, frame_of, geodetic_pos, gps_fix, header_bytes, imu, imu_data,
  insgps, kind_of, mag_pose_2d, magnetic, ned_odometry, overwrite, publish, system_speed,
  with_frame,
}

-- The library `serial`: a read of at most so many bytes, which may time out.
pub record Serial : Type 1 where
  pub Line : Type 0
  pub read : ℕ → Line → List ℕ × Line

-- The byte of a read of one byte, or what the buffer held before.
abbrev pub byte_or : ℕ → List ℕ → ℕ
byte_or old [] = old
byte_or old (b ∷ bs) = b

module _ (serial : Serial) where
  abbrev pub Outcome : Type 0
  Outcome = (Driver × serial.Line) × List Output

  -- The data of a frame whose header is right.
  pub read_data : Kind → Driver → serial.Line → Outcome
  read_data kind d s =
      let (bytes, s') = serial.read (data_len kind + 1) s in
      let frame = fill kind bytes (frame_of kind d) in
      let d' = with_frame kind frame d in
      ((d', s'), (if check_data kind frame then publish kind d' else []))

  -- `continue` after a wrong header, and else the data.
  pub after_header : Kind → Driver × Bool → serial.Line → Outcome
  after_header kind (d, right) s = if right then read_data kind d s else ((d, s), [])

  -- A frame of a known kind and length, from its serial number on.
  pub read_frame : Kind → Driver → serial.Line → ℕ → ℕ → ℕ → Outcome
  read_frame kind d s0 head_start head_type len =
      let (sn, s1) = serial.read 1 s0 in
      let (crc8, s2) = serial.read 1 s1 in
      let (crc16_h, s3) = serial.read 1 s2 in
      let (crc16_l, s4) = serial.read 1 s3 in
      let header : Header = record {
        header_start = head_start;
        data_type = head_type;
        data_size = len;
        serial_num = byte_or 0xFF sn;
        header_crc8 = byte_or 0xFF crc8;
        header_crc16_h = byte_or 0xFF crc16_h;
        header_crc16_l = byte_or 0xFF crc16_l;
      } in
      after_header kind (check_header kind d header) s4

  -- The rest of a header of type 0xFF, which no branch looks at.
  pub skip_header : Driver → serial.Line → Outcome
  skip_header d s =
      ((d, (serial.read 1 (serial.read 1 (serial.read 1 (serial.read 1 s).1).1).1).1), [])

  -- A frame of the type GROUND or 0x50: counted and dropped. `unset` is what the buffer for the serial
  -- number holds if none arrives.
  pub skip_ground : ℕ → Driver → serial.Line → ℕ → Outcome
  skip_ground unset d s len =
      let (sn, s') = serial.read 1 s in
      ((check_sn d (byte_or unset sn), (serial.read (len + 4) s').1), [])

  -- The types that are not refused before the length is read.
  pub known_type : ℕ → Bool
  known_type head_type =
      head_type == 0x40
      || (head_type == 0x41
          || (head_type == 0x42
              || (head_type == 0x5C
                  || (head_type == 0x50 || (head_type == 0xF0 || head_type == 0xFF)))))

  -- The body of `processLoop` once the start, the type and the length are read.
  pub dispatch : Option Kind → ℕ → Driver → serial.Line → ℕ → ℕ → ℕ → Outcome
  dispatch (some kind) unset d s head_start head_type len =
      if len == data_len kind then read_frame kind d s head_start head_type len else ((d, s), [])
  dispatch none unset d s head_start head_type len =
      if head_type == 0xF0 || head_type == 0x50 then skip_ground unset d s len else skip_header d s

  -- What a read of the length, of the type or of the start gives, the line after it, and what follows.
  pub got_length : ℕ → Driver → List ℕ → serial.Line → ℕ → ℕ → Outcome
  got_length unset d [] s head_start head_type = ((d, s), [])
  got_length unset d (len ∷ _) s head_start head_type =
      dispatch (kind_of head_type) unset d s head_start head_type len

  pub got_type : ℕ → Driver → List ℕ → serial.Line → ℕ → Outcome
  got_type unset d [] s head_start = ((d, s), [])
  got_type unset d (head_type ∷ _) s head_start =
      if known_type head_type
      then got_length unset d (serial.read 1 s).0 (serial.read 1 s).1 head_start head_type
      else ((d, s), [])

  pub got_head : ℕ → Driver → List ℕ → serial.Line → Outcome
  got_head unset d [] s = ((d, s), [])
  got_head unset d (head_start ∷ _) s =
      if head_start == 0xFC
      then got_type unset d (serial.read 1 s).0 (serial.read 1 s).1 head_start
      else ((d, s), [])

  -- One pass of the loop of `processLoop`.
  pub process : ℕ → Driver → serial.Line → Outcome
  process unset d s = got_head unset d (serial.read 1 s).0 (serial.read 1 s).1

  -- `processLoop`, for a number of passes.
  pub process_loop : ℕ → ℕ → Driver → serial.Line → Outcome
  process_loop zero unset d s = ((d, s), [])
  process_loop (suc passes) unset d s =
      let ((d', s'), out) = process unset d s in
      let (end, rest) = process_loop passes unset d' s' in (end, out ++ rest)
