-- ===== src/Ahrs/Frame.antt =====
-- fdilink_ahrs_ROS2/include/fdilink_data_struct.h, and the work on frame buffers of
-- src/ahrs_driver.cpp: a buffer is its header, the bytes of its data, and its end. A published message
-- is named by the buffers that it is computed from.
use wtbcar_autoware_nav.Prelude.{
  ℕ, ◌+◌, ◌-◌, ◌*◌, ◌%◌, ◌==◌, ltb, ◌&&◌, Bool, true, false, if◌then◌else◌, List, [], ◌∷◌, ◌++◌,
  take, drop, length, get_or, Option, none, some,
}
use wtbcar_autoware_nav.Ahrs.Crc.{crc8_table, crc16_table}

pub data Kind : Type 0 where
  imu : Kind
  ahrs : Kind
  insgps : Kind
  geodetic_pos : Kind

-- The numbers of bytes of data.
unfoldable pub data_len : Kind → ℕ
data_len imu = 0x38
data_len ahrs = 0x30
data_len insgps = 0x48
data_len geodetic_pos = 0x20

unfoldable pub kind_of : ℕ → Option Kind
kind_of head_type =
    if head_type == 0x40
    then some imu
    else if head_type == 0x41
    then some ahrs
    else if head_type == 0x42
    then some insgps
    else if head_type == 0x5C
    then some geodetic_pos
    else none

pub record Header : Type 0 where
  pub header_start : ℕ
  pub data_type : ℕ
  pub data_size : ℕ
  pub serial_num : ℕ
  pub header_crc8 : ℕ
  pub header_crc16_h : ℕ
  pub header_crc16_l : ℕ

pub record FrameBuffer : Type 0 where
  pub header : Header
  pub data_buff : List ℕ
  pub frame_end : ℕ

-- The members that `processLoop` changes. `sn_lost` is an int, counted without a bound here.
pub record Driver : Type 0 where
  pub sn_lost : ℕ
  pub read_sn : ℕ
  pub frist_sn : Bool
  pub imu_frame : FrameBuffer
  pub ahrs_frame : FrameBuffer
  pub insgps_frame : FrameBuffer
  pub geodetic_position_frame : FrameBuffer

-- What is published, with the bytes that it is computed from.
pub data Output : Type 0 where
  imu_data : List ℕ → List ℕ → Output
  mag_pose_2d : List ℕ → Output
  euler_angles : List ℕ → Output
  magnetic : List ℕ → Output
  gps_fix : List ℕ → Output
  ned_odometry : List ℕ → Output
  system_speed : List ℕ → Output

unfoldable pub frame_of : Kind → Driver → FrameBuffer
frame_of imu d = d.imu_frame
frame_of ahrs d = d.ahrs_frame
frame_of insgps d = d.insgps_frame
frame_of geodetic_pos d = d.geodetic_position_frame

unfoldable pub with_frame : Kind → FrameBuffer → Driver → Driver
with_frame imu frame d = record d { imu_frame = frame }
with_frame ahrs frame d = record d { ahrs_frame = frame }
with_frame insgps frame d = record d { insgps_frame = frame }
with_frame geodetic_pos frame d = record d { geodetic_position_frame = frame }

-- `checkSN`, with the serial number of the frame at hand.
unfoldable pub check_sn : Driver → ℕ → Driver
check_sn d serial_num =
    let read_sn = (d.read_sn + 1) % 256 in
    record d {
      read_sn = serial_num;
      sn_lost =
          if read_sn == serial_num
          then d.sn_lost
          else if ltb serial_num read_sn
          then d.sn_lost + (256 - (read_sn - serial_num))
          else d.sn_lost + (serial_num - read_sn);
    }

-- The first serial number of all, which frames of the kind INSGPS do not set.
unfoldable pub first_serial : Kind → Driver → ℕ → Driver
first_serial insgps d serial_num = d
first_serial kind d serial_num =
    if d.frist_sn then d else record d { read_sn = (serial_num + 255) % 256; frist_sn = true }

-- The checked bytes of a header.
unfoldable pub header_bytes : Header → List ℕ
header_bytes h = h.header_start ∷ h.data_type ∷ h.data_size ∷ h.serial_num ∷ []

-- A header is stored, checked, and counted if its CRC-8 is right.
unfoldable pub check_header : Kind → Driver → Header → Driver × Bool
check_header kind d header =
    let stored = with_frame kind (record (frame_of kind d) { header = header }) d in
    if crc8_table (header_bytes header) 4 == header.header_crc8
    then (check_sn (first_serial kind stored header.serial_num) header.serial_num, true)
    else (stored, false)

-- Bytes read over the start of a buffer.
abbrev pub overwrite : List ℕ → List ℕ → List ℕ
overwrite bytes old = bytes ++ drop (length bytes) old

-- The data and the end of a frame, as far as they arrive.
unfoldable pub fill : Kind → List ℕ → FrameBuffer → FrameBuffer
fill kind bytes frame =
    let read_msg = overwrite bytes (frame.data_buff ++ (frame.frame_end ∷ [])) in
    record frame {
      data_buff = take (data_len kind) read_msg;
      frame_end = get_or read_msg (data_len kind) 0;
    }

unfoldable pub check_data : Kind → FrameBuffer → Bool
check_data kind frame =
    crc16_table frame.data_buff (data_len kind)
      == (frame.header.header_crc16_l + frame.header.header_crc16_h * 256) % 65536
    && frame.frame_end == 0xFD

unfoldable pub publish : Kind → Driver → List Output
publish imu d = imu_data d.ahrs_frame.data_buff d.imu_frame.data_buff ∷ []
publish ahrs d =
    mag_pose_2d d.ahrs_frame.data_buff
    ∷ euler_angles d.ahrs_frame.data_buff
    ∷ magnetic d.imu_frame.data_buff
    ∷ []
publish insgps d =
    ned_odometry d.insgps_frame.data_buff ∷ system_speed d.insgps_frame.data_buff ∷ []
publish geodetic_pos d = gps_fix d.geodetic_position_frame.data_buff ∷ []
