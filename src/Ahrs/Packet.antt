-- ===== src/Ahrs/Packet.antt =====
-- The packets of fdilink_ahrs_ROS2/include/fdilink_data_struct.h, from the data of a frame. The bytes of
-- a `float` and of a `double` are parameters; a time stamp, which no message uses, stays the list of its
-- bytes.
use wtbcar_autoware_nav.Prelude.{ℕ, ◌*◌, List, take, drop}
use wtbcar_autoware_nav.Floats.{Floats}

-- The numbers that four and eight bytes stand for.
pub record Memory (f : Floats) : Type 0 where
  pub float_of : List ℕ → f.F32
  pub double_of : List ℕ → f.F64

pub record ImuPacket (f : Floats) : Type 0 where
  pub gyroscope_x : f.F32
  pub gyroscope_y : f.F32
  pub gyroscope_z : f.F32
  pub accelerometer_x : f.F32
  pub accelerometer_y : f.F32
  pub accelerometer_z : f.F32
  pub magnetometer_x : f.F32
  pub magnetometer_y : f.F32
  pub magnetometer_z : f.F32
  pub imu_temperature : f.F32
  pub pressure : f.F32
  pub pressure_temperature : f.F32
  pub timestamp : List ℕ

pub record AhrsPacket (f : Floats) : Type 0 where
  pub roll_speed : f.F32
  pub pitch_speed : f.F32
  pub heading_speed : f.F32
  pub roll : f.F32
  pub pitch : f.F32
  pub heading : f.F32
  pub qw : f.F32
  pub qx : f.F32
  pub qy : f.F32
  pub qz : f.F32
  pub timestamp : List ℕ

-- The members of INSGPSData_Packet_t and Geodetic_Position_Packet_t that are read.
pub record InsgpsPacket (f : Floats) : Type 0 where
  pub body_velocity_x : f.F32
  pub body_velocity_y : f.F32
  pub body_velocity_z : f.F32
  pub location_north : f.F32
  pub location_east : f.F32
  pub location_down : f.F32
  pub velocity_north : f.F32
  pub velocity_east : f.F32
  pub velocity_down : f.F32

pub record GeodeticPositionPacket (f : Floats) : Type 0 where
  pub latitude : f.F64
  pub longitude : f.F64
  pub height : f.F64

module _ (f : Floats) (memory : Memory f) where
  -- The k-th of the numbers that a packet starts with.
  unfoldable pub float_at : List ℕ → ℕ → f.F32
  float_at data_buff k = memory.float_of (take 4 (drop (4 * k) data_buff))

  pub double_at : List ℕ → ℕ → f.F64
  double_at data_buff k = memory.double_of (take 8 (drop (8 * k) data_buff))

  unfoldable pub imu_packet : List ℕ → ImuPacket f
  imu_packet data_buff = record {
    gyroscope_x = float_at data_buff 0;
    gyroscope_y = float_at data_buff 1;
    gyroscope_z = float_at data_buff 2;
    accelerometer_x = float_at data_buff 3;
    accelerometer_y = float_at data_buff 4;
    accelerometer_z = float_at data_buff 5;
    magnetometer_x = float_at data_buff 6;
    magnetometer_y = float_at data_buff 7;
    magnetometer_z = float_at data_buff 8;
    imu_temperature = float_at data_buff 9;
    pressure = float_at data_buff 10;
    pressure_temperature = float_at data_buff 11;
    timestamp = take 8 (drop 48 data_buff);
  }

  unfoldable pub ahrs_packet : List ℕ → AhrsPacket f
  ahrs_packet data_buff = record {
    roll_speed = float_at data_buff 0;
    pitch_speed = float_at data_buff 1;
    heading_speed = float_at data_buff 2;
    roll = float_at data_buff 3;
    pitch = float_at data_buff 4;
    heading = float_at data_buff 5;
    qw = float_at data_buff 6;
    qx = float_at data_buff 7;
    qy = float_at data_buff 8;
    qz = float_at data_buff 9;
    timestamp = take 8 (drop 40 data_buff);
  }

  pub insgps_packet : List ℕ → InsgpsPacket f
  insgps_packet data_buff = record {
    body_velocity_x = float_at data_buff 0;
    body_velocity_y = float_at data_buff 1;
    body_velocity_z = float_at data_buff 2;
    location_north = float_at data_buff 6;
    location_east = float_at data_buff 7;
    location_down = float_at data_buff 8;
    velocity_north = float_at data_buff 9;
    velocity_east = float_at data_buff 10;
    velocity_down = float_at data_buff 11;
  }

  pub geodetic_position_packet : List ℕ → GeodeticPositionPacket f
  geodetic_position_packet data_buff = record {
    latitude = double_at data_buff 0;
    longitude = double_at data_buff 1;
    height = double_at data_buff 2;
  }
