-- ===== src/Ahrs.antt =====
-- The driver of the inertial sensor, fdilink_ahrs_ROS2.
pub mod Crc
pub mod Frame
pub mod Driver
pub mod Packet
pub mod Messages
pub mod Startup
pub mod ImuTf
