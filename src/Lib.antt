-- ===== src/Lib.antt =====
-- Verification of the vehicle-side nodes of Wtbcar_autoware_nav2.
--
-- The program drives an Ackermann car from Autoware. Its own nodes stand between the planner
-- and the wheels, and talk by topics: wtb_vehicle_interface turns Autoware's control and gear commands
-- into chassis commands (twist_cmd or cmd_vel, and run_static) and reports the car's state; the driver
-- of wtb_car_driver turns chassis commands into CAN frames with a checksum and a heartbeat, and the
-- car's feedback into odometry (wtb_car_only.cpp is a second, smaller driver). can_bridge carries the
-- frames between the topics and the CAN box. fdilink_ahrs_ROS2 reads the inertial sensor from a serial
-- line, and two nodes of wtb_sensor_kit_launch bring the lidar's point clouds into the layouts of
-- Autoware and of LIO-SAM.
--
-- Files and code:
--   Vehicle    wtb_vehicle_interface/src/vehicle_interface.cpp. The state is the record Vehicle (the
--              members of VehicleInterface); each callback is a function of its name in lower case
--              (onControlCmd is on_control_cmd) from the state, the readings of the clock and the
--              message to the new state and the published messages; step and run compose them.
--     Vehicle/Commands    the bounds of the chassis commands
--     Vehicle/Mode        the control mode
--     Vehicle/Watchdog    the timeout of the control commands
--   Chassis    wtb_car_driver/src/wtb_car.cpp: SendSpeedToAKM, CmdVelCallback, TwistCmdVelCallback,
--              run_static_callback, stop and can_tx_callback on the record Car.
--     Chassis/Codec       BuildCtrlCmdData and ParseCtrlFb on bytes; Layout and Checksum
--     Chassis/Odometry    CalculateAndPublished, normalizeAngle and publishOdom
--     Chassis/Odometry/Heading  the loops of normalizeAngle
--     Chassis/Odometry/Update   one update
--     Chassis/Heartbeat   all frames over time
--     Chassis/Enable      the run switch
--     Chassis/Stopped     a driver that does not resume by itself
--     Chassis/Speed       what the frames command
--     Chassis/Stopping    the command that stops the car
--     Chassis/Switch      the run switch after other commands
--     Chassis/Headers     the headers of all frames
--     Chassis/Feedback    frames from the chassis
--     Chassis/Bounded     the commands that all frames are packed for
--     Chassis/Startup     the constructor; Vehicle/Startup, CarOnly/Startup, CanBridge/Startup and the
--                         Startup modules of PointCloud are those of the other nodes
--   CarOnly    wtb_car_driver/src/wtb_car_only.cpp: its callbacks on a record Car of its own; what has the
--              text of wtb_car.cpp (the codec, helpers of the odometry) is taken from Chassis
--     CarOnly/Agreement   where the two drivers agree, and the limit of the steering angle
--   CanBridge  can_bridge/src/can_bridge_node.cpp, over the library of the CAN box (controlcan.h) as the
--              record Vci: Init_Can, the callbacks, can_receive_parse and can_receive_loop
--     CanBridge/Connection  the flag can_f and the loss of the box
--     CanBridge/Relay       the conversions
--     CanBridge/Threads     Init_Can statement by statement, in turns with the callbacks of the other thread
--                           (a statement and a callback are one turn each)
--   Ahrs       fdilink_ahrs_ROS2
--     Ahrs/Crc            src/crc_table.cpp; its children compare the tables with the polynomials
--     Ahrs/Frame          the frame buffers, their checks, and checkSN
--     Ahrs/Driver         src/ahrs_driver.cpp: processLoop, one pass at a time, over the serial library as
--                         the record Serial; a message is named by the buffers that it is
--                         computed from
--     Ahrs/Driver/Loss      the count of lost frames
--     Ahrs/Driver/Checked   what is published at all
--     Ahrs/Driver/Data      the data of a frame and its end mark
--     Ahrs/Driver/Framing   whole frames
--     Ahrs/Driver/Bursts    frames whose data arrive with a burst of errors
--     Ahrs/Driver/Stream    streams of them
--     Ahrs/Driver/Line      whole and damaged frames and stray bytes on one line
--     Ahrs/Driver/Others    the buffers of the other kinds
--     Ahrs/Packet         include/fdilink_data_struct.h, over numbers in memory as the record Memory
--     Ahrs/Messages       the messages that processLoop fills, over Eigen's quaternions as the record
--                         Rotations
--     Ahrs/Messages/Packets   packets as the sensor stores them
--     Ahrs/Messages/Reported  from frames to messages
--     Ahrs/ImuTf          src/imu_tf.cpp
--     Ahrs/ImuTf/Turned   from frames to its transform
--     Ahrs/Startup        the constructors of both nodes
--   PointCloud wtb_sensor_kit_launch/common_sensor_launch/src: a cloud with its bytes, and field_offset
--     PointCloud/Bytes        slices of bytes
--     PointCloud/Adapter      pointcloud_xyzirt_to_xyzirc_node.cpp: on_pointcloud, as a function from a cloud
--                             to the published clouds; none is a read or write out of a buffer
--     PointCloud/Adapter/Points   one point
--     PointCloud/Adapter/Buffer   the loop over the points
--     PointCloud/Adapter/Fields   the fields by their names
--     PointCloud/Adapter/Intensity  the byte for an intensity
--     PointCloud/Adapter/Place    the parts of a point of sixteen bytes
--     PointCloud/Adapter/Output   which clouds are published
--     PointCloud/Adapter/Reader   what a reader of the output finds
--     PointCloud/Transformer  point_cloud_transformer.cpp: pointCloudCallback on the record Node (the
--                             remembered offsets), over PCL and Eigen as the record Outside
--     PointCloud/Transformer/Fields   the fields that the node reads itself
--     PointCloud/Transformer/Clouds   the two clouds of a message
--     PointCloud/Transformer/Layout   the remembered layout, and which messages are answered
--     PointCloud/Transformer/Runs     runs that stay inside their data
--   System     the vehicle interface and the driver together, over the topics that they share
--     System/Bus          the driver's frames through the bridge
--     System/Bounded      all frames over a drive
--     System/Hearing      the topics that carry feedback
--     System/Reported     feedback of the drive on its way to the reports of the vehicle interface
--     System/Wiring       what it means that the nodes are linked
--     System/Topics       which callbacks get what each node publishes, by the constructors
--     System/Silence      the watchdog of the vehicle interface on its way to the CAN bus
--     System/Commanded    a control command of Autoware on its way to the CAN bus
--   Ros        the parameters and the names of topics that the constructors use
--   Floats     floating point as a parameter: a record of the operations that the code uses, with the
--              laws that a theorem needs as named hypotheses (Floats/Thousandths is one instance, on
--              which the examples run)
--   Bits       bitwise operations on the native numbers, as arithmetic
--   Prelude    shared names, Boolean tests, lists and integers
--
-- Bounds: a byte is a number below 256 and a narrowing store is a remainder; an int is masked through
-- its two's complement pattern of 32 bits. Times are counts of nanoseconds. The loops of
-- normalizeAngle run on fuel, and return none when it runs out; one unit more than the turns that
-- bring an angle back is enough. The loops of the serial and CAN threads are taken for a number of
-- passes. The wait of the transformer for its transform is on fuel: the polls until it ends.
--
-- Not modelled: the quality of service of topics, logging, the destructors, the sleep between two
-- frames, and the conversion of a floating-point value that does not fit its integer type, which C++
-- leaves undefined (the conversions are parameters). The copies of other projects (LIO-SAM, rslidar_sdk, lslidar_driver,
-- serial) are not modelled; what the nodes call of them is a parameter. The messages' packages of
-- Autoware and ROS are not part of the repository: their constants are the record Codes.
pub mod Prelude
pub mod Bits
pub mod Floats
pub mod Vehicle
pub mod Chassis
pub mod CarOnly
pub mod CanBridge
pub mod Ahrs
pub mod PointCloud
pub mod System
pub mod Ros
