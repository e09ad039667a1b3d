-- ===== src/Mavlink.antt =====
-- include/mavlink/mavsdk_drone.hpp, src/mavlink/mavsdk_drone.cpp: the flight controller over MAVSDK;
-- include/features/control/mavros_bridge.hpp: its ROS face; src/features/mavlink/event_listener.cpp.
pub mod Sdk
pub mod Modes
pub mod Drone
pub mod Rtcm
pub mod Params
pub mod Bridge
pub mod Telemetry
pub mod Gimbal
pub mod Listener
pub mod Tests
