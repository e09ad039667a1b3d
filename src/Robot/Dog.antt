-- ===== src/Robot/Dog.antt =====
-- include/robot/dog.hpp and include/features/dog/command.hpp: the robot dog behind UDP packets.
pub mod Packet
pub mod RoundTrip
pub mod Posture
