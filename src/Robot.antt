-- ===== src/Robot.antt =====
-- include/robot: the robots behind the interface `Robot` of Core.
pub mod Tests
pub mod Drone
pub mod Car
pub mod Go2
pub mod Dog
pub mod Safety
