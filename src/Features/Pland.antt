-- ===== src/Features/Pland.antt =====
-- include/features/pland: the precise landing.
pub mod Types
pub mod Descent
pub mod Rabbit
pub mod Servo
pub mod Global
pub mod Controller
pub mod Window
pub mod TargetTracker
pub mod OffsetEstimator
pub mod Listener
pub mod Tests
