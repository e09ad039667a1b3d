-- ===== src/Features/Tracker.antt =====
-- include/features/tracker/tracker.hpp: ThreadedTracker.
pub mod Types
pub mod MoveBase
pub mod Mailbox
pub mod Pid
pub mod Control
pub mod Kinematics
pub mod Smooth
pub mod Activate
pub mod Step
pub mod Limits
pub mod Cursor
pub mod OnPath
pub mod Progress
pub mod Windup
pub mod Timeout
pub mod Callbacks
