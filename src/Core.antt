-- ===== src/Core.antt =====
-- include/core, the event structs of include/features/*/events.hpp and include/robot/irobot.hpp:
-- the data that the states, the listeners and the tracker share.
mod FlightModes
mod Events
mod Fields
mod Effects
mod Robots
mod Errors
mod Replies
pub mod Answers
unfoldable pub use FlightModes.*
pub use Events.*
pub use Fields.*
pub use Effects.*
pub use Robots.*
pub use Errors.*
pub use Replies.*
