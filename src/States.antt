-- ===== src/States.antt =====
-- include/states and src/states: the states of the hierarchical state machine. Each handler is a
-- function of the state's own fields, the context, the robot, the configuration and the time.
pub mod Tests
pub mod Basic
pub mod Arm
pub mod Takeoff
pub mod Land
pub mod Waypoint
pub mod PosVel
pub mod Follow
