-- ===== src/States/Waypoint.antt =====
-- include/states/waypoint_state.hpp and src/states/waypoint_state.cpp. `Mission` is WaypointState
-- with its route, `Lifting` and `Excute` are its children.
pub mod Mission
pub mod Lifting
pub mod Excute
