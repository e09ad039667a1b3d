-- ===== src/Control.antt =====
-- include/features/control/event_listener.hpp and src/features/control/event_listener.cpp: the
-- listener of the control events. A handler that leaves the context alone is its list of calls.
pub mod Tests
pub mod Active
pub mod PoseHistory
pub mod SetWaypoint
pub mod Commands
