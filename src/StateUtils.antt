-- ===== src/StateUtils.antt =====
-- include/states/state_utils.hpp and src/states/state_utils.cpp: angles, coordinates and the
-- checkers that the states share. A call of GeographicLib is a field of `Utm`.
pub mod Angles
pub mod Geodesy
pub mod Stall
unfoldable pub use Angles.*
unfoldable pub use Geodesy.*
unfoldable pub use Stall.*
