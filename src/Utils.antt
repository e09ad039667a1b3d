-- ===== src/Utils.antt =====
-- include/utils: the small data structures that the rest of the system is built on.
pub mod Tests
pub mod Request
pub mod Dirty
pub mod Registry
pub mod FixedString
pub mod Runner
pub mod Datum
