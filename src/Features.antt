-- ===== src/Features.antt =====
-- include/features and src/features: the tracker and the listener of the algorithm events.
pub mod Tests
pub mod Tracker
pub mod Algo
pub mod Pland
pub mod Go2
pub mod Car
pub mod Ntrip
pub mod Report
pub mod Recorder
