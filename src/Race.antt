-- ===== src/Race.antt =====
-- The race server: src/server/race and src/server/tracker/RaceTracker.cpp.
pub mod P2dIdPool
pub mod Tracker
pub mod Magic
pub mod Instance
pub mod Results
mod Tests
