-- ===== src/Ranch.antt =====
-- The ranch server: src/server/ranch and src/server/tracker/RanchTracker.cpp.
pub mod Tracker
pub mod Market
pub mod Genetics
mod Tests
