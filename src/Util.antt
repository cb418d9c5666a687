-- ===== src/Util.antt =====
-- The utilities of src/libserver/util.
pub mod Stream
pub mod Scheduler
pub mod Time
pub mod Text
mod Tests
