-- ===== src/Data.antt =====
-- The data records of src/libserver/data and include/libserver/data.
pub mod Storage
pub mod Repair
mod Tests
