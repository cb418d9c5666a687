-- ===== src/System.antt =====
-- The systems of src/server/system.
pub mod Otp
pub mod Matchmaking
pub mod Reward
pub mod Infraction
pub mod Item
pub mod Quest
pub mod Horse
mod Tests
