-- ===== src/Network.antt =====
-- The command protocol's network layer: src/libserver/network/command.
pub mod MessageMagic
pub mod CommandServer
pub mod CommandDeferrer
mod Tests
