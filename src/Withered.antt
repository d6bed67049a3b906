-- ===== src/Withered.antt =====
-- The game server withered/server.
pub mod Protocol
pub mod Sessions
pub mod Game
mod Examples
mod Rounds
mod Broadcasts
