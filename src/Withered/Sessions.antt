-- ===== src/Withered/Sessions.antt =====
-- withered/server/domain: sessions, their endpoints, and rooms.
pub mod Session
pub mod Endpoint
pub mod Room
pub mod Delivery
pub mod Topics
pub mod Places
pub mod Channels
pub mod Publishing
pub mod Calls
