-- ===== src/Flourish.antt =====
-- The blog server flourish/server: the replicated text of an entry.
pub mod Uuid
pub mod Crdt
pub mod Store
pub mod Sync
pub mod Tickets
pub mod Socket
pub mod Projector
mod Examples
mod Replicas
mod Connections
mod Reopening
mod Services
