-- ===== src/Flourish/Crdt.antt =====
-- flourish/server/domain/crdt/crdt.go: the replicated growable array behind an entry's text.
pub mod Types
pub mod Rga
pub mod Positions
pub mod Forest
pub mod Insertion
pub mod Planting
pub mod Reindex
pub mod Refinement
pub mod Deletion
pub mod Buffer
pub mod Apply
pub mod Snapshot
pub mod Restoring
pub mod Priority
pub mod Ordered
pub mod Unique
pub mod Reach
pub mod Accounts
pub mod History
pub mod Convergence
pub mod Delivery
