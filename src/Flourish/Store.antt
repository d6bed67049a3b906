-- ===== src/Flourish/Store.antt =====
-- flourish/server/domain and flourish/server/adapter/memory: events, entries and where they are kept.
pub mod Domain
pub mod Events
pub mod Numbering
pub mod Entries
pub mod Lookup
pub mod Files
