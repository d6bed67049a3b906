-- ===== src/Withered/Game.antt =====
-- withered/server/application: the world of the game, and what the sessions of a room do to it.
pub mod World
pub mod Grid
pub mod Tiles
pub mod Commands
pub mod Snapshots
pub mod Layout
pub mod Invariant
pub mod Floats
pub mod Systems
pub mod Fitness
pub mod Ticks
pub mod Bounds
pub mod Scheduler
