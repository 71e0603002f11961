-- ===== src/Storage.antt =====
-- Pages in memory and on disk, storage/.
pub mod BufferPool
pub mod View
pub mod Exchange
pub mod Fetch
pub mod Flush
pub mod Pinned
pub mod Pins
pub mod Unpin
pub mod Start
pub mod Stale
mod Tests
