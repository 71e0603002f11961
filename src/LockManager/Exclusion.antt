-- ===== src/LockManager/Exclusion.antt =====
-- Mutual exclusion of the table locks that the executors take: shared and exclusive ones.
pub mod Invariant
pub mod Joins
pub mod Upgrades
pub mod Asks
pub mod Wakes
pub mod Tables
mod Tests
