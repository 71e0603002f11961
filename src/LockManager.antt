-- ===== src/LockManager.antt =====
-- The lock manager, transaction/concurrency/lock_manager.{h,cpp}.
pub mod Queue
pub mod Record
pub mod Table
pub mod Intention
pub mod Release
pub mod Manager
pub mod Gaps
pub mod SafeInGap
pub mod Steps
pub mod Age
pub mod Judged
pub mod WaitDie
pub mod Readers
pub mod Exclusion
pub mod TwoPhase
pub mod GapSteps
pub mod GapExclusion
pub mod Insert
mod Tests
