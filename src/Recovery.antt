-- ===== src/Recovery.antt =====
-- The write-ahead log, src/recovery: the records and their bytes, and the log's buffer.
pub mod Log
pub mod Manager
mod Tests
