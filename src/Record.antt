-- ===== src/Record.antt =====
-- The record layer, src/record: the bitmap of a page's slots, the records of a table's file, and
-- the scan over them.
pub mod Bitmap
pub mod File
pub mod Manager
pub mod Scan
pub mod Example
mod Tests
