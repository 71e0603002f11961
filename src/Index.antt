-- ===== src/Index.antt =====
-- The B+ tree index, src/index: the nodes of the tree.
pub mod Node
mod Tests
