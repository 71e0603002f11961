-- ===== src/Gap.antt =====
-- Gaps, the ranges of index keys that gap locks cover: `Value` and `CondOp` as far as a gap reads
-- them, and the class `Gap` of transaction/txn_defs.h. A gap holds, for each column of its index, a
-- lower and an upper condition, either of which may be absent (OP_INVALID).
pub mod Compare
pub mod Overlap
