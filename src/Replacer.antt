-- ===== src/Replacer.antt =====
-- Page replacement, replacer/lru_replacer.h: the clock that the buffer pool uses.
pub mod Clock
