-- ===== src/Transaction.antt =====
-- Transactions as the lock manager sees them: transaction/transaction.h and the lock ids of
-- transaction/txn_defs.h.
pub mod LockDataId
pub mod State
