-- ===== src/Transaction/State.antt =====
-- The fields of `Transaction` that locking reads and writes, and `check_lock` of lock_manager.cpp,
-- which keeps the two phases of two-phase locking apart.
use cscc_db_rucbase.Common.{ℕ, Bool, true, false, List, ◌∷◌, any, if◌then◌else◌}
use cscc_db_rucbase.Transaction.LockDataId.{LockDataId, lock_data_id_eq}
use cscc_db_rucbase.Gap.Compare.{Gap}

pub data TransactionState : Type 0 where
  default growing shrinking committed aborted : TransactionState

pub data AbortReason : Type 0 where
  lock_on_shrinking upgrade_conflict deadlock_prevention : AbortReason

pub record Transaction : Type 0 where
  pub txn_id : ℕ
  pub state : TransactionState
  pub lock_set : List LockDataId

-- `get_lock_set()->emplace(id)`.
unfoldable pub add_lock : (Gap → ℕ) → LockDataId → Transaction → Transaction
add_lock gap_hasher d t =
    if any (λ e. lock_data_id_eq gap_hasher e d) t.lock_set
    then t
    else record t { lock_set = d ∷ t.lock_set }

-- `check_lock` returns true or false, or throws LOCK_ON_SHIRINKING.
pub data Check : Type 0 where
  passed refused thrown : Check

abbrev pub check_state : TransactionState → TransactionState × Check
check_state default = (growing, passed)
check_state growing = (growing, passed)
check_state shrinking = (shrinking, thrown)
check_state committed = (committed, refused)
check_state aborted = (aborted, refused)

unfoldable pub check_lock : Transaction → Transaction × Check
check_lock t = let (s, c) = check_state t.state in (record t { state = s }, c)

-- The first lines of `unlock`: GROWING ends, and the other states stay.
abbrev pub after_growing : TransactionState → TransactionState
after_growing growing = shrinking
after_growing s = s

-- COMMITTED or ABORTED.
abbrev pub is_over : TransactionState → Bool
is_over committed = true
is_over aborted = true
is_over s = false
