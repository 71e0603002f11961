-- ===== src/LockManager/Manager.antt =====
-- The state of `LockManager`, the operations on tables and records as the callers see them, and
-- `unlock`, all of lock_manager.cpp. Each holds the manager's latch from its start to its end or its
-- wait, so an operation is one step, and what follows a wait another one, which `wake_…` takes when
-- the predicate of the wait holds. `notify_all` only chooses when predicates are read again.
use cscc_db_rucbase.Common.{
  ℕ, Bool, true, false, List, [], Option, none, some, if◌then◌else◌, find, store, erase_key,
}
use cscc_db_rucbase.Gap.Compare.{Gap}
use cscc_db_rucbase.Transaction.LockDataId.{
  Rid, IndexMeta, index_meta_eq, LockDataId, table, record_lock, gap_lock, lock_data_id_eq,
}
use cscc_db_rucbase.Transaction.State.{
  AbortReason, lock_on_shrinking, deadlock_prevention, Transaction, add_lock, Check, passed,
  refused, thrown, check_lock, after_growing, is_over,
}
use cscc_db_rucbase.LockManager.Queue.{
  LockRequestQueue, Verdict, held, granted, blocked, die, assertion,
}
use cscc_db_rucbase.LockManager.Record
use cscc_db_rucbase.LockManager.Table
use cscc_db_rucbase.LockManager.Intention
use cscc_db_rucbase.LockManager.Release.{unlock_queue}

abbrev pub LockTable : Type 0
LockTable = List (LockDataId × LockRequestQueue)

pub record LockManager : Type 0 where
  pub lock_table : LockTable
  pub gap_lock_table : List (IndexMeta × LockTable)

-- How a call ends: it returns a truth value, throws a TransactionAbortException, fails an assertion,
-- throws an InternalError, or is asleep in `cv_.wait`.
pub data Outcome : Type 0 where
  returned : Bool → Outcome
  abort : AbortReason → Outcome
  assertion_failed internal_error waiting : Outcome

pub record Reply : Type 0 where
  pub manager : LockManager
  pub txn : Transaction
  pub outcome : Outcome

abbrev pub reply : LockManager → Transaction → Outcome → Reply
reply m t o = record { manager = m; txn = t; outcome = o }

-- The gap locks of an index; asking for a lock makes an empty table if there is none.
abbrev pub inner_table : IndexMeta → LockManager → LockTable
inner_table index m = elim (find index_meta_eq index m.gap_lock_table) [
  | none ↦ []
  | some inner ↦ inner
]

-- Runs the rest of an operation if `check_lock` lets it.
abbrev pub guarded : (Transaction → Reply) → LockManager → Transaction → Transaction × Check → Reply
guarded rest m t (t', passed) = rest t'
guarded rest m t (t', refused) = reply m t' (returned false)
guarded rest m t (t', thrown) = reply m t' (abort lock_on_shrinking)

module _ (gap_hasher : Gap → ℕ) where
  -- What a verdict on the queue of a lock means to the caller.
  abbrev pub conclude : LockDataId → Transaction → LockManager → Verdict → Reply
  conclude d t m held = reply m t (returned true)
  conclude d t m granted = reply m (add_lock gap_hasher d t) (returned true)
  conclude d t m blocked = reply m t waiting
  conclude d t m die = reply m t (abort deadlock_prevention)
  conclude d t m assertion = reply m t assertion_failed

  abbrev pub find_queue : LockDataId → LockTable → Option LockRequestQueue
  find_queue d m = find (lock_data_id_eq gap_hasher) d m

  abbrev pub store_queue : LockDataId → LockRequestQueue → LockTable → LockTable
  store_queue d q m = store (lock_data_id_eq gap_hasher) d q m

  -- An operation on the queue of a lock id in `lock_table_`.
  unfoldable pub on_lock_table :
      LockDataId
      → (ℕ → Option LockRequestQueue → LockRequestQueue × Verdict)
      → LockManager
      → Transaction
      → Reply
  on_lock_table d step m t =
      let (q, v) = step t.txn_id (find_queue d m.lock_table) in
      conclude d t (record m { lock_table = store_queue d q m.lock_table }) v

  -- The rest of an operation after its wait; `none` if it has to go on waiting.
  unfoldable pub wake_on_lock_table :
      LockDataId
      → (ℕ → LockRequestQueue → Option LockRequestQueue)
      → LockManager
      → Transaction
      → Option (LockManager × Transaction)
  wake_on_lock_table d wake m t = elim (find_queue d m.lock_table) [
    | none ↦ none
    | some q ↦ elim (wake t.txn_id q) [
      | none ↦ none
      | some q' ↦
          some (record m { lock_table = store_queue d q' m.lock_table }, add_lock gap_hasher d t)
    ]
  ]

  unfoldable pub lock_shared_on_record : LockManager → Transaction → Rid → ℕ → Reply
  lock_shared_on_record m t rid fd =
      guarded (on_lock_table (record_lock fd rid) Record.shared_on_record m) m t (check_lock t)

  unfoldable pub lock_exclusive_on_record : LockManager → Transaction → Rid → ℕ → Reply
  lock_exclusive_on_record m t rid fd =
      guarded (on_lock_table (record_lock fd rid) Record.exclusive_on_record m) m t (check_lock t)

  unfoldable pub lock_shared_on_table : LockManager → Transaction → ℕ → Reply
  lock_shared_on_table m t fd =
      guarded (on_lock_table (table fd) Table.shared_on_table m) m t (check_lock t)

  unfoldable pub lock_exclusive_on_table : LockManager → Transaction → ℕ → Reply
  lock_exclusive_on_table m t fd =
      guarded (on_lock_table (table fd) Table.exclusive_on_table m) m t (check_lock t)

  unfoldable pub lock_is_on_table : LockManager → Transaction → ℕ → Reply
  lock_is_on_table m t fd =
      guarded (on_lock_table (table fd) Intention.is_on_table m) m t (check_lock t)

  -- This one operation does not call `check_lock`.
  unfoldable pub lock_ix_on_table : LockManager → Transaction → ℕ → Reply
  lock_ix_on_table m t fd = on_lock_table (table fd) Intention.ix_on_table m t

  -- A table without its entry of a lock id, or with another queue there.
  abbrev pub put_back : LockDataId → Option LockRequestQueue → LockTable → LockTable
  put_back d none m = erase_key (lock_data_id_eq gap_hasher) d m
  put_back d (some q) m = store_queue d q m

  unfoldable pub unlock_in : ℕ → LockDataId → LockTable → LockTable
  unlock_in txn d m = elim (find_queue d m) [
    | none ↦ m
    | some q ↦ put_back d (unlock_queue txn q) m
  ]

  -- A gap lives in the table of its index, any other lock in `lock_table_`.
  unfoldable pub unlock_id : ℕ → LockDataId → LockManager → LockManager
  unfolding unlock_in
  unlock_id txn (gap_lock fd index gap) m = elim (find index_meta_eq index m.gap_lock_table) [
    | none ↦ m
    | some inner ↦ record m {
      gap_lock_table =
          store index_meta_eq index (unlock_in txn (gap_lock fd index gap) inner) m.gap_lock_table;
    }
  ]
  unlock_id txn d m = record m { lock_table = unlock_in txn d m.lock_table }

  unfoldable pub unlock : LockManager → Transaction → LockDataId → Reply
  unfolding unlock_id
  unlock m t d =
      if is_over t.state
      then reply m t (returned false)
      else reply (unlock_id t.txn_id d m) (record t { state = after_growing t.state })
          (returned true)
