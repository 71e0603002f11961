-- ===== src/LockManager/GapSteps.antt =====
-- The life of the gap locks of one index, as a step relation on their table: the operations of
-- lock_manager.cpp on gaps, in any order.
pub mod Queues
pub mod Tables
use Prim.Native.Nat.{Ordering}
use cscc_db_rucbase.Common.{
  ℕ, ◌≡◌, refl, subst, Bool, true, false, not, ◌&&◌, List, [], ◌∷◌, Option, none, some, any, arith,
  suc, is_pos, pos, All, All-store, All-found, All-erase_key, Option-cases, inl, inr, if◌then◌else◌,
  ltb, ◌==◌, find, any-append_singleton,
}
use cscc_db_rucbase.Gap.Compare.{Gap}
use cscc_db_rucbase.Transaction.LockDataId.{LockDataId, lock_data_id_eq}
use cscc_db_rucbase.LockManager.Queue.{
  LockMode, GroupLockMode, mode_rank, LockRequest, LockRequestQueue, Verdict, held, granted,
  blocked, die, assertion, exclusive, shared, x_lock, non_lock, is_group, is_mode, group_rank,
  new_queue, enqueue, find_request, update_first, wait_die,
}
use cscc_db_rucbase.LockManager.Record.{give_shared, give_exclusive}
use cscc_db_rucbase.LockManager.Table.{suspend}
use cscc_db_rucbase.LockManager.Release.{unlock_queue}
use cscc_db_rucbase.LockManager.Release.Spec.{
  unlock_queue-Released, Unlocked-Released, unlock_queue_of_none,
}
use cscc_db_rucbase.LockManager.Manager.{LockTable, find_queue, store_queue, put_back, unlock_in}
use cscc_db_rucbase.LockManager.Gaps.{
  Scan, clear, conflict, too_young, scan, gap_of, bars_shared_gap, shared_on_queue, shared_on_new,
  shared_on_gap, wake_shared_on_gap, upgrade_gap, exclusive_on_queue, exclusive_on_found,
  exclusive_after_scan, exclusive_on_gap, wake_exclusive_on_gap,
}
use cscc_db_rucbase.LockManager.SafeInGap.{claimed_queue}

module _ (compare_float : List ℕ → List ℕ → Ordering) (gap_hasher : Gap → ℕ) where
  pub data GapStep (m m' : LockTable) : Type 0 where
    asks_shared :
        (txn : ℕ) (d : LockDataId) (v : Verdict)
        → shared_on_gap compare_float gap_hasher txn d m ≡ (m', v)
        → GapStep m m'
    asks_exclusive :
        (txn : ℕ) (d : LockDataId) (v : Verdict)
        → exclusive_on_gap compare_float gap_hasher txn d m ≡ (m', v)
        → GapStep m m'
    wakes_shared :
        (txn : ℕ) (d : LockDataId)
        → wake_shared_on_gap compare_float gap_hasher txn d m ≡ some m'
        → GapStep m m'
    wakes_exclusive :
        (txn : ℕ) (d : LockDataId)
        → wake_exclusive_on_gap compare_float gap_hasher txn d m ≡ some m'
        → GapStep m m'
    claims :
        (txn : ℕ) (d : LockDataId)
        → find_queue gap_hasher d m ≡ none
        → store_queue gap_hasher d (claimed_queue txn) m ≡ m'
        → GapStep m m'
    releases : (txn : ℕ) (d : LockDataId) → unlock_in gap_hasher txn d m ≡ m' → GapStep m m'

  -- From no locks at all.
  pub data GapReached : LockTable → Type 0 where
    start : GapReached []
    next : {m m' : LockTable} → GapReached m → GapStep m m' → GapReached m'

-- A queue in which something is granted has a mode.
abbrev pub HasMode : LockRequestQueue → Type 0
HasMode q =
    any (λ r. r.granted) q.request_queue ≡ true → is_group q.group_lock_mode non_lock ≡ false

abbrev pub Moded : LockTable → Type 0
Moded m = All (λ e. HasMode e.1) m
