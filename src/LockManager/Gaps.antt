-- ===== src/LockManager/Gaps.antt =====
-- The operations on gap locks of lock_manager.cpp: `lock_shared_on_gap`, `lock_exclusive_on_gap` and
-- `isSafeInGap`. They work on the table of the gap locks of one index, and look at the queues of
-- all gaps that overlap the one asked for.
use Prim.Native.Nat.{Ordering}
use cscc_db_rucbase.Common.{
  ℕ, Bool, true, false, not, ◌&&◌, ◌||◌, List, [], ◌∷◌, Option, none, some, ltb, if◌then◌else◌, any,
  find, store, inc, is_pos, pos,
}
use cscc_db_rucbase.Gap.Compare.{Gap, is_coincide}
use cscc_db_rucbase.Transaction.LockDataId.{
  IndexMeta, index_meta_eq, LockDataId, gap_lock, lock_data_id_eq,
}
use cscc_db_rucbase.Transaction.State.{Transaction, check_lock}
use cscc_db_rucbase.LockManager.Queue.{
  LockRequest, LockRequestQueue, shared, exclusive, non_lock, s_lock, x_lock, Verdict, held,
  granted, blocked, die, assertion, new_queue, find_request, update_first, update_last, grant,
  enqueue, wait_die, is_mode, is_group, other_granted, other_exclusive,
}
use cscc_db_rucbase.LockManager.Record.{give_shared, give_exclusive}
use cscc_db_rucbase.LockManager.Table.{suspend}
use cscc_db_rucbase.LockManager.Manager.{
  LockTable, LockManager, Reply, inner_table, guarded, conclude,
}

-- What a scan of the overlapping queues finds: nothing in the way, a lock to wait for, or one before
-- which the transaction dies.
pub data Scan : Type 0 where
  clear conflict too_young : Scan

-- `gap_` of a lock id; those of tables and records hold none.
abbrev pub gap_of : LockDataId → Gap
gap_of (gap_lock fd index gap) = gap
gap_of _ = record { index_conds = [] }

module _ (compare_float : List ℕ → List ℕ → Ordering) (gap_hasher : Gap → ℕ) where
  -- The two tests of a queue in the loops: an exclusive group, or any lock at all, whose gap
  -- overlaps and in which another transaction holds a granted request.
  unfoldable pub bars_shared_gap : ℕ → Gap → LockDataId × LockRequestQueue → Bool
  bars_shared_gap txn gap (d, q) =
      (is_group q.group_lock_mode x_lock && is_coincide compare_float gap (gap_of d))
      && other_granted txn q.request_queue

  unfoldable pub bars_exclusive_gap : ℕ → Gap → LockDataId × LockRequestQueue → Bool
  bars_exclusive_gap txn gap (d, q) =
      (not (is_group q.group_lock_mode non_lock) && is_coincide compare_float gap (gap_of d))
      && other_granted txn q.request_queue

  -- The loop over the gap locks of the index, which ends at the first queue in the way.
  unfoldable pub scan : (LockDataId × LockRequestQueue → Bool) → ℕ → LockTable → Scan
  scan bars txn [] = clear
  scan bars txn ((d, q) ∷ m) =
      if bars (d, q)
      then (if ltb q.oldest_txn_id txn then too_young else conflict)
      else scan bars txn m

  abbrev pub put_queue : LockDataId → LockTable → LockRequestQueue × Verdict → LockTable × Verdict
  put_queue d m (q, v) = (store (lock_data_id_eq gap_hasher) d q m, v)

  -- A request that waits in a queue made for it.
  abbrev pub waiting_queue : ℕ → LockRequestQueue → LockRequestQueue
  waiting_queue txn q = record q { oldest_txn_id = txn }

  -- `lock_shared_on_gap` where the gap has a queue. Overlapping gaps are not looked at.
  unfoldable pub shared_on_queue : ℕ → LockRequestQueue → LockRequestQueue × Verdict
  shared_on_queue txn q = elim (find_request txn q.request_queue) [
    | some r ↦ (q, if r.granted then held else assertion)
    | none ↦
        if is_group q.group_lock_mode x_lock
        then wait_die txn q (enqueue txn shared false q)
        else (give_shared txn q, granted)
  ]

  -- Where it has none: only then the other gaps of the index are scanned.
  unfoldable pub shared_on_new : ℕ → LockDataId → LockTable → Scan → LockTable × Verdict
  shared_on_new txn d m too_young = (m, die)
  shared_on_new txn d m conflict =
      put_queue d m (waiting_queue txn (enqueue txn shared false new_queue), blocked)
  shared_on_new txn d m clear = put_queue d m (give_shared txn new_queue, granted)

  unfoldable pub shared_on_gap : ℕ → LockDataId → LockTable → LockTable × Verdict
  unfolding shared_on_queue shared_on_new
  shared_on_gap txn d m = elim (find (lock_data_id_eq gap_hasher) d m) [
    | some q ↦ put_queue d m (shared_on_queue txn q)
    | none ↦ shared_on_new txn d m (scan (bars_shared_gap txn (gap_of d)) txn m)
  ]

  unfoldable pub wake_shared_on_gap : ℕ → LockDataId → LockTable → Option LockTable
  wake_shared_on_gap txn d m = elim (find (lock_data_id_eq gap_hasher) d m) [
    | none ↦ none
    | some q ↦
        if other_exclusive txn q.request_queue || any (bars_shared_gap txn (gap_of d)) m
        then none
        else some (
            store (lock_data_id_eq gap_hasher) d
              (record q {
                request_queue = update_last txn grant q.request_queue;
                group_lock_mode = s_lock;
                shared_lock_num = inc q.shared_lock_num;
              })
              m)
  ]

  -- The transaction has the request `r` in the queue; `clear_of_others` is what the scan found.
  unfoldable pub upgrade_gap :
      ℕ → LockRequest → Bool → LockRequestQueue → LockRequestQueue × Verdict
  upgrade_gap txn r clear_of_others q =
      if is_mode r.lock_mode exclusive
      then (q, held)
      else if not (is_mode r.lock_mode shared)
      then (q, assertion)
      else if is_pos q.shared_lock_num 1 && clear_of_others
      then (
        record q {
          request_queue =
              update_first txn (λ e. record e { lock_mode = exclusive }) q.request_queue;
          shared_lock_num = pos 0;
          group_lock_mode = x_lock;
        },
        held,
      )
      else wait_die txn q (record q { request_queue = update_first txn suspend q.request_queue })

  unfoldable pub exclusive_on_queue : ℕ → Bool → LockRequestQueue → LockRequestQueue × Verdict
  unfolding upgrade_gap
  exclusive_on_queue txn clear_of_others q = elim (find_request txn q.request_queue) [
    | some r ↦ if r.granted then upgrade_gap txn r clear_of_others q else (q, assertion)
    | none ↦
        if is_group q.group_lock_mode non_lock
        then (give_exclusive txn q, granted)
        else wait_die txn q (enqueue txn exclusive false q)
  ]

  abbrev pub exclusive_on_found :
      ℕ → LockDataId → LockTable → Bool → Option LockRequestQueue → LockTable × Verdict
  exclusive_on_found txn d m clear_of_others (some q) =
      put_queue d m (exclusive_on_queue txn clear_of_others q)
  exclusive_on_found txn d m true none = put_queue d m (give_exclusive txn new_queue, granted)
  exclusive_on_found txn d m false none =
      put_queue d m (waiting_queue txn (enqueue txn exclusive false new_queue), blocked)

  unfoldable pub exclusive_after_scan : ℕ → LockDataId → LockTable → Scan → LockTable × Verdict
  unfolding exclusive_on_queue
  exclusive_after_scan txn d m too_young = (m, die)
  exclusive_after_scan txn d m clear =
      exclusive_on_found txn d m true (find (lock_data_id_eq gap_hasher) d m)
  exclusive_after_scan txn d m conflict =
      exclusive_on_found txn d m false (find (lock_data_id_eq gap_hasher) d m)

  unfoldable pub exclusive_on_gap : ℕ → LockDataId → LockTable → LockTable × Verdict
  unfolding exclusive_after_scan
  exclusive_on_gap txn d m =
      exclusive_after_scan txn d m (scan (bars_exclusive_gap txn (gap_of d)) txn m)

  unfoldable pub wake_exclusive_on_gap : ℕ → LockDataId → LockTable → Option LockTable
  wake_exclusive_on_gap txn d m = elim (find (lock_data_id_eq gap_hasher) d m) [
    | none ↦ none
    | some q ↦
        if other_granted txn q.request_queue || any (bars_exclusive_gap txn (gap_of d)) m
        then none
        else some (
            store (lock_data_id_eq gap_hasher) d
              (record q {
                request_queue = update_last txn grant q.request_queue;
                group_lock_mode = x_lock;
              })
              m)
  ]

  unfoldable pub on_gap_table :
      IndexMeta
      → LockDataId
      → (ℕ → LockDataId → LockTable → LockTable × Verdict)
      → LockManager
      → Transaction
      → Reply
  on_gap_table index d step m t =
      let (inner, v) = step t.txn_id d (inner_table index m) in
      conclude gap_hasher d t
        (record m { gap_lock_table = store index_meta_eq index inner m.gap_lock_table }) v

  unfoldable pub lock_shared_on_gap : LockManager → Transaction → IndexMeta → Gap → ℕ → Reply
  lock_shared_on_gap m t index gap fd =
      guarded (on_gap_table index (gap_lock fd index gap) shared_on_gap m) m t (check_lock t)

  unfoldable pub lock_exclusive_on_gap : LockManager → Transaction → IndexMeta → Gap → ℕ → Reply
  lock_exclusive_on_gap m t index gap fd =
      guarded (on_gap_table index (gap_lock fd index gap) exclusive_on_gap m) m t (check_lock t)
