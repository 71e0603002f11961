-- ===== src/LockManager/Table.antt =====
-- What `lock_shared_on_table` and `lock_exclusive_on_table` of lock_manager.cpp do to the request
-- queue of the table, up to the wait and after it, as in `Record`.
use cscc_db_rucbase.Common.{ℕ, Bool, false, ◌||◌, Option, none, some, if◌then◌else◌, inc, is_pos}
use cscc_db_rucbase.LockManager.Queue.{
  LockRequestQueue, LockRequest, GroupLockMode, LockMode, shared, s_ix, exclusive, ix_lock, s_lock,
  six_lock, x_lock, Verdict, held, granted, assertion, new_queue, find_request, update_first,
  update_last, grant, wait_die, is_mode, is_group, group_max, other_exclusive, other_granted,
}
use cscc_db_rucbase.LockManager.Record.{give_shared, give_exclusive, first_shared, first_exclusive}

abbrev pub covers_shared : LockMode → Bool
covers_shared m = is_mode m shared || (is_mode m s_ix || is_mode m exclusive)

unfoldable pub shared_on_table : ℕ → Option LockRequestQueue → LockRequestQueue × Verdict
unfolding give_shared first_shared
shared_on_table txn none = (give_shared txn new_queue, granted)
shared_on_table txn (some q) = elim (find_request txn q.request_queue) [
  | some r ↦ (q, if covers_shared r.lock_mode then held else assertion)
  | none ↦ first_shared txn q
]

-- An IX queue becomes SIX; otherwise the stronger of S and the mode at hand stays.
abbrev pub join_shared : GroupLockMode → GroupLockMode
join_shared g = if is_group g ix_lock then six_lock else group_max s_lock g

unfoldable pub wake_shared_on_table : ℕ → LockRequestQueue → Option LockRequestQueue
wake_shared_on_table txn q =
    if other_exclusive txn q.request_queue
    then none
    else some (record q {
      request_queue = update_last txn grant q.request_queue;
      group_lock_mode = join_shared q.group_lock_mode;
      shared_lock_num = inc q.shared_lock_num;
    })

-- Until it is woken the own request, turned exclusive, is not granted.
abbrev pub suspend : LockRequest → LockRequest
suspend r = record r { granted = false; lock_mode = exclusive }

abbrev pub make_exclusive : LockRequest → LockRequest
make_exclusive r = record r { lock_mode = exclusive }

unfoldable pub upgrade_table : ℕ → LockRequest → LockRequestQueue → LockRequestQueue × Verdict
upgrade_table txn r q =
    if is_mode r.lock_mode exclusive
    then (q, held)
    else if is_pos q.shared_lock_num 1
    then (
      record q {
        request_queue = update_first txn make_exclusive q.request_queue;
        group_lock_mode = x_lock;
      },
      held,
    )
    else wait_die txn q (record q { request_queue = update_first txn suspend q.request_queue })

unfoldable pub exclusive_on_table : ℕ → Option LockRequestQueue → LockRequestQueue × Verdict
unfolding give_exclusive upgrade_table first_exclusive
exclusive_on_table txn none = (give_exclusive txn new_queue, granted)
exclusive_on_table txn (some q) = elim (find_request txn q.request_queue) [
  | some r ↦ upgrade_table txn r q
  | none ↦ first_exclusive txn q
]

unfoldable pub wake_exclusive_on_table : ℕ → LockRequestQueue → Option LockRequestQueue
wake_exclusive_on_table txn q =
    if other_granted txn q.request_queue
    then none
    else some (record q {
      request_queue = update_last txn grant q.request_queue;
      group_lock_mode = x_lock;
    })
