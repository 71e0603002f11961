-- ===== src/LockManager/Record.antt =====
-- What `lock_shared_on_record` and `lock_exclusive_on_record` of lock_manager.cpp do to the request
-- queue of the record, up to the wait (the function of the lock's name) and after it (`wake_…`).
-- The queue is `none` if the lock table has no entry for the record. `wake_…` is `none` while the
-- predicate of the wait is false.
use cscc_db_rucbase.Common.{
  ℕ, Bool, true, false, ◌&&◌, ◌||◌, Option, none, some, ◌==◌, if◌then◌else◌, length, inc, pos,
}
use cscc_db_rucbase.LockManager.Queue.{
  LockRequestQueue, LockRequest, GroupLockMode, shared, exclusive, non_lock, ix_lock, s_lock,
  six_lock, x_lock, Verdict, held, granted, assertion, new_queue, find_request, update_first,
  update_last, grant, with_mode, enqueue, note_oldest, wait_die, is_mode, is_group, group_max,
  other_exclusive, granted_before,
}

-- The modes of a queue that bar a shared lock.
abbrev pub bars_shared : GroupLockMode → Bool
bars_shared g = is_group g x_lock || (is_group g ix_lock || is_group g six_lock)

-- The last lines of the two functions: the lock is given at once.
unfoldable pub give_shared : ℕ → LockRequestQueue → LockRequestQueue
give_shared txn q =
    let q' = enqueue txn shared true (note_oldest txn q) in
    record q' { group_lock_mode = s_lock; shared_lock_num = inc q'.shared_lock_num }

unfoldable pub give_exclusive : ℕ → LockRequestQueue → LockRequestQueue
give_exclusive txn q = record (enqueue txn exclusive true (note_oldest txn q)) {
  group_lock_mode = x_lock;
}

-- The first request, on a queue that is there.
unfoldable pub first_shared : ℕ → LockRequestQueue → LockRequestQueue × Verdict
unfolding give_shared
first_shared txn q =
    if bars_shared q.group_lock_mode
    then wait_die txn q (enqueue txn shared false q)
    else (give_shared txn q, granted)

unfoldable pub shared_on_record : ℕ → Option LockRequestQueue → LockRequestQueue × Verdict
unfolding give_shared first_shared
shared_on_record txn none = (give_shared txn new_queue, granted)
shared_on_record txn (some q) = elim (find_request txn q.request_queue) [
  | some r ↦ (q, if r.granted then held else assertion)
  | none ↦ first_shared txn q
]

unfoldable pub wake_shared_on_record : ℕ → LockRequestQueue → Option LockRequestQueue
wake_shared_on_record txn q =
    if other_exclusive txn q.request_queue
    then none
    else some (record q {
      request_queue = update_last txn grant q.request_queue;
      group_lock_mode = group_max s_lock q.group_lock_mode;
      shared_lock_num = inc q.shared_lock_num;
    })

-- The transaction has the request `r` in the queue already.
unfoldable pub upgrade_record : ℕ → LockRequest → LockRequestQueue → LockRequestQueue × Verdict
upgrade_record txn r q =
    if is_mode r.lock_mode exclusive
    then (q, held)
    else if is_mode r.lock_mode shared && (length q.request_queue == 1)
    then (
      record q {
        request_queue = update_first txn (with_mode exclusive) q.request_queue;
        group_lock_mode = x_lock;
        shared_lock_num = pos 0;
      },
      held,
    )
    else if is_mode r.lock_mode shared
    then wait_die txn q (enqueue txn exclusive false q)
    else (q, assertion)

unfoldable pub first_exclusive : ℕ → LockRequestQueue → LockRequestQueue × Verdict
unfolding give_exclusive
first_exclusive txn q =
    if is_group q.group_lock_mode non_lock
    then (give_exclusive txn q, granted)
    else wait_die txn q (enqueue txn exclusive false q)

unfoldable pub exclusive_on_record : ℕ → Option LockRequestQueue → LockRequestQueue × Verdict
unfolding give_exclusive upgrade_record first_exclusive
exclusive_on_record txn none = (give_exclusive txn new_queue, granted)
exclusive_on_record txn (some q) = elim (find_request txn q.request_queue) [
  | some r ↦ if r.granted then upgrade_record txn r q else (q, assertion)
  | none ↦ first_exclusive txn q
]

unfoldable pub wake_exclusive_on_record : ℕ → LockRequestQueue → Option LockRequestQueue
wake_exclusive_on_record txn q =
    if granted_before txn q.request_queue
    then none
    else some (record q {
      request_queue = update_first txn grant q.request_queue;
      group_lock_mode = x_lock;
    })
