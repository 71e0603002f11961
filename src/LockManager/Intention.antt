-- ===== src/LockManager/Intention.antt =====
-- What `lock_IS_on_table` and `lock_IX_on_table` of lock_manager.cpp do to the request queue of the
-- table, up to the wait and after it, as in `Record`.
use cscc_db_rucbase.Common.{
  ℕ, Bool, true, false, ◌&&◌, ◌||◌, Option, none, some, if◌then◌else◌, inc, is_pos,
}
use cscc_db_rucbase.LockManager.Queue.{
  LockRequestQueue, LockRequest, GroupLockMode, LockMode, intention_shared, intention_exclusive,
  shared, s_ix, exclusive, non_lock, is_lock, ix_lock, s_lock, six_lock, x_lock, Verdict, held,
  granted, assertion, new_queue, find_request, update_first, grant, with_mode, enqueue, note_oldest,
  wait_die, is_mode, is_group, group_max, granted_before, in_the_way_before,
}

-- A new queue starts with the asking transaction as its oldest one.
abbrev pub queue_for : ℕ → Option LockRequestQueue → LockRequestQueue
queue_for txn none = record new_queue { oldest_txn_id = txn }
queue_for txn (some q) = q

-- Only a queue with no lock becomes an IS queue.
abbrev pub join_is : GroupLockMode → GroupLockMode
join_is g = if is_group g non_lock then is_lock else g

unfoldable pub first_is : ℕ → LockRequestQueue → LockRequestQueue × Verdict
first_is txn q =
    if is_group q.group_lock_mode x_lock
    then wait_die txn q (enqueue txn intention_shared false q)
    else (
      enqueue txn intention_shared true
          (note_oldest txn (record q { group_lock_mode = join_is q.group_lock_mode })),
      granted,
    )

unfoldable pub is_on_queue : ℕ → LockRequestQueue → LockRequestQueue × Verdict
unfolding first_is
is_on_queue txn q = elim (find_request txn q.request_queue) [
  | some r ↦ (q, if r.granted then held else assertion)
  | none ↦ first_is txn q
]

unfoldable pub is_on_table : ℕ → Option LockRequestQueue → LockRequestQueue × Verdict
unfolding is_on_queue
is_on_table txn o = is_on_queue txn (queue_for txn o)

unfoldable pub wake_is_on_table : ℕ → LockRequestQueue → Option LockRequestQueue
wake_is_on_table txn q =
    if in_the_way_before txn q.request_queue
    then none
    else some (record q {
      request_queue = update_first txn grant q.request_queue;
      group_lock_mode = join_is q.group_lock_mode;
    })

abbrev pub covers_ix : LockMode → Bool
covers_ix m = is_mode m s_ix || (is_mode m intention_exclusive || is_mode m exclusive)

-- A reader that is alone becomes S_IX, an IS holder in a queue of nothing stronger than IX becomes
-- IX, and any other waits with a second request.
unfoldable pub upgrade_ix : ℕ → LockRequest → LockRequestQueue → LockRequestQueue × Verdict
upgrade_ix txn r q =
    if covers_ix r.lock_mode
    then (q, held)
    else if is_mode r.lock_mode shared && is_pos q.shared_lock_num 1
    then (
      record q {
        request_queue = update_first txn (with_mode s_ix) q.request_queue;
        group_lock_mode = six_lock;
        ix_lock_num = inc q.ix_lock_num;
      },
      held,
    )
    else if is_mode r.lock_mode intention_shared
        && (is_group q.group_lock_mode is_lock || is_group q.group_lock_mode ix_lock)
    then (
      record q {
        request_queue = update_first txn (with_mode intention_exclusive) q.request_queue;
        group_lock_mode = ix_lock;
        ix_lock_num = inc q.ix_lock_num;
      },
      held,
    )
    else wait_die txn q (enqueue txn intention_exclusive false q)

abbrev pub bars_ix : GroupLockMode → Bool
bars_ix g = is_group g x_lock || (is_group g s_lock || is_group g six_lock)

unfoldable pub first_ix : ℕ → LockRequestQueue → LockRequestQueue × Verdict
first_ix txn q =
    if bars_ix q.group_lock_mode
    then wait_die txn q (enqueue txn intention_exclusive false q)
    else (
      record (enqueue txn intention_exclusive true (note_oldest txn q)) {
        group_lock_mode = ix_lock;
        ix_lock_num = inc q.ix_lock_num;
      },
      granted,
    )

unfoldable pub ix_on_queue : ℕ → LockRequestQueue → LockRequestQueue × Verdict
unfolding upgrade_ix first_ix
ix_on_queue txn q = elim (find_request txn q.request_queue) [
  | some r ↦ upgrade_ix txn r q
  | none ↦ first_ix txn q
]

unfoldable pub ix_on_table : ℕ → Option LockRequestQueue → LockRequestQueue × Verdict
unfolding ix_on_queue
ix_on_table txn o = ix_on_queue txn (queue_for txn o)

-- An S queue becomes SIX; otherwise the stronger of IX and the mode at hand stays.
abbrev pub join_ix : GroupLockMode → GroupLockMode
join_ix g = if is_group g s_lock then six_lock else group_max ix_lock g

unfoldable pub wake_ix_on_table : ℕ → LockRequestQueue → Option LockRequestQueue
wake_ix_on_table txn q =
    if granted_before txn q.request_queue
    then none
    else some (record q {
      request_queue = update_first txn grant q.request_queue;
      group_lock_mode = join_ix q.group_lock_mode;
      ix_lock_num = inc q.ix_lock_num;
    })
