-- ===== src/LockManager/Release.antt =====
-- What `unlock` of lock_manager.cpp does to a request queue that it has found.
pub mod Spec
use cscc_db_rucbase.Common.{
  ℕ, zero, suc, Bool, ◌||◌, List, [], ◌∷◌, Option, none, some, ltb, ◌==◌, if◌then◌else◌, length,
  dec,
}
use cscc_db_rucbase.LockManager.Queue.{
  LockRequestQueue, LockRequest, LockMode, intention_shared, intention_exclusive, shared, s_ix,
  int32_max, find_request, mode_max, group_of, is_mode,
}

-- `request_queue.erase(request)` at the first request of a transaction.
unfoldable pub erase_first : ℕ → List LockRequest → List LockRequest
erase_first txn [] = []
erase_first txn (r ∷ rs) = if r.txn_id == txn then rs else r ∷ erase_first txn rs

abbrev pub counts_shared : LockMode → Bool
counts_shared m = is_mode m shared || is_mode m s_ix

abbrev pub counts_ix : LockMode → Bool
counts_ix m = is_mode m intention_exclusive || is_mode m s_ix

-- One round of the `do … while` loop: the counters, and the request `r` erased.
unfoldable pub drop_request : ℕ → LockRequest → LockRequestQueue → LockRequestQueue
drop_request txn r q = record q {
  request_queue = erase_first txn q.request_queue;
  shared_lock_num = if counts_shared r.lock_mode then dec q.shared_lock_num else q.shared_lock_num;
  ix_lock_num = if counts_ix r.lock_mode then dec q.ix_lock_num else q.ix_lock_num;
}

-- The loop, on fuel: each round erases a request, so the length of the queue is enough.
unfoldable pub drop_requests : ℕ → ℕ → LockRequestQueue → LockRequestQueue
unfolding drop_request
drop_requests zero txn q = q
drop_requests (suc fuel) txn q = elim (find_request txn q.request_queue) [
  | none ↦ q
  | some r ↦ drop_requests fuel txn (drop_request txn r q)
]

-- The loop that finds the strongest mode and the oldest transaction of those that are left.
unfoldable pub strongest_mode : LockMode → List LockRequest → LockMode
strongest_mode m [] = m
strongest_mode m (r ∷ rs) = strongest_mode (mode_max m r.lock_mode) rs

unfoldable pub oldest_of : ℕ → List LockRequest → ℕ
oldest_of t [] = t
oldest_of t (r ∷ rs) = oldest_of (if ltb r.txn_id t then r.txn_id else t) rs

unfoldable pub refresh : LockRequestQueue → LockRequestQueue
unfolding strongest_mode oldest_of
refresh q = record q {
  group_lock_mode = group_of (strongest_mode intention_shared q.request_queue);
  oldest_txn_id = oldest_of int32_max q.request_queue;
}

-- The queue after the requests of a transaction are gone; `none` if it is empty then, so that its
-- entry leaves the lock table.
abbrev pub settle : LockRequestQueue → List LockRequest → Option LockRequestQueue
settle q [] = none
settle q (r ∷ rs) = some (refresh q)

-- A queue that holds no request of the transaction is left as it is.
unfoldable pub unlock_queue : ℕ → LockRequestQueue → Option LockRequestQueue
unfolding drop_requests refresh
unlock_queue txn q = elim (find_request txn q.request_queue) [
  | none ↦ some q
  | some _ ↦ let q' = drop_requests (length q.request_queue) txn q in settle q' q'.request_queue
]
