-- ===== src/LockManager/Queue.antt =====
-- The lock modes, requests and request queues of lock_manager.h, and the loops over a queue that
-- the operations of lock_manager.cpp share.
use cscc_db_rucbase.Common.{
  ℕ, Bool, true, false, not, ◌&&◌, ◌||◌, List, [], ◌∷◌, ◌++◌, Option, none, some, ltb, ◌==◌,
  if◌then◌else◌, any, ℤ, pos,
}

-- Declared from the weakest to the strongest; the order is read by `strongest_mode`.
pub data LockMode : Type 0 where
  intention_shared intention_exclusive shared s_ix exclusive : LockMode

pub data GroupLockMode : Type 0 where
  non_lock is_lock ix_lock s_lock six_lock x_lock : GroupLockMode

-- `static_cast<int>` of the two enumerations.
abbrev pub mode_rank : LockMode → ℕ
mode_rank intention_shared = 0
mode_rank intention_exclusive = 1
mode_rank shared = 2
mode_rank s_ix = 3
mode_rank exclusive = 4

abbrev pub group_rank : GroupLockMode → ℕ
group_rank non_lock = 0
group_rank is_lock = 1
group_rank ix_lock = 2
group_rank s_lock = 3
group_rank six_lock = 4
group_rank x_lock = 5

-- `static_cast<GroupLockMode>(static_cast<int>(mode) + 1)`.
abbrev pub group_of : LockMode → GroupLockMode
group_of intention_shared = is_lock
group_of intention_exclusive = ix_lock
group_of shared = s_lock
group_of s_ix = six_lock
group_of exclusive = x_lock

-- `std::max` over the ranks of two group modes.
abbrev pub group_max : GroupLockMode → GroupLockMode → GroupLockMode
group_max a b = if ltb (group_rank a) (group_rank b) then b else a

abbrev pub mode_max : LockMode → LockMode → LockMode
mode_max a b = if ltb (mode_rank a) (mode_rank b) then b else a

abbrev pub is_mode : LockMode → LockMode → Bool
is_mode a b = mode_rank a == mode_rank b

abbrev pub is_group : GroupLockMode → GroupLockMode → Bool
is_group a b = group_rank a == group_rank b

pub record LockRequest : Type 0 where
  pub txn_id : ℕ
  pub lock_mode : LockMode
  pub granted : Bool

pub record LockRequestQueue : Type 0 where
  pub request_queue : List LockRequest
  pub group_lock_mode : GroupLockMode
  pub upgrading : Bool
  pub shared_lock_num : ℤ
  pub ix_lock_num : ℤ
  pub oldest_txn_id : ℕ

abbrev pub int32_max : ℕ
int32_max = 2147483647

-- A default-constructed queue, as `emplace` makes it.
abbrev pub new_queue : LockRequestQueue
new_queue = record {
  request_queue = [];
  group_lock_mode = non_lock;
  upgrading = false;
  shared_lock_num = pos 0;
  ix_lock_num = pos 0;
  oldest_txn_id = int32_max;
}

-- What the part of an operation that looks at the queue comes to: `held` and `granted` return
-- true, and only `granted` enters the lock into the transaction's lock set; `blocked` goes to
-- sleep on the queue's condition variable; `die` throws DEADLOCK_PREVENTION.
pub data Verdict : Type 0 where
  held granted blocked die assertion : Verdict

-- The loop that looks for the first request of a transaction.
unfoldable pub find_request : ℕ → List LockRequest → Option LockRequest
find_request txn [] = none
find_request txn (r ∷ rs) = if r.txn_id == txn then some r else find_request txn rs

abbrev pub is_own : ℕ → LockRequest → Bool
is_own txn r = r.txn_id == txn

-- A write through the iterator at the first request of a transaction.
unfoldable pub update_first : ℕ → (LockRequest → LockRequest) → List LockRequest → List LockRequest
update_first txn f [] = []
update_first txn f (r ∷ rs) = if r.txn_id == txn then f r ∷ rs else r ∷ update_first txn f rs

-- The same at the last one, where a scan without `break` leaves its iterator.
unfoldable pub update_last : ℕ → (LockRequest → LockRequest) → List LockRequest → List LockRequest
update_last txn f [] = []
update_last txn f (r ∷ rs) =
    if r.txn_id == txn && not (any (is_own txn) rs) then f r ∷ rs else r ∷ update_last txn f rs

abbrev pub grant : LockRequest → LockRequest
grant r = record r { granted = true }

abbrev pub with_mode : LockMode → LockRequest → LockRequest
with_mode m r = record r { lock_mode = m }

-- `request_queue_.emplace_back(txn, mode, granted)`.
abbrev pub enqueue : ℕ → LockMode → Bool → LockRequestQueue → LockRequestQueue
enqueue txn m g q = record q {
  request_queue = q.request_queue ++ record { txn_id = txn; lock_mode = m; granted = g } ∷ [];
}

-- `if (txn < oldest_txn_id_) oldest_txn_id_ = txn`.
abbrev pub note_oldest : ℕ → LockRequestQueue → LockRequestQueue
note_oldest txn q = record q {
  oldest_txn_id = if ltb txn q.oldest_txn_id then txn else q.oldest_txn_id;
}

-- Wait-die: a transaction that is younger than the oldest one of the queue dies; another becomes
-- the oldest one and waits in the queue as it is then left.
abbrev pub wait_die : ℕ → LockRequestQueue → LockRequestQueue → LockRequestQueue × Verdict
wait_die txn q waiting =
    if ltb q.oldest_txn_id txn then (q, die) else (record waiting { oldest_txn_id = txn }, blocked)

-- The scans of the wait predicates: a granted request of another transaction anywhere, a granted
-- exclusive one anywhere, and a granted one before the transaction's own first request.
abbrev pub is_other_granted : ℕ → LockRequest → Bool
is_other_granted txn r = not (r.txn_id == txn) && r.granted

abbrev pub is_other_exclusive : ℕ → LockRequest → Bool
is_other_exclusive txn r = not (r.txn_id == txn) && (is_mode r.lock_mode exclusive && r.granted)

abbrev pub other_granted : ℕ → List LockRequest → Bool
other_granted txn rs = any (is_other_granted txn) rs

abbrev pub other_exclusive : ℕ → List LockRequest → Bool
other_exclusive txn rs = any (is_other_exclusive txn) rs

abbrev pub granted_before : ℕ → List LockRequest → Bool
granted_before txn [] = false
granted_before txn (r ∷ rs) = if r.txn_id == txn then false else r.granted || granted_before txn rs

-- The `break` of the IS predicate also stops at the own request, but before it every request of
-- another transaction is in the way that is not a shared one still waiting.
abbrev pub in_the_way_before : ℕ → List LockRequest → Bool
in_the_way_before txn [] = false
in_the_way_before txn (r ∷ rs) =
    if r.txn_id == txn
    then false
    else (not (is_mode r.lock_mode shared) || r.granted) || in_the_way_before txn rs
