-- ===== src/LockManager/SafeInGap.antt =====
-- `isSafeInGap` of lock_manager.cpp, by which an insert claims the point gap of its key. It holds the
-- latch through all of its `while (true)` rounds but for the wait.
use Prim.Native.Nat.{Ordering}
use cscc_db_rucbase.Common.{
  ℕ, zero, suc, Bool, true, false, List, [], ◌∷◌, Option, none, some, ltb, if◌then◌else◌, any, find,
  store, ◌&&◌, ◌==◌,
}
use cscc_db_rucbase.Gap.Compare.{Gap, CondOp, op_eq, drop, is_in_gap}
use cscc_db_rucbase.Transaction.LockDataId.{
  IndexMeta, ColMeta, index_meta_eq, LockDataId, gap_lock, lock_data_id_eq,
}
use cscc_db_rucbase.Transaction.State.{
  Transaction, TransactionState, aborted, add_lock, deadlock_prevention,
}
use cscc_db_rucbase.LockManager.Queue.{
  LockRequest, LockRequestQueue, exclusive, x_lock, new_queue, enqueue, other_granted,
}
use cscc_db_rucbase.LockManager.Manager.{
  LockTable, LockManager, Reply, reply, inner_table, returned, abort, internal_error, waiting,
}
use cscc_db_rucbase.LockManager.Gaps.{gap_of}

abbrev pub take : ℕ → List ℕ → List ℕ
take zero bs = []
take (suc n) [] = []
take (suc n) (b ∷ bs) = b ∷ take n bs

-- `col = value` on a column of the index. The value is read at the column's offset in a row, and the
-- condition is about the column's offset in an index key.
abbrev pub point_cond : List ℕ → ℕ × ColMeta → CondOp
point_cond rec (index_offset, col) = record {
  op = op_eq;
  rhs_val = record { type = col.type; raw = take col.len (drop col.offset rec) };
  offset = index_offset;
}

unfoldable pub point_conds : List ℕ → List (ℕ × ColMeta) → List (CondOp × CondOp)
point_conds rec [] = []
point_conds rec (c ∷ cs) = (point_cond rec c, point_cond rec c) ∷ point_conds rec cs

-- The gap that `PredicateManager` makes of the conditions.
unfoldable pub point_gap : IndexMeta → List ℕ → Gap
unfolding point_conds
point_gap index rec = record { index_conds = point_conds rec index.cols }

-- What the look through the gaps that hold the record comes to; `sleeping` is a wait for the queue
-- of a gap.
pub data Probe : Type 0 where
  free dying failing : Probe
  sleeping : LockDataId → Probe

-- What a round of the loop comes to: the next round at once, one after a wait for the queue of a gap,
-- or an end.
pub data Round : Type 0 where
  again : Round
  asleep : LockDataId → Round
  done : Reply → Round

-- A moment at which the predicate of a wait is read: the lock tables that the other transactions have
-- made by then, and the state that they have put the transaction in.
pub record Moment : Type 0 where
  pub manager : LockManager
  pub state : TransactionState

-- The moment at which a wait begins: the predicate is read first of all.
abbrev pub moment : LockManager → Transaction → Moment
moment m t = record { manager = m; state = t.state }

-- What becomes of a wait in a list of moments: it outlasts them, its queue has left the table, or it
-- ends at one of them, with those that are left.
pub data Waking : Type 0 where
  sleeps_on lost : Waking
  wakes_at : Moment → List Moment → Waking

abbrev pub is_own_granted : ℕ → LockRequest → Bool
is_own_granted txn r = (r.txn_id == txn) && r.granted

-- The queue that the loop makes for the point gap.
unfoldable pub claimed_queue : ℕ → LockRequestQueue
claimed_queue txn = record (enqueue txn exclusive true new_queue) {
  group_lock_mode = x_lock;
  oldest_txn_id = txn;
}

module _ (compare_float : List ℕ → List ℕ → Ordering) (gap_hasher : Gap → ℕ) where
  abbrev pub probe_queue : ℕ → LockDataId → LockRequestQueue → Probe → Probe
  probe_queue txn d q rest =
      if other_granted txn q.request_queue
      then (if ltb q.oldest_txn_id txn then dying else sleeping d)
      else rest

  unfoldable pub probe : ℕ → List ℕ → LockTable → Probe
  probe txn rec [] = free
  probe txn rec ((d, q) ∷ m) =
      let rest = probe txn rec m in
      elim (is_in_gap compare_float (gap_of d) rec) [
        | none ↦ failing
        | some false ↦ rest
        | some true ↦ probe_queue txn d q rest
      ]

  -- The predicate of the wait.
  abbrev pub may_wake : ℕ → TransactionState → LockRequestQueue → Bool
  may_wake txn aborted q = true
  may_wake txn _ q = if other_granted txn q.request_queue then false else true

  -- The wait for the queue of the gap `e`.
  unfoldable pub wait : ℕ → LockDataId → IndexMeta → List Moment → Waking
  wait txn e index [] = sleeps_on
  wait txn e index (now ∷ later) =
      let rest = wait txn e index later in
      elim (find (lock_data_id_eq gap_hasher) e (inner_table index now.manager)) [
        | none ↦ lost
        | some q ↦ if may_wake txn now.state q then wakes_at now later else rest
      ]

  -- The rest of a round once no other transaction is in the way.
  unfoldable pub claim : LockDataId → IndexMeta → LockManager → Transaction → Round
  unfolding claimed_queue
  claim d index m t = elim (find (lock_data_id_eq gap_hasher) d (inner_table index m)) [
    | some q ↦
        if any (is_own_granted t.txn_id) q.request_queue
        then done (reply m t (returned true))
        else again
    | none ↦
        let inner =
          store (lock_data_id_eq gap_hasher) d (claimed_queue t.txn_id) (inner_table index m) in
        let m' = record m { gap_lock_table = store index_meta_eq index inner m.gap_lock_table } in
        done (reply m' (add_lock gap_hasher d t) (returned true))
  ]

  abbrev pub after_probe : LockDataId → IndexMeta → LockManager → Transaction → Probe → Round
  after_probe d index m t free = claim d index m t
  after_probe d index m t dying = done (reply m t (abort deadlock_prevention))
  after_probe d index m t failing = done (reply m t internal_error)
  after_probe d index m t (sleeping e) = asleep e

  unfoldable pub safe_round : LockDataId → IndexMeta → List ℕ → LockManager → Transaction → Round
  unfolding claim
  safe_round d index rec m t = after_probe d index m t (probe t.txn_id rec (inner_table index m))

  -- After a wait the transaction leaves if it is aborted, and else goes round again, by what the others
  -- have made of the lock tables. A wait that outlasts the moments given is the end, with the state in
  -- which it began.
  abbrev pub after_wait :
      (List Moment → LockManager → Transaction → Option Reply)
      → LockManager
      → Transaction
      → Waking
      → Option Reply
  after_wait next m t sleeps_on = some (reply m t waiting)
  after_wait next m t lost = none
  after_wait next m t (wakes_at now later) =
      let t' = record t { state = now.state } in
      elim now.state [
        | aborted ↦ some (reply now.manager t' (returned false))
        | _ ↦ next later now.manager t'
      ]

  abbrev pub after_round :
      (List Moment → LockManager → Transaction → Option Reply)
      → IndexMeta
      → List Moment
      → LockManager
      → Transaction
      → Round
      → Option Reply
  after_round next index moments m t again = next moments m t
  after_round next index moments m t (asleep e) =
      after_wait next m t (wait t.txn_id e index (moment m t ∷ moments))
  after_round next index moments m t (done r) = some r

  -- The loop, on fuel: `none` if it has not ended in that many rounds, or waits on a queue that is no
  -- more. The latch is held from round to round but in a wait.
  unfoldable pub safe_rounds :
      ℕ → LockDataId → IndexMeta → List ℕ → List Moment → LockManager → Transaction → Option Reply
  unfolding wait safe_round
  safe_rounds zero d index rec moments m t = none
  safe_rounds (suc fuel) d index rec moments m t =
      after_round (safe_rounds fuel d index rec) index moments m t (safe_round d index rec m t)

  unfoldable pub is_safe_in_gap :
      ℕ → List Moment → LockManager → Transaction → IndexMeta → List ℕ → ℕ → Option Reply
  unfolding point_gap safe_rounds
  is_safe_in_gap fuel moments m t index rec fd =
      safe_rounds fuel (gap_lock fd index (point_gap index rec)) index rec moments m t
