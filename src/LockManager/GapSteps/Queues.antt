-- ===== src/LockManager/GapSteps/Queues.antt =====
-- One queue of a gap: what keeps a mode on a queue in which something is granted.
use Prim.Native.Nat.{Ordering}
use cscc_db_rucbase.Common.{
  ℕ, ◌≡◌, refl, subst, Bool, true, false, not, ◌&&◌, List, [], ◌∷◌, Option, none, some, any, arith,
  suc, is_pos, pos, Option-cases, inl, inr, if◌then◌else◌, ltb, ◌==◌, any-append_singleton,
}
use cscc_db_rucbase.Gap.Compare.{Gap}
use cscc_db_rucbase.Transaction.LockDataId.{LockDataId, lock_data_id_eq}
use cscc_db_rucbase.LockManager.Queue.{
  LockMode, GroupLockMode, mode_rank, LockRequest, LockRequestQueue, Verdict, held, granted,
  blocked, die, assertion, exclusive, shared, x_lock, non_lock, is_group, is_mode, group_rank,
  enqueue, find_request, update_first, wait_die,
}
use cscc_db_rucbase.LockManager.Record.{give_shared, give_exclusive}
use cscc_db_rucbase.LockManager.Table.{suspend}
use cscc_db_rucbase.LockManager.Release.{unlock_queue}
use cscc_db_rucbase.LockManager.Release.Spec.{
  unlock_queue-Released, Unlocked-Released, unlock_queue_of_none,
}
use cscc_db_rucbase.LockManager.Gaps.{shared_on_queue, upgrade_gap, exclusive_on_queue}
use cscc_db_rucbase.LockManager.GapSteps.{HasMode}

-- What a verdict leaves in the queue.
abbrev LeavesMode : LockRequestQueue × Verdict → Type 0
LeavesMode a = HasMode a.0

moded_of_tight :
    (g : GroupLockMode) (rs : List LockRequest)
    → any (λ r. suc (mode_rank r.lock_mode) == group_rank g) rs ≡ true
    → is_group g non_lock ≡ false
moded_of_tight g [] h = cc
moded_of_tight g (r ∷ rs) h = ground (arith, moded_of_tight g rs)

pub HasMode-unlock_queue :
    (txn : ℕ) (q q' : LockRequestQueue) → HasMode q → unlock_queue txn q ≡ some q' → HasMode q'
HasMode-unlock_queue txn q q' h u = elim (Option-cases (find_request txn q.request_queue)) [
  | inl absent ↦ let same : q ≡ q' = cc (unlock_queue_of_none txn q absent) in subst HasMode same h
  | inr (r, found) ↦ λ granted.
      moded_of_tight q'.group_lock_mode q'.request_queue
        (Unlocked-Released txn q q' _ (unlock_queue-Released txn q r found) u).tight
]

any_granted-suspend :
    (txn : ℕ) (rs : List LockRequest)
    → any (λ r. r.granted) (update_first txn suspend rs) ≡ true
    → any (λ r. r.granted) rs ≡ true
unfolding update_first
any_granted-suspend txn [] e = cc
any_granted-suspend txn (r ∷ rs) e = ground (arith, any_granted-suspend txn rs)

pub HasMode-wait_die :
    (txn : ℕ) (q w : LockRequestQueue) → HasMode q → HasMode w → HasMode (wait_die txn q w).0
HasMode-wait_die txn q w h k = either (ltb q.oldest_txn_id txn)
  where
    either :
        (b : Bool)
        → LeavesMode (if b then (q, die) else (record w { oldest_txn_id = txn }, blocked))
    either true = h
    either false = k

pub HasMode-enqueue :
    (txn : ℕ) (m : LockMode) (q : LockRequestQueue) → HasMode q → HasMode (enqueue txn m false q)
HasMode-enqueue txn m q h = ground (
  arith,
  h,
  any-append_singleton (λ r. r.granted) q.request_queue
      (record { txn_id = txn; lock_mode = m; granted = false }),
)

pub HasMode-suspend :
    (txn : ℕ) (q : LockRequestQueue)
    → HasMode q
    → HasMode (record q { request_queue = update_first txn suspend q.request_queue })
HasMode-suspend txn q h = ground (arith, h, any_granted-suspend txn q.request_queue)

pub HasMode-give_shared : (txn : ℕ) (q : LockRequestQueue) → HasMode (give_shared txn q)
unfolding give_shared
HasMode-give_shared txn q e = refl

pub HasMode-give_exclusive : (txn : ℕ) (q : LockRequestQueue) → HasMode (give_exclusive txn q)
unfolding give_exclusive
HasMode-give_exclusive txn q e = refl

module _ (compare_float : List ℕ → List ℕ → Ordering) (gap_hasher : Gap → ℕ) (txn : ℕ) where
  abbrev eq : LockDataId → LockDataId → Bool
  eq = lock_data_id_eq gap_hasher

  pub HasMode-shared_on_queue :
      (q : LockRequestQueue)
      → HasMode q
      → HasMode (shared_on_queue compare_float gap_hasher txn q).0
  unfolding shared_on_queue
  HasMode-shared_on_queue q h =
      either (find_request txn q.request_queue) (is_group q.group_lock_mode x_lock)
    where
      either :
          (o : Option LockRequest) (b : Bool)
          → LeavesMode (elim o [
            | some r ↦ (q, if r.granted then held else assertion)
            | none ↦
                if b
                then wait_die txn q (enqueue txn shared false q)
                else (give_shared txn q, granted)
          ])
      either (some r) b = h
      either none true =
          HasMode-wait_die txn q (enqueue txn shared false q) h (HasMode-enqueue txn shared q h)
      either none false = HasMode-give_shared txn q

  pub HasMode-upgrade_gap :
      (r : LockRequest) (clear_of_others : Bool) (q : LockRequestQueue)
      → HasMode q
      → HasMode (upgrade_gap compare_float gap_hasher txn r clear_of_others q).0
  unfolding upgrade_gap
  HasMode-upgrade_gap r clear_of_others q h =
      either (is_mode r.lock_mode exclusive) (is_mode r.lock_mode shared)
        (is_pos q.shared_lock_num 1 && clear_of_others)
    where
      either :
          (x s o : Bool)
          → LeavesMode (
              if x
              then (q, held)
              else if not s
              then (q, assertion)
              else if o
              then (
                record q {
                  request_queue =
                      update_first txn (λ e. record e { lock_mode = exclusive }) q.request_queue;
                  shared_lock_num = pos 0;
                  group_lock_mode = x_lock;
                },
                held,
              )
              else wait_die txn q
                  (record q { request_queue = update_first txn suspend q.request_queue }))
      either true s o = h
      either false false o = h
      either false true true = λ e. refl
      either false true false =
          HasMode-wait_die txn q
            (record q { request_queue = update_first txn suspend q.request_queue }) h
            (HasMode-suspend txn q h)

  pub HasMode-exclusive_on_queue :
      (clear_of_others : Bool) (q : LockRequestQueue)
      → HasMode q
      → HasMode (exclusive_on_queue compare_float gap_hasher txn clear_of_others q).0
  unfolding exclusive_on_queue
  HasMode-exclusive_on_queue clear_of_others q h =
      either (find_request txn q.request_queue) (is_group q.group_lock_mode non_lock)
    where
      granted_or_not :
          (r : LockRequest) (b : Bool)
          → LeavesMode (
              if b
              then upgrade_gap compare_float gap_hasher txn r clear_of_others q
              else (q, assertion))
      granted_or_not r true = HasMode-upgrade_gap r clear_of_others q h
      granted_or_not r false = h

      either :
          (o : Option LockRequest) (b : Bool)
          → LeavesMode (elim o [
            | some r ↦
                if r.granted
                then upgrade_gap compare_float gap_hasher txn r clear_of_others q
                else (q, assertion)
            | none ↦
                if b
                then (give_exclusive txn q, granted)
                else wait_die txn q (enqueue txn exclusive false q)
          ])
      either (some r) b = granted_or_not r r.granted
      either none true = HasMode-give_exclusive txn q
      either none false =
          HasMode-wait_die txn q (enqueue txn exclusive false q) h
            (HasMode-enqueue txn exclusive q h)
