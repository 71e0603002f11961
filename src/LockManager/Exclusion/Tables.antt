-- ===== src/LockManager/Exclusion/Tables.antt =====
-- A table on which only shared and exclusive locks are asked for: what every reachable queue keeps.
use cscc_db_rucbase.Common.{
  ℕ, zero, suc, ◌-◌, ◌≤◌, ◌<◌, ◌≡◌, ◌∙◌, inl, inr, Bool-cases, refl, true, false, ◌||◌, ◌&&◌, List,
  [], ◌∷◌, Option, none, some, ◌==◌, ==_iff, subst, ap, All, pos, pos_part, arith, Option-cases,
}
use cscc_db_rucbase.LockManager.Queue.{
  LockMode, LockRequest, LockRequestQueue, GroupLockMode, shared, exclusive, is_mode, mode_rank,
  group_rank, s_lock, x_lock, is_own, find_request, other_granted,
}
use cscc_db_rucbase.LockManager.Release.{unlock_queue, counts_shared}
use cscc_db_rucbase.LockManager.Release.Spec.{
  others, count_own, dec_by, Released, unlock_queue-Released, Unlocked-Released,
  unlock_queue_of_none,
}
use cscc_db_rucbase.LockManager.Table.{shared_on_table, exclusive_on_table}
use cscc_db_rucbase.LockManager.Record.{give_shared, give_exclusive}
use cscc_db_rucbase.LockManager.Steps.{
  Kind, Entry, Step, Reached, asks, wakes, releases, first, next, shared_table, exclusive_table,
  update, fall_asleep, request, wake, shared_record, exclusive_record, is_table, ix_table,
}
use cscc_db_rucbase.LockManager.Readers.{
  count, is_writer, is_reader, count-others, others-IsUnique, other_granted_of_count,
  writer-positive,
}
use cscc_db_rucbase.LockManager.Exclusion.Invariant.{Regular, TableInv, on_table}
use cscc_db_rucbase.LockManager.Exclusion.Asks.{ask_shared-Keeps, ask_exclusive-Keeps}
use cscc_db_rucbase.LockManager.Exclusion.Wakes.{wake_exclusive-TableInv, wake_shared-TableInv}

dec_by-pos : (k n : ℕ) → k ≤ n → dec_by k (pos n) ≡ pos (n - k)
dec_by-pos zero n h = ground arith
dec_by-pos (suc k) zero h = absurd (omega arith)
dec_by-pos (suc k) (suc n) h = ground (arith, dec_by-pos k n)

module _ (txn : ℕ) (asleep : ℕ → Option Kind) (g : GroupLockMode) (awake : asleep txn ≡ none) where
  -- Of a transaction that is awake, the counter counts the granted shared requests.
  own_readers :
      (rs : List LockRequest)
      → All (Regular g asleep) rs
      → count_own counts_shared txn rs ≡ count (λ r. is_own txn r && is_reader r) rs
  own_readers [] a = refl
  own_readers (r ∷ rs) a = elim (Bool-cases (r.txn_id == txn)) [
    | inl own ↦
        let granted = a.0.awake (ap asleep ((==_iff r.txn_id txn).0 own) ∙ awake) in
        ground (arith, own_readers rs a.1, a.0.mode)
    | inr other ↦ ground (arith, own_readers rs a.1)
  ]

  others-Regular :
      (g' : GroupLockMode) (rs : List LockRequest)
      → All (Regular g asleep) rs
      → All (λ r. mode_rank r.lock_mode < group_rank g') (others txn rs)
      → All (Regular g' asleep) (others txn rs)
  others-Regular g' [] a b = tt
  others-Regular g' (r ∷ rs) a b = elim (Bool-cases (r.txn_id == txn)) [
    | inl own ↦ simp own (others-Regular g' rs a.1 (simp own at b))
    | inr other ↦
        let c = simp other at b in
        simp other (
          record {
            mode = a.0.mode;
            covered = ground (arith, c.0);
            awake = a.0.awake;
            reads = a.0.reads;
            writes = a.0.writes;
          },
          others-Regular g' rs a.1 c.1,
        )
  ]

-- A release by a transaction that is awake takes its requests and their counts.
module _ (txn : ℕ) (q q' : LockRequestQueue) (asleep : ℕ → Option Kind) (inv : TableInv q asleep)
    (awake : asleep txn ≡ none) where
  left-TableInv : Released txn q q' → TableInv q' asleep
  left-TableInv rel =
      let readers = count-others is_reader txn q.request_queue in
      let num : q'.shared_lock_num
          ≡ pos (
              pos_part q.shared_lock_num
              - count (λ r. is_own txn r && is_reader r) q.request_queue) =
        rel.shared
        ∙ rw
            (
              own_readers txn asleep q.group_lock_mode awake q.request_queue inv.regular,
              inv.natural,
            )
            (dec_by-pos _ _ (omega (arith, readers, inv.counted))) in
      record {
        unique = rw rel.left (others-IsUnique txn q.request_queue inv.unique);
        regular = rw rel.left (
            others-Regular txn asleep q.group_lock_mode awake q'.group_lock_mode q.request_queue
              inv.regular (rw rel.left at rel.strong));
        natural = rw num refl;
        counted = rw (rel.left, num) (omega (arith, readers, inv.counted));
        alone = rw rel.left (
            ground (
              arith,
              inv.alone,
              count-others is_writer txn q.request_queue,
              count-others (λ r. r.granted) txn q.request_queue,
            ));
      }

  unlock-TableInv : unlock_queue txn q ≡ some q' → TableInv q' asleep
  unlock-TableInv h = elim (Option-cases (find_request txn q.request_queue)) [
    | inl absent ↦
        let same : q ≡ q' = cc (unlock_queue_of_none txn q absent) in
        subst (λ p. TableInv p asleep) same inv
    | inr (r, found) ↦
        left-TableInv (Unlocked-Released txn q q' _ (unlock_queue-Released txn q r found) h)
  ]

empty-TableInv :
    (m : LockMode) (g : GroupLockMode) (n txn : ℕ) (q : LockRequestQueue)
    → (is_mode m shared || is_mode m exclusive) ≡ true
    → mode_rank m < group_rank g
    → count is_reader (record { txn_id = txn; lock_mode = m; granted = true } ∷ []) ≤ n
    → q.request_queue ≡ record { txn_id = txn; lock_mode = m; granted = true } ∷ []
    → q.group_lock_mode ≡ g
    → q.shared_lock_num ≡ pos n
    → TableInv q (λ t. none)
empty-TableInv m g n txn q hm hg hn rs group num = record {
  unique = rw rs (refl, tt);
  regular =
      rw (rs, group)
        (
          record {
            mode = hm;
            covered = ground arith;
            awake = λ s. refl;
            reads = ground arith;
            writes = ground arith;
          },
          tt,
        );
  natural = rw num refl;
  counted = rw (rs, num) hn;
  alone = rw rs (inr (ground arith));
}

first-TableInv :
    (k : Kind) (txn : ℕ) → on_table k ≡ true → TableInv (request k txn none).0 (λ t. none)
unfolding shared_on_table exclusive_on_table give_shared give_exclusive
first-TableInv shared_table txn h =
    empty-TableInv shared s_lock 1 txn _ refl (omega arith) (omega arith) refl refl refl
first-TableInv exclusive_table txn h =
    empty-TableInv exclusive x_lock 0 txn _ refl (omega arith) (omega arith) refl refl refl
first-TableInv shared_record txn h = cc
first-TableInv exclusive_record txn h = cc
first-TableInv is_table txn h = cc
first-TableInv ix_table txn h = cc

ask-Keeps :
    (k : Kind) (txn : ℕ) (q : LockRequestQueue) (asleep : ℕ → Option Kind)
    → on_table k ≡ true
    → TableInv q asleep
    → asleep txn ≡ none
    → TableInv (request k txn (some q)).0 (fall_asleep k txn (request k txn (some q)).1 asleep)
ask-Keeps shared_table txn q asleep h inv awake = ask_shared-Keeps txn q asleep inv awake
ask-Keeps exclusive_table txn q asleep h inv awake = ask_exclusive-Keeps txn q asleep inv awake
ask-Keeps shared_record txn q asleep h inv awake = cc
ask-Keeps exclusive_record txn q asleep h inv awake = cc
ask-Keeps is_table txn q asleep h inv awake = cc
ask-Keeps ix_table txn q asleep h inv awake = cc

wake-TableInv :
    (k : Kind) (txn : ℕ) (q q' : LockRequestQueue) (asleep : ℕ → Option Kind)
    → on_table k ≡ true
    → TableInv q asleep
    → asleep txn ≡ some k
    → wake k txn q ≡ some q'
    → TableInv q' (update txn none asleep)
wake-TableInv shared_table txn q q' asleep h inv sleeps w =
    wake_shared-TableInv txn q asleep inv q' sleeps w
wake-TableInv exclusive_table txn q q' asleep h inv sleeps w =
    wake_exclusive-TableInv txn q asleep inv q' sleeps w
wake-TableInv shared_record txn q q' asleep h inv sleeps w = cc
wake-TableInv exclusive_record txn q q' asleep h inv sleeps w = cc
wake-TableInv is_table txn q q' asleep h inv sleeps w = cc
wake-TableInv ix_table txn q q' asleep h inv sleeps w = cc

Step-TableInv :
    {e e' : Entry} → Step on_table e e' → TableInv e.queue e.asleep → TableInv e'.queue e'.asleep
Step-TableInv {e} {e'} (asks k txn v h le awake r s) inv = rw s (
    subst (λ a. TableInv a.0 (fall_asleep k txn a.1 e.asleep)) r
      (ask-Keeps k txn e.queue e.asleep h inv awake))
Step-TableInv {e} {e'} (wakes k txn h sleeps w s) inv =
    rw s (wake-TableInv k txn e.queue e'.queue e.asleep h inv sleeps w)
Step-TableInv {e} {e'} (releases txn awake u s) inv =
    rw s (unlock-TableInv txn e.queue e'.queue e.asleep inv awake u)

Reached-TableInv : {e : Entry} → Reached on_table e → TableInv e.queue e.asleep
Reached-TableInv (first k txn v e h le r s) =
    rw s (subst (λ a. TableInv a.0 (λ t. none)) r (first-TableInv k txn h))
Reached-TableInv (next reached step) = Step-TableInv step (Reached-TableInv reached)

-- Mutual exclusion of table locks: in every queue that the entry of a table in the lock table can
-- come to, by any shared and exclusive requests of transactions that are awake, wake-ups whose wait
-- predicate holds and releases by transactions that are awake, a transaction whose first request is
-- exclusive and granted is the only one with a granted request.
pub Reached-exclusive :
    (e : Entry) (txn : ℕ) (r : LockRequest)
    → Reached on_table e
    → find_request txn e.queue.request_queue ≡ some r
    → is_writer r ≡ true
    → other_granted txn e.queue.request_queue ≡ false
Reached-exclusive e txn r reached found writes =
    let inv = Reached-TableInv reached in
    other_granted_of_count txn e.queue.request_queue r found (ground arith)
      (ground (arith, inv.alone, writer-positive txn e.queue.request_queue r found writes))
