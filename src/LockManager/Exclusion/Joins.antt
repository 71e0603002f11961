-- ===== src/LockManager/Exclusion/Joins.antt =====
-- A request for a table lock by a transaction that has none in the queue keeps the invariant.
use cscc_db_rucbase.Common.{
  ℕ, ◌+◌, ◌≤◌, ◌<◌, ◌≡◌, ◌≢◌, ◌⊎◌, inl, inr, Bool-cases, refl, Bool, true, false, ◌||◌, List, [],
  ◌∷◌, ◌++◌, Option, none, some, ◌==◌, if◌then◌else◌, ltb, sym, subst, ==_iff, All, All-append, ℤ,
  pos, pos_part, inc, arith,
}
use cscc_db_rucbase.LockManager.Queue.{
  LockMode, LockRequest, LockRequestQueue, GroupLockMode, shared, exclusive, is_mode, mode_rank,
  group_rank, find_request, enqueue, wait_die, Verdict, is_group, non_lock, s_lock, x_lock, blocked,
  die,
}
use cscc_db_rucbase.LockManager.Record.{
  bars_shared, give_shared, give_exclusive, first_shared, first_exclusive,
}
use cscc_db_rucbase.LockManager.Steps.{Kind, shared_table, exclusive_table, update, fall_asleep}
use cscc_db_rucbase.LockManager.Readers.{
  count, one_if, is_writer, is_reader, count-append_singleton, append-IsUnique, any_own_of_none,
}
use cscc_db_rucbase.LockManager.Exclusion.Invariant.{Regular, TableInv, weight, All-absent}

-- A queue whose mode is S at most has no writer.
no_writers :
    (g : GroupLockMode) (asleep : ℕ → Option Kind) (rs : List LockRequest)
    → All (Regular g asleep) rs
    → group_rank g ≤ 3
    → count is_writer rs ≡ 0
no_writers g asleep [] a h = refl
no_writers g asleep (r ∷ rs) a h = ground (arith, a.0.covered, no_writers g asleep rs a.1 h)

pub weight-lt : (r : LockRequest) → weight r < 5
weight-lt r = ground arith

-- A queue with no mode holds no request.
empty_of_non_lock :
    (asleep : ℕ → Option Kind) (rs : List LockRequest) → All (Regular non_lock asleep) rs → rs ≡ []
empty_of_non_lock asleep [] a = refl
empty_of_non_lock asleep (r ∷ rs) a = absurd (omega (arith, a.0.covered))

pub granted_le :
    (g : GroupLockMode) (asleep : ℕ → Option Kind) (rs : List LockRequest)
    → All (Regular g asleep) rs
    → count (λ r. r.granted) rs ≤ count is_reader rs + count is_writer rs
granted_le g asleep [] a = omega arith
granted_le g asleep (r ∷ rs) a = ground (arith, a.0.mode, granted_le g asleep rs a.1)

module _ (txn : ℕ) (q : LockRequestQueue) (asleep : ℕ → Option Kind) (inv : TableInv q asleep)
    (awake : asleep txn ≡ none) where
  abbrev asked : LockMode → Bool → LockRequest
  asked m g = record { txn_id = txn; lock_mode = m; granted = g }

  pub never_asleep :
      (e : LockRequest) → (e.txn_id == txn) ≡ true → asleep e.txn_id ≡ some shared_table → ⊥
  never_asleep e mine s =
      ground (arith, subst (λ t. asleep t ≡ none) (sym ((==_iff e.txn_id txn).0 mine)) awake)

  -- What to show of the requests when the transaction has none yet and appends one.
  regular-enqueue :
      (g : GroupLockMode) (m : LockMode) (b : Bool) (asleep' : ℕ → Option Kind)
      → find_request txn q.request_queue ≡ none
      → ((r : LockRequest)
          → Regular q.group_lock_mode asleep r
          → (r.txn_id == txn) ≡ false
          → Regular g asleep' r)
      → Regular g asleep' (record { txn_id = txn; lock_mode = m; granted = b })
      → All (Regular g asleep') (enqueue txn m b q).request_queue
  regular-enqueue g m b asleep' absent keep new =
      All-append _ q.request_queue _
        (All-absent _ _ txn keep q.request_queue (any_own_of_none txn q.request_queue absent)
          inv.regular)
        (new, tt)

  blocked-TableInv :
      (k : Kind) (m : LockMode)
      → find_request txn q.request_queue ≡ none
      → (is_mode m shared || is_mode m exclusive) ≡ true
      → (k ≡ shared_table → m ≡ shared)
      → (k ≡ exclusive_table → m ≡ exclusive)
      → q.group_lock_mode ≢ non_lock
      → TableInv
          (record (enqueue txn m false q) { oldest_txn_id = txn })
          (update txn (some k) asleep)
  blocked-TableInv k m absent hm hs hx busy = record {
    unique = append-IsUnique q.request_queue _ inv.unique absent;
    regular =
        regular-enqueue q.group_lock_mode m false _ absent
          (λ r reg other. record {
            mode = reg.mode;
            covered = reg.covered;
            awake = ground (arith, reg.awake);
            reads = ground (arith, reg.reads);
            writes = ground (arith, reg.writes);
          })
          (record {
            mode = hm;
            covered = ground arith;
            awake = ground arith;
            reads = ground arith;
            writes = ground arith;
          });
    natural = inv.natural;
    counted = ground (arith, inv.counted, counts is_reader);
    alone = ground (arith, inv.alone, counts is_writer, counts (λ r. r.granted));
  }
    where
      counts :
          (p : LockRequest → Bool)
          → count p (q.request_queue ++ asked m false ∷ [])
            ≡ count p q.request_queue + one_if (p (asked m false))
      counts p = count-append_singleton p q.request_queue (asked m false)

  -- What is to be shown of a verdict on the queue.
  abbrev pub Keeps : Kind → LockRequestQueue × Verdict → Type 0
  Keeps k a = TableInv a.0 (fall_asleep k txn a.1 asleep)

  pub wait_die-Keeps :
      (k : Kind) (w : LockRequestQueue)
      → TableInv (record w { oldest_txn_id = txn }) (update txn (some k) asleep)
      → Keeps k (wait_die txn q w)
  wait_die-Keeps k w h = if-Keeps (ltb q.oldest_txn_id txn)
    where
      if-Keeps :
          (b : Bool) → Keeps k (if b then (q, die) else (record w { oldest_txn_id = txn }, blocked))
      if-Keeps true = inv
      if-Keeps false = h

  -- A lock given at once, with the mode of the queue and the counter as they come to be.
  given-TableInv :
      (g : GroupLockMode) (m : LockMode) (num : ℤ) (o : ℕ)
      → find_request txn q.request_queue ≡ none
      → (is_mode m shared || is_mode m exclusive) ≡ true
      → mode_rank m < group_rank g
      → ((r : LockRequest) → Regular q.group_lock_mode asleep r → weight r < group_rank g)
      → num ≡ pos (pos_part num)
      → count is_reader (enqueue txn m true q).request_queue ≤ pos_part num
      → (count is_writer (enqueue txn m true q).request_queue ≡ 0)
        ⊎ (count (λ r. r.granted) (enqueue txn m true q).request_queue ≤ 1)
      → TableInv
          (record (enqueue txn m true q) {
            group_lock_mode = g;
            shared_lock_num = num;
            oldest_txn_id = o;
          })
          asleep
  given-TableInv g m num o absent hm hg keep hn hc ha = record {
    unique = append-IsUnique q.request_queue _ inv.unique absent;
    regular =
        regular-enqueue g m true asleep absent
          (λ r reg other. record {
            mode = reg.mode;
            covered = keep r reg;
            awake = reg.awake;
            reads = reg.reads;
            writes = reg.writes;
          })
          (record {
            mode = hm;
            covered = hg;
            awake = λ e. refl;
            reads = λ e. cc;
            writes = λ e. cc;
          });
    natural = hn;
    counted = hc;
    alone = ha;
  }

  -- A shared lock at once: the mode of the queue says that nobody writes.
  pub first_shared-Keeps :
      find_request txn q.request_queue ≡ none → Keeps shared_table (first_shared txn q)
  unfolding first_shared give_shared
  first_shared-Keeps absent = elim (Bool-cases (bars_shared q.group_lock_mode)) [
    | inl bars ↦ rw bars (
        wait_die-Keeps shared_table (enqueue txn shared false q)
          (blocked-TableInv shared_table shared absent refl (λ e. refl) (λ e. cc) (ground arith)))
    | inr free ↦ rw free (
        given-TableInv s_lock shared (inc q.shared_lock_num) _ absent refl (omega arith)
          (λ r reg. ground (arith, reg.covered)) (ground (arith, inv.natural))
          (ground (
            arith,
            inv.natural,
            inv.counted,
            count-append_singleton is_reader q.request_queue (asked shared true),
          ))
          (inl (
            ground (
              arith,
              no_writers q.group_lock_mode asleep q.request_queue inv.regular,
              count-append_singleton is_writer q.request_queue (asked shared true),
            ))))
  ]

  -- An exclusive lock at once: the queue is empty.
  pub first_exclusive-Keeps :
      find_request txn q.request_queue ≡ none → Keeps exclusive_table (first_exclusive txn q)
  unfolding first_exclusive give_exclusive
  first_exclusive-Keeps absent = elim (Bool-cases (is_group q.group_lock_mode non_lock)) [
    | inr busy ↦ rw busy (
        wait_die-Keeps exclusive_table (enqueue txn exclusive false q) (
          blocked-TableInv exclusive_table exclusive absent refl (λ e. cc) (λ e. refl)
            (ground arith)))
    | inl free ↦
        let g : q.group_lock_mode ≡ non_lock = ground arith in
        let empty : q.request_queue ≡ [] =
          empty_of_non_lock asleep q.request_queue
            (subst (λ h. All (Regular h asleep) q.request_queue) g inv.regular) in
        rw free (
          given-TableInv x_lock exclusive q.shared_lock_num _ absent refl (omega arith)
            (λ r reg. weight-lt r) inv.natural
            (ground (
              arith,
              inv.counted,
              count-append_singleton is_reader q.request_queue (asked exclusive true),
            ))
            (inr (simp empty (omega arith))))
  ]
