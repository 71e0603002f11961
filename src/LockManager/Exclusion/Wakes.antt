-- ===== src/LockManager/Exclusion/Wakes.antt =====
-- The end of a wait for a table lock, and a release by a transaction that is awake, keep the
-- invariant.
use cscc_db_rucbase.Common.{
  ℕ, ◌+◌, ◌≤◌, ◌<◌, ◌≡◌, ◌∙◌, inl, inr, refl, Bool, true, false, Option, none, some, ◌==◌, ==_iff,
  if◌then◌else◌, subst, ap, All, inc, arith, Option-cases,
}
use cscc_db_rucbase.LockManager.Queue.{
  LockRequest, LockRequestQueue, GroupLockMode, mode_rank, group_rank, x_lock, find_request,
  update_first, update_last, grant, other_granted, other_exclusive,
}
use cscc_db_rucbase.LockManager.Table.{join_shared, wake_shared_on_table, wake_exclusive_on_table}
use cscc_db_rucbase.LockManager.Steps.{Kind, shared_table, exclusive_table, update}
use cscc_db_rucbase.LockManager.Readers.{
  count, is_writer, is_reader, count-update_first, update_last_of_unique, update_first-IsUnique,
  any_own_of_none, update_first_of_none, count_of_absent, writers_of_absent, count-granted,
  count-writers,
}
use cscc_db_rucbase.LockManager.Exclusion.Invariant.{
  Regular, TableInv, weight, All-update_first_to, All-find,
}

-- A wait that ends gives its result, and its predicate holds.
if-some :
    (b : Bool) (p q : LockRequestQueue) (P : LockRequestQueue → Type 0)
    → (if b then none else some p) ≡ some q
    → (b ≡ false → P p)
    → P q
if-some true p q P h k = cc
if-some false p q P h k = let same : p ≡ q = cc in subst P same (k refl)

module _ (txn : ℕ) (q : LockRequestQueue) (asleep : ℕ → Option Kind) (inv : TableInv q asleep) where
  -- The requests once the own one is granted and the transaction is awake.
  granted-regular :
      (g : GroupLockMode)
      → ((r : LockRequest) → Regular q.group_lock_mode asleep r → weight r < group_rank g)
      → ((r : LockRequest)
          → Regular q.group_lock_mode asleep r
          → (r.txn_id == txn) ≡ true
          → mode_rank r.lock_mode < group_rank g)
      → All (Regular g (update txn none asleep)) (update_first txn grant q.request_queue)
  granted-regular g keep own =
      All-update_first_to _ _ txn
        (λ e reg other. record {
          mode = reg.mode;
          covered = keep e reg;
          awake = ground (arith, reg.awake);
          reads = ground (arith, reg.reads);
          writes = ground (arith, reg.writes);
        })
        grant q.request_queue inv.unique inv.regular
        (λ e reg mine. record {
          mode = reg.mode;
          covered = own e reg mine;
          awake = λ s. refl;
          reads = ground arith;
          writes = ground arith;
        })

  same_sleep : (e : LockRequest) → (e.txn_id == txn) ≡ true → asleep e.txn_id ≡ asleep txn
  same_sleep e mine = ap asleep ((==_iff e.txn_id txn).0 mine)

  -- With nothing granted to others, one granted request is the most there can be after the wait.
  granted_once :
      asleep txn ≡ some exclusive_table
      → other_granted txn q.request_queue ≡ false
      → (count (λ e. e.granted) (update_first txn grant q.request_queue) ≤ 1)
        × (count is_reader (update_first txn grant q.request_queue)
            ≤ count is_reader q.request_queue)
  granted_once sleeps go = elim (Option-cases (find_request txn q.request_queue)) [
    | inl absent ↦ rw (update_first_of_none txn grant q.request_queue absent) (
      omega (
        arith,
        count_of_absent txn q.request_queue (any_own_of_none txn q.request_queue absent) go,
      ),
      omega arith,
    )
    | inr (r, found) ↦
        let (reg, id) = All-find _ txn q.request_queue r inv.regular found in
        let mode = reg.writes (ap asleep id ∙ sleeps) in
        (
          ground (
            arith,
            count-granted txn q.request_queue r inv.unique found go,
            count-update_first (λ e. e.granted) txn grant q.request_queue r found,
          ),
          ground (arith, mode, count-update_first is_reader txn grant q.request_queue r found),
        )
  ]

  woken_exclusive-TableInv :
      asleep txn ≡ some exclusive_table
      → other_granted txn q.request_queue ≡ false
      → TableInv
          (record q {
            request_queue = update_last txn grant q.request_queue;
            group_lock_mode = x_lock;
          })
          (update txn none asleep)
  woken_exclusive-TableInv sleeps go =
      let (once, readers) = granted_once sleeps go in
      simp (update_last_of_unique txn grant q.request_queue inv.unique) (record {
        unique = update_first-IsUnique txn grant (λ e. refl) q.request_queue inv.unique;
        regular = granted-regular x_lock (λ e reg. ground arith) (λ e reg mine. ground arith);
        natural = inv.natural;
        counted = omega (arith, inv.counted, readers);
        alone = inr once;
      })

  pub wake_exclusive-TableInv :
      (q' : LockRequestQueue)
      → asleep txn ≡ some exclusive_table
      → wake_exclusive_on_table txn q ≡ some q'
      → TableInv q' (update txn none asleep)
  unfolding wake_exclusive_on_table
  wake_exclusive-TableInv q' sleeps h =
      if-some (other_granted txn q.request_queue) _ q' (λ p. TableInv p (update txn none asleep)) h
        (woken_exclusive-TableInv sleeps)

  -- With nothing exclusive granted to others, a reader that is let in finds no writer.
  read_only :
      asleep txn ≡ some shared_table
      → other_exclusive txn q.request_queue ≡ false
      → (count is_writer (update_first txn grant q.request_queue) ≡ 0)
        × (count is_reader (update_first txn grant q.request_queue)
            ≤ count is_reader q.request_queue + 1)
  read_only sleeps go = elim (Option-cases (find_request txn q.request_queue)) [
    | inl absent ↦ rw (update_first_of_none txn grant q.request_queue absent) (
      writers_of_absent txn q.request_queue (any_own_of_none txn q.request_queue absent) go,
      omega arith,
    )
    | inr (r, found) ↦
        let (reg, id) = All-find _ txn q.request_queue r inv.regular found in
        let mode = reg.reads (ap asleep id ∙ sleeps) in
        (
          ground (
            arith,
            mode,
            count-writers txn q.request_queue r inv.unique found go,
            count-update_first is_writer txn grant q.request_queue r found,
          ),
          ground (arith, count-update_first is_reader txn grant q.request_queue r found),
        )
  ]

  woken_shared-TableInv :
      asleep txn ≡ some shared_table
      → other_exclusive txn q.request_queue ≡ false
      → TableInv
          (record q {
            request_queue = update_last txn grant q.request_queue;
            group_lock_mode = join_shared q.group_lock_mode;
            shared_lock_num = inc q.shared_lock_num;
          })
          (update txn none asleep)
  woken_shared-TableInv sleeps go =
      let (writers, readers) = read_only sleeps go in
      simp (update_last_of_unique txn grant q.request_queue inv.unique) (record {
        unique = update_first-IsUnique txn grant (λ e. refl) q.request_queue inv.unique;
        regular =
            granted-regular (join_shared q.group_lock_mode) (λ e reg. ground (arith, reg.covered))
              (λ e reg mine. let mode = reg.reads (same_sleep e mine ∙ sleeps) in ground arith);
        natural = ground (arith, inv.natural);
        counted = ground (arith, inv.natural, inv.counted, readers);
        alone = inl writers;
      })

  pub wake_shared-TableInv :
      (q' : LockRequestQueue)
      → asleep txn ≡ some shared_table
      → wake_shared_on_table txn q ≡ some q'
      → TableInv q' (update txn none asleep)
  unfolding wake_shared_on_table
  wake_shared-TableInv q' sleeps h =
      if-some (other_exclusive txn q.request_queue) _ q' (λ p. TableInv p (update txn none asleep))
        h (woken_shared-TableInv sleeps)
