-- ===== src/LockManager/Insert.antt =====
-- What `isSafeInGap` of lock_manager.cpp promises to an insert, and where its loop has no end.
use Prim.Native.Nat.{Ordering}
use cscc_db_rucbase.Common.{
  ℕ, zero, suc, ◌≡◌, ◌≢◌, refl, ◌∙◌, ap, subst, Bool, true, false, List, [], ◌∷◌, Option, none,
  some, any, arith, All, Bool-cases, Option-cases, inl, inr, if◌then◌else◌, find, store,
  find-store_self, ==_refl,
}
use cscc_db_rucbase.Gap.Compare.{Gap, is_in_gap}
use cscc_db_rucbase.Transaction.LockDataId.{
  LockDataId, IndexMeta, index_meta_eq, index_meta_eq_refl, lock_data_id_eq, lock_data_id_eq_refl,
  gap_lock,
}
use cscc_db_rucbase.Transaction.State.{
  Transaction, TransactionState, growing, shrinking, committed, aborted, add_lock,
  deadlock_prevention,
}
use cscc_db_rucbase.LockManager.Queue.{LockRequestQueue, other_granted}
use cscc_db_rucbase.LockManager.Manager.{
  LockTable, LockManager, Reply, Outcome, reply, returned, waiting, abort, internal_error,
  inner_table,
}
use cscc_db_rucbase.LockManager.Gaps.{gap_of}
use cscc_db_rucbase.LockManager.SafeInGap.{
  point_gap, Probe, free, dying, failing, sleeping, Round, again, asleep, done, Moment, moment,
  Waking, sleeps_on, lost, wakes_at, is_own_granted, probe, claimed_queue, claim, after_probe, wait,
  after_wait, after_round, safe_round, safe_rounds, is_safe_in_gap,
}

module _ (compare_float : List ℕ → List ℕ → Ordering) (gap_hasher : Gap → ℕ) where
  -- No other transaction holds a lock on a gap that the record is in.
  abbrev pub Unclaimed : ℕ → List ℕ → LockTable → Type 0
  Unclaimed txn rec m =
      All
        (λ e.
          is_in_gap compare_float (gap_of e.0) rec ≡ some true
          → other_granted txn e.1.request_queue ≡ false)
        m

  not_free : (b : Bool) (d : LockDataId) → (if b then dying else sleeping d) ≢ free
  not_free true d e = cc
  not_free false d e = cc

  pub probe-Unclaimed :
      (txn : ℕ) (rec : List ℕ) (m : LockTable)
      → probe compare_float gap_hasher txn rec m ≡ free
      → Unclaimed txn rec m
  unfolding probe
  probe-Unclaimed txn rec [] h = tt
  probe-Unclaimed txn rec ((d, q) ∷ m) h = ground (arith, probe-Unclaimed txn rec m)

  -- A round that ends with the truth value true has found no one in the way, and the transaction
  -- holds the point gap.
  abbrev pub Holds : LockDataId → IndexMeta → ℕ → LockManager → Type 0
  Holds d index txn m =
      (q : LockRequestQueue) × (find (lock_data_id_eq gap_hasher) d (inner_table index m) ≡ some q)
      × (any (is_own_granted txn) q.request_queue ≡ true)

  own_granted-claimed_queue :
      (txn : ℕ) → any (is_own_granted txn) (claimed_queue txn).request_queue ≡ true
  unfolding claimed_queue
  own_granted-claimed_queue txn = ground (arith, ==_refl txn)

  inner_table-store :
      (index : IndexMeta) (inner : LockTable) (m : LockManager)
      → inner_table index
          (record m { gap_lock_table = store index_meta_eq index inner m.gap_lock_table })
        ≡ inner
  inner_table-store index inner m =
      rw
        (find-store_self index_meta_eq index_meta_eq_refl index inner m.gap_lock_table, inner_table)
        refl

  done-injective : (a b : Reply) → done a ≡ done b → a ≡ b
  done-injective a b e = cc

  -- The reply with which a round makes the queue of the point gap.
  abbrev claimed : LockDataId → IndexMeta → LockManager → Transaction → Reply
  claimed d index m t =
      let inner =
        store (lock_data_id_eq gap_hasher) d (claimed_queue t.txn_id) (inner_table index m) in
      reply (record m { gap_lock_table = store index_meta_eq index inner m.gap_lock_table })
        (add_lock gap_hasher d t) (returned true)

  claim-Holds :
      (d : LockDataId) (index : IndexMeta) (m : LockManager) (t : Transaction) (r : Reply)
      → claim compare_float gap_hasher d index m t ≡ done r
      → Holds d index t.txn_id r.manager
  unfolding claim
  claim-Holds d index m t r h =
      elim (Option-cases (find (lock_data_id_eq gap_hasher) d (inner_table index m))) [
        | inl absent ↦ let e = rw (absent, claim) at h in made (done-injective _ r e)
        | inr (q, found) ↦
            there q found (any (is_own_granted t.txn_id) q.request_queue) refl
              (rw (found, claim) at h)
      ]
    where
      made : claimed d index m t ≡ r → Holds d index t.txn_id r.manager
      made e =
          subst (λ r. Holds d index t.txn_id r.manager) e
            (
              claimed_queue t.txn_id,
              rw inner_table-store (
                  find-store_self (lock_data_id_eq gap_hasher) (lock_data_id_eq_refl gap_hasher) d
                    (claimed_queue t.txn_id) (inner_table index m)),
              own_granted-claimed_queue t.txn_id,
            )

      there :
          (q : LockRequestQueue)
          → find (lock_data_id_eq gap_hasher) d (inner_table index m) ≡ some q
          → (b : Bool) → any (is_own_granted t.txn_id) q.request_queue ≡ b
          → (if b then done (reply m t (returned true)) else again) ≡ done r
          → Holds d index t.txn_id r.manager
      there q found true own e =
          subst (λ r. Holds d index t.txn_id r.manager) (done-injective _ r e) (q, found, own)
      there q found false own e = cc

  other_end :
      (m : LockManager) (t : Transaction) (r : Reply) (end : Outcome)
      → end ≢ returned true
      → done (reply m t end) ≡ done r
      → r.outcome ≢ returned true
  other_end m t r end ne w o = ne (ap (λ a. a.outcome) (done-injective _ r w) ∙ o)

  some-injective : (a b : Reply) → some a ≡ some b → a ≡ b
  some-injective a b e = cc

  Unclaimed-store :
      (txn : ℕ) (rec : List ℕ) (d : LockDataId) (q : LockRequestQueue) (m : LockTable)
      → other_granted txn q.request_queue ≡ false
      → Unclaimed txn rec m
      → Unclaimed txn rec (store (lock_data_id_eq gap_hasher) d q m)
  unfolding store
  Unclaimed-store txn rec d q [] none_other a = (λ holds. none_other, tt)
  Unclaimed-store txn rec d q ((e, p) ∷ m) none_other a =
      elim (Bool-cases (lock_data_id_eq gap_hasher e d)) [
        | inl same ↦ rw (same, store) (λ holds. none_other, a.1)
        | inr other ↦ rw (other, store) (a.0, Unclaimed-store txn rec d q m none_other a.1)
      ]

  claimed_queue-own : (txn : ℕ) → other_granted txn (claimed_queue txn).request_queue ≡ false
  unfolding claimed_queue
  claimed_queue-own txn = ground (arith, ==_refl txn)

  claim-Unclaimed :
      (d : LockDataId) (index : IndexMeta) (rec : List ℕ) (m : LockManager) (t : Transaction)
      (r : Reply)
      → claim compare_float gap_hasher d index m t ≡ done r
      → Unclaimed t.txn_id rec (inner_table index m)
      → Unclaimed t.txn_id rec (inner_table index r.manager)
  unfolding claim
  claim-Unclaimed d index rec m t r h a =
      elim (Option-cases (find (lock_data_id_eq gap_hasher) d (inner_table index m))) [
        | inl absent ↦
            let e : done (claimed d index m t) ≡ done r = rw (absent, claim) at h in
            subst (λ b. Unclaimed t.txn_id rec (inner_table index b.manager))
              (done-injective (claimed d index m t) r e)
              (rw inner_table-store (
                Unclaimed-store t.txn_id rec d (claimed_queue t.txn_id) (inner_table index m)
                  (claimed_queue-own t.txn_id) a))
        | inr (q, found) ↦
            there (any (is_own_granted t.txn_id) q.request_queue) (rw (found, claim) at h)
      ]
    where
      there :
          (b : Bool)
          → (if b then done (reply m t (returned true)) else again) ≡ done r
          → Unclaimed t.txn_id rec (inner_table index r.manager)
      there true e =
          subst (λ b. Unclaimed t.txn_id rec (inner_table index b.manager)) (done-injective _ r e) a
      there false e = cc

  -- What an insert is promised by a reply that says true.
  abbrev pub Safe : LockDataId → IndexMeta → List ℕ → ℕ → Reply → Type 0
  Safe d index rec txn r =
      Unclaimed txn rec (inner_table index r.manager) × Holds d index txn r.manager

  after_probe-Safe :
      (d : LockDataId) (index : IndexMeta) (rec : List ℕ) (m : LockManager) (t : Transaction)
      (r : Reply) (p : Probe)
      → probe compare_float gap_hasher t.txn_id rec (inner_table index m) ≡ p
      → after_probe compare_float gap_hasher d index m t p ≡ done r
      → r.outcome ≡ returned true
      → Safe d index rec t.txn_id r
  after_probe-Safe d index rec m t r free e h o = (
    claim-Unclaimed d index rec m t r h (probe-Unclaimed t.txn_id rec (inner_table index m) e),
    claim-Holds d index m t r h,
  )
  after_probe-Safe d index rec m t r dying e h o =
      absurd (other_end m t r (abort deadlock_prevention) (λ w. cc) h o)
  after_probe-Safe d index rec m t r failing e h o =
      absurd (other_end m t r internal_error (λ w. cc) h o)
  after_probe-Safe d index rec m t r (sleeping g) e h o = cc

  module _ (d : LockDataId) (index : IndexMeta) (rec : List ℕ)
      (next : List Moment → LockManager → Transaction → Option Reply)
      (later_rounds : (moments : List Moment) (m : LockManager) (t : Transaction) (r : Reply)
        → next moments m t ≡ some r
        → r.outcome ≡ returned true
        → Safe d index rec t.txn_id r) where
    woken-Safe :
        (s : TransactionState) (later : List Moment) (m : LockManager) (t : Transaction) (r : Reply)
        → after_wait compare_float gap_hasher next m t
            (wakes_at (record { manager = m; state = s }) later)
          ≡ some r
        → r.outcome ≡ returned true
        → Safe d index rec t.txn_id r
    woken-Safe aborted later m t r h o =
        let w : returned false ≡ returned true = ap (λ a. a.outcome) (some-injective _ r h) ∙ o in
        cc
    woken-Safe TransactionState.default later m t r h o =
        later_rounds later m (record t { state = TransactionState.default }) r h o
    woken-Safe growing later m t r h o = later_rounds later m (record t { state = growing }) r h o
    woken-Safe shrinking later m t r h o =
        later_rounds later m (record t { state = shrinking }) r h o
    woken-Safe committed later m t r h o =
        later_rounds later m (record t { state = committed }) r h o

    after_wait-Safe :
        (w : Waking) (m : LockManager) (t : Transaction) (r : Reply)
        → after_wait compare_float gap_hasher next m t w ≡ some r
        → r.outcome ≡ returned true
        → Safe d index rec t.txn_id r
    after_wait-Safe sleeps_on m t r h o =
        let w : waiting ≡ returned true = ap (λ a. a.outcome) (some-injective _ r h) ∙ o in cc
    after_wait-Safe lost m t r h o = cc
    after_wait-Safe (wakes_at now later) m t r h o = woken-Safe now.state later now.manager t r h o

    after_round-Safe :
        (s : Round) (moments : List Moment) (m : LockManager) (t : Transaction) (r : Reply)
        → safe_round compare_float gap_hasher d index rec m t ≡ s
        → after_round compare_float gap_hasher next index moments m t s ≡ some r
        → r.outcome ≡ returned true
        → Safe d index rec t.txn_id r
    unfolding safe_round
    after_round-Safe again moments m t r e h o = later_rounds moments m t r h o
    after_round-Safe (asleep g) moments m t r e h o =
        after_wait-Safe (wait compare_float gap_hasher t.txn_id g index (moment m t ∷ moments)) m t
          r h o
    after_round-Safe (done a) moments m t r e h o =
        after_probe-Safe d index rec m t r _ refl (e ∙ ap done (some-injective a r h)) o

  safe_rounds-Safe :
      (fuel : ℕ) (d : LockDataId) (index : IndexMeta) (rec : List ℕ) (moments : List Moment)
      (m : LockManager) (t : Transaction) (r : Reply)
      → safe_rounds compare_float gap_hasher fuel d index rec moments m t ≡ some r
      → r.outcome ≡ returned true
      → Safe d index rec t.txn_id r
  unfolding safe_rounds
  safe_rounds-Safe zero d index rec moments m t r h o = cc
  safe_rounds-Safe (suc fuel) d index rec moments m t r h o =
      after_round-Safe d index rec (safe_rounds compare_float gap_hasher fuel d index rec)
        (safe_rounds-Safe fuel d index rec) _ moments m t r refl h o

  -- If isSafeInGap returns true for a record, whatever the fuel, after any waits and whatever the
  -- other transactions do to the lock tables meanwhile, then on the tables with which it returns no
  -- other transaction has a granted request on a gap of the index that holds the record, and the
  -- transaction has a granted request in the queue of the point gap of the record's key.
  pub is_safe_in_gap-Unclaimed :
      (fuel : ℕ) (moments : List Moment) (m : LockManager) (t : Transaction) (index : IndexMeta)
      (rec : List ℕ) (fd : ℕ) (r : Reply)
      → is_safe_in_gap compare_float gap_hasher fuel moments m t index rec fd ≡ some r
      → r.outcome ≡ returned true
      → Unclaimed t.txn_id rec (inner_table index r.manager)
        × Holds (gap_lock fd index (point_gap index rec)) index t.txn_id r.manager
  unfolding is_safe_in_gap
  is_safe_in_gap-Unclaimed fuel moments m t index rec fd r h o =
      safe_rounds-Safe fuel (gap_lock fd index (point_gap index rec)) index rec moments m t r h o

  safe_rounds-again :
      (fuel : ℕ) (d : LockDataId) (index : IndexMeta) (rec : List ℕ) (moments : List Moment)
      (m : LockManager) (t : Transaction)
      → safe_round compare_float gap_hasher d index rec m t ≡ again
      → safe_rounds compare_float gap_hasher fuel d index rec moments m t ≡ none
  unfolding safe_rounds safe_round
  safe_rounds-again zero d index rec moments m t e = refl
  safe_rounds-again (suc fuel) d index rec moments m t e =
      ap
        (after_round compare_float gap_hasher
          (safe_rounds compare_float gap_hasher fuel d index rec) index moments m t)
        e
      ∙ safe_rounds-again fuel d index rec moments m t e

  -- The loop of isSafeInGap never ends where no other transaction has a granted request on a gap
  -- that holds the record and the point gap of its key has a queue in which the transaction has
  -- nothing granted: it goes round without a wait, so that no amount of fuel gives a reply,
  -- whatever moments are given for waits.
  pub is_safe_in_gap-spins :
      (fuel : ℕ) (moments : List Moment) (m : LockManager) (t : Transaction) (index : IndexMeta)
      (rec : List ℕ) (fd : ℕ) (q : LockRequestQueue)
      → probe compare_float gap_hasher t.txn_id rec (inner_table index m) ≡ free
      → find
          (lock_data_id_eq gap_hasher)
          (gap_lock fd index (point_gap index rec))
          (inner_table index m)
        ≡ some q
      → any (is_own_granted t.txn_id) q.request_queue ≡ false
      → is_safe_in_gap compare_float gap_hasher fuel moments m t index rec fd ≡ none
  unfolding is_safe_in_gap safe_round claim
  is_safe_in_gap-spins fuel moments m t index rec fd q p found own =
      safe_rounds-again fuel (gap_lock fd index (point_gap index rec)) index rec moments m t
        (ap (after_probe compare_float gap_hasher _ index m t) p ∙ rw (found, claim) (rw own refl))
