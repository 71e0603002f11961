-- ===== src/LockManager/TwoPhase.antt =====
-- Two-phase locking: after its first release a transaction gets no further lock from the operations
-- of lock_manager.cpp that call `check_lock`.
use Prim.Native.Nat.{Ordering}
use cscc_db_rucbase.Common.{
  ℕ, ◌≡◌, ◌⊎◌, inl, inr, refl, ◌∙◌, sym, Bool, true, false, List, [], ◌∷◌, ap, All,
}
use cscc_db_rucbase.Gap.Compare.{Gap}
use cscc_db_rucbase.Transaction.LockDataId.{
  Rid, IndexMeta, LockDataId, table, record_lock, gap_lock,
}
use cscc_db_rucbase.Transaction.State.{
  Transaction, TransactionState, default, growing, shrinking, committed, aborted, lock_on_shrinking,
  check_lock, check_state, after_growing, is_over,
}
use cscc_db_rucbase.LockManager.Manager.{
  LockManager, Reply, reply, returned, abort, guarded, lock_shared_on_record,
  lock_exclusive_on_record, lock_shared_on_table, lock_exclusive_on_table, lock_is_on_table,
  lock_ix_on_table, unlock, on_lock_table, conclude,
}
use cscc_db_rucbase.LockManager.Queue.{Verdict, held, granted, blocked, die, assertion}
use cscc_db_rucbase.LockManager.Gaps.{
  lock_shared_on_gap, lock_exclusive_on_gap, on_gap_table, shared_on_gap, exclusive_on_gap,
}
use cscc_db_rucbase.LockManager.Record.{shared_on_record, exclusive_on_record}
use cscc_db_rucbase.LockManager.Table.{shared_on_table, exclusive_on_table}
use cscc_db_rucbase.LockManager.Intention.{is_on_table}

-- A call of a transaction, with its arguments.
pub data Call : Type 0 where
  shared_record exclusive_record : Rid → ℕ → Call
  shared_table exclusive_table is_table ix_table : ℕ → Call
  shared_gap exclusive_gap : IndexMeta → Gap → ℕ → Call
  release : LockDataId → Call

abbrev pub is_checked : Call → Bool
is_checked (ix_table fd) = false
is_checked (release d) = false
is_checked _ = true

abbrev pub is_ix : Call → Bool
is_ix (ix_table fd) = true
is_ix _ = false

module _ (compare_float : List ℕ → List ℕ → Ordering) (gap_hasher : Gap → ℕ) where
  abbrev pub run : Call → LockManager → Transaction → Reply
  run (shared_record rid fd) m t = lock_shared_on_record gap_hasher m t rid fd
  run (exclusive_record rid fd) m t = lock_exclusive_on_record gap_hasher m t rid fd
  run (shared_table fd) m t = lock_shared_on_table gap_hasher m t fd
  run (exclusive_table fd) m t = lock_exclusive_on_table gap_hasher m t fd
  run (is_table fd) m t = lock_is_on_table gap_hasher m t fd
  run (ix_table fd) m t = lock_ix_on_table gap_hasher m t fd
  run (shared_gap index gap fd) m t = lock_shared_on_gap compare_float gap_hasher m t index gap fd
  run (exclusive_gap index gap fd) m t =
      lock_exclusive_on_gap compare_float gap_hasher m t index gap fd
  run (release d) m t = unlock gap_hasher m t d

  same_state : (t : Transaction) (s : TransactionState) → t.state ≡ s → record t { state = s } ≡ t
  same_state t s h = rw (sym h) refl

  guarded-shrinking :
      (rest : Transaction → Reply) (m : LockManager) (t : Transaction)
      → t.state ≡ shrinking
      → guarded rest m t (check_lock t) ≡ reply m t (abort lock_on_shrinking)
  unfolding check_lock
  guarded-shrinking rest m t h =
      ap (guarded rest m t) (ap (λ a. (record t { state = a.0 }, a.1)) (ap check_state h))
      ∙ ap (λ u. reply m u (abort lock_on_shrinking)) (same_state t shrinking h)

  guarded-over :
      (rest : Transaction → Reply) (m : LockManager) (t : Transaction)
      → is_over t.state ≡ true
      → guarded rest m t (check_lock t) ≡ reply m t (returned false)
  unfolding check_lock
  guarded-over rest m t h = over t.state refl
    where
      over :
          (s : TransactionState)
          → t.state ≡ s
          → guarded rest m t (check_lock t) ≡ reply m t (returned false)
      over committed e =
          ap (guarded rest m t) (ap (λ a. (record t { state = a.0 }, a.1)) (ap check_state e))
          ∙ ap (λ u. reply m u (returned false)) (same_state t committed e)
      over aborted e =
          ap (guarded rest m t) (ap (λ a. (record t { state = a.0 }, a.1)) (ap check_state e))
          ∙ ap (λ u. reply m u (returned false)) (same_state t aborted e)
      over default e = cc (sym h ∙ ap is_over e)
      over growing e = cc (sym h ∙ ap is_over e)
      over shrinking e = cc (sym h ∙ ap is_over e)

  -- What a call does once the state is checked.
  abbrev rest : Call → LockManager → Transaction → Reply
  rest (shared_record rid fd) m t =
      on_lock_table gap_hasher (record_lock fd rid) shared_on_record m t
  rest (exclusive_record rid fd) m t =
      on_lock_table gap_hasher (record_lock fd rid) exclusive_on_record m t
  rest (shared_table fd) m t = on_lock_table gap_hasher (table fd) shared_on_table m t
  rest (exclusive_table fd) m t = on_lock_table gap_hasher (table fd) exclusive_on_table m t
  rest (is_table fd) m t = on_lock_table gap_hasher (table fd) is_on_table m t
  rest (shared_gap index gap fd) m t =
      on_gap_table compare_float gap_hasher index (gap_lock fd index gap)
        (shared_on_gap compare_float gap_hasher) m t
  rest (exclusive_gap index gap fd) m t =
      on_gap_table compare_float gap_hasher index (gap_lock fd index gap)
        (exclusive_on_gap compare_float gap_hasher) m t
  rest (ix_table fd) m t = lock_ix_on_table gap_hasher m t fd
  rest (release d) m t = unlock gap_hasher m t d

  run-checked :
      (c : Call) (m : LockManager) (t : Transaction)
      → is_checked c ≡ true
      → run c m t ≡ guarded (rest c m) m t (check_lock t)
  unfolding lock_shared_on_record lock_exclusive_on_record lock_shared_on_table
      lock_exclusive_on_table lock_is_on_table lock_shared_on_gap lock_exclusive_on_gap
  run-checked (shared_record rid fd) m t k = refl
  run-checked (exclusive_record rid fd) m t k = refl
  run-checked (shared_table fd) m t k = refl
  run-checked (exclusive_table fd) m t k = refl
  run-checked (is_table fd) m t k = refl
  run-checked (shared_gap index gap fd) m t k = refl
  run-checked (exclusive_gap index gap fd) m t k = refl
  run-checked (ix_table fd) m t k = cc
  run-checked (release d) m t k = cc

  -- In the SHRINKING state each of the seven lock operations that check the state throws
  -- LOCK_ON_SHIRINKING, and leaves the lock tables and the transaction as they are.
  pub run-shrinking :
      (c : Call) (m : LockManager) (t : Transaction)
      → is_checked c ≡ true
      → t.state ≡ shrinking
      → run c m t ≡ reply m t (abort lock_on_shrinking)
  run-shrinking c m t k h = run-checked c m t k ∙ guarded-shrinking (rest c m) m t h

  unlock-over :
      (m : LockManager) (t : Transaction) (d : LockDataId)
      → is_over t.state ≡ true
      → unlock gap_hasher m t d ≡ reply m t (returned false)
  unfolding unlock
  unlock-over m t d h = rw (h, unlock) refl

  checked_or_release :
      (c : Call) → is_ix c ≡ false → (is_checked c ≡ true) ⊎ ((d : LockDataId) × (c ≡ release d))
  checked_or_release (release d) h = inr (d, refl)
  checked_or_release (ix_table fd) h = cc
  checked_or_release (shared_record rid fd) h = inl refl
  checked_or_release (exclusive_record rid fd) h = inl refl
  checked_or_release (shared_table fd) h = inl refl
  checked_or_release (exclusive_table fd) h = inl refl
  checked_or_release (is_table fd) h = inl refl
  checked_or_release (shared_gap index gap fd) h = inl refl
  checked_or_release (exclusive_gap index gap fd) h = inl refl

  -- In the COMMITTED and ABORTED states the same seven operations, and unlock, return false and
  -- change nothing.
  pub run-over :
      (c : Call) (m : LockManager) (t : Transaction)
      → is_ix c ≡ false
      → is_over t.state ≡ true
      → run c m t ≡ reply m t (returned false)
  run-over c m t k h = elim (checked_or_release c k) [
    | inl checked ↦ run-checked c m t checked ∙ guarded-over (rest c m) m t h
    | inr (d, same) ↦ rw same (unlock-over m t d h)
  ]

  -- The transaction after calls that it makes one after another, each on what the lock tables have
  -- come to by then.
  abbrev pub run_all : List (LockManager × Call) → Transaction → Transaction
  run_all [] t = t
  run_all ((m, c) ∷ cs) t = run_all cs (run c m t).txn

  unlock-keeps :
      (m : LockManager) (t : Transaction) (d : LockDataId)
      → t.state ≡ shrinking
      → (unlock gap_hasher m t d).txn ≡ t
  unfolding unlock
  unlock-keeps m t d h =
      rw (ap is_over h, unlock)
        (ap (λ s. record t { state = after_growing s }) h ∙ same_state t shrinking h)

  run-keeps :
      (c : Call) (m : LockManager) (t : Transaction)
      → is_ix c ≡ false
      → t.state ≡ shrinking
      → (run c m t).txn ≡ t
  run-keeps c m t k h = elim (checked_or_release c k) [
    | inl checked ↦ ap (λ r. r.txn) (run-shrinking c m t checked h)
    | inr (d, same) ↦ rw same (unlock-keeps m t d h)
  ]

  run_all-keeps :
      (cs : List (LockManager × Call)) (t : Transaction)
      → All (λ c. is_ix c.1 ≡ false) cs
      → t.state ≡ shrinking
      → run_all cs t ≡ t
  run_all-keeps [] t a h = refl
  run_all-keeps ((m, c) ∷ cs) t a h = rw (run-keeps c m t a.0 h) (run_all-keeps cs t a.1 h)

  -- Two phases: from the release with which a growing transaction begins to shrink, no sequence of
  -- its lock and unlock calls, IX locks of tables excepted, changes its lock set or its state,
  -- whatever other transactions do between the calls.
  pub unlock-two_phase :
      (m : LockManager) (t : Transaction) (d : LockDataId) (cs : List (LockManager × Call))
      → t.state ≡ growing
      → All (λ c. is_ix c.1 ≡ false) cs
      → ((unlock gap_hasher m t d).txn.state ≡ shrinking)
        × (run_all cs (unlock gap_hasher m t d).txn ≡ record t { state = shrinking })
  unfolding unlock
  unlock-two_phase m t d cs h a =
      let first : (unlock gap_hasher m t d).txn ≡ record t { state = shrinking } =
        rw (ap is_over h, unlock) (ap (λ s. record t { state = after_growing s }) h) in
      rw first (refl, run_all-keeps cs (record t { state = shrinking }) a refl)

  conclude-any_state :
      (d : LockDataId) (m : LockManager) (t t' : Transaction) (v : Verdict)
      → ((conclude gap_hasher d t m v).outcome ≡ (conclude gap_hasher d t' m v).outcome)
        × ((conclude gap_hasher d t m v).manager ≡ (conclude gap_hasher d t' m v).manager)
  conclude-any_state d m t t' held = (refl, refl)
  conclude-any_state d m t t' granted = (refl, refl)
  conclude-any_state d m t t' blocked = (refl, refl)
  conclude-any_state d m t t' die = (refl, refl)
  conclude-any_state d m t t' assertion = (refl, refl)

  -- lock_IX_on_table does not look at the state of the transaction: in any two states it comes to
  -- the same end and the same lock tables.
  pub lock_ix_on_table-any_state :
      (m : LockManager) (t : Transaction) (fd : ℕ) (s : TransactionState)
      → ((lock_ix_on_table gap_hasher m (record t { state = s }) fd).outcome
          ≡ (lock_ix_on_table gap_hasher m t fd).outcome)
        × ((lock_ix_on_table gap_hasher m (record t { state = s }) fd).manager
            ≡ (lock_ix_on_table gap_hasher m t fd).manager)
  unfolding lock_ix_on_table on_lock_table
  lock_ix_on_table-any_state m t fd s = conclude-any_state _ _ (record t { state = s }) t _
