-- ===== src/LockManager/GapSteps/Tables.antt =====
-- The table of the gap locks of an index: every step keeps it moded.
use Prim.Native.Nat.{Ordering}
use cscc_db_rucbase.Common.{
  ℕ, ◌≡◌, refl, subst, Bool, true, false, List, Option, none, some, All-store, All-found,
  All-erase_key, Option-cases, inl, inr, if◌then◌else◌, find,
}
use cscc_db_rucbase.Gap.Compare.{Gap}
use cscc_db_rucbase.Transaction.LockDataId.{LockDataId, lock_data_id_eq}
use cscc_db_rucbase.LockManager.Queue.{LockRequestQueue, exclusive, shared, new_queue}
use cscc_db_rucbase.LockManager.Release.{unlock_queue}
use cscc_db_rucbase.LockManager.Manager.{LockTable, put_back, unlock_in}
use cscc_db_rucbase.LockManager.Gaps.{
  Scan, clear, conflict, too_young, scan, gap_of, bars_shared_gap, shared_on_new, shared_on_gap,
  wake_shared_on_gap, exclusive_on_found, exclusive_after_scan, exclusive_on_gap,
  wake_exclusive_on_gap,
}
use cscc_db_rucbase.LockManager.SafeInGap.{claimed_queue}
use cscc_db_rucbase.LockManager.GapSteps.{
  GapStep, GapReached, HasMode, Moded, start, next, asks_shared, asks_exclusive, wakes_shared,
  wakes_exclusive, claims, releases,
}
use cscc_db_rucbase.LockManager.GapSteps.Queues.{
  HasMode-enqueue, HasMode-exclusive_on_queue, HasMode-give_exclusive, HasMode-give_shared,
  HasMode-shared_on_queue, HasMode-unlock_queue,
}

module _ (compare_float : List ℕ → List ℕ → Ordering) (gap_hasher : Gap → ℕ) (txn : ℕ) where
  abbrev eq : LockDataId → LockDataId → Bool
  eq = lock_data_id_eq gap_hasher

  Moded-shared_on_gap :
      (d : LockDataId) (m : LockTable)
      → Moded m
      → Moded (shared_on_gap compare_float gap_hasher txn d m).0
  unfolding shared_on_gap shared_on_new
  Moded-shared_on_gap d m a = elim (Option-cases (find eq d m)) [
    | inl absent ↦
        rw (absent, shared_on_gap)
          (scanned (
            scan compare_float gap_hasher (bars_shared_gap compare_float gap_hasher txn (gap_of d))
              txn m))
    | inr (q, found) ↦
        rw (found, shared_on_gap)
          (All-store eq HasMode d _ m a (
            HasMode-shared_on_queue compare_float gap_hasher txn q
              (All-found eq HasMode d q m a found)))
  ]
    where
      scanned : (s : Scan) → Moded (shared_on_new compare_float gap_hasher txn d m s).0
      scanned too_young = a
      scanned conflict =
          All-store eq HasMode d _ m a (HasMode-enqueue txn shared new_queue (λ e. cc))
      scanned clear = All-store eq HasMode d _ m a (HasMode-give_shared txn new_queue)

  Moded-exclusive_on_found :
      (d : LockDataId) (m : LockTable) (b : Bool)
      → Moded m
      → Moded (exclusive_on_found compare_float gap_hasher txn d m b (find eq d m)).0
  Moded-exclusive_on_found d m b a = elim (Option-cases (find eq d m)) [
    | inl absent ↦ rw absent (new b)
    | inr (q, found) ↦ rw found (
        All-store eq HasMode d _ m a (
          HasMode-exclusive_on_queue compare_float gap_hasher txn b q
            (All-found eq HasMode d q m a found)))
  ]
    where
      new : (c : Bool) → Moded (exclusive_on_found compare_float gap_hasher txn d m c none).0
      new true = All-store eq HasMode d _ m a (HasMode-give_exclusive txn new_queue)
      new false = All-store eq HasMode d _ m a (HasMode-enqueue txn exclusive new_queue (λ e. cc))

  Moded-exclusive_after_scan :
      (d : LockDataId) (m : LockTable) (s : Scan)
      → Moded m
      → Moded (exclusive_after_scan compare_float gap_hasher txn d m s).0
  unfolding exclusive_after_scan
  Moded-exclusive_after_scan d m too_young a = a
  Moded-exclusive_after_scan d m clear a = Moded-exclusive_on_found d m true a
  Moded-exclusive_after_scan d m conflict a = Moded-exclusive_on_found d m false a

  Moded-exclusive_on_gap :
      (d : LockDataId) (m : LockTable)
      → Moded m
      → Moded (exclusive_on_gap compare_float gap_hasher txn d m).0
  unfolding exclusive_on_gap
  Moded-exclusive_on_gap d m a = Moded-exclusive_after_scan d m _ a

  if-Moded :
      (b : Bool) (p : LockTable) (m' : LockTable)
      → Moded p
      → (if b then none else some p) ≡ some m'
      → Moded m'
  if-Moded true p m' a h = cc
  if-Moded false p m' a h = let same : p ≡ m' = cc in subst Moded same a

  Moded-wake_shared_on_gap :
      (d : LockDataId) (m m' : LockTable)
      → Moded m
      → wake_shared_on_gap compare_float gap_hasher txn d m ≡ some m'
      → Moded m'
  unfolding wake_shared_on_gap
  Moded-wake_shared_on_gap d m m' a h = elim (Option-cases (find eq d m)) [
    | inl absent ↦ let w : none ≡ some m' = (rw (absent, wake_shared_on_gap) at h) in cc
    | inr (q, found) ↦
        if-Moded _ _ m' (All-store eq HasMode d _ m a (λ e. refl))
          (rw (found, wake_shared_on_gap) at h)
  ]

  Moded-wake_exclusive_on_gap :
      (d : LockDataId) (m m' : LockTable)
      → Moded m
      → wake_exclusive_on_gap compare_float gap_hasher txn d m ≡ some m'
      → Moded m'
  unfolding wake_exclusive_on_gap
  Moded-wake_exclusive_on_gap d m m' a h = elim (Option-cases (find eq d m)) [
    | inl absent ↦ let w : none ≡ some m' = (rw (absent, wake_exclusive_on_gap) at h) in cc
    | inr (q, found) ↦
        if-Moded _ _ m' (All-store eq HasMode d _ m a (λ e. refl))
          (rw (found, wake_exclusive_on_gap) at h)
  ]

  Moded-put_back :
      (d : LockDataId) (o : Option LockRequestQueue) (m : LockTable)
      → Moded m
      → ((q : LockRequestQueue) → o ≡ some q → HasMode q)
      → Moded (put_back gap_hasher d o m)
  Moded-put_back d none m a h = All-erase_key eq HasMode d m a
  Moded-put_back d (some q) m a h = All-store eq HasMode d q m a (h q refl)

  Moded-unlock_in :
      (d : LockDataId) (m : LockTable) → Moded m → Moded (unlock_in gap_hasher txn d m)
  unfolding unlock_in
  Moded-unlock_in d m a = elim (Option-cases (find eq d m)) [
    | inl absent ↦ rw (absent, unlock_in) a
    | inr (q, found) ↦
        rw (found, unlock_in)
          (Moded-put_back d (unlock_queue txn q) m a
            (λ q' u. HasMode-unlock_queue txn q q' (All-found eq HasMode d q m a found) u))
  ]

  HasMode-claimed_queue : HasMode (claimed_queue txn)
  unfolding claimed_queue
  HasMode-claimed_queue e = refl

module _ (compare_float : List ℕ → List ℕ → Ordering) (gap_hasher : Gap → ℕ) where
  GapStep-Moded : {m m' : LockTable} → GapStep compare_float gap_hasher m m' → Moded m → Moded m'
  GapStep-Moded {m} {m'} (asks_shared txn d v e) a =
      subst (λ r. Moded r.0) e (Moded-shared_on_gap compare_float gap_hasher txn d m a)
  GapStep-Moded {m} {m'} (asks_exclusive txn d v e) a =
      subst (λ r. Moded r.0) e (Moded-exclusive_on_gap compare_float gap_hasher txn d m a)
  GapStep-Moded {m} {m'} (wakes_shared txn d e) a =
      Moded-wake_shared_on_gap compare_float gap_hasher txn d m m' a e
  GapStep-Moded {m} {m'} (wakes_exclusive txn d e) a =
      Moded-wake_exclusive_on_gap compare_float gap_hasher txn d m m' a e
  GapStep-Moded {m} {m'} (claims txn d absent e) a = subst Moded e (
      All-store (lock_data_id_eq gap_hasher) HasMode d _ m a
        (HasMode-claimed_queue compare_float gap_hasher txn))
  GapStep-Moded {m} {m'} (releases txn d e) a =
      subst Moded e (Moded-unlock_in compare_float gap_hasher txn d m a)

  -- In every table of gap locks that requests, wake-ups, claims of inserts and releases reach from
  -- the empty one, a queue in which some request is granted has a group mode other than NON_LOCK.
  pub GapReached-Moded : {m : LockTable} → GapReached compare_float gap_hasher m → Moded m
  GapReached-Moded start = tt
  GapReached-Moded (next reached step) = GapStep-Moded step (GapReached-Moded reached)
