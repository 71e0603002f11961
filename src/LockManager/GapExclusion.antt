-- ===== src/LockManager/GapExclusion.antt =====
-- What a gap lock keeps out: no other transaction holds a lock on any gap that shares a record with
-- the one locked, from the scans of lock_manager.cpp and the overlap test of txn_defs.h.
use Prim.Native.Nat.{Ordering}
use cscc_db_rucbase.Common.{
  ℕ, ◌≡◌, ◌≢◌, refl, sym, ◌∙◌, Bool, true, false, ◌||◌, List, [], ◌∷◌, none, some, any, arith, All,
  Bool-cases, Option-cases, inl, inr, if◌then◌else◌, ltb, find,
}
use cscc_db_rucbase.Gap.Compare.{Gap, is_in_gap, is_coincide}
use cscc_db_rucbase.Gap.Overlap.{Column, Coherent, GapOf, RecordOf, is_in_gap-is_coincide}
use cscc_db_rucbase.Transaction.LockDataId.{LockDataId, lock_data_id_eq}
use cscc_db_rucbase.LockManager.Queue.{
  LockRequest, LockRequestQueue, Verdict, granted, held, exclusive, is_mode, non_lock, is_group,
  find_request, other_granted,
}
use cscc_db_rucbase.LockManager.Manager.{LockTable}
use cscc_db_rucbase.LockManager.Gaps.{
  Scan, clear, conflict, too_young, scan, gap_of, bars_exclusive_gap, exclusive_on_queue,
  upgrade_gap, exclusive_after_scan, exclusive_on_gap, wake_exclusive_on_gap,
}
use cscc_db_rucbase.LockManager.GapSteps.{HasMode, Moded, GapReached}
use cscc_db_rucbase.LockManager.GapSteps.Tables.{GapReached-Moded}

-- A granted request of another makes a granted request.
any_granted_of_other :
    (txn : ℕ) (rs : List LockRequest) → other_granted txn rs ≡ true → any (λ r. r.granted) rs ≡ true
any_granted_of_other txn [] h = cc
any_granted_of_other txn (r ∷ rs) h = ground (arith, any_granted_of_other txn rs)

-- The verdicts with which an operation that asks for a lock returns true: a new lock, or one that is
-- there or upgraded.
abbrev pub gives : Verdict → Bool
gives granted = true
gives held = true
gives _ = false

module _ (compare_float : List ℕ → List ℕ → Ordering) (gap_hasher : Gap → ℕ) where
  -- No other transaction holds a lock on a gap that overlaps this one.
  abbrev pub Apart : ℕ → Gap → LockTable → Type 0
  Apart txn gap m =
      All
        (λ e.
          is_coincide compare_float gap (gap_of e.0) ≡ true
          → other_granted txn e.1.request_queue ≡ false)
        m

  apart_of_bars :
      (txn : ℕ) (gap : Gap) (d : LockDataId) (q : LockRequestQueue)
      → HasMode q
      → bars_exclusive_gap compare_float gap_hasher txn gap (d, q) ≡ false
      → is_coincide compare_float gap (gap_of d) ≡ true
      → other_granted txn q.request_queue ≡ false
  unfolding bars_exclusive_gap
  apart_of_bars txn gap d q h b c = ground (arith, h, any_granted_of_other txn q.request_queue)

  Apart-scan :
      (txn : ℕ) (gap : Gap) (m : LockTable)
      → Moded m
      → scan compare_float gap_hasher (bars_exclusive_gap compare_float gap_hasher txn gap) txn m
        ≡ clear
      → Apart txn gap m
  unfolding scan
  Apart-scan txn gap [] a h = tt
  Apart-scan txn gap ((d, q) ∷ m) a h =
      elim (Bool-cases (bars_exclusive_gap compare_float gap_hasher txn gap (d, q))) [
        | inl bars ↦ absurd (blocks (ltb q.oldest_txn_id txn) (rw (bars, scan) at h))
        | inr lets ↦
            (apart_of_bars txn gap d q a.0 lets, Apart-scan txn gap m a.1 (rw (lets, scan) at h))
      ]
    where
      blocks : (b : Bool) → (if b then too_young else conflict) ≢ clear
      blocks true e = cc
      blocks false e = cc

  Apart-any :
      (txn : ℕ) (gap : Gap) (m : LockTable)
      → Moded m
      → any (bars_exclusive_gap compare_float gap_hasher txn gap) m ≡ false
      → Apart txn gap m
  Apart-any txn gap [] a h = tt
  Apart-any txn gap ((d, q) ∷ m) a h =
      (apart_of_bars txn gap d q a.0 (ground arith), Apart-any txn gap m a.1 (ground arith))

  -- A queue that can be asked for an exclusive lock: it has a mode, and the transaction has no
  -- exclusive request in it, but may have a shared one.
  abbrev pub Askable : ℕ → LockRequestQueue → Type 0
  Askable txn q =
      (is_group q.group_lock_mode non_lock ≡ false)
      × ((r : LockRequest)
          → find_request txn q.request_queue ≡ some r
          → is_mode r.lock_mode exclusive ≡ false)

  -- Such a queue gives no exclusive lock at once when the scan has found a conflict: a newcomer waits or
  -- dies, and so does a reader that upgrades.
  not_given_on_queue :
      (txn : ℕ) (q : LockRequestQueue)
      → Askable txn q
      → gives (exclusive_on_queue compare_float gap_hasher txn false q).1 ≡ false
  unfolding exclusive_on_queue upgrade_gap
  not_given_on_queue txn q (mode, reader) = elim (Option-cases (find_request txn q.request_queue)) [
    | inl absent ↦ rw (absent, exclusive_on_queue) (ground arith)
    | inr (r, found) ↦ rw (found, exclusive_on_queue) (ground (arith, reader r found))
  ]

  -- So the lock is given only after a clear scan.
  clear_of_given :
      (txn : ℕ) (d : LockDataId) (m : LockTable) (s : Scan)
      → ((q : LockRequestQueue) → find (lock_data_id_eq gap_hasher) d m ≡ some q → Askable txn q)
      → gives (exclusive_after_scan compare_float gap_hasher txn d m s).1 ≡ true
      → s ≡ clear
  unfolding exclusive_after_scan
  clear_of_given txn d m too_young h e = cc
  clear_of_given txn d m clear h e = refl
  clear_of_given txn d m conflict h e =
      absurd (elim (Option-cases (find (lock_data_id_eq gap_hasher) d m)) [
        | inl absent ↦ let w : false ≡ true = (rw absent at e) in cc
        | inr (q, found) ↦
            let w : false ≡ true = sym (not_given_on_queue txn q (h q found)) ∙ (rw found at e) in
            cc
      ])

  exclusive_on_gap-Apart :
      (txn : ℕ) (d : LockDataId) (m : LockTable)
      → Moded m
      → ((q : LockRequestQueue) → find (lock_data_id_eq gap_hasher) d m ≡ some q → Askable txn q)
      → gives (exclusive_on_gap compare_float gap_hasher txn d m).1 ≡ true
      → Apart txn (gap_of d) m
  unfolding exclusive_on_gap
  exclusive_on_gap-Apart txn d m a h e =
      Apart-scan txn (gap_of d) m a (clear_of_given txn d m _ h e)

  none-if-some : (b : Bool) (p m' : LockTable) → (if b then none else some p) ≡ some m' → b ≡ false
  none-if-some true p m' h = cc
  none-if-some false p m' h = refl

  or-false : (a b : Bool) → (a || b) ≡ false → b ≡ false
  or-false a b h = ground arith

  wake_exclusive_on_gap-Apart :
      (txn : ℕ) (d : LockDataId) (m m' : LockTable)
      → Moded m
      → wake_exclusive_on_gap compare_float gap_hasher txn d m ≡ some m'
      → Apart txn (gap_of d) m
  unfolding wake_exclusive_on_gap
  wake_exclusive_on_gap-Apart txn d m m' a h =
      elim (Option-cases (find (lock_data_id_eq gap_hasher) d m)) [
        | inl absent ↦ let w : none ≡ some m' = (rw (absent, wake_exclusive_on_gap) at h) in cc
        | inr (q, found) ↦
            Apart-any txn (gap_of d) m a
              (or-false _ _ (none-if-some _ _ m' (rw (found, wake_exclusive_on_gap) at h)))
      ]

  -- The compared floats are numbers.
  module _ (IsNumber : List ℕ → Type 0)
      (float_order : (v l u : List ℕ)
        → IsNumber v
        → IsNumber l
        → IsNumber u
        → Coherent (compare_float v l) (compare_float v u) (compare_float l u))
      (cs : List Column) (rec : List ℕ) where
    -- The conditions of every gap are about the columns of the index.
    abbrev pub OnColumns : LockTable → Type 0
    OnColumns m = All (λ e. GapOf compare_float IsNumber float_order cs (gap_of e.0).index_conds) m

    -- No other transaction holds a lock on a gap that the record is in.
    abbrev pub Free : ℕ → LockTable → Type 0
    Free txn m =
        All
          (λ e.
            is_in_gap compare_float (gap_of e.0) rec ≡ some true
            → other_granted txn e.1.request_queue ≡ false)
          m

    Free-Apart :
        (txn : ℕ) (d : LockDataId) (m : LockTable)
        → RecordOf compare_float IsNumber float_order cs rec
        → GapOf compare_float IsNumber float_order cs (gap_of d).index_conds
        → is_in_gap compare_float (gap_of d) rec ≡ some true
        → OnColumns m
        → Apart txn (gap_of d) m
        → Free txn m
    Free-Apart txn d [] r g i c a = tt
    Free-Apart txn d ((e, q) ∷ m) r g i c a = (
      λ holds. a.0 (
          is_in_gap-is_coincide compare_float IsNumber float_order cs (gap_of d) (gap_of e) rec r g
            c.0 i holds),
      Free-Apart txn d m r g i c.1 a.1,
    )

    -- Phantom protection of an exclusive gap lock that lock_exclusive_on_gap returns with at once,
    -- whether it is new or a shared lock of the transaction on the gap is upgraded: if a record
    -- lies in the gap, then no other transaction has a granted request on any gap of the index that
    -- the record lies in. The table of gap locks is one that the gap operations reach from none,
    -- all gaps are lower and upper conditions on the columns of one index, floats are compared as
    -- numbers, and the gap asked for has no queue yet, or one with a mode and without an exclusive
    -- request of the transaction.
    pub exclusive_on_gap-Free :
        (txn : ℕ) (d : LockDataId) (m : LockTable)
        → GapReached compare_float gap_hasher m
        → RecordOf compare_float IsNumber float_order cs rec
        → GapOf compare_float IsNumber float_order cs (gap_of d).index_conds
        → is_in_gap compare_float (gap_of d) rec ≡ some true
        → OnColumns m
        → ((q : LockRequestQueue) → find (lock_data_id_eq gap_hasher) d m ≡ some q → Askable txn q)
        → gives (exclusive_on_gap compare_float gap_hasher txn d m).1 ≡ true
        → Free txn m
    exclusive_on_gap-Free txn d m reached r g i c h e =
        Free-Apart txn d m r g i c
          (exclusive_on_gap-Apart txn d m (GapReached-Moded compare_float gap_hasher reached) h e)

    -- The same of an exclusive gap lock that is given after a wait, with no condition on the queue
    -- of the gap: when the wait ends, no other transaction has a granted request on any gap of the
    -- index that shares a record with the gap.
    pub wake_exclusive_on_gap-Free :
        (txn : ℕ) (d : LockDataId) (m m' : LockTable)
        → GapReached compare_float gap_hasher m
        → RecordOf compare_float IsNumber float_order cs rec
        → GapOf compare_float IsNumber float_order cs (gap_of d).index_conds
        → is_in_gap compare_float (gap_of d) rec ≡ some true
        → OnColumns m
        → wake_exclusive_on_gap compare_float gap_hasher txn d m ≡ some m'
        → Free txn m
    wake_exclusive_on_gap-Free txn d m m' reached r g i c h = Free-Apart txn d m r g i c (
        wake_exclusive_on_gap-Apart txn d m m' (GapReached-Moded compare_float gap_hasher reached)
          h)
