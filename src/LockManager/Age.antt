-- ===== src/LockManager/Age.antt =====
-- Wait-die: `oldest_txn_id_` is always the least transaction id in the queue, so that a transaction
-- waits only if nobody in the queue is older, and dies only if somebody is.
use Prim.Native.Nat.{min}
use cscc_db_rucbase.Common.{
  ℕ, ◌≤◌, ◌≡◌, refl, Bool, List, [], ◌∷◌, ◌++◌, some, ltb, if◌then◌else◌, any, arith,
}
use cscc_db_rucbase.LockManager.Queue.{
  LockRequest, int32_max, find_request, update_first, update_last,
}
use cscc_db_rucbase.LockManager.Release.{oldest_of}

-- The least transaction id of a queue.
abbrev pub min_txn : List LockRequest → ℕ
min_txn [] = int32_max
min_txn (r ∷ rs) = min r.txn_id (min_txn rs)

pub min_txn-le : (rs : List LockRequest) → min_txn rs ≤ int32_max
min_txn-le [] = omega arith
min_txn-le (r ∷ rs) = omega (arith, min_txn-le rs)

pub min_txn-append_singleton :
    (rs : List LockRequest) (r : LockRequest) → min_txn (rs ++ r ∷ []) ≡ min (min_txn rs) r.txn_id
min_txn-append_singleton [] r = omega arith
min_txn-append_singleton (e ∷ rs) r = omega (arith, min_txn-append_singleton rs r)

module _ (txn : ℕ) (f : LockRequest → LockRequest)
    (keeps : (r : LockRequest) → (f r).txn_id ≡ r.txn_id) where
  pub min_txn-update_first : (rs : List LockRequest) → min_txn (update_first txn f rs) ≡ min_txn rs
  unfolding update_first
  min_txn-update_first [] = refl
  min_txn-update_first (r ∷ rs) = ground (arith, keeps r, min_txn-update_first rs)

  pub min_txn-update_last : (rs : List LockRequest) → min_txn (update_last txn f rs) ≡ min_txn rs
  unfolding update_last
  min_txn-update_last [] = refl
  min_txn-update_last (r ∷ rs) = ground (arith, keeps r, min_txn-update_last rs)

pub min_txn-le_find :
    (txn : ℕ) (rs : List LockRequest) (r : LockRequest)
    → find_request txn rs ≡ some r
    → min_txn rs ≤ txn
unfolding find_request
min_txn-le_find txn [] r h = cc
min_txn-le_find txn (e ∷ rs) r h = ground (arith, min_txn-le_find txn rs r)

pub oldest_of-min_txn :
    (t : ℕ) (rs : List LockRequest) → t ≤ int32_max → oldest_of t rs ≡ min t (min_txn rs)
unfolding oldest_of
oldest_of-min_txn t [] h = omega arith
oldest_of-min_txn t (r ∷ rs) h =
    ground (arith, oldest_of-min_txn (if ltb r.txn_id t then r.txn_id else t) rs)

-- Whether a queue holds a request of an older transaction.
abbrev pub has_older : ℕ → List LockRequest → Bool
has_older txn rs = any (λ r. ltb r.txn_id txn) rs

pub has_older-min_txn :
    (txn : ℕ) (rs : List LockRequest) → txn ≤ int32_max → has_older txn rs ≡ ltb (min_txn rs) txn
has_older-min_txn txn [] h = ground arith
has_older-min_txn txn (r ∷ rs) h = ground (arith, has_older-min_txn txn rs)
