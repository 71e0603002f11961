-- ===== src/LockManager/Readers.antt =====
-- Counting the granted requests of a queue, for the mutual exclusion of table locks.
use cscc_db_rucbase.Common.{
  ℕ, ◌+◌, ◌≤◌, ◌≡◌, refl, Bool, true, false, ◌&&◌, List, [], ◌∷◌, ◌++◌, none, some, any,
  any-append_singleton, arith,
}
use cscc_db_rucbase.LockManager.Queue.{
  LockRequest, shared, exclusive, is_mode, is_own, find_request, update_first, update_last,
  other_granted, other_exclusive,
}
use cscc_db_rucbase.LockManager.Release.Spec.{others}

abbrev pub one_if : Bool → ℕ
one_if true = 1
one_if false = 0

abbrev pub is_writer : LockRequest → Bool
is_writer r = is_mode r.lock_mode exclusive && r.granted

abbrev pub is_reader : LockRequest → Bool
is_reader r = is_mode r.lock_mode shared && r.granted

abbrev pub count : (LockRequest → Bool) → List LockRequest → ℕ
count p [] = 0
count p (r ∷ rs) = one_if (p r) + count p rs

-- Every transaction has one request at most.
abbrev pub IsUnique : List LockRequest → Type 0
IsUnique [] = Unit {0}
IsUnique (r ∷ rs) = (any (is_own r.txn_id) rs ≡ false) × IsUnique rs

pub count-append_singleton :
    (p : LockRequest → Bool) (rs : List LockRequest) (r : LockRequest)
    → count p (rs ++ r ∷ []) ≡ count p rs + one_if (p r)
count-append_singleton p [] r = omega arith
count-append_singleton p (e ∷ rs) r = omega (arith, count-append_singleton p rs r)

pub count-update_first :
    (p : LockRequest → Bool) (txn : ℕ) (f : LockRequest → LockRequest) (rs : List LockRequest)
    (r : LockRequest)
    → find_request txn rs ≡ some r
    → count p (update_first txn f rs) + one_if (p r) ≡ count p rs + one_if (p (f r))
unfolding find_request update_first
count-update_first p txn f [] r h = cc
count-update_first p txn f (e ∷ rs) r h = ground (arith, count-update_first p txn f rs r)

pub update_first_of_none :
    (txn : ℕ) (f : LockRequest → LockRequest) (rs : List LockRequest)
    → find_request txn rs ≡ none
    → update_first txn f rs ≡ rs
unfolding find_request update_first
update_first_of_none txn f [] h = refl
update_first_of_none txn f (r ∷ rs) h = ground (arith, update_first_of_none txn f rs)

pub update_last_of_unique :
    (txn : ℕ) (f : LockRequest → LockRequest) (rs : List LockRequest)
    → IsUnique rs
    → update_last txn f rs ≡ update_first txn f rs
unfolding update_last update_first
update_last_of_unique txn f [] u = refl
update_last_of_unique txn f (r ∷ rs) u = ground (arith, update_last_of_unique txn f rs)

module _ (txn : ℕ) (f : LockRequest → LockRequest)
    (keeps : (r : LockRequest) → (f r).txn_id ≡ r.txn_id) where
  any_own-update_first :
      (t : ℕ) (rs : List LockRequest) → any (is_own t) (update_first txn f rs) ≡ any (is_own t) rs
  unfolding update_first
  any_own-update_first t [] = refl
  any_own-update_first t (r ∷ rs) = ground (arith, keeps r, any_own-update_first t rs)

  pub update_first-IsUnique :
      (rs : List LockRequest) → IsUnique rs → IsUnique (update_first txn f rs)
  unfolding update_first
  update_first-IsUnique [] u = tt
  update_first-IsUnique (r ∷ rs) u =
      ground (arith, keeps r, any_own-update_first r.txn_id rs, update_first-IsUnique rs)

pub any_own_of_none :
    (txn : ℕ) (rs : List LockRequest) → find_request txn rs ≡ none → any (is_own txn) rs ≡ false
unfolding find_request
any_own_of_none txn [] h = refl
any_own_of_none txn (r ∷ rs) h = ground (arith, any_own_of_none txn rs)

pub append-IsUnique :
    (rs : List LockRequest) (r : LockRequest)
    → IsUnique rs
    → find_request r.txn_id rs ≡ none
    → IsUnique (rs ++ r ∷ [])
unfolding find_request
append-IsUnique [] r u h = (refl, tt)
append-IsUnique (e ∷ rs) r u h = (
  ground (arith, any-append_singleton (is_own e.txn_id) rs r),
  append-IsUnique rs r u.1 (ground arith),
)

any_own-others :
    (t txn : ℕ) (rs : List LockRequest)
    → any (is_own t) rs ≡ false
    → any (is_own t) (others txn rs) ≡ false
any_own-others t txn [] h = refl
any_own-others t txn (r ∷ rs) h = ground (arith, any_own-others t txn rs)

pub others-IsUnique : (txn : ℕ) (rs : List LockRequest) → IsUnique rs → IsUnique (others txn rs)
others-IsUnique txn [] u = tt
others-IsUnique txn (r ∷ rs) u =
    ground (arith, any_own-others r.txn_id txn rs, others-IsUnique txn rs)

pub count_of_absent :
    (txn : ℕ) (rs : List LockRequest)
    → any (is_own txn) rs ≡ false
    → other_granted txn rs ≡ false
    → count (λ e. e.granted) rs ≡ 0
count_of_absent txn [] a o = refl
count_of_absent txn (e ∷ rs) a o = ground (arith, count_of_absent txn rs)

-- With nothing granted to others, what is granted is the own request's.
pub count-granted :
    (txn : ℕ) (rs : List LockRequest) (r : LockRequest)
    → IsUnique rs
    → find_request txn rs ≡ some r
    → other_granted txn rs ≡ false
    → count (λ e. e.granted) rs ≡ one_if r.granted
unfolding find_request
count-granted txn [] r u h o = cc
count-granted txn (e ∷ rs) r u h o = ground (arith, count-granted txn rs r, count_of_absent txn rs)

pub writers_of_absent :
    (txn : ℕ) (rs : List LockRequest)
    → any (is_own txn) rs ≡ false
    → other_exclusive txn rs ≡ false
    → count is_writer rs ≡ 0
writers_of_absent txn [] a o = refl
writers_of_absent txn (e ∷ rs) a o = ground (arith, writers_of_absent txn rs)

-- With no exclusive lock granted to others, the only writer can be the own request.
pub count-writers :
    (txn : ℕ) (rs : List LockRequest) (r : LockRequest)
    → IsUnique rs
    → find_request txn rs ≡ some r
    → other_exclusive txn rs ≡ false
    → count is_writer rs ≡ one_if (is_writer r)
unfolding find_request
count-writers txn [] r u h o = cc
count-writers txn (e ∷ rs) r u h o =
    ground (arith, count-writers txn rs r, writers_of_absent txn rs)

-- A release takes no granted request to the rest, and loses the own ones.
pub count-others :
    (p : LockRequest → Bool) (txn : ℕ) (rs : List LockRequest)
    → count p rs ≡ count (λ r. is_own txn r && p r) rs + count p (others txn rs)
count-others p txn [] = omega arith
count-others p txn (r ∷ rs) = ground (arith, count-others p txn rs)

none_granted :
    (rs : List LockRequest) (txn : ℕ) → count (λ e. e.granted) rs ≤ 0 → other_granted txn rs ≡ false
none_granted [] txn h = refl
none_granted (e ∷ rs) txn h = ground (arith, none_granted rs txn)

granted_positive :
    (txn : ℕ) (rs : List LockRequest) (r : LockRequest)
    → find_request txn rs ≡ some r
    → r.granted ≡ true
    → 1 ≤ count (λ e. e.granted) rs
unfolding find_request
granted_positive txn [] r h g = cc
granted_positive txn (e ∷ rs) r h g = ground (arith, granted_positive txn rs r)

-- Two requests that both count make two, so that a count of one singles one out.
pub other_granted_of_count :
    (txn : ℕ) (rs : List LockRequest) (r : LockRequest)
    → find_request txn rs ≡ some r
    → r.granted ≡ true
    → count (λ e. e.granted) rs ≤ 1
    → other_granted txn rs ≡ false
unfolding find_request
other_granted_of_count txn [] r h g c = refl
other_granted_of_count txn (e ∷ rs) r h g c =
    ground (arith, other_granted_of_count txn rs r, none_granted rs txn, granted_positive txn rs r)

pub writer-positive :
    (txn : ℕ) (rs : List LockRequest) (r : LockRequest)
    → find_request txn rs ≡ some r
    → is_writer r ≡ true
    → 1 ≤ count is_writer rs
unfolding find_request
writer-positive txn [] r h g = cc
writer-positive txn (e ∷ rs) r h g = ground (arith, writer-positive txn rs r)
