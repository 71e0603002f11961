-- ===== src/LockManager/Exclusion/Invariant.antt =====
-- What holds of a table's queue, and of who sleeps in it, as long as only shared and exclusive locks
-- are asked for.
use cscc_db_rucbase.Common.{
  ℕ, ◌≤◌, ◌<◌, ◌≡◌, ◌⊎◌, ◌∙◌, sym, subst, inl, inr, Bool-cases, Bool, true, false, ◌||◌, List, [],
  ◌∷◌, Option, none, some, ◌==◌, if◌then◌else◌, any, All, pos, pos_part, arith,
}
use cscc_db_rucbase.LockManager.Queue.{
  LockRequest, LockRequestQueue, GroupLockMode, shared, exclusive, is_mode, mode_rank, group_rank,
  is_own, find_request, update_first,
}
use cscc_db_rucbase.LockManager.Steps.{Kind, shared_table, exclusive_table}
use cscc_db_rucbase.LockManager.Readers.{count, is_writer, is_reader, IsUnique}

abbrev pub on_table : Kind → Bool
on_table shared_table = true
on_table exclusive_table = true
on_table _ = false

-- A granted request counts with its mode, a waiting one as the weakest.
abbrev pub weight : LockRequest → ℕ
weight r = if r.granted then mode_rank r.lock_mode else 0

-- What holds of each request on its own.
pub record Regular (g : GroupLockMode) (asleep : ℕ → Option Kind) (r : LockRequest) : Type 0 where
  pub mode : (is_mode r.lock_mode shared || is_mode r.lock_mode exclusive) ≡ true
  pub covered : weight r < group_rank g
  pub awake : asleep r.txn_id ≡ none → r.granted ≡ true
  pub reads : asleep r.txn_id ≡ some shared_table → r.lock_mode ≡ shared
  pub writes : asleep r.txn_id ≡ some exclusive_table → r.lock_mode ≡ exclusive

pub record TableInv (q : LockRequestQueue) (asleep : ℕ → Option Kind) : Type 0 where
  pub unique : IsUnique q.request_queue
  pub regular : All (Regular q.group_lock_mode asleep) q.request_queue
  pub natural : q.shared_lock_num ≡ pos (pos_part q.shared_lock_num)
  pub counted : count is_reader q.request_queue ≤ pos_part q.shared_lock_num
  pub alone : (count is_writer q.request_queue ≡ 0) ⊎ (count (λ r. r.granted) q.request_queue ≤ 1)

find-own :
    (txn : ℕ) (e : LockRequest) (rs : List LockRequest)
    → (e.txn_id == txn) ≡ true
    → find_request txn (e ∷ rs) ≡ some e
unfolding find_request
find-own txn e rs h = simp h

find-other :
    (txn : ℕ) (e : LockRequest) (rs : List LockRequest)
    → (e.txn_id == txn) ≡ false
    → find_request txn (e ∷ rs) ≡ find_request txn rs
unfolding find_request
find-other txn e rs h = simp h

update_first-own :
    (txn : ℕ) (f : LockRequest → LockRequest) (e : LockRequest) (rs : List LockRequest)
    → (e.txn_id == txn) ≡ true
    → update_first txn f (e ∷ rs) ≡ f e ∷ rs
unfolding update_first
update_first-own txn f e rs h = simp h

update_first-other :
    (txn : ℕ) (f : LockRequest → LockRequest) (e : LockRequest) (rs : List LockRequest)
    → (e.txn_id == txn) ≡ false
    → update_first txn f (e ∷ rs) ≡ e ∷ update_first txn f rs
unfolding update_first
update_first-other txn f e rs h = simp h

own_absent :
    (txn : ℕ) (e : LockRequest) (rs : List LockRequest)
    → (e.txn_id == txn) ≡ true
    → any (is_own e.txn_id) rs ≡ false
    → any (is_own txn) rs ≡ false
own_absent txn e rs h n =
    let same : e.txn_id ≡ txn = ground arith in subst (λ t. any (is_own t) rs ≡ false) same n

module _ {ℓ} (P : LockRequest → Type ℓ) where
  pub All-update_first :
      (txn : ℕ) (f : LockRequest → LockRequest) (rs : List LockRequest)
      → All P rs
      → ((r : LockRequest) → find_request txn rs ≡ some r → P (f r))
      → All P (update_first txn f rs)
  unfolding update_first
  All-update_first txn f [] a h = tt
  All-update_first txn f (e ∷ rs) a h = elim (Bool-cases (e.txn_id == txn)) [
    | inl own ↦ rw (update_first-own txn f e rs own) (h e (find-own txn e rs own), a.1)
    | inr other ↦
        rw (update_first-other txn f e rs other)
          (a.0, All-update_first txn f rs a.1 (λ r g. h r (find-other txn e rs other ∙ g)))
  ]

  pub All-find :
      (txn : ℕ) (rs : List LockRequest) (r : LockRequest)
      → All P rs
      → find_request txn rs ≡ some r
      → P r × (r.txn_id ≡ txn)
  unfolding find_request
  All-find txn [] r a h = cc
  All-find txn (e ∷ rs) r a h = elim (Bool-cases (e.txn_id == txn)) [
    | inl own ↦ let same : e ≡ r = cc (find-own txn e rs own) in (subst P same a.0, ground arith)
    | inr other ↦ All-find txn rs r a.1 (sym (find-other txn e rs other) ∙ h)
  ]

module _ {ℓ κ} (P : LockRequest → Type ℓ) (Q : LockRequest → Type κ) (txn : ℕ)
    (others_keep : (r : LockRequest) → P r → (r.txn_id == txn) ≡ false → Q r) where
  pub All-absent : (rs : List LockRequest) → any (is_own txn) rs ≡ false → All P rs → All Q rs
  All-absent [] n a = tt
  All-absent (e ∷ rs) n a = (others_keep e a.0 (ground arith), All-absent rs (ground arith) a.1)

  -- In a queue with one request a transaction, an update touches the own request only.
  pub All-update_first_to :
      (f : LockRequest → LockRequest) (rs : List LockRequest)
      → IsUnique rs
      → All P rs
      → ((r : LockRequest) → P r → (r.txn_id == txn) ≡ true → Q (f r))
      → All Q (update_first txn f rs)
  unfolding update_first
  All-update_first_to f [] u a h = tt
  All-update_first_to f (e ∷ rs) u a h = elim (Bool-cases (e.txn_id == txn)) [
    | inl own ↦
        rw (update_first-own txn f e rs own)
          (h e a.0 own, All-absent rs (own_absent txn e rs own u.0) a.1)
    | inr other ↦
        rw (update_first-other txn f e rs other)
          (others_keep e a.0 other, All-update_first_to f rs u.1 a.1 h)
  ]
