-- ===== src/LockManager/Release/Spec.antt =====
-- What `unlock` does to a queue, without its loops: the requests of the transaction go, all others
-- stay in order, and the mode and counters are those of what is left.
use native.Mathlib.Nat.{zero-add, suc-add}
use cscc_db_rucbase.Common.{
  ℕ, zero, suc, ◌+◌, ◌≤◌, ◌<◌, ◌≡◌, refl, ◌≢◌, subst, All-imp, ◌⊎◌, ◌∙◌, sym, Bool, true, false,
  ◌&&◌, List, [], ◌∷◌, Option, none, some, ◌==◌, if◌then◌else◌, length, All, any, dec, ℤ, arith,
  Option-cases, inl, inr,
}
use cscc_db_rucbase.LockManager.Queue.{
  LockMode, LockRequest, LockRequestQueue, intention_shared, find_request, mode_rank, group_rank,
  group_of, mode_max,
}
use cscc_db_rucbase.LockManager.Release.{
  erase_first, counts_shared, counts_ix, drop_request, drop_requests, strongest_mode, refresh,
  settle, unlock_queue,
}

-- The requests of all other transactions.
abbrev pub others : ℕ → List LockRequest → List LockRequest
others txn [] = []
others txn (r ∷ rs) = if r.txn_id == txn then others txn rs else r ∷ others txn rs

-- How many requests of the transaction a counter counts.
abbrev pub count_own : (LockMode → Bool) → ℕ → List LockRequest → ℕ
count_own counts txn [] = 0
count_own counts txn (r ∷ rs) =
    (if (r.txn_id == txn) && counts r.lock_mode then 1 else 0) + count_own counts txn rs

abbrev pub dec_by : ℕ → ℤ → ℤ
dec_by zero n = n
dec_by (suc k) n = dec_by k (dec n)

others_of_none : (txn : ℕ) (rs : List LockRequest) → find_request txn rs ≡ none → others txn rs ≡ rs
unfolding find_request
others_of_none txn [] h = refl
others_of_none txn (r ∷ rs) h = ground (arith, others_of_none txn rs)

count_own_of_none :
    (counts : LockMode → Bool) (txn : ℕ) (rs : List LockRequest)
    → find_request txn rs ≡ none
    → count_own counts txn rs ≡ 0
unfolding find_request
count_own_of_none counts txn [] h = refl
count_own_of_none counts txn (r ∷ rs) h = ground (arith, count_own_of_none counts txn rs)

others_of_length : (txn : ℕ) (rs : List LockRequest) → length rs ≤ 0 → others txn rs ≡ rs
others_of_length txn [] h = refl
others_of_length txn (r ∷ rs) h = absurd (omega arith)

others-erase_first :
    (txn : ℕ) (rs : List LockRequest) → others txn (erase_first txn rs) ≡ others txn rs
unfolding erase_first
others-erase_first txn [] = refl
others-erase_first txn (r ∷ rs) = ground (arith, others-erase_first txn rs)

length-erase_first :
    (txn : ℕ) (rs : List LockRequest) (r : LockRequest)
    → find_request txn rs ≡ some r
    → suc (length (erase_first txn rs)) ≡ length rs
unfolding erase_first find_request
length-erase_first txn [] r h = cc
length-erase_first txn (e ∷ rs) r h = ground (arith, length-erase_first txn rs r)

count_own_of_length :
    (counts : LockMode → Bool) (txn : ℕ) (rs : List LockRequest)
    → length rs ≤ 0
    → count_own counts txn rs ≡ 0
count_own_of_length counts txn [] h = refl
count_own_of_length counts txn (r ∷ rs) h = absurd (omega arith)

count_own-erase_first :
    (counts : LockMode → Bool) (txn : ℕ) (rs : List LockRequest) (r : LockRequest)
    → find_request txn rs ≡ some r
    → count_own counts txn rs
      ≡ (if counts r.lock_mode then 1 else 0) + count_own counts txn (erase_first txn rs)
unfolding erase_first find_request
count_own-erase_first counts txn [] r h = cc
count_own-erase_first counts txn (e ∷ rs) r h =
    ground (arith, count_own-erase_first counts txn rs r)

-- The loop of unlock, on at least as much fuel as the queue has requests, ends with the requests of
-- the other transactions, in their order.
pub drop_requests-others :
    (fuel txn : ℕ) (q : LockRequestQueue)
    → length q.request_queue ≤ fuel
    → (drop_requests fuel txn q).request_queue ≡ others txn q.request_queue
unfolding drop_requests
drop_requests-others zero txn q h = sym (others_of_length txn q.request_queue h)
drop_requests-others (suc fuel) txn q h = elim (Option-cases (find_request txn q.request_queue)) [
  | inl e ↦ rw (e, drop_requests) (sym (others_of_none txn q.request_queue e))
  | inr (r, e) ↦
      rw (e, drop_requests)
        (drop_requests-others fuel txn (drop_request txn r q)
            (omega (arith, length-erase_first txn q.request_queue r e))
          ∙ others-erase_first txn q.request_queue)
]

-- The counters fall by the requests of the transaction that they count.
dec_by_add : (j k : ℕ) (n : ℤ) → dec_by (j + k) n ≡ dec_by k (dec_by j n)
dec_by_add zero k n = rw zero-add
dec_by_add (suc j) k n = rw suc-add (dec_by_add j k (dec n))

dec_by-if :
    (b : Bool) (k : ℕ) (n : ℤ)
    → dec_by k (if b then dec n else n) ≡ dec_by ((if b then 1 else 0) + k) n
dec_by-if true k n = sym (dec_by_add 1 k n)
dec_by-if false k n = rw zero-add

module _ (counts : LockMode → Bool) (counter : LockRequestQueue → ℤ)
    (drops : (txn : ℕ) (r : LockRequest) (q : LockRequestQueue)
      → counter (drop_request txn r q)
        ≡ (if counts r.lock_mode then dec (counter q) else counter q)) where
  pub drop_requests-counter :
      (fuel txn : ℕ) (q : LockRequestQueue)
      → length q.request_queue ≤ fuel
      → counter (drop_requests fuel txn q)
        ≡ dec_by (count_own counts txn q.request_queue) (counter q)
  unfolding drop_requests
  drop_requests-counter zero txn q h = rw (count_own_of_length counts txn q.request_queue h)
  drop_requests-counter (suc fuel) txn q h =
      elim (Option-cases (find_request txn q.request_queue)) [
        | inl e ↦ rw (e, drop_requests) (rw (count_own_of_none counts txn q.request_queue e))
        | inr (r, e) ↦
            rw (e, drop_requests)
              (drop_requests-counter fuel txn (drop_request txn r q)
                  (omega (arith, length-erase_first txn q.request_queue r e))
                ∙ rw (drops txn r q, count_own-erase_first counts txn q.request_queue r e)
                    (dec_by-if (counts r.lock_mode) _ (counter q)))
      ]

-- Whether some request of the list has the mode that the group mode stands for.
abbrev pub has_mode : LockMode → List LockRequest → Bool
has_mode m rs = any (λ r. mode_rank r.lock_mode == mode_rank m) rs

strongest_mode-le :
    (m : LockMode) (rs : List LockRequest)
    → (mode_rank m ≤ mode_rank (strongest_mode m rs))
      × All (λ r. mode_rank r.lock_mode ≤ mode_rank (strongest_mode m rs)) rs
unfolding strongest_mode
strongest_mode-le m [] = (omega arith, tt)
strongest_mode-le m (r ∷ rs) =
    let (le, all) = strongest_mode-le (mode_max m r.lock_mode) rs in
    (ground (arith, le), (ground (arith, le), all))

strongest_mode-attained :
    (m : LockMode) (rs : List LockRequest)
    → (strongest_mode m rs ≡ m) ⊎ (has_mode (strongest_mode m rs) rs ≡ true)
unfolding strongest_mode
strongest_mode-attained m [] = inl refl
strongest_mode-attained m (r ∷ rs) =
    ground (arith, strongest_mode-attained (mode_max m r.lock_mode) rs)

-- The fields of a queue after a release, from the requests that are left.
pub record Released (txn : ℕ) (q q' : LockRequestQueue) : Type 0 where
  pub left : q'.request_queue ≡ others txn q.request_queue
  pub shared :
      q'.shared_lock_num ≡ dec_by (count_own counts_shared txn q.request_queue) q.shared_lock_num
  pub ix : q'.ix_lock_num ≡ dec_by (count_own counts_ix txn q.request_queue) q.ix_lock_num
  pub strong : All (λ r. mode_rank r.lock_mode < group_rank q'.group_lock_mode) q'.request_queue
  pub tight :
      any (λ r. suc (mode_rank r.lock_mode) == group_rank q'.group_lock_mode) q'.request_queue
      ≡ true

-- Of a list that is not empty, the strongest mode is that of one of its requests.
strongest_mode-tight :
    (r : LockRequest) (rs : List LockRequest)
    → has_mode (strongest_mode intention_shared (r ∷ rs)) (r ∷ rs) ≡ true
unfolding strongest_mode
strongest_mode-tight r rs = ground (
  arith,
  strongest_mode-attained (mode_max intention_shared r.lock_mode) rs,
  (strongest_mode-le (mode_max intention_shared r.lock_mode) rs).0,
)

group_rank-group_of : (m : LockMode) → group_rank (group_of m) ≡ suc (mode_rank m)
group_rank-group_of m = ground arith

any-cong :
    (p p' : LockRequest → Bool)
    → ((r : LockRequest) → p r ≡ p' r)
    → (rs : List LockRequest) → any p rs ≡ any p' rs
any-cong p p' h [] = refl
any-cong p p' h (r ∷ rs) = rw (h r, any-cong p p' h rs)

tight-list :
    (rs : List LockRequest)
    → rs ≢ []
    → any
        (λ r. suc (mode_rank r.lock_mode) == suc (mode_rank (strongest_mode intention_shared rs)))
        rs
      ≡ true
tight-list [] h = absurd (h refl)
tight-list (r ∷ rs) h =
    any-cong
      (λ e.
        suc (mode_rank e.lock_mode) == suc (mode_rank (strongest_mode intention_shared (r ∷ rs))))
      (λ e. mode_rank e.lock_mode == mode_rank (strongest_mode intention_shared (r ∷ rs)))
      (λ e. ground arith) (r ∷ rs)
    ∙ strongest_mode-tight r rs

-- What is left of a queue: nothing, if the transaction has all requests of it, and otherwise a queue
-- that has lost exactly them.
abbrev pub Unlocked : ℕ → LockRequestQueue → List LockRequest → Option LockRequestQueue → Type 0
Unlocked txn q [] left = left ≡ none
Unlocked txn q (r ∷ rs) left = (q' : LockRequestQueue) × (left ≡ some q') × Released txn q q'

pub Unlocked-Released :
    (txn : ℕ) (q q' : LockRequestQueue) (rs : List LockRequest) {left : Option LockRequestQueue}
    → Unlocked txn q rs left
    → left ≡ some q'
    → Released txn q q'
Unlocked-Released txn q q' [] u h = let w : none ≡ some q' = sym u ∙ h in cc
Unlocked-Released txn q q' (r ∷ rs) (p, e, kept) h =
    let same : p ≡ q' = cc in subst (Released txn q) same kept

module _ (txn : ℕ) (q p : LockRequestQueue) (left : p.request_queue ≡ others txn q.request_queue)
    (sh : p.shared_lock_num
      ≡ dec_by (count_own counts_shared txn q.request_queue) q.shared_lock_num)
    (ix : p.ix_lock_num ≡ dec_by (count_own counts_ix txn q.request_queue) q.ix_lock_num) where
  refresh-Released : p.request_queue ≢ [] → Released txn q (refresh p)
  unfolding refresh
  refresh-Released ne = record {
    left = left;
    shared = sh;
    ix = ix;
    strong =
        All-imp _ _
          (λ r le.
            omega
              (arith, le, group_rank-group_of (strongest_mode intention_shared p.request_queue)))
          p.request_queue (strongest_mode-le intention_shared p.request_queue).1;
    tight = rw group_rank-group_of (tight-list p.request_queue ne);
  }

  settle-Unlocked : Unlocked txn q (others txn q.request_queue) (settle p p.request_queue)
  settle-Unlocked =
      subst (λ rs. Unlocked txn q rs (settle p p.request_queue)) left (kept p.request_queue refl)
    where
      kept : (rs : List LockRequest) → p.request_queue ≡ rs → Unlocked txn q rs (settle p rs)
      kept [] e = refl
      kept (r ∷ rs) e =
          (refresh p, refl, refresh-Released (λ d. let w : r ∷ rs ≡ [] = sym e ∙ d in cc))

-- unlock on a queue in which the transaction has a request: the queue leaves the table if no
-- request of another transaction is in it, and otherwise stays, has lost exactly the transaction's
-- requests, all others in their order, and their shares of the two counters, and its group mode is
-- that of the strongest request left.
pub unlock_queue-Released :
    (txn : ℕ) (q : LockRequestQueue) (r : LockRequest)
    → find_request txn q.request_queue ≡ some r
    → Unlocked txn q (others txn q.request_queue) (unlock_queue txn q)
unfolding unlock_queue
unlock_queue-Released txn q r found =
    rw (found, unlock_queue)
      (settle-Unlocked txn q (drop_requests (length q.request_queue) txn q)
        (drop_requests-others (length q.request_queue) txn q (omega arith))
        (drop_requests-counter counts_shared (λ c. c.shared_lock_num)
          (λ t e c. unfold drop_request in refl) (length q.request_queue) txn q (omega arith))
        (drop_requests-counter counts_ix (λ c. c.ix_lock_num) (λ t e c. unfold drop_request in refl)
          (length q.request_queue) txn q (omega arith)))

pub unlock_queue_of_none :
    (txn : ℕ) (q : LockRequestQueue)
    → find_request txn q.request_queue ≡ none
    → unlock_queue txn q ≡ some q
unfolding unlock_queue
unlock_queue_of_none txn q e = rw (e, unlock_queue) refl
