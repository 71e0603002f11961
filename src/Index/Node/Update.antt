-- ===== src/Index/Node/Update.antt =====
-- A plain search through the entries of a node, and what an entry put in or taken out does to it and
-- to the keys.
use Prim.Native.Nat.{Ordering}
use cscc_db_rucbase.Common.{
  ℕ, zero, suc, ◌≤◌, ◌<◌, true, false, List, [], ◌∷◌, ◌≡◌, ◌≢◌, refl, ap, arith, length, Option,
  none, some, if◌then◌else◌,
}
use cscc_db_rucbase.Transaction.LockDataId.{Rid}
use cscc_db_rucbase.Gap.Compare.{is_eq}
use cscc_db_rucbase.Index.Node.{Key, Entry, key_at, rid_at, insert_pairs, erase_pair}

-- The first entry whose key compares equal.
unfoldable pub entry_of : (Key → Key → Ordering) → Key → List Entry → Option Rid
entry_of cmp q [] = none
entry_of cmp q ((k, r) ∷ es) = if is_eq (cmp q k) then some r else entry_of cmp q es

pub is_eq_lem : (o : Ordering) → is_eq o ≡ true → o ≡ Ordering.eq
is_eq_lem Ordering.lt h = cc
is_eq_lem Ordering.eq h = refl
is_eq_lem Ordering.gt h = cc

is_eq_ne : (o : Ordering) → o ≢ Ordering.eq → is_eq o ≡ false
is_eq_ne Ordering.lt h = refl
is_eq_ne Ordering.eq h = absurd (h refl)
is_eq_ne Ordering.gt h = refl

pub lt_of_rest : (o : Ordering) → o ≢ Ordering.gt → is_eq o ≡ false → o ≡ Ordering.lt
lt_of_rest Ordering.lt h e = refl
lt_of_rest Ordering.eq h e = cc
lt_of_rest Ordering.gt h e = absurd (h refl)

pub gt_ne : (o : Ordering) → o ≡ Ordering.gt → o ≢ Ordering.eq
gt_ne o h = λ e. cc

pub lt_ne : (o : Ordering) → o ≡ Ordering.lt → o ≢ Ordering.eq
lt_ne o h = λ e. cc

module _ (cmp : Key → Key → Ordering) (q : Key) where
  pub entry_of_found :
      (es : List Entry) (i : ℕ)
      → ((j : ℕ) → j < i → cmp q (key_at es j) ≢ Ordering.eq)
      → i < length es
      → cmp q (key_at es i) ≡ Ordering.eq
      → entry_of cmp q es ≡ some (rid_at es i)
  unfolding entry_of key_at rid_at
  entry_of_found [] i before inside here = absurd (omega arith)
  entry_of_found ((k, r) ∷ es) zero before inside here = rw here refl
  entry_of_found ((k, r) ∷ es) (suc i) before inside here =
      let first = is_eq_ne _ (before 0 (omega arith)) in
      rw first (entry_of_found es i (λ j h. before (suc j) (omega arith)) (omega arith) here)

  pub entry_of-none :
      (es : List Entry)
      → ((j : ℕ) → j < length es → cmp q (key_at es j) ≢ Ordering.eq)
      → entry_of cmp q es ≡ none
  unfolding entry_of key_at
  entry_of-none [] all = refl
  entry_of-none ((k, r) ∷ es) all =
      rw (is_eq_ne _ (all 0 (omega arith))) (entry_of-none es (λ j h. all (suc j) (omega arith)))

-- One entry put in at a position, and one taken out.
pub insert_at : ℕ → Entry → List Entry → List Entry
insert_at zero e es = e ∷ es
insert_at (suc i) e [] = e ∷ []
insert_at (suc i) e (x ∷ es) = x ∷ insert_at i e es

pub erase_at : ℕ → List Entry → List Entry
erase_at i [] = []
erase_at zero (x ∷ es) = es
erase_at (suc i) (x ∷ es) = x ∷ erase_at i es

pub insert_pairs-insert_at :
    (i : ℕ) (e : Entry) (es : List Entry)
    → i ≤ length es
    → insert_pairs i (e ∷ []) es ≡ some (insert_at i e es)
unfolding insert_pairs insert_at
insert_pairs-insert_at zero e es h = refl
insert_pairs-insert_at (suc i) e [] h = absurd (omega arith)
insert_pairs-insert_at (suc i) e (x ∷ es) h = rw (insert_pairs-insert_at i e es (omega arith)) refl

pub erase_pair-erase_at :
    (i : ℕ) (es : List Entry) → i < length es → erase_pair i es ≡ some (erase_at i es)
unfolding erase_pair erase_at
erase_pair-erase_at i [] h = absurd (omega arith)
erase_pair-erase_at zero (x ∷ es) h = refl
erase_pair-erase_at (suc i) (x ∷ es) h = rw (erase_pair-erase_at i es (omega arith)) refl

pub length-insert_at :
    (i : ℕ) (e : Entry) (es : List Entry) → length (insert_at i e es) ≡ suc (length es)
unfolding insert_at
length-insert_at zero e es = refl
length-insert_at (suc i) e [] = refl
length-insert_at (suc i) e (x ∷ es) = ap suc (length-insert_at i e es)

pub length-erase_at :
    (i : ℕ) (es : List Entry) → i < length es → suc (length (erase_at i es)) ≡ length es
unfolding erase_at
length-erase_at i [] h = absurd (omega arith)
length-erase_at zero (x ∷ es) h = refl
length-erase_at (suc i) (x ∷ es) h = ap suc (length-erase_at i es (omega arith))

-- The keys of the new list, by those of the old one.
pub insert_at_low :
    (i : ℕ) (e : Entry) (es : List Entry) (j : ℕ)
    → i ≤ length es
    → j < i
    → key_at (insert_at i e es) j ≡ key_at es j
unfolding insert_at key_at
insert_at_low zero e es j h lt = absurd (omega arith)
insert_at_low (suc i) e [] j h lt = absurd (omega arith)
insert_at_low (suc i) e (x ∷ es) zero h lt = refl
insert_at_low (suc i) e (x ∷ es) (suc j) h lt = insert_at_low i e es j (omega arith) (omega arith)

pub insert_at_mid :
    (i : ℕ) (e : Entry) (es : List Entry) → i ≤ length es → key_at (insert_at i e es) i ≡ e.0
unfolding insert_at key_at
insert_at_mid zero e es h = refl
insert_at_mid (suc i) e [] h = absurd (omega arith)
insert_at_mid (suc i) e (x ∷ es) h = insert_at_mid i e es (omega arith)

pub insert_at_high :
    (i : ℕ) (e : Entry) (es : List Entry) (j : ℕ)
    → i ≤ length es
    → i ≤ j
    → key_at (insert_at i e es) (suc j) ≡ key_at es j
unfolding insert_at key_at
insert_at_high zero e es j h le = refl
insert_at_high (suc i) e [] j h le = absurd (omega arith)
insert_at_high (suc i) e (x ∷ es) zero h le = absurd (omega arith)
insert_at_high (suc i) e (x ∷ es) (suc j) h le = insert_at_high i e es j (omega arith) (omega arith)

pub erase_at_low :
    (i : ℕ) (es : List Entry) (j : ℕ) → j < i → key_at (erase_at i es) j ≡ key_at es j
unfolding erase_at key_at
erase_at_low i [] j lt = refl
erase_at_low zero (x ∷ es) j lt = absurd (omega arith)
erase_at_low (suc i) (x ∷ es) zero lt = refl
erase_at_low (suc i) (x ∷ es) (suc j) lt = erase_at_low i es j (omega arith)

pub erase_at_high :
    (i : ℕ) (es : List Entry) (j : ℕ) → i ≤ j → key_at (erase_at i es) j ≡ key_at es (suc j)
unfolding erase_at key_at
erase_at_high i [] j le = refl
erase_at_high zero (x ∷ es) j le = refl
erase_at_high (suc i) (x ∷ es) zero le = absurd (omega arith)
erase_at_high (suc i) (x ∷ es) (suc j) le = erase_at_high i es j (omega arith)

-- Other keys find what they found.
pub entry_of-insert_at :
    (cmp : Key → Key → Ordering) (q : Key) (i : ℕ) (e : Entry) (es : List Entry)
    → cmp q e.0 ≢ Ordering.eq
    → entry_of cmp q (insert_at i e es) ≡ entry_of cmp q es
unfolding entry_of insert_at
entry_of-insert_at cmp q zero (k, r) es ne = rw (is_eq_ne _ ne) refl
entry_of-insert_at cmp q (suc i) (k, r) [] ne = rw (is_eq_ne _ ne) refl
entry_of-insert_at cmp q (suc i) e ((k, r) ∷ es) ne = rw (entry_of-insert_at cmp q i e es ne) refl

pub entry_of-erase_at :
    (cmp : Key → Key → Ordering) (q : Key) (i : ℕ) (es : List Entry)
    → cmp q (key_at es i) ≢ Ordering.eq
    → entry_of cmp q (erase_at i es) ≡ entry_of cmp q es
unfolding entry_of erase_at key_at
entry_of-erase_at cmp q i [] ne = refl
entry_of-erase_at cmp q zero ((k, r) ∷ es) ne = rw (is_eq_ne _ ne) refl
entry_of-erase_at cmp q (suc i) ((k, r) ∷ es) ne = rw (entry_of-erase_at cmp q i es ne) refl

pub insert_at_rid :
    (i : ℕ) (e : Entry) (es : List Entry) → i ≤ length es → rid_at (insert_at i e es) i ≡ e.1
unfolding insert_at rid_at
insert_at_rid zero (k, r) es h = refl
insert_at_rid (suc i) e [] h = absurd (omega arith)
insert_at_rid (suc i) e ((k, r) ∷ es) h = insert_at_rid i e es (omega arith)
