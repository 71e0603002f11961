-- ===== src/Record/Bitmap/Laws.antt =====
-- The bits of a page's bitmap: reading after a write, and the search for a bit.
use cscc_db_rucbase.Common.{
  ℕ, zero, suc, ◌+◌, ◌-◌, ◌*◌, ◌/◌, ◌%◌, ◌≤◌, ◌<◌, Bool, true, false, not, List, [], ◌∷◌, ltb, ◌==◌,
  set, with_bit, without_bit, ◌&&◌, ◌||◌, ◌≡◌, ◌≢◌, refl, ap, arith, length, length-set, All,
  has_bit-with_bit, with_bit_bounds, has_bit-without_bit, without_bit_bounds, has_bit-zero,
  Bool-cases, inl, inr, subst,
}
use cscc_db_rucbase.Gap.Compare.{byte_at}
use cscc_db_rucbase.Record.Bitmap.{init, set_bit, reset, is_set, bool_eq, next_from, next_bit}

abbrev pub IsBytes : List ℕ → Type 0
IsBytes bm = All (λ b. b < 256) bm

byte_at-set_self : (bm : List ℕ) (i v : ℕ) → i < length bm → byte_at (set bm i v) i ≡ v
byte_at-set_self [] i v h = absurd (omega arith)
byte_at-set_self (b ∷ bm) zero v h = refl
byte_at-set_self (b ∷ bm) (suc i) v h = byte_at-set_self bm i v (omega arith)

byte_at-set_ne : (bm : List ℕ) (i j v : ℕ) → i ≢ j → byte_at (set bm i v) j ≡ byte_at bm j
byte_at-set_ne [] i j v h = refl
byte_at-set_ne (b ∷ bm) zero zero v h = absurd (h refl)
byte_at-set_ne (b ∷ bm) zero (suc j) v h = refl
byte_at-set_ne (b ∷ bm) (suc i) zero v h = refl
byte_at-set_ne (b ∷ bm) (suc i) (suc j) v h = byte_at-set_ne bm i j v (λ e. h (ap suc e))

byte_at_bounds : (bm : List ℕ) (i : ℕ) → IsBytes bm → byte_at bm i < 256
byte_at_bounds [] i h = omega arith
byte_at_bounds (b ∷ bm) zero h = h.0
byte_at_bounds (b ∷ bm) (suc i) h = byte_at_bounds bm i h.1

set-IsBytes : (bm : List ℕ) (i v : ℕ) → IsBytes bm → v < 256 → IsBytes (set bm i v)
set-IsBytes [] i v h hv = tt
set-IsBytes (b ∷ bm) zero v h hv = (hv, h.1)
set-IsBytes (b ∷ bm) (suc i) v h hv = (h.0, set-IsBytes bm i v h.1 hv)

byte_at-init : (n i : ℕ) → byte_at (init n) i ≡ 0
unfolding init
byte_at-init zero i = refl
byte_at-init (suc n) zero = refl
byte_at-init (suc n) (suc i) = byte_at-init n i

pub init-IsBytes : (n : ℕ) → IsBytes (init n)
unfolding init
init-IsBytes zero = tt
init-IsBytes (suc n) = (omega arith, init-IsBytes n)

pub length-init : (n : ℕ) → length (init n) ≡ n
unfolding init
length-init zero = refl
length-init (suc n) = ap suc (length-init n)

pub is_set-init : (n pos : ℕ) → is_set (init n) pos ≡ false
unfolding is_set
is_set-init n pos = rw (byte_at-init n (pos / 8)) (has_bit-zero (pos % 8))

module _ (bm : List ℕ) (pos : ℕ) where
  pub set_bit-IsBytes : IsBytes bm → IsBytes (set_bit bm pos)
  unfolding set_bit
  set_bit-IsBytes h =
      set-IsBytes bm _ _ h (with_bit_bounds _ _ (byte_at_bounds bm _ h) (omega arith))

  pub reset-IsBytes : IsBytes bm → IsBytes (reset bm pos)
  unfolding reset
  reset-IsBytes h =
      set-IsBytes bm _ _ h (without_bit_bounds _ _ (byte_at_bounds bm _ h) (omega arith))

  pub length-set_bit : length (set_bit bm pos) ≡ length bm
  unfolding set_bit
  length-set_bit = length-set bm _ _

  pub length-reset : length (reset bm pos) ≡ length bm
  unfolding reset
  length-reset = length-set bm _ _

  -- After `set`, a bit is set exactly when it is the one set or was set before.
  pub is_set-set_bit :
      (q : ℕ)
      → IsBytes bm
      → pos < 8 * length bm
      → is_set (set_bit bm pos) q ≡ ((pos == q) || is_set bm q)
  unfolding is_set set_bit
  is_set-set_bit q h room = elim (Bool-cases (pos / 8 == q / 8)) [
    | inl here ↦
        let e : pos / 8 ≡ q / 8 = ground arith in
        rw (← e) (
          rw
            (byte_at-set_self bm (pos / 8) (with_bit (byte_at bm (pos / 8)) (pos % 8))
              (omega arith))
            (ground (
              arith,
              has_bit-with_bit (byte_at bm (pos / 8)) (pos % 8) (q % 8)
                  (byte_at_bounds bm (pos / 8) h) (omega arith) (omega arith),
            )))
    | inr there ↦
        let ne : pos / 8 ≢ q / 8 = ground arith in
        rw (byte_at-set_ne bm (pos / 8) (q / 8) (with_bit (byte_at bm (pos / 8)) (pos % 8)) ne)
          (ground arith)
  ]

  -- After `reset`, a bit is set exactly when it was and is not the one reset.
  pub is_set-reset :
      (q : ℕ)
      → IsBytes bm
      → pos < 8 * length bm
      → is_set (reset bm pos) q ≡ (not (pos == q) && is_set bm q)
  unfolding is_set reset
  is_set-reset q h room = elim (Bool-cases (pos / 8 == q / 8)) [
    | inl here ↦
        let e : pos / 8 ≡ q / 8 = ground arith in
        rw (← e) (
          rw
            (byte_at-set_self bm (pos / 8) (without_bit (byte_at bm (pos / 8)) (pos % 8))
              (omega arith))
            (ground (
              arith,
              has_bit-without_bit (byte_at bm (pos / 8)) (pos % 8) (q % 8)
                  (byte_at_bounds bm (pos / 8) h) (omega arith) (omega arith),
            )))
    | inr there ↦
        let ne : pos / 8 ≢ q / 8 = ground arith in
        rw (byte_at-set_ne bm (pos / 8) (q / 8) (without_bit (byte_at bm (pos / 8)) (pos % 8)) ne)
          (ground arith)
  ]

-- What a search from i up to n may answer: n when no position has the bit, else the first that has.
pub record IsNext (bit : Bool) (bm : List ℕ) (n i r : ℕ) : Type 0 where
  pub from_start : i ≤ r
  pub to_end : r ≤ n
  pub hit : r < n → is_set bm r ≡ bit
  pub skipped : (j : ℕ) → i ≤ j → j < r → is_set bm j ≢ bit

bool_eq-eq : (a b : Bool) → bool_eq a b ≡ true → a ≡ b
bool_eq-eq true true h = refl
bool_eq-eq true false h = cc
bool_eq-eq false true h = cc
bool_eq-eq false false h = refl

bool_eq-ne : (a b : Bool) → bool_eq a b ≡ false → a ≢ b
bool_eq-ne true true h = λ e. cc
bool_eq-ne true false h = λ e. cc
bool_eq-ne false true h = λ e. cc
bool_eq-ne false false h = λ e. cc

next_from-IsNext :
    (bit : Bool) (bm : List ℕ) (rounds i : ℕ)
    → IsNext bit bm (i + rounds) i (next_from bit bm rounds i)
unfolding next_from
next_from-IsNext bit bm zero i = record {
  from_start = omega arith;
  to_end = omega arith;
  hit = λ h. absurd (omega arith);
  skipped = λ j a b. absurd (omega arith);
}
next_from-IsNext bit bm (suc rounds) i = elim (Bool-cases (bool_eq (is_set bm i) bit)) [
  | inl found ↦ rw found (record {
    from_start = omega arith;
    to_end = omega arith;
    hit = λ h. bool_eq-eq (is_set bm i) bit found;
    skipped = λ j a b. absurd (omega arith);
  })
  | inr miss ↦
      let r = next_from-IsNext bit bm rounds (suc i) in
      rw miss (record {
        from_start = omega (arith, r.from_start);
        to_end = omega (arith, r.to_end);
        hit = λ h. r.hit (omega arith);
        skipped = λ j a b. elim (Bool-cases (i == j)) [
          | inl here ↦ let e : i ≡ j = ground arith in rw (← e) (bool_eq-ne (is_set bm i) bit miss)
          | inr later ↦ r.skipped j (ground arith) b
        ];
      })
]

-- next_bit, from a position that is at most the end: its answer is the first position from there on
-- whose bit is the one asked for, or the end if no position before it has that bit.
pub next_bit-IsNext :
    (bit : Bool) (bm : List ℕ) (max_n i : ℕ)
    → i ≤ max_n
    → IsNext bit bm max_n i (next_bit bit bm max_n i)
unfolding next_bit
next_bit-IsNext bit bm max_n i h = elim (Bool-cases (ltb i max_n)) [
  | inl inside ↦
      let e : i + (max_n - i) ≡ max_n = omega arith in
      rw inside (
        subst (λ n. IsNext bit bm n i (next_from bit bm (max_n - i) i)) e
          (next_from-IsNext bit bm (max_n - i) i))
  | inr past ↦
      let e : i ≡ max_n = ground arith in
      rw past (record {
        from_start = h;
        to_end = omega arith;
        hit = λ k. absurd (omega arith);
        skipped = λ j a b. absurd (omega arith);
      })
]
