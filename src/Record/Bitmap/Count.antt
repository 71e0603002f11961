-- ===== src/Record/Bitmap/Count.antt =====
-- How many of the first bits are set, and what a write and a full page make of that.
use cscc_db_rucbase.Common.{
  ℕ, zero, suc, ◌*◌, ◌≤◌, ◌<◌, true, false, List, ltb, ◌==◌, if◌then◌else◌, ◌≡◌, ◌≢◌, refl, arith,
  length, Bool-cases, inl, inr, subst,
}
use cscc_db_rucbase.Record.Bitmap.{init, set_bit, reset, is_set, first_bit, next_bit}
use cscc_db_rucbase.Record.Bitmap.Laws.{
  IsBytes, is_set-init, is_set-set_bit, is_set-reset, next_bit-IsNext,
}

unfoldable pub count_set : List ℕ → ℕ → ℕ
count_set bm zero = 0
count_set bm (suc n) = if is_set bm n then suc (count_set bm n) else count_set bm n

pub count_set-init : (size n : ℕ) → count_set (init size) n ≡ 0
unfolding count_set
count_set-init size zero = refl
count_set-init size (suc n) = ground (arith, is_set-init size n, count_set-init size n)

pub count_set_le : (bm : List ℕ) (n : ℕ) → count_set bm n ≤ n
unfolding count_set
count_set_le bm zero = omega arith
count_set_le bm (suc n) = ground (arith, count_set_le bm n)

-- A set bit is counted.
pub count_set_pos : (bm : List ℕ) (n q : ℕ) → q < n → is_set bm q ≡ true → 0 < count_set bm n
unfolding count_set
count_set_pos bm zero q h there = absurd (omega arith)
count_set_pos bm (suc n) q h there = elim (Bool-cases (q == n)) [
  | inl last ↦
      let e : q ≡ n = ground arith in
      let set_there : is_set bm n ≡ true = subst (λ m. is_set bm m ≡ true) e there in ground arith
  | inr before ↦ ground (arith, count_set_pos bm n q (ground arith) there)
]

module _ (bm : List ℕ) (pos : ℕ) (bytes : IsBytes bm) (room : pos < 8 * length bm) where
  -- A bit past the end does not count.
  count_set-set_past : (n : ℕ) → n ≤ pos → count_set (set_bit bm pos) n ≡ count_set bm n
  unfolding count_set
  count_set-set_past zero h = refl
  count_set-set_past (suc n) h =
      ground (arith, is_set-set_bit bm pos n bytes room, count_set-set_past n (omega arith))

  pub count_set-set_bit :
      (n : ℕ)
      → is_set bm pos ≡ false
      → pos < n
      → count_set (set_bit bm pos) n ≡ suc (count_set bm n)
  unfolding count_set
  count_set-set_bit zero free h = absurd (omega arith)
  count_set-set_bit (suc n) free h = elim (Bool-cases (pos == n)) [
    | inl last ↦
        let e : pos ≡ n = ground arith in
        let free_there : is_set bm n ≡ false = subst (λ m. is_set bm m ≡ false) e free in
        ground (arith, is_set-set_bit bm pos n bytes room, count_set-set_past n (omega arith))
    | inr before ↦
        ground (arith, is_set-set_bit bm pos n bytes room, count_set-set_bit n free (ground arith))
  ]

  count_set-reset_past : (n : ℕ) → n ≤ pos → count_set (reset bm pos) n ≡ count_set bm n
  unfolding count_set
  count_set-reset_past zero h = refl
  count_set-reset_past (suc n) h =
      ground (arith, is_set-reset bm pos n bytes room, count_set-reset_past n (omega arith))

  pub count_set-reset :
      (n : ℕ) → is_set bm pos ≡ true → pos < n → suc (count_set (reset bm pos) n) ≡ count_set bm n
  unfolding count_set
  count_set-reset zero there h = absurd (omega arith)
  count_set-reset (suc n) there h = elim (Bool-cases (pos == n)) [
    | inl last ↦
        let e : pos ≡ n = ground arith in
        let set_there : is_set bm n ≡ true = subst (λ m. is_set bm m ≡ true) e there in
        ground (arith, is_set-reset bm pos n bytes room, count_set-reset_past n (omega arith))
    | inr before ↦
        ground (arith, is_set-reset bm pos n bytes room, count_set-reset n there (ground arith))
  ]

-- A page on which no slot is free is full.
count_set_full :
    (bm : List ℕ) (n : ℕ) → ((j : ℕ) → 0 ≤ j → j < n → is_set bm j ≢ false) → count_set bm n ≡ n
unfolding count_set
count_set_full bm zero h = refl
count_set_full bm (suc n) h = elim (Bool-cases (is_set bm n)) [
  | inl there ↦ ground (arith, count_set_full bm n (λ j a b. h j a (omega arith)))
  | inr free ↦ absurd (h n (omega arith) (omega arith) free)
]

-- `first_bit(false, …)` finds a free slot on a page that is not full.
pub first_bit-free :
    (bm : List ℕ) (n : ℕ)
    → count_set bm n < n
    → (first_bit false bm n < n) × (is_set bm (first_bit false bm n) ≡ false)
unfolding first_bit
first_bit-free bm n h =
    let r = next_bit-IsNext false bm n 0 (omega arith) in
    elim (Bool-cases (ltb (next_bit false bm n 0) n)) [
      | inl found ↦ (ground arith, r.hit (ground arith))
      | inr none_free ↦
          let e : next_bit false bm n 0 ≡ n = ground (arith, r.to_end) in
          let full =
            count_set_full bm n
              (subst (λ m. (j : ℕ) → 0 ≤ j → j < m → is_set bm j ≢ false) e r.skipped) in
          absurd (omega arith)
    ]
