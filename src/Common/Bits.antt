-- ===== src/Common/Bits.antt =====
-- The bits of a byte, the highest first, from a table over all bytes.
use Prim.Native.Nat.{ℕ, zero, suc, ◌-◌, ◌/◌, ◌^◌, ◌<◌, bit_and, bit_or, bit_and-bitwise}
use mathlib.Core.Path.{◌≡◌, refl}
use mathlib.Core.Logic.{inl, inr}
use mathlib.Core.Bool.{Bool, true, false, not, ◌&&◌, ◌||◌}
use native.Mathlib.Omega.{arith}
use cscc_db_rucbase.Common.Tests.{◌==◌, ltb, ltb→lt, if◌then◌else◌, Bool-cases}

-- The mask of the k-th highest bit.
abbrev pub high_bit : ℕ → ℕ
high_bit k = 128 / 2 ^ k

unfoldable pub has_bit : ℕ → ℕ → Bool
has_bit x k = not (bit_and x (high_bit k) == 0)

unfoldable pub with_bit : ℕ → ℕ → ℕ
with_bit x k = bit_or x (high_bit k)

-- `~` on eight bits.
unfoldable pub without_bit : ℕ → ℕ → ℕ
without_bit x k = bit_and x (255 - high_bit k)

-- Whether a test is passed by each number under a bound.
table : (ℕ → Bool) → ℕ → Bool
table test zero = true
table test (suc bound) = if test bound then table test bound else false

table_entry : (test : ℕ → Bool) (bound k : ℕ) → k < bound → table test bound ≡ true → test k ≡ true
unfolding table
table_entry test zero k under full = absurd (omega arith)
table_entry test (suc bound) k under full = elim (Bool-cases (k == bound)) [
  | inl last ↦ let at : k ≡ bound = ground arith in rw at (ground arith)
  | inr before ↦ table_entry test bound k (ground arith) (ground arith)
]

abbrev same : Bool → Bool → Bool
same true b = b
same false b = not b

same_eq : (a b : Bool) → same a b ≡ true → a ≡ b
same_eq true true h = refl
same_eq true false h = cc
same_eq false true h = cc
same_eq false false h = refl

-- A check of all bytes and of all pairs of positions.
abbrev over_bytes : (ℕ → ℕ → ℕ → Bool) → Bool
over_bytes p = table (λ x. table (λ k. table (λ j. p x k j) 8) 8) 256

over_bytes_sound :
    (p : ℕ → ℕ → ℕ → Bool) (x k j : ℕ)
    → over_bytes p ≡ true
    → x < 256
    → k < 8
    → j < 8
    → p x k j ≡ true
over_bytes_sound p x k j h hx hk hj =
    table_entry _ 8 j hj (table_entry _ 8 k hk (table_entry _ 256 x hx h))

abbrev with_test : ℕ → ℕ → ℕ → Bool
with_test x k j =
    same (has_bit (with_bit x k) j) ((k == j) || has_bit x j) && ltb (with_bit x k) 256

abbrev without_test : ℕ → ℕ → ℕ → Bool
without_test x k j =
    same (has_bit (without_bit x k) j) (not (k == j) && has_bit x j) && ltb (without_bit x k) 256

with_table : over_bytes with_test ≡ true
unfolding table has_bit with_bit
with_table = refl

without_table : over_bytes without_test ≡ true
unfolding table has_bit without_bit
without_table = refl

and_left : (a b : Bool) → (a && b) ≡ true → a ≡ true
and_left a b h = ground arith

and_right : (a b : Bool) → (a && b) ≡ true → b ≡ true
and_right a b h = ground arith

pub has_bit-with_bit :
    (x k j : ℕ) → x < 256 → k < 8 → j < 8 → has_bit (with_bit x k) j ≡ ((k == j) || has_bit x j)
has_bit-with_bit x k j hx hk hj =
    same_eq _ _ (and_left _ _ (over_bytes_sound with_test x k j with_table hx hk hj))

pub with_bit_bounds : (x k : ℕ) → x < 256 → k < 8 → with_bit x k < 256
with_bit_bounds x k hx hk =
    ltb→lt _ _ (and_right _ _ (over_bytes_sound with_test x k 0 with_table hx hk (omega arith)))

pub has_bit-without_bit :
    (x k j : ℕ)
    → x < 256
    → k < 8
    → j < 8
    → has_bit (without_bit x k) j ≡ (not (k == j) && has_bit x j)
has_bit-without_bit x k j hx hk hj =
    same_eq _ _ (and_left _ _ (over_bytes_sound without_test x k j without_table hx hk hj))

pub without_bit_bounds : (x k : ℕ) → x < 256 → k < 8 → without_bit x k < 256
without_bit_bounds x k hx hk =
    ltb→lt _ _
      (and_right _ _ (over_bytes_sound without_test x k 0 without_table hx hk (omega arith)))

pub has_bit-zero : (k : ℕ) → has_bit 0 k ≡ false
unfolding has_bit
has_bit-zero k = rw (bit_and-bitwise 0 (high_bit k)) refl
