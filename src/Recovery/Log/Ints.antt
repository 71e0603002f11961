-- ===== src/Recovery/Log/Ints.antt =====
-- An integer is read back from its bytes.
use cscc_db_rucbase.Common.{
  ℕ, ◌<◌, List, [], ◌∷◌, ◌++◌, ◌≡◌, refl, ap, arith, ℤ, pos, negsuc, slice, length,
}
use cscc_db_rucbase.Gap.Compare.{drop, int_at}
use cscc_db_rucbase.Recovery.Log.{put_word, put_int, put_size, word_at, size_at}

abbrev pub IsInt32 : ℤ → Type 0
IsInt32 (pos n) = n < 2147483648
IsInt32 (negsuc n) = n < 2147483648

pub word_at-put_word : (w : ℕ) (rest : List ℕ) → w < 4294967296 → word_at (put_word w rest) ≡ w
unfolding word_at put_word
word_at-put_word w rest h = omega arith

pub int_at-put_int : (z : ℤ) (rest : List ℕ) → IsInt32 z → int_at (put_int z rest) ≡ z
unfolding int_at put_int put_word
int_at-put_int (pos n) rest h = ground arith
int_at-put_int (negsuc n) rest h = ground arith

pub size_at-put_size :
    (n : ℕ) (rest : List ℕ) → n < 18446744073709551616 → size_at (put_size n rest) ≡ n
unfolding size_at put_size word_at put_word
size_at-put_size n rest h = omega arith

pub drop-append : (a b : List ℕ) → drop (length a) (a ++ b) ≡ b
drop-append [] b = refl
drop-append (x ∷ a) b = drop-append a b

pub slice-append : (a b : List ℕ) → slice 0 (length a) (a ++ b) ≡ a
unfolding slice
slice-append [] b = refl
slice-append (x ∷ a) b = ap (λ t. x ∷ t) (slice-append a b)
