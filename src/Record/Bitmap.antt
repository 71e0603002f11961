-- ===== src/Record/Bitmap.antt =====
-- `Bitmap` of record/bitmap.h: one bit for each slot of a page, the highest bit of a byte first.
-- A `char` is its eight bits, a number below 256. A read past the end of the bitmap gives 0 here,
-- and a write there is lost.
pub mod Laws
pub mod Count
use cscc_db_rucbase.Common.{
  ℕ, zero, suc, ◌+◌, ◌-◌, ◌/◌, ◌%◌, Bool, true, false, not, List, [], ◌∷◌, ltb, ◌==◌, if◌then◌else◌,
  set, has_bit, with_bit, without_bit,
}
use cscc_db_rucbase.Gap.Compare.{byte_at}

abbrev pub get_bucket : ℕ → ℕ
get_bucket pos = pos / 8

-- `memset(bm, 0, size)`.
unfoldable pub init : ℕ → List ℕ
init zero = []
init (suc size) = 0 ∷ init size

-- `bm[get_bucket(pos)] |= get_bit(pos)`.
unfoldable pub set_bit : List ℕ → ℕ → List ℕ
set_bit bm pos = set bm (get_bucket pos) (with_bit (byte_at bm (get_bucket pos)) (pos % 8))

-- `bm[get_bucket(pos)] &= ~get_bit(pos)`.
unfoldable pub reset : List ℕ → ℕ → List ℕ
reset bm pos = set bm (get_bucket pos) (without_bit (byte_at bm (get_bucket pos)) (pos % 8))

unfoldable pub is_set : List ℕ → ℕ → Bool
is_set bm pos = has_bit (byte_at bm (get_bucket pos)) (pos % 8)

abbrev pub bool_eq : Bool → Bool → Bool
bool_eq true b = b
bool_eq false b = not b

-- The loop of `next_bit` with `rounds` positions to go, at position i.
unfoldable pub next_from : Bool → List ℕ → ℕ → ℕ → ℕ
next_from bit bm zero i = i
next_from bit bm (suc rounds) i =
    if bool_eq (is_set bm i) bit then i else next_from bit bm rounds (suc i)

-- `next_bit(bit, bm, max_n, curr)`, from `i = curr + 1` on: `curr` starts at -1. The loop leaves an
-- i that is past the end as `max_n`.
unfoldable pub next_bit : Bool → List ℕ → ℕ → ℕ → ℕ
next_bit bit bm max_n i = if ltb i max_n then next_from bit bm (max_n - i) i else max_n

unfoldable pub first_bit : Bool → List ℕ → ℕ → ℕ
first_bit bit bm max_n = next_bit bit bm max_n 0
