-- ===== src/LockManager/Tests.antt =====
-- Gaps of a test index, and the theorems about the lock manager at concrete queues and gaps.
mod Gaps
mod Queues
use Prim.Native.Nat.{Ordering}
use cscc_db_rucbase.Common.{
  ℕ, ◌≡◌, ◌≤◌, refl, Bool, true, false, List, [], ◌∷◌, Option, none, some, pos, arith, inl, inr,
  any, find, store, All,
}
use cscc_db_rucbase.Gap.Compare.{
  Gap, CondOp, CompOp, byte_at, type_int, op_invalid, op_eq, op_ge, op_le, op_gt, int_at,
  compare_int, compare, cmp_index_cond, passes, cmp_left_conds, cmp_right_conds, is_in_gap,
  is_apart, lower_meets_upper, is_coincide,
}
use cscc_db_rucbase.Gap.Overlap.{
  Column, Coherent, compare_int-Coherent, GapOf, IsAbout, is_in_gap-is_coincide,
}
use cscc_db_rucbase.Transaction.LockDataId.{
  LockDataId, table, gap_lock, IndexMeta, ColMeta, index_meta_eq, cols_eq, col_meta_eq,
  lock_data_id_eq,
}

-- Float buffers as the four bytes of an integer stand for a comparison of numbers.
abbrev pub by_int : List ℕ → List ℕ → Ordering
by_int a b = compare_int (int_at a) (int_at b)

abbrev pub AnyBytes : List ℕ → Type 0
AnyBytes bs = Unit {0}

pub by_int-Coherent :
    (v l u : List ℕ)
    → AnyBytes v
    → AnyBytes l
    → AnyBytes u
    → Coherent (by_int v l) (by_int v u) (by_int l u)
by_int-Coherent v l u _ _ _ = compare_int-Coherent (int_at v) (int_at l) (int_at u)

-- A hash that tells the gaps below apart.
abbrev hash_conds : List (CondOp × CondOp) → ℕ
hash_conds [] = 0
hash_conds ((l, u) ∷ cs) = byte_at l.rhs_val.raw 0

abbrev pub hash_gap : Gap → ℕ
hash_gap gap = hash_conds gap.index_conds

abbrev pub id_column : Column
id_column = record { type = type_int; offset = 0; len = 4 }

abbrev at_id : CompOp → ℕ → CondOp
at_id o n = record {
  op = o;
  rhs_val = record { type = type_int; raw = n ∷ 0 ∷ 0 ∷ 0 ∷ [] };
  offset = 0;
}

-- 10 ≤ id ≤ 20, and 15 < id.
abbrev pub ten_to_twenty : Gap
ten_to_twenty = record { index_conds = (at_id op_ge 10, at_id op_le 20) ∷ [] }

abbrev pub above_fifteen : Gap
above_fifteen = record { index_conds = (at_id op_gt 15, at_id op_invalid 0) ∷ [] }

abbrev pub sixteen : List ℕ
sixteen = 16 ∷ 0 ∷ 0 ∷ 0 ∷ []

at_id-IsAbout : (o : CompOp) (n : ℕ) → IsAbout by_int AnyBytes by_int-Coherent id_column (at_id o n)
at_id-IsAbout o n = record { type = refl; offset = refl; len = refl; fits = tt }

pub ten_to_twenty-GapOf :
    GapOf by_int AnyBytes by_int-Coherent (id_column ∷ []) ten_to_twenty.index_conds
ten_to_twenty-GapOf = (inr (refl, at_id-IsAbout op_ge 10), inr (refl, at_id-IsAbout op_le 20), tt)

pub above_fifteen-GapOf :
    GapOf by_int AnyBytes by_int-Coherent (id_column ∷ []) above_fifteen.index_conds
above_fifteen-GapOf = (inr (refl, at_id-IsAbout op_gt 15), inl refl, tt)

pub ten_to_twenty-holds : is_in_gap by_int ten_to_twenty sixteen ≡ some true
unfolding is_in_gap cmp_left_conds cmp_right_conds cmp_index_cond compare compare_int int_at
ten_to_twenty-holds = refl

pub above_fifteen-holds : is_in_gap by_int above_fifteen sixteen ≡ some true
unfolding is_in_gap cmp_left_conds cmp_right_conds cmp_index_cond compare compare_int int_at
above_fifteen-holds = refl

is_in_gap-is_coincide_example : is_coincide by_int ten_to_twenty above_fifteen ≡ true
is_in_gap-is_coincide_example =
    is_in_gap-is_coincide by_int AnyBytes by_int-Coherent (id_column ∷ []) ten_to_twenty
      above_fifteen sixteen (tt, tt) ten_to_twenty-GapOf above_fifteen-GapOf ten_to_twenty-holds
      above_fifteen-holds

abbrev pub id_index : IndexMeta
id_index = record {
  tab_name = "t";
  col_tot_len = 4;
  col_num = 1;
  cols = (0, record { tab_name = "t"; name = "id"; type = type_int; len = 4; offset = 0 }) ∷ [];
}

abbrev pub low : LockDataId
low = gap_lock 7 id_index ten_to_twenty

abbrev pub high : LockDataId
high = gap_lock 7 id_index above_fifteen
