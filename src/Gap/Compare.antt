-- ===== src/Gap/Compare.antt =====
-- `compare` of execution/execution_defs.h, over raw bytes, and the conditions and gaps that it
-- decides. Bytes are numbers below 256. What the C reads past a buffer's end is read as 0 by
-- `int_at` and as the end of the text by `memcmp`; no theorem below speaks of such buffers.
use Prim.Native.Nat.{Ordering}
use cscc_db_rucbase.Common.{
  ℕ, zero, suc, ◌+◌, ◌-◌, ◌*◌, Bool, true, false, ◌&&◌, ◌||◌, not, List, [], ◌∷◌, Option, none,
  some, ltb, if◌then◌else◌, ℤ, pos, negsuc, ltb_ℤ, length,
}

pub data ColType : Type 0 where
  type_int type_float type_string : ColType

pub data CompOp : Type 0 where
  op_invalid op_in op_eq op_ne op_lt op_le op_gt op_ge : CompOp

-- The parts of a `Value` that comparisons read: its type and its raw buffer.
pub record Value : Type 0 where
  pub type : ColType
  pub raw : List ℕ

pub record CondOp : Type 0 where
  pub op : CompOp
  pub rhs_val : Value
  pub offset : ℕ

pub record Gap : Type 0 where
  pub index_conds : List (CondOp × CondOp)

abbrev pub byte_at : List ℕ → ℕ → ℕ
byte_at [] i = 0
byte_at (b ∷ bs) zero = b
byte_at (b ∷ bs) (suc i) = byte_at bs i

abbrev pub drop : ℕ → List ℕ → List ℕ
drop zero bs = bs
drop (suc n) [] = []
drop (suc n) (b ∷ bs) = drop n bs

-- `*reinterpret_cast<const int*>`: four bytes, the lowest first, in two's complement.
unfoldable pub int_at : List ℕ → ℤ
int_at bs =
    let w = byte_at bs 0 + 256 * byte_at bs 1 + 65536 * byte_at bs 2 + 16777216 * byte_at bs 3 in
    if ltb w 2147483648 then pos w else negsuc (4294967295 - w)

-- `(a > b) - (a < b)`.
unfoldable pub compare_int : ℤ → ℤ → Ordering
compare_int a b = if ltb_ℤ b a then Ordering.gt else if ltb_ℤ a b then Ordering.lt else Ordering.eq

-- The sign of `memcmp` over `n` bytes.
unfoldable pub memcmp : List ℕ → List ℕ → ℕ → Ordering
memcmp a b zero = Ordering.eq
memcmp [] b (suc n) = Ordering.eq
memcmp (x ∷ a) [] (suc n) = Ordering.eq
memcmp (x ∷ a) (y ∷ b) (suc n) =
    let rest = memcmp a b n in
    if ltb x y then Ordering.lt else if ltb y x then Ordering.gt else rest

abbrev pub is_eq : Ordering → Bool
is_eq Ordering.eq = true
is_eq _ = false

abbrev pub is_lt : Ordering → Bool
is_lt Ordering.lt = true
is_lt _ = false

abbrev pub is_gt : Ordering → Bool
is_gt Ordering.gt = true
is_gt _ = false

-- The `switch` of `cmpIndexCond`; `none` is the InternalError of an operator that it does not know.
unfoldable pub holds_by : CompOp → Ordering → Option Bool
holds_by op_eq cmp = some (is_eq cmp)
holds_by op_ne cmp = some (not (is_eq cmp))
holds_by op_lt cmp = some (is_lt cmp)
holds_by op_gt cmp = some (is_gt cmp)
holds_by op_le cmp = some (not (is_gt cmp))
holds_by op_ge cmp = some (not (is_lt cmp))
holds_by _ cmp = none

abbrev pub is_invalid : CompOp → Bool
is_invalid op_invalid = true
is_invalid _ = false

abbrev pub is_op_gt : CompOp → Bool
is_op_gt op_gt = true
is_op_gt _ = false

abbrev pub is_op_lt : CompOp → Bool
is_op_lt op_lt = true
is_op_lt _ = false

-- `cmp > 0 || (cmp == 0 && (lhs.op == OP_GT || rhs.op == OP_LT))`.
abbrev pub apart_by : Ordering → CompOp → CompOp → Bool
apart_by cmp lhs rhs = is_gt cmp || (is_eq cmp && (is_op_gt lhs || is_op_lt rhs))

-- A failed condition ends the loop, an exception leaves it.
abbrev pub and_then : Option Bool → Option Bool → Option Bool
and_then (some true) rest = rest
and_then other rest = other

-- The order of two IEEE floats, as `(af > bf) - (af < bf)` gives it, is a parameter.
module _ (compare_float : List ℕ → List ℕ → Ordering) where
  unfoldable pub compare : List ℕ → List ℕ → ℕ → ColType → Ordering
  unfolding int_at compare_int memcmp
  compare a b len type_int = compare_int (int_at a) (int_at b)
  compare a b len type_float = compare_float a b
  compare a b len type_string = memcmp a b len

  unfoldable pub cmp_index_cond : List ℕ → CondOp → Option Bool
  unfolding compare holds_by
  cmp_index_cond rec cond =
      holds_by cond.op (
        compare (drop cond.offset rec) cond.rhs_val.raw (length cond.rhs_val.raw) cond.rhs_val.type)

  -- One round of the loops of `cmpIndexLeftConds` and `cmpIndexRightConds`.
  abbrev pub passes : List ℕ → CondOp → Option Bool
  passes rec cond = if is_invalid cond.op then some true else cmp_index_cond rec cond

  unfoldable pub cmp_left_conds : List ℕ → List (CondOp × CondOp) → Option Bool
  cmp_left_conds rec [] = some true
  cmp_left_conds rec ((cond, _) ∷ cs) = and_then (passes rec cond) (cmp_left_conds rec cs)

  unfoldable pub cmp_right_conds : List ℕ → List (CondOp × CondOp) → Option Bool
  cmp_right_conds rec [] = some true
  cmp_right_conds rec ((_, cond) ∷ cs) = and_then (passes rec cond) (cmp_right_conds rec cs)

  unfoldable pub is_in_gap : Gap → List ℕ → Option Bool
  unfolding cmp_left_conds cmp_right_conds
  is_in_gap gap rec =
      and_then (cmp_left_conds rec gap.index_conds) (cmp_right_conds rec gap.index_conds)

  -- The test of the two loops of `isCoincide`: both bounds are there, and the lower one lies above
  -- the upper one, or on it where one of the two is strict.
  unfoldable pub is_apart : CondOp → CondOp → Bool
  unfolding compare
  is_apart lhs rhs =
      not (is_invalid lhs.op)
      && not (is_invalid rhs.op)
      && apart_by
          (compare lhs.rhs_val.raw rhs.rhs_val.raw (length lhs.rhs_val.raw) lhs.rhs_val.type) lhs.op
          rhs.op

  -- A loop of `isCoincide`: the lower conditions of `as` against the upper ones of `bs`. The gaps of
  -- an index have as many conditions each; past the end of the other gap the C reads out of bounds.
  unfoldable pub lower_meets_upper : List (CondOp × CondOp) → List (CondOp × CondOp) → Bool
  unfolding is_apart
  lower_meets_upper [] bs = true
  lower_meets_upper (a ∷ cs) [] = true
  lower_meets_upper ((lhs, _) ∷ cs) ((_, rhs) ∷ ds) =
      if is_apart lhs rhs then false else lower_meets_upper cs ds

  unfoldable pub is_coincide : Gap → Gap → Bool
  unfolding lower_meets_upper
  is_coincide a b =
      lower_meets_upper a.index_conds b.index_conds && lower_meets_upper b.index_conds a.index_conds
