-- ===== src/Gap/Overlap.antt =====
-- `Gap::isCoincide` misses no overlap: two gaps that hold one record coincide.
use Prim.Native.Nat.{Ordering}
use cscc_db_rucbase.Common.{
  ℕ, zero, suc, ◌≤◌, ◌≡◌, ◌≢◌, ◌∙◌, refl, ◌⊎◌, inl, inr, ℤ, Bool, true, false, Option, List, [],
  ◌∷◌, some, arith, length,
}
use cscc_db_rucbase.Gap.Compare.{
  ColType, type_int, type_float, type_string, CompOp, op_eq, op_gt, op_ge, op_lt, op_le, CondOp,
  Gap, drop, int_at, compare_int, memcmp, holds_by, is_invalid, compare, cmp_index_cond,
  cmp_left_conds, cmp_right_conds, is_in_gap, is_apart, apart_by, passes, and_then,
  lower_meets_upper, is_coincide,
}

-- What an order has to give of a value `v` between a lower bound `l` and an upper bound `u`, each
-- argument a result of comparing: `v` to `l`, `v` to `u`, and `l` to `u`.
pub record Coherent (vl vu lu : Ordering) : Type 0 where
  pub weak : vl ≢ Ordering.lt → vu ≢ Ordering.gt → lu ≢ Ordering.gt
  pub strict_left : vl ≡ Ordering.gt → vu ≢ Ordering.gt → lu ≢ Ordering.eq
  pub strict_right : vl ≢ Ordering.lt → vu ≡ Ordering.lt → lu ≢ Ordering.eq

pub compare_int-Coherent :
    (v l u : ℤ) → Coherent (compare_int v l) (compare_int v u) (compare_int l u)
unfolding compare_int
compare_int-Coherent v l u = record {
  weak = ground arith;
  strict_left = ground arith;
  strict_right = ground arith;
}

memcmp-Coherent :
    (n : ℕ) (v l u : List ℕ)
    → n ≤ length v
    → n ≤ length l
    → n ≤ length u
    → Coherent (memcmp v l n) (memcmp v u n) (memcmp l u n)
unfolding memcmp
memcmp-Coherent zero v l u hv hl hu = record {
  weak = λ _ _. λ e. cc;
  strict_left = λ e _. absurd (ground arith);
  strict_right = λ _ e. absurd (ground arith);
}
memcmp-Coherent (suc n) (x ∷ v) (y ∷ l) (z ∷ u) hv hl hu =
    let ih = memcmp-Coherent n v l u (omega arith) (omega arith) (omega arith) in
    record {
      weak = ground (arith, ih.weak);
      strict_left = ground (arith, ih.strict_left);
      strict_right = ground (arith, ih.strict_right);
    }
memcmp-Coherent (suc n) [] l u hv hl hu = absurd (omega arith)
memcmp-Coherent (suc n) (x ∷ v) [] u hv hl hu = absurd (omega arith)
memcmp-Coherent (suc n) (x ∷ v) (y ∷ l) [] hv hl hu = absurd (omega arith)

-- A column of an index, as the conditions on it and the records see it.
pub record Column : Type 0 where
  pub type : ColType
  pub offset : ℕ
  pub len : ℕ

-- Lower conditions are made by `insertLeft`, and upper ones by `insertRight`, with these operators.
abbrev pub is_lower : CompOp → Bool
is_lower op_gt = true
is_lower op_ge = true
is_lower op_eq = true
is_lower _ = false

abbrev pub is_upper : CompOp → Bool
is_upper op_lt = true
is_upper op_le = true
is_upper op_eq = true
is_upper _ = false

lower-valid : (o : CompOp) → is_lower o ≡ true → is_invalid o ≡ false
lower-valid o h = ground arith

upper-valid : (o : CompOp) → is_upper o ≡ true → is_invalid o ≡ false
upper-valid o h = ground arith

-- A value that passes both conditions keeps them from being apart.
between :
    (vl vu lu : Ordering) (l u : CompOp)
    → Coherent vl vu lu
    → is_lower l ≡ true
    → is_upper u ≡ true
    → holds_by l vl ≡ some true
    → holds_by u vu ≡ some true
    → apart_by lu l u ≡ false
unfolding holds_by
between vl vu lu l u h sl su pl pu = ground (arith, h.weak, h.strict_left, h.strict_right)

and_then-eq-true :
    (o rest : Option Bool) → and_then o rest ≡ some true → (o ≡ some true) × (rest ≡ some true)
and_then-eq-true o rest h = ground arith

-- The comparison of floats is coherent on the buffers of numbers; a NaN is none.
module _ (compare_float : List ℕ → List ℕ → Ordering) (IsNumber : List ℕ → Type 0)
    (float_order : (v l u : List ℕ)
      → IsNumber v
      → IsNumber l
      → IsNumber u
      → Coherent (compare_float v l) (compare_float v u) (compare_float l u)) where
  -- The bytes hold a value of the column.
  abbrev pub Fits : ColType → ℕ → List ℕ → Type 0
  Fits type_int len bs = Unit {0}
  Fits type_float len bs = IsNumber bs
  Fits type_string len bs = len ≤ length bs

  -- A condition that is there is about the column.
  pub record IsAbout (c : Column) (cond : CondOp) : Type 0 where
    pub type : cond.rhs_val.type ≡ c.type
    pub offset : cond.offset ≡ c.offset
    pub len : length cond.rhs_val.raw ≡ c.len
    pub fits : Fits c.type c.len cond.rhs_val.raw

  abbrev pub Bound : (CompOp → Bool) → Column → CondOp → Type 0
  Bound side c cond = (is_invalid cond.op ≡ true) ⊎ ((side cond.op ≡ true) × IsAbout c cond)

  -- The conditions are those of the index's columns, one pair for each.
  abbrev pub GapOf : List Column → List (CondOp × CondOp) → Type 0
  GapOf [] [] = Unit {0}
  GapOf [] (p ∷ ps) = ⊥
  GapOf (c ∷ cs) [] = ⊥
  GapOf (c ∷ cs) ((l, u) ∷ ps) = Bound is_lower c l × Bound is_upper c u × GapOf cs ps

  abbrev pub RecordOf : List Column → List ℕ → Type 0
  RecordOf [] rec = Unit {0}
  RecordOf (c ∷ cs) rec = Fits c.type c.len (drop c.offset rec) × RecordOf cs rec

  compare-Coherent :
      (t : ColType) (n : ℕ) (v l u : List ℕ)
      → Fits t n v
      → Fits t n l
      → Fits t n u
      → Coherent
          (compare compare_float v l n t)
          (compare compare_float v u n t)
          (compare compare_float l u n t)
  unfolding compare
  compare-Coherent type_int n v l u hv hl hu = compare_int-Coherent (int_at v) (int_at l) (int_at u)
  compare-Coherent type_float n v l u hv hl hu = float_order v l u hv hl hu
  compare-Coherent type_string n v l u hv hl hu = memcmp-Coherent n v l u hv hl hu

  passes-holds_by :
      (c : Column) (rec : List ℕ) (cond : CondOp)
      → IsAbout c cond
      → is_invalid cond.op ≡ false
      → passes compare_float rec cond ≡ some true
      → holds_by cond.op (compare compare_float (drop c.offset rec) cond.rhs_val.raw c.len c.type)
        ≡ some true
  unfolding cmp_index_cond
  passes-holds_by c rec cond a v p = simp (v, a.type, a.offset, a.len) at p

  is_apart-IsAbout :
      (c : Column) (l u : CondOp)
      → IsAbout c l
      → is_invalid l.op ≡ false
      → is_invalid u.op ≡ false
      → is_apart compare_float l u
        ≡ apart_by (compare compare_float l.rhs_val.raw u.rhs_val.raw c.len c.type) l.op u.op
  unfolding is_apart
  is_apart-IsAbout c l u a hl hu = simp (hl, hu, a.type, a.len)

  not_apart :
      (c : Column) (rec : List ℕ) (l u : CondOp)
      → Fits c.type c.len (drop c.offset rec)
      → Bound is_lower c l
      → Bound is_upper c u
      → passes compare_float rec l ≡ some true
      → passes compare_float rec u ≡ some true
      → is_apart compare_float l u ≡ false
  unfolding is_apart
  not_apart c rec l u f (inl none_l) bu pl pu = ground arith
  not_apart c rec l u f (inr al) (inl none_u) pl pu = ground arith
  not_apart c rec l u f (inr (sl, al)) (inr (su, au)) pl pu =
      let el = lower-valid l.op sl in
      let eu = upper-valid u.op su in
      is_apart-IsAbout c l u al el eu
      ∙ between _ _ _ l.op u.op
          (compare-Coherent c.type c.len (drop c.offset rec) l.rhs_val.raw u.rhs_val.raw f al.fits
            au.fits)
          sl su (passes-holds_by c rec l al el pl) (passes-holds_by c rec u au eu pu)

  complete_lower_meets_upper :
      (cs : List Column) (rec : List ℕ) (ps qs : List (CondOp × CondOp))
      → RecordOf cs rec
      → GapOf cs ps
      → GapOf cs qs
      → cmp_left_conds compare_float rec ps ≡ some true
      → cmp_right_conds compare_float rec qs ≡ some true
      → lower_meets_upper compare_float ps qs ≡ true
  unfolding lower_meets_upper cmp_left_conds cmp_right_conds
  complete_lower_meets_upper [] rec [] qs r gp gq hp hq = refl
  complete_lower_meets_upper [] rec (p ∷ ps) qs r gp gq hp hq = absurd gp
  complete_lower_meets_upper (c ∷ cs) rec [] qs r gp gq hp hq = absurd gp
  complete_lower_meets_upper (c ∷ cs) rec ((l, u) ∷ ps) [] r gp gq hp hq = absurd gq
  complete_lower_meets_upper (c ∷ cs) rec ((l, u) ∷ ps) ((l', u') ∷ qs) r gp gq hp hq =
      let (pl, hp') = and_then-eq-true (passes compare_float rec l) _ hp in
      let (pu, hq') = and_then-eq-true (passes compare_float rec u') _ hq in
      rw (not_apart c rec l u' r.0 gp.0 gq.1 pl pu)
        (complete_lower_meets_upper cs rec ps qs r.1 gp.2 gq.2 hp' hq')

  -- Gap::isCoincide misses no overlap: two gaps, each a list of lower and upper conditions on the
  -- same columns, that both accept one record by isInGap coincide. The conditions use the operators
  -- that index scans give them, the record and the conditions are as long as their columns, and the
  -- comparison of floats orders the values at hand.
  pub is_in_gap-is_coincide :
      (cs : List Column) (a b : Gap) (rec : List ℕ)
      → RecordOf cs rec
      → GapOf cs a.index_conds
      → GapOf cs b.index_conds
      → is_in_gap compare_float a rec ≡ some true
      → is_in_gap compare_float b rec ≡ some true
      → is_coincide compare_float a b ≡ true
  unfolding is_in_gap is_coincide
  is_in_gap-is_coincide cs a b rec r ga gb ha hb =
      let (la, ua) = and_then-eq-true (cmp_left_conds compare_float rec a.index_conds) _ ha in
      let (lb, ub) = and_then-eq-true (cmp_left_conds compare_float rec b.index_conds) _ hb in
      rw (
        complete_lower_meets_upper cs rec a.index_conds b.index_conds r ga gb la ub,
        complete_lower_meets_upper cs rec b.index_conds a.index_conds r gb ga lb ua,
      )
