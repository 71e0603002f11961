-- ===== src/Index/Node/Search.antt =====
-- The binary searches of a node.
use Prim.Native.Nat.{Ordering}
use cscc_db_rucbase.Common.{
  ℕ, zero, suc, ◌+◌, ◌/◌, ◌≤◌, ◌<◌, true, false, List, ltb, ltb→lt, ltb-false→le, ◌≡◌, ◌≢◌, refl,
  arith, length, Bool-cases, inl, inr, subst,
}
use cscc_db_rucbase.Gap.Compare.{is_gt, is_lt}
use cscc_db_rucbase.Index.Node.{
  Key, Entry, key_at, lower_loop, lower_bound, upper_loop, upper_bound,
}

-- What the searches need of the comparison of keys.
pub record IsOrder (cmp : Key → Key → Ordering) : Type 0 where
  pub same : (a : Key) → cmp a a ≡ Ordering.eq
  pub flip : (a b : Key) → cmp a b ≡ Ordering.gt → cmp b a ≡ Ordering.lt
  pub below : (a b c : Key) → cmp a b ≡ Ordering.lt → cmp b c ≡ Ordering.lt → cmp a c ≡ Ordering.lt
  pub alike : (a b c : Key) → cmp a b ≡ Ordering.eq → cmp c b ≡ cmp c a
  pub above : (a b c : Key) → cmp a b ≡ Ordering.gt → cmp c b ≡ Ordering.lt → cmp a c ≡ Ordering.gt

-- The keys of a node rise.
abbrev pub IsSorted : (Key → Key → Ordering) → List Entry → Type 0
IsSorted cmp es = (i j : ℕ) → i < j → j < length es → cmp (key_at es i) (key_at es j) ≡ Ordering.lt

is_gt_eq : (o : Ordering) → is_gt o ≡ true → o ≡ Ordering.gt
is_gt_eq Ordering.lt h = cc
is_gt_eq Ordering.eq h = cc
is_gt_eq Ordering.gt h = refl

is_gt_ne : (o : Ordering) → is_gt o ≡ false → o ≢ Ordering.gt
is_gt_ne o h = λ e. let w : is_gt Ordering.gt ≡ false = subst (λ z. is_gt z ≡ false) e h in cc

is_lt_eq : (o : Ordering) → is_lt o ≡ true → o ≡ Ordering.lt
is_lt_eq Ordering.lt h = refl
is_lt_eq Ordering.eq h = cc
is_lt_eq Ordering.gt h = cc

is_lt_ne : (o : Ordering) → is_lt o ≡ false → o ≢ Ordering.lt
is_lt_ne o h = λ e. let w : is_lt Ordering.lt ≡ false = subst (λ z. is_lt z ≡ false) e h in cc

module _ (cmp : Key → Key → Ordering) (es : List Entry) (target : Key) where
  -- The first position whose key is not below the target.
  pub record IsLowerBound (i : ℕ) : Type 0 where
    pub inside : i ≤ length es
    pub before : (j : ℕ) → j < i → cmp target (key_at es j) ≡ Ordering.gt
    pub after : (j : ℕ) → i ≤ j → j < length es → cmp target (key_at es j) ≢ Ordering.gt

  -- Behind the first entry, the first position whose key is above the target.
  pub record IsUpperBound (i : ℕ) : Type 0 where
    pub inside : i ≤ length es
    pub before : (j : ℕ) → 1 ≤ j → j < i → cmp target (key_at es j) ≢ Ordering.lt
    pub after : (j : ℕ) → i ≤ j → 1 ≤ j → j < length es → cmp target (key_at es j) ≡ Ordering.lt

  module _ (order : IsOrder cmp) (sorted : IsSorted cmp es) where
    gt_before :
        (m : ℕ)
        → m < length es
        → cmp target (key_at es m) ≡ Ordering.gt
        → (j : ℕ) → j < suc m
        → cmp target (key_at es j) ≡ Ordering.gt
    gt_before m inside h j lt = elim (Bool-cases (ltb j m)) [
      | inl less ↦
          order.above target (key_at es m) (key_at es j) h (sorted j m (ltb→lt j m less) inside)
      | inr last ↦
          let e : m ≡ j = ground arith in subst (λ k. cmp target (key_at es k) ≡ Ordering.gt) e h
    ]

    not_gt_after :
        (m : ℕ)
        → cmp target (key_at es m) ≢ Ordering.gt
        → (j : ℕ) → m ≤ j
        → j < length es
        → cmp target (key_at es j) ≢ Ordering.gt
    not_gt_after m h j le inside = λ e. elim (Bool-cases (ltb m j)) [
      | inl less ↦
          h (order.above target (key_at es j) (key_at es m) e (sorted m j (ltb→lt m j less) inside))
      | inr last ↦
          let same : j ≡ m = ground arith in
          h (subst (λ k. cmp target (key_at es k) ≡ Ordering.gt) same e)
    ]

    pub lt_after :
        (m : ℕ)
        → cmp target (key_at es m) ≡ Ordering.lt
        → (j : ℕ) → m ≤ j
        → j < length es
        → cmp target (key_at es j) ≡ Ordering.lt
    lt_after m h j le inside = elim (Bool-cases (ltb m j)) [
      | inl less ↦
          order.below target (key_at es m) (key_at es j) h (sorted m j (ltb→lt m j less) inside)
      | inr last ↦
          let e : m ≡ j = ground arith in subst (λ k. cmp target (key_at es k) ≡ Ordering.lt) e h
    ]

    not_lt_before :
        (m : ℕ)
        → m < length es
        → cmp target (key_at es m) ≢ Ordering.lt
        → (j : ℕ) → j < suc m
        → cmp target (key_at es j) ≢ Ordering.lt
    not_lt_before m inside h j lt = λ e. h (lt_after j e m (omega arith) inside)

    lower_loop-IsLowerBound :
        (fuel l r : ℕ)
        → r < fuel + l + 1
        → l ≤ r
        → r ≤ length es
        → ((j : ℕ) → j < l → cmp target (key_at es j) ≡ Ordering.gt)
        → ((j : ℕ) → r ≤ j → j < length es → cmp target (key_at es j) ≢ Ordering.gt)
        → IsLowerBound (lower_loop cmp es target fuel l r)
    unfolding lower_loop
    lower_loop-IsLowerBound zero l r enough le inside low high = record {
      inside = omega arith;
      before = low;
      after = λ j a b. high j (omega arith) b;
    }
    lower_loop-IsLowerBound (suc fuel) l r enough le inside low high = elim (Bool-cases (ltb l r)) [
      | inl less ↦
          let mid = (l + r) / 2 in
          let lt = ltb→lt l r less in
          elim (Bool-cases (is_gt (cmp target (key_at es mid)))) [
            | inl greater ↦
                let rest =
                  lower_loop-IsLowerBound fuel (mid + 1) r (omega arith) (omega arith) inside
                    (λ j h. gt_before mid (omega arith) (is_gt_eq _ greater) j (omega arith))
                    high in
                rw (less, greater, lower_loop) rest
            | inr other ↦
                let rest =
                  lower_loop-IsLowerBound fuel l mid (omega arith) (omega arith) (omega arith) low
                    (not_gt_after mid (is_gt_ne _ other)) in
                rw (less, other, lower_loop) rest
          ]
      | inr done ↦
          let e = ltb-false→le l r done in
          rw (done, lower_loop)
            (record { inside = omega arith; before = low; after = λ j a b. high j (omega arith) b })
    ]

    -- Under a comparison that orders keys, in a sorted node, the binary search of lower_bound ends
    -- with the first position whose key is not below the target: all keys before it are below, none
    -- from it on is.
    pub lower_bound-IsLowerBound : IsLowerBound (lower_bound cmp es target)
    unfolding lower_bound
    lower_bound-IsLowerBound =
        lower_loop-IsLowerBound (length es) 0 (length es) (omega arith) (omega arith) (omega arith)
          (λ j h. absurd (omega arith)) (λ j a b. absurd (omega arith))

    upper_loop-IsUpperBound :
        (fuel l r : ℕ)
        → r < fuel + l + 1
        → l ≤ r
        → 1 ≤ l
        → r ≤ length es
        → ((j : ℕ) → 1 ≤ j → j < l → cmp target (key_at es j) ≢ Ordering.lt)
        → ((j : ℕ) → r ≤ j → 1 ≤ j → j < length es → cmp target (key_at es j) ≡ Ordering.lt)
        → IsUpperBound (upper_loop cmp es target fuel l r)
    unfolding upper_loop
    upper_loop-IsUpperBound zero l r enough le one inside low high = record {
      inside = inside;
      before = λ j a b. low j a (omega arith);
      after = high;
    }
    upper_loop-IsUpperBound (suc fuel) l r enough le one inside low high =
        elim (Bool-cases (ltb l r)) [
          | inl less ↦
              let mid = (l + r) / 2 in
              let lt = ltb→lt l r less in
              elim (Bool-cases (is_lt (cmp target (key_at es mid)))) [
                | inl smaller ↦
                    let rest =
                      upper_loop-IsUpperBound fuel l mid (omega arith) (omega arith) one
                        (omega arith) low (λ j a b c. lt_after mid (is_lt_eq _ smaller) j a c) in
                    rw (less, smaller, upper_loop) rest
                | inr other ↦
                    let rest =
                      upper_loop-IsUpperBound fuel (mid + 1) r (omega arith) (omega arith)
                        (omega arith) inside
                        (λ j a h.
                          not_lt_before mid (omega arith) (is_lt_ne _ other) j (omega arith))
                        high in
                    rw (less, other, upper_loop) rest
              ]
          | inr done ↦
              let e = ltb-false→le l r done in
              rw (done, upper_loop)
                (record { inside = inside; before = λ j a b. low j a (omega arith); after = high })
        ]

    -- Under a comparison that orders keys, in a sorted node with an entry, upper_bound ends with
    -- the first position from 1 on whose key is above the target, or with the number of keys.
    pub upper_bound-IsUpperBound : 0 < length es → IsUpperBound (upper_bound cmp es target)
    unfolding upper_bound
    upper_bound-IsUpperBound some_there =
        upper_loop-IsUpperBound (length es) 1 (length es) (omega arith) some_there (omega arith)
          (omega arith) (λ j a h. absurd (omega arith)) (λ j a b c. absurd (omega arith))
