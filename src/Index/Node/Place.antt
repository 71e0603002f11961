-- ===== src/Index/Node/Place.antt =====
-- The place of a key in a sorted node, and the node with a pair put in there.
use Prim.Native.Nat.{Ordering}
use cscc_db_rucbase.Common.{
  ℕ, zero, suc, ◌-◌, ◌≤◌, ◌<◌, true, false, List, ltb, ltb→lt, ltb-false→le, ◌==◌, ◌≡◌, ◌≢◌, arith,
  length, Bool-cases, inl, inr, subst, none, some,
}
use cscc_db_rucbase.Transaction.LockDataId.{Rid}
use cscc_db_rucbase.Gap.Compare.{is_eq}
use cscc_db_rucbase.Index.Node.{Key, Entry, key_at, rid_at, lower_bound, is_at}
use cscc_db_rucbase.Index.Node.Search.{
  IsOrder, IsSorted, IsLowerBound, lower_bound-IsLowerBound, lt_after,
}
use cscc_db_rucbase.Index.Node.Update.{
  entry_of, entry_of_found, entry_of-none, is_eq_lem, lt_of_rest, gt_ne, lt_ne, insert_at,
  length-insert_at, insert_at_low, insert_at_mid, insert_at_high,
}

module _ (cmp : Key → Key → Ordering) (order : IsOrder cmp) (es : List Entry)
    (sorted : IsSorted cmp es) (key : Key) where
  abbrev place : ℕ
  place = lower_bound cmp es key

  pub bound : IsLowerBound cmp es key place
  bound = lower_bound-IsLowerBound cmp es key order sorted

  pub before_ne : (j : ℕ) → j < place → cmp key (key_at es j) ≢ Ordering.eq
  before_ne j h = gt_ne _ (bound.before j h)

  -- The key is there.
  pub found_lem :
      is_at cmp es key place ≡ true
      → (place < length es) × (cmp key (key_at es place) ≡ Ordering.eq)
  found_lem h = (ground arith, is_eq_lem _ (ground arith))

  pub entry_found : is_at cmp es key place ≡ true → entry_of cmp key es ≡ some (rid_at es place)
  entry_found h = let f = found_lem h in entry_of_found cmp key es place before_ne f.0 f.1

  -- The key is not there, and is below all from its place on.
  after_lt :
      is_at cmp es key place ≡ false
      → (j : ℕ) → place ≤ j
      → j < length es
      → cmp key (key_at es j) ≡ Ordering.lt
  after_lt h j le inside =
      let no_eq : is_eq (cmp key (key_at es place)) ≡ false = ground arith in
      let first = lt_of_rest _ (bound.after place (omega arith) (omega arith)) no_eq in
      lt_after cmp es key order sorted place first j le inside

  pub entry_missing : is_at cmp es key place ≡ false → entry_of cmp key es ≡ none
  entry_missing h = entry_of-none cmp key es (λ j inside. elim (Bool-cases (ltb j place)) [
    | inl low ↦ before_ne j (ltb→lt _ _ low)
    | inr high ↦ lt_ne _ (after_lt h j (ltb-false→le _ _ high) inside)
  ])

  abbrev grown : Rid → List Entry
  grown value = insert_at place (key, value) es

  -- An entry of the new list against an old one at or behind the place, to its right.
  below_lem :
      (value : Rid)
      → is_at cmp es key place ≡ false
      → (a b : ℕ) → a < suc b
      → place ≤ b
      → b < length es
      → cmp (key_at (grown value) a) (key_at es b) ≡ Ordering.lt
  below_lem value missing a b less le inside = elim (Bool-cases (ltb a place)) [
    | inl low ↦
        let h = ltb→lt _ _ low in
        rw (insert_at_low place (key, value) es a bound.inside h) (sorted a b (omega arith) inside)
    | inr high ↦ at_or_behind a less (ltb-false→le _ _ high)
  ]
    where
      at_or_behind :
          (a : ℕ) → a < suc b → place ≤ a → cmp (key_at (grown value) a) (key_at es b) ≡ Ordering.lt
      at_or_behind a less h = elim (Bool-cases (a == place)) [
        | inl same ↦
            let e : place ≡ a = ground arith in
            let here =
              subst (λ z. key_at (grown value) z ≡ key) e
                (insert_at_mid place (key, value) es bound.inside) in
            rw here (after_lt missing b le inside)
        | inr apart ↦
            let e : suc (a - 1) ≡ a = ground arith in
            let here = insert_at_high place (key, value) es (a - 1) bound.inside (ground arith) in
            rw (← e) (rw here (sorted (a - 1) b (ground arith) inside))
      ]

  pub grown-IsSorted : (value : Rid) → is_at cmp es key place ≡ false → IsSorted cmp (grown value)
  grown-IsSorted value missing a b less inside =
      let size = length-insert_at place (key, value) es in
      elim (Bool-cases (ltb b place)) [
        | inl b_low ↦
            let hb = ltb→lt _ _ b_low in
            rw
              (
                insert_at_low place (key, value) es b bound.inside hb,
                insert_at_low place (key, value) es a bound.inside (omega arith),
              )
              (sorted a b less (omega (arith, bound.inside)))
        | inr b_high ↦ above_place a b less inside (ltb-false→le _ _ b_high)
      ]
    where
      above_place :
          (a b : ℕ)
          → a < b
          → b < length (grown value)
          → place ≤ b
          → cmp (key_at (grown value) a) (key_at (grown value) b) ≡ Ordering.lt
      above_place a zero less inside le = absurd (omega arith)
      above_place a (suc b) less inside le = elim (Bool-cases (ltb place (suc b))) [
        | inl b_above ↦
            let hb = ltb→lt _ _ b_above in
            let inside_b : b < length es = omega (arith, length-insert_at place (key, value) es) in
            rw (insert_at_high place (key, value) es b bound.inside (omega arith))
              (below_lem value missing a b (omega arith) (omega arith) inside_b)
        | inr b_here ↦
            let e : place ≡ suc b = ground arith in
            let here =
              subst (λ z. key_at (grown value) z ≡ key) e
                (insert_at_mid place (key, value) es bound.inside) in
            rw (here, insert_at_low place (key, value) es a bound.inside (omega arith))
              (order.flip key (key_at es a) (bound.before a (omega arith)))
      ]
