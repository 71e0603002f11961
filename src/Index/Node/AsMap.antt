-- ===== src/Index/Node/AsMap.antt =====
-- A sorted node is a map from keys to rids: look-up, insertion and removal against the plain search.
use Prim.Native.Nat.{Ordering}
use cscc_db_rucbase.Common.{
  ℕ, suc, ◌<◌, false, List, ltb, ltb→lt, ltb-false→le, ◌≡◌, ◌≢◌, refl, sym, ap, ◌∙◌, arith, length,
  Bool-cases, inl, inr, Option, none, some,
}
use cscc_db_rucbase.Transaction.LockDataId.{Rid}
use cscc_db_rucbase.Index.Node.{
  Key, Entry, key_at, lower_bound, leaf_lookup, is_at, insert_entry, remove,
}
use cscc_db_rucbase.Index.Node.Search.{IsOrder, IsSorted, IsLowerBound}
use cscc_db_rucbase.Index.Node.Update.{
  entry_of, entry_of_found, entry_of-none, lt_ne, insert_at, erase_at, insert_pairs-insert_at,
  erase_pair-erase_at, length-insert_at, length-erase_at, insert_at_low, insert_at_mid,
  insert_at_rid, erase_at_low, erase_at_high, entry_of-insert_at, entry_of-erase_at,
}
use cscc_db_rucbase.Index.Node.Place.{
  bound, before_ne, found_lem, entry_found, entry_missing, grown-IsSorted,
}

-- What an insertion makes of a node: the entries it has afterwards, and what they say of each key.
pub record Inserted (cmp : Key → Key → Ordering) (es es' : List Entry) (key : Key) (value : Rid)
    : Type 0 where
  pub sorted : IsSorted cmp es'
  pub size : length es' ≡ suc (length es)
  pub here : entry_of cmp key es' ≡ some value
  pub others : (q : Key) → cmp q key ≢ Ordering.eq → entry_of cmp q es' ≡ entry_of cmp q es

pub record Removed (cmp : Key → Key → Ordering) (es es' : List Entry) (key : Key) : Type 0 where
  pub sorted : IsSorted cmp es'
  pub size : suc (length es') ≡ length es
  pub here : entry_of cmp key es' ≡ none
  pub others : (q : Key) → cmp q key ≢ Ordering.eq → entry_of cmp q es' ≡ entry_of cmp q es

-- Either the key is there, and nothing changes, or it is put in.
abbrev pub InsertResult :
    (Key → Key → Ordering) → List Entry → List Entry × Option ℕ → Key → Rid → Option Rid → Type 0
InsertResult cmp es (es', pos) key value (some r) = (es' ≡ es) × (pos ≡ none)
InsertResult cmp es (es', pos) key value none = Inserted cmp es es' key value × (pos ≢ none)

abbrev pub RemoveResult :
    (Key → Key → Ordering) → List Entry → List Entry → Key → Option Rid → Type 0
RemoveResult cmp es es' key none = es' ≡ es
RemoveResult cmp es es' key (some r) = Removed cmp es es' key

module _ (cmp : Key → Key → Ordering) (order : IsOrder cmp) (es : List Entry)
    (sorted : IsSorted cmp es) (key : Key) where
  abbrev i : ℕ
  i = lower_bound cmp es key

  -- Under a comparison that orders keys, in a sorted node, leaf_lookup gives what the plain search
  -- through all entries gives.
  pub leaf_lookup-entry_of : leaf_lookup cmp key es ≡ entry_of cmp key es
  unfolding leaf_lookup
  leaf_lookup-entry_of = elim (Bool-cases (is_at cmp es key i)) [
    | inl there ↦ rw there (sym (entry_found cmp order es sorted key there))
    | inr missing ↦ rw missing (sym (entry_missing cmp order es sorted key missing))
  ]

  lower : IsLowerBound cmp es key i
  lower = bound cmp order es sorted key

  new-Inserted :
      (value : Rid)
      → is_at cmp es key i ≡ false
      → Inserted cmp es (insert_at i (key, value) es) key value
  new-Inserted value missing = record {
    sorted = grown-IsSorted cmp order es sorted key value missing;
    size = length-insert_at i (key, value) es;
    here =
        entry_of_found cmp key (insert_at i (key, value) es) i
          (λ j h.
            rw (insert_at_low i (key, value) es j lower.inside h)
              (before_ne cmp order es sorted key j h))
          (omega (arith, length-insert_at i (key, value) es, lower.inside))
          (rw (insert_at_mid i (key, value) es lower.inside) (order.same key))
        ∙ ap some (insert_at_rid i (key, value) es lower.inside);
    others = λ q ne. entry_of-insert_at cmp q i (key, value) es ne;
  }

  some_ne : (n : ℕ) → some n ≢ none
  some_ne n = λ e. cc

  -- Under a comparison that orders keys, in a sorted node, insert changes nothing and gives no
  -- position if the key is there; otherwise the node stays sorted, the key has the new rid, every
  -- other key keeps its own, and one entry is added.
  pub insert_entry-InsertResult :
      (value : Rid)
      → InsertResult cmp es (insert_entry cmp key value es) key value (entry_of cmp key es)
  unfolding insert_entry
  insert_entry-InsertResult value = elim (Bool-cases (is_at cmp es key i)) [
    | inl there ↦ rw (there, entry_found cmp order es sorted key there) (refl, refl)
    | inr missing ↦
        rw
          (
            missing,
            entry_missing cmp order es sorted key missing,
            insert_pairs-insert_at i (key, value) es lower.inside,
          )
          (new-Inserted value missing, some_ne i)
  ]

  -- An entry behind one that compares equal does not.
  behind_ne :
      cmp key (key_at es i) ≡ Ordering.eq
      → (j : ℕ) → i < j
      → j < length es
      → cmp key (key_at es j) ≢ Ordering.eq
  behind_ne here j less inside = λ e.
      let rising = sorted i j less inside in
      let a = order.alike key (key_at es j) (key_at es i) e in
      let b = order.alike key (key_at es i) (key_at es i) here in
      let self = order.same (key_at es i) in
      lt_ne (cmp (key_at es i) (key_at es j)) rising (a ∙ sym b ∙ self)

  erased-IsSorted : i < length es → IsSorted cmp (erase_at i es)
  erased-IsSorted there a b less inside =
      let size = length-erase_at i es there in
      elim (Bool-cases (ltb b i)) [
        | inl low ↦
            let h = ltb→lt _ _ low in
            rw (erase_at_low i es b h, erase_at_low i es a (omega arith))
              (sorted a b less (omega arith))
        | inr high ↦
            let h = ltb-false→le _ _ high in
            rw (erase_at_high i es b h) (elim (Bool-cases (ltb a i)) [
              | inl a_low ↦
                  let ha = ltb→lt _ _ a_low in
                  rw (erase_at_low i es a ha) (sorted a (suc b) (omega arith) (omega arith))
              | inr a_high ↦
                  rw (erase_at_high i es a (ltb-false→le _ _ a_high))
                    (sorted (suc a) (suc b) (omega arith) (omega arith))
            ])
      ]

  old-Removed :
      i < length es → cmp key (key_at es i) ≡ Ordering.eq → Removed cmp es (erase_at i es) key
  old-Removed there here = record {
    sorted = erased-IsSorted there;
    size = length-erase_at i es there;
    here = entry_of-none cmp key (erase_at i es) (λ j inside. elim (Bool-cases (ltb j i)) [
      | inl low ↦
          let h = ltb→lt _ _ low in
          rw (erase_at_low i es j h) (before_ne cmp order es sorted key j h)
      | inr high ↦
          let h = ltb-false→le _ _ high in
          rw (erase_at_high i es j h)
            (behind_ne here (suc j) (omega arith) (omega (arith, length-erase_at i es there)))
    ]);
    others = λ q ne.
        entry_of-erase_at cmp q i es (λ e. ne (sym (order.alike key (key_at es i) q here) ∙ e));
  }

  -- Under a comparison that orders keys, in a sorted node, remove changes nothing if the key is not
  -- there; otherwise the node stays sorted, the key is gone, every other key keeps its rid, and
  -- there is one entry less.
  pub remove-RemoveResult : RemoveResult cmp es (remove cmp key es).0 key (entry_of cmp key es)
  unfolding remove
  remove-RemoveResult = elim (Bool-cases (is_at cmp es key i)) [
    | inl there ↦
        let f = found_lem cmp order es sorted key there in
        rw (there, entry_found cmp order es sorted key there, erase_pair-erase_at i es f.0)
          (old-Removed f.0 f.1)
    | inr missing ↦ rw (missing, entry_missing cmp order es sorted key missing) refl
  ]
