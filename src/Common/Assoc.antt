-- ===== src/Common/Assoc.antt =====
-- `std::unordered_map` as an association list under the key's `operator==`. The order of the list
-- stands for the map's iteration order, on which no theorem depends.
use mathlib.Core.Path.{◌≡◌, refl}
use mathlib.Core.Bool.{Bool, true, false}
use mathlib.Core.List.{List, [], ◌∷◌}
use mathlib.Core.Option.{Option, none, some}
use native.Mathlib.Omega.{arith}
use mathlib.Core.Path.{subst}
use mathlib.Core.Logic.{inl, inr}
use cscc_db_rucbase.Common.Tests.{if◌then◌else◌, Bool-cases}
use cscc_db_rucbase.Common.Lists.{All}

module _ {ℓ κ} {K : Type ℓ} {V : Type κ} (eq : K → K → Bool) where
  -- `find`, as the value found.
  unfoldable pub find : K → List (K × V) → Option V
  find k [] = none
  find k ((j, v) ∷ m) = if eq j k then some v else find k m

  -- `m[k] = v`.
  unfoldable pub store : K → V → List (K × V) → List (K × V)
  store k v [] = (k, v) ∷ []
  store k v ((j, w) ∷ m) = if eq j k then (j, v) ∷ m else (j, w) ∷ store k v m

  -- `erase(k)`; a map has no key twice.
  unfoldable pub erase_key : K → List (K × V) → List (K × V)
  erase_key k [] = []
  erase_key k ((j, w) ∷ m) = let rest = erase_key k m in if eq j k then rest else (j, w) ∷ rest

  pub find-store_self :
      ((a : K) → eq a a ≡ true) → (k : K) (v : V) (m : List (K × V)) → find k (store k v m) ≡ some v
  unfolding find store
  find-store_self r k v [] = ground (arith, r k)
  find-store_self r k v ((j, w) ∷ m) = ground (arith, find-store_self r k v m)

  -- A write leaves every key alone that the map tells apart from the written one.
  pub find-store_ne :
      ((a b c : K) → eq a b ≡ true → eq a c ≡ true → eq b c ≡ true)
      → (k q : K) (v : V) (m : List (K × V)) → eq k q ≡ false
      → find q (store k v m) ≡ find q m
  unfolding find store
  find-store_ne t k q v [] h = ground arith
  find-store_ne t k q v ((j, w) ∷ m) h = ground (arith, t j k q, find-store_ne t k q v m h)

  pub find-erase_key_self :
      ((a b c : K) → eq a b ≡ true → eq a c ≡ true → eq b c ≡ true)
      → (k : K) (m : List (K × V)) → find k (erase_key k m) ≡ none
  unfolding find erase_key
  find-erase_key_self t k [] = refl
  find-erase_key_self t k ((j, w) ∷ m) = ground (arith, find-erase_key_self t k m)

  pub find-erase_key_ne :
      ((a b c : K) → eq a b ≡ true → eq a c ≡ true → eq b c ≡ true)
      → (k q : K) (m : List (K × V)) → eq k q ≡ false
      → find q (erase_key k m) ≡ find q m
  unfolding find erase_key
  find-erase_key_ne t k q [] h = refl
  find-erase_key_ne t k q ((j, w) ∷ m) h = ground (arith, t j k q, find-erase_key_ne t k q m h)

  -- What holds of all values goes on to hold when a value of which it holds is stored or one leaves.
  module _ {μ} (P : V → Type μ) where
    pub All-store :
        (k : K) (v : V) (m : List (K × V))
        → All (λ e. P e.1) m
        → P v
        → All (λ e. P e.1) (store k v m)
    unfolding store
    All-store k v [] a p = (p, tt)
    All-store k v ((j, w) ∷ m) a p = elim (Bool-cases (eq j k)) [
      | inl same ↦ rw (same, store) (p, a.1)
      | inr other ↦ rw (other, store) (a.0, All-store k v m a.1 p)
    ]

    pub All-erase_key :
        (k : K) (m : List (K × V)) → All (λ e. P e.1) m → All (λ e. P e.1) (erase_key k m)
    unfolding erase_key
    All-erase_key k [] a = tt
    All-erase_key k ((j, w) ∷ m) a = elim (Bool-cases (eq j k)) [
      | inl same ↦ rw (same, erase_key) (All-erase_key k m a.1)
      | inr other ↦ rw (other, erase_key) (a.0, All-erase_key k m a.1)
    ]

    pub All-found :
        (k : K) (v : V) (m : List (K × V)) → All (λ e. P e.1) m → find k m ≡ some v → P v
    unfolding find
    All-found k v [] a h = cc
    All-found k v ((j, w) ∷ m) a h = elim (Bool-cases (eq j k)) [
      | inl same ↦
          let found : some w ≡ some v = (rw (same, find) at h) in
          let here : w ≡ v = cc in subst P here a.0
      | inr other ↦ All-found k v m a.1 (rw (other, find) at h)
    ]
