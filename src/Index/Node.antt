-- ===== src/Index/Node.antt =====
-- `IxNodeHandle` of index/ix_index_handle.{h,cpp}: the sorted keys of one node, each with its rid. A
-- key is its bytes. The arrays of keys and rids up to `num_key` are one list of pairs; a `memmove` in
-- both makes or closes a gap in it. What lies past `num_key` is never read, but by code that asks for
-- it out of range, and is empty here.
pub mod Search
pub mod Update
pub mod Place
pub mod AsMap
use Prim.Native.Nat.{Ordering}
use cscc_db_rucbase.Common.{
  ℕ, zero, suc, ◌+◌, ◌-◌, ◌/◌, Bool, true, false, ◌&&◌, ◌||◌, List, [], ◌∷◌, ◌++◌, Option, none,
  some, ltb, ◌==◌, if◌then◌else◌, length, ℤ, pos, negsuc,
}
use cscc_db_rucbase.Transaction.LockDataId.{Rid}
use cscc_db_rucbase.Gap.Compare.{ColType, compare, drop, is_eq, is_gt, is_lt}

abbrev pub Key : Type 0
Key = List ℕ

abbrev pub Entry : Type 0
Entry = Key × Rid

-- `get_key(i)` and `get_rid(i)`.
unfoldable pub key_at : List Entry → ℕ → Key
key_at [] i = []
key_at ((k, r) ∷ es) zero = k
key_at ((k, r) ∷ es) (suc i) = key_at es i

unfoldable pub rid_at : List Entry → ℕ → Rid
rid_at [] i = record { page_no = 0; slot_no = 0 }
rid_at ((k, r) ∷ es) zero = r
rid_at ((k, r) ∷ es) (suc i) = rid_at es i

-- `ix_compare` over the columns of the index, each with its type and length.
unfoldable pub ix_compare : (List ℕ → List ℕ → Ordering) → List (ColType × ℕ) → Key → Key → Ordering
ix_compare compare_float [] a b = Ordering.eq
ix_compare compare_float ((type, len) ∷ cols) a b =
    let res = compare compare_float a b len type in
    let rest = ix_compare compare_float cols (drop len a) (drop len b) in
    if is_eq res then rest else res

pub data Operation : Type 0 where
  find insert delete : Operation

-- `isSafe`: no split or merge can come of the operation. `max_size` is `btree_order_ + 1`.
unfoldable pub is_safe : ℕ → Bool → Operation → List Entry → Bool
is_safe max_size is_root_page insert es = ltb (length es + 1) max_size
is_safe max_size is_root_page delete es = ltb (if is_root_page then 2 else max_size / 2) (length es)
is_safe max_size is_root_page find es = true

abbrev pub push_front : Entry → Option (List Entry) → Option (List Entry)
push_front e none = none
push_front e (some rest) = some (e ∷ rest)

-- `insert_pairs` at a position of the node; `none` is the IndexEntryNotFoundError.
unfoldable pub insert_pairs : ℕ → List Entry → List Entry → Option (List Entry)
insert_pairs zero new es = some (new ++ es)
insert_pairs (suc i) new [] = none
insert_pairs (suc i) new (e ∷ es) = push_front e (insert_pairs i new es)

-- `erase_pair`.
unfoldable pub erase_pair : ℕ → List Entry → Option (List Entry)
erase_pair i [] = none
erase_pair zero (e ∷ es) = some es
erase_pair (suc i) (e ∷ es) = push_front e (erase_pair i es)

abbrev pub next_position : Option ℕ → Option ℕ
next_position none = none
next_position (some i) = some (suc i)

-- `find_child`, the first entry that points to the page; `none` is the failed assertion.
unfoldable pub find_child : ℕ → List Entry → Option ℕ
find_child page_no [] = none
find_child page_no ((k, r) ∷ es) =
    let rest = next_position (find_child page_no es) in
    if r.page_no == page_no then some 0 else rest

-- `remove_and_return_only_child`; `none` is a failed assertion.
unfoldable pub remove_and_return_only_child : List Entry → Option (ℕ × List Entry)
remove_and_return_only_child [] = none
remove_and_return_only_child ((k, r) ∷ []) = some (r.page_no, [])
remove_and_return_only_child (e ∷ e' ∷ es) = none

module _ (cmp : Key → Key → Ordering) where
  -- The loop of `lower_bound`. Each round shrinks the range, so its size is fuel enough.
  unfoldable pub lower_loop : List Entry → Key → ℕ → ℕ → ℕ → ℕ
  lower_loop es target zero l r = l
  lower_loop es target (suc fuel) l r =
      let mid = (l + r) / 2 in
      let right = lower_loop es target fuel (mid + 1) r in
      let left = lower_loop es target fuel l mid in
      let half = if is_gt (cmp target (key_at es mid)) then right else left in
      if ltb l r then half else l

  unfoldable pub lower_bound : List Entry → Key → ℕ
  unfolding lower_loop
  lower_bound es target = lower_loop es target (length es) 0 (length es)

  -- The loop of `upper_bound`, and its start at 1. The result is `r`, which is 0 in an empty node.
  unfoldable pub upper_loop : List Entry → Key → ℕ → ℕ → ℕ → ℕ
  upper_loop es target zero l r = r
  upper_loop es target (suc fuel) l r =
      let mid = (l + r) / 2 in
      let right = upper_loop es target fuel (mid + 1) r in
      let left = upper_loop es target fuel l mid in
      let half = if is_lt (cmp target (key_at es mid)) then left else right in
      if ltb l r then half else r

  unfoldable pub upper_bound : List Entry → Key → ℕ
  unfolding upper_loop
  upper_bound es target = upper_loop es target (length es) 1 (length es)

  -- Whether the key at a position is the one looked for.
  abbrev pub is_at : List Entry → Key → ℕ → Bool
  is_at es key i = ltb i (length es) && is_eq (cmp key (key_at es i))

  unfoldable pub leaf_lookup : Key → List Entry → Option Rid
  unfolding lower_bound
  leaf_lookup key es =
      let i = lower_bound es key in if is_at es key i then some (rid_at es i) else none

  -- The page number of the child, `value_at(upper_bound(key) - 1)`.
  unfoldable pub internal_lookup : Key → List Entry → ℕ
  unfolding upper_bound
  internal_lookup key es = (rid_at es (upper_bound es key - 1)).page_no

  -- The new entries and the position, which is `none` if the key is there: the code's -1.
  abbrev inserted : List Entry → ℕ → Option (List Entry) → List Entry × Option ℕ
  inserted es i none = (es, none)
  inserted es i (some es') = (es', some i)

  unfoldable pub insert_entry : Key → Rid → List Entry → List Entry × Option ℕ
  unfolding lower_bound
  insert_entry key value es =
      let i = lower_bound es key in
      if is_at es key i then (es, none) else inserted es i (insert_pairs i ((key, value) ∷ []) es)

  abbrev erased : List Entry → Option (List Entry) → List Entry
  erased es none = es
  erased es (some es') = es'

  -- The entries and the position.
  unfoldable pub remove : Key → List Entry → List Entry × ℕ
  unfolding lower_bound
  remove key es =
      let i = lower_bound es key in
      ((if is_at es key i then erased es (erase_pair i es) else es), i)
