-- ===== src/Index/Tests.antt =====
-- Instances of the theorems on nodes, for an index on one column of integers.
use Prim.Native.Nat.{Ordering}
use cscc_db_rucbase.Common.{ℕ, zero, suc, List, [], ◌∷◌, ◌≡◌, refl, arith, ◌∙◌}
use cscc_db_rucbase.Gap.Compare.{type_int, compare, compare_int, int_at}
use cscc_db_rucbase.Transaction.LockDataId.{Rid}
use cscc_db_rucbase.Index.Node.{
  Key, Entry, ix_compare, key_at, lower_bound, upper_bound, leaf_lookup, insert_entry, remove,
}
use cscc_db_rucbase.Index.Node.Search.{
  IsOrder, IsSorted, IsLowerBound, IsUpperBound, lower_bound-IsLowerBound, upper_bound-IsUpperBound,
}
use cscc_db_rucbase.Index.Node.Update.{entry_of}
use cscc_db_rucbase.Index.Node.AsMap.{
  leaf_lookup-entry_of, InsertResult, insert_entry-InsertResult, RemoveResult, remove-RemoveResult,
}

abbrev no_floats : List ℕ → List ℕ → Ordering
no_floats a b = Ordering.eq

abbrev by_int : Key → Key → Ordering
by_int = ix_compare no_floats ((type_int, 4) ∷ [])

by_int_lem : (a b : Key) → by_int a b ≡ compare_int (int_at a) (int_at b)
unfolding ix_compare compare
by_int_lem a b = ground arith

by_int-IsOrder : IsOrder by_int
unfolding compare_int
by_int-IsOrder = record {
  same = λ a. by_int_lem a a ∙ ground arith;
  flip = λ a b h. ground (arith, by_int_lem a b, by_int_lem b a);
  below = λ a b c h k. ground (arith, by_int_lem a b, by_int_lem b c, by_int_lem a c);
  alike = λ a b c h. ground (arith, by_int_lem a b, by_int_lem c b, by_int_lem c a);
  above = λ a b c h k. ground (arith, by_int_lem a b, by_int_lem c b, by_int_lem a c);
}

abbrev key_of : ℕ → Key
key_of n = n ∷ 0 ∷ 0 ∷ 0 ∷ []

abbrev first_rid : Rid
first_rid = record { page_no = 1; slot_no = 0 }

abbrev second_rid : Rid
second_rid = record { page_no = 1; slot_no = 1 }

abbrev two_entries : List Entry
two_entries = (key_of 1, first_rid) ∷ (key_of 5, second_rid) ∷ []

two_entries-IsSorted : IsSorted by_int two_entries
unfolding ix_compare compare compare_int int_at key_at
two_entries-IsSorted zero zero less inside = absurd (omega arith)
two_entries-IsSorted zero (suc zero) less inside = refl
two_entries-IsSorted zero (suc (suc j)) less inside = absurd (omega arith)
two_entries-IsSorted (suc i) zero less inside = absurd (omega arith)
two_entries-IsSorted (suc i) (suc zero) less inside = absurd (omega arith)
two_entries-IsSorted (suc i) (suc (suc j)) less inside = absurd (omega arith)

lower_bound-IsLowerBound_example :
    IsLowerBound by_int two_entries (key_of 3) (lower_bound by_int two_entries (key_of 3))
lower_bound-IsLowerBound_example =
    lower_bound-IsLowerBound by_int two_entries (key_of 3) by_int-IsOrder two_entries-IsSorted

upper_bound-IsUpperBound_example :
    IsUpperBound by_int two_entries (key_of 3) (upper_bound by_int two_entries (key_of 3))
upper_bound-IsUpperBound_example =
    upper_bound-IsUpperBound by_int two_entries (key_of 3) by_int-IsOrder two_entries-IsSorted
      (omega arith)

leaf_lookup-entry_of_example :
    leaf_lookup by_int (key_of 5) two_entries ≡ entry_of by_int (key_of 5) two_entries
leaf_lookup-entry_of_example =
    leaf_lookup-entry_of by_int by_int-IsOrder two_entries two_entries-IsSorted (key_of 5)

insert_entry-InsertResult_example :
    InsertResult by_int two_entries
      (insert_entry by_int (key_of 3) first_rid two_entries)
      (key_of 3)
      first_rid
      (entry_of by_int (key_of 3) two_entries)
insert_entry-InsertResult_example =
    insert_entry-InsertResult by_int by_int-IsOrder two_entries two_entries-IsSorted (key_of 3)
      first_rid

remove-RemoveResult_example :
    RemoveResult by_int two_entries
      (remove by_int (key_of 5) two_entries).0
      (key_of 5)
      (entry_of by_int (key_of 5) two_entries)
remove-RemoveResult_example =
    remove-RemoveResult by_int by_int-IsOrder two_entries two_entries-IsSorted (key_of 5)
