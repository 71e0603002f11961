-- ===== src/Transaction/LockDataId.antt =====
-- `Rid`, `ColMeta`, `IndexMeta` and `LockDataId` with their `operator==`, from defs.h,
-- system/sm_meta.h and transaction/txn_defs.h. File descriptors, page and slot numbers of lock ids
-- are not negative.
use Prim.Native.String.{String}
use text.Mathlib.Text.{◌==◌ as str_eq}
use text.Mathlib.TextEquality.{eq_iff}
use cscc_db_rucbase.Common.{ℕ, ◌≡◌, refl, Bool, true, false, ◌&&◌, List, [], ◌∷◌, ◌==◌, ==_refl}
use cscc_db_rucbase.Gap.Compare.{Gap, ColType}

pub record Rid : Type 0 where
  pub page_no : ℕ
  pub slot_no : ℕ

abbrev pub rid_eq : Rid → Rid → Bool
rid_eq a b = (a.page_no == b.page_no) && (a.slot_no == b.slot_no)

pub record ColMeta : Type 0 where
  pub tab_name : String
  pub name : String
  pub type : ColType
  pub len : ℕ
  pub offset : ℕ

-- The columns are equal by the names of their table and themselves alone.
unfoldable pub col_meta_eq : ColMeta → ColMeta → Bool
col_meta_eq a b = str_eq a.tab_name b.tab_name && str_eq a.name b.name

-- `cols_map` is a copy of `cols` by name, and is left out.
pub record IndexMeta : Type 0 where
  pub tab_name : String
  pub col_tot_len : ℕ
  pub col_num : ℕ
  pub cols : List (ℕ × ColMeta)

unfoldable pub cols_eq : List (ℕ × ColMeta) → List (ℕ × ColMeta) → Bool
unfolding col_meta_eq
cols_eq [] [] = true
cols_eq ((i, a) ∷ cs) ((j, b) ∷ ds) = (i == j) && (col_meta_eq a b && cols_eq cs ds)
cols_eq _ _ = false

unfoldable pub index_meta_eq : IndexMeta → IndexMeta → Bool
unfolding cols_eq
index_meta_eq a b =
    str_eq a.tab_name b.tab_name
    && ((a.col_tot_len == b.col_tot_len) && ((a.col_num == b.col_num) && cols_eq a.cols b.cols))

-- The three constructors of the class, one for each `LockDataType`.
pub data LockDataId : Type 0 where
  table : ℕ → LockDataId
  record_lock : ℕ → Rid → LockDataId
  gap_lock : ℕ → IndexMeta → Gap → LockDataId

-- The ids of gaps compare the hashes of the gaps, with `std::hash<Gap>` a parameter: its leaves are
-- the standard library's hashes. Two table ids both hold the default index and gap.
unfoldable pub lock_data_id_eq : (Gap → ℕ) → LockDataId → LockDataId → Bool
lock_data_id_eq gap_hasher (table f) (table g) = f == g
lock_data_id_eq gap_hasher (record_lock f a) (record_lock g b) = (f == g) && rid_eq a b
lock_data_id_eq gap_hasher (gap_lock f i a) (gap_lock g j b) =
    (f == g) && (index_meta_eq i j && (gap_hasher a == gap_hasher b))
lock_data_id_eq gap_hasher _ _ = false

str_eq_refl : (t : String) → str_eq t t ≡ true
str_eq_refl t = (eq_iff t t).1 refl

cols_eq_refl : (cs : List (ℕ × ColMeta)) → cols_eq cs cs ≡ true
unfolding cols_eq
cols_eq_refl [] = refl
cols_eq_refl ((i, c) ∷ cs) = simp (==_refl, str_eq_refl, cols_eq_refl cs)

pub index_meta_eq_refl : (i : IndexMeta) → index_meta_eq i i ≡ true
unfolding index_meta_eq
index_meta_eq_refl i = simp (==_refl, str_eq_refl, cols_eq_refl)

pub lock_data_id_eq_refl :
    (gap_hasher : Gap → ℕ) (d : LockDataId) → lock_data_id_eq gap_hasher d d ≡ true
unfolding lock_data_id_eq
lock_data_id_eq_refl gap_hasher (table f) = ==_refl f
lock_data_id_eq_refl gap_hasher (record_lock f a) = simp ==_refl
lock_data_id_eq_refl gap_hasher (gap_lock f i g) = simp (==_refl, index_meta_eq_refl)
