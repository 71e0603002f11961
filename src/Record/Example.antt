-- ===== src/Record/Example.antt =====
-- A small file, on which the theorems are tried.
use cscc_db_rucbase.Common.{
  ℕ, ◌<◌, Bool, true, List, [], ◌∷◌, some, ◌≡◌, refl, arith, pos, negsuc, has_bit, slice,
}
use cscc_db_rucbase.Transaction.LockDataId.{Rid}
use cscc_db_rucbase.Record.Bitmap.{is_set}
use cscc_db_rucbase.Record.Bitmap.Count.{count_set}
use cscc_db_rucbase.Record.File.{RmFileHdr, RmPage, RmFile}
use cscc_db_rucbase.Record.File.Page.{IsPage}
use cscc_db_rucbase.Record.File.Invariant.{IsFile, record_at}

-- Three slots of two bytes, of which slot 1 is taken.
abbrev pub small_hdr : RmFileHdr
small_hdr = record {
  record_size = 2;
  num_pages = 2;
  num_records_per_page = 3;
  first_free_page_no = pos 1;
  bitmap_size = 1;
}

abbrev pub small_page : RmPage
small_page = record {
  next_free_page_no = negsuc 0;
  num_records = pos 1;
  bitmap = 64 ∷ [];
  slots = 0 ∷ 0 ∷ 7 ∷ 8 ∷ 0 ∷ 0 ∷ [];
}

abbrev pub small_file : RmFile
small_file = record { hdr = small_hdr; pages = λ n. small_page; next_page_no = 2; pinned = [] }

abbrev pub always : List ℕ → ℕ → Bool
always pins n = true

abbrev pub taken_place : Rid
taken_place = record { page_no = 1; slot_no = 1 }

abbrev pub free_place : Rid
free_place = record { page_no = 1; slot_no = 0 }

small_page-IsPage : IsPage small_hdr small_page
unfolding count_set is_set has_bit
small_page-IsPage = record {
  wide = refl;
  bytes = (omega arith, tt);
  counted = refl;
  spread = omega arith;
}

small_has_room : count_set (64 ∷ []) 3 < 3
unfolding count_set is_set has_bit
small_has_room = omega arith

pub small_file-IsFile : IsFile small_file
small_file-IsFile = record {
  layout = record { has_slots = omega arith; bits = omega arith; slots_fit = omega arith };
  started = omega arith;
  numbered = refl;
  sound = λ n a b. small_page-IsPage;
  free_pages = (1 ∷ [], (refl, (omega arith, omega arith), small_has_room, refl, refl));
}

pub taken_there : record_at small_file taken_place ≡ some (7 ∷ 8 ∷ [])
unfolding is_set has_bit slice
taken_there = refl
