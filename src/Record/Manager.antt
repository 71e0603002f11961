-- ===== src/Record/Manager.antt =====
-- The file header that `RmManager::create_file` of record/rm_manager.h writes, and that a page laid
-- out by it fits into PAGE_SIZE. Opening, closing and flushing only call the disk manager and the
-- buffer pool.
use cscc_db_rucbase.Common.{
  ℕ, ◌+◌, ◌-◌, ◌*◌, ◌/◌, ◌≤◌, [], Option, none, some, ltb, ◌||◌, if◌then◌else◌, ◌≡◌, refl, arith,
  negsuc,
}
use cscc_db_rucbase.Record.File.{RmFileHdr, RmFile, RmPage}
use cscc_db_rucbase.Record.File.Invariant.{IsLayout, IsFile, record_at}
use cscc_db_rucbase.Transaction.LockDataId.{Rid}
use native.Mathlib.Nat.{div-mul-le_self, le-div_iff_mul-le}

-- `sizeof(RmFileHdr)` is 20.
abbrev pub records_per_page : ℕ → ℕ
records_per_page size = (8 * (4096 - 1 - 20) + 1) / (1 + size * 8)

abbrev pub new_header : ℕ → RmFileHdr
new_header size = record {
  record_size = size;
  num_pages = 1;
  num_records_per_page = records_per_page size;
  first_free_page_no = negsuc 0;
  bitmap_size = (records_per_page size + 8 - 1) / 8;
}

-- `none` is the InvalidRecordSizeError.
unfoldable pub create_file : ℕ → Option RmFileHdr
create_file record_size =
    if ltb record_size 1 || ltb 512 record_size then none else some (new_header record_size)

-- `open_file`: the constructor of `RmFileHandle` reads the header and starts the page counter at its
-- `num_pages`. What lies past the file's end is never read.
unfoldable pub open_file : RmFileHdr → (ℕ → RmPage) → RmFile
open_file h pages = record { hdr = h; pages = pages; next_page_no = h.num_pages; pinned = [] }

slots_per_page : (size n : ℕ) → n * (1 + size * 8) ≤ 32601 → n + 8 * (n * size) ≤ 32601
slots_per_page size n h = grind arith

new_header-IsLayout : (size : ℕ) → size ≤ 512 → IsLayout (new_header size)
new_header-IsLayout size small =
    let n = records_per_page size in
    let used = slots_per_page size n (div-mul-le_self 32601 (1 + size * 8)) in
    record {
      has_slots =
          (le-div_iff_mul-le {k = 1 + size * 8} {x = 1} {y = 32601} (omega arith)).1 (omega arith);
      bits = omega arith;
      slots_fit = omega (arith, used);
    }

-- The page layout that create_file computes for a record size that it accepts has at least one
-- slot, a bit for each slot, and room for bitmap and slots on a page of 4096 bytes behind the lsn
-- and the page header.
pub create_file-IsLayout : (size : ℕ) (h : RmFileHdr) → create_file size ≡ some h → IsLayout h
unfolding create_file
create_file-IsLayout size h made =
    let e : h ≡ new_header size = ground arith in rw e (new_header-IsLayout size (ground arith))

-- A new table's file is well formed and empty, whatever its disk held.
pub open_file-empty :
    (size : ℕ) (h : RmFileHdr) (pages : ℕ → RmPage)
    → create_file size ≡ some h
    → IsFile (open_file h pages) × ((rid : Rid) → record_at (open_file h pages) rid ≡ none)
unfolding create_file open_file
open_file-empty size h pages made =
    let e : h ≡ new_header size = ground arith in
    rw e (
      record {
        layout = new_header-IsLayout size (ground arith);
        started = omega arith;
        numbered = refl;
        sound = λ n a b. absurd (omega arith);
        free_pages = ([], refl);
      },
      λ rid. ground arith,
    )
