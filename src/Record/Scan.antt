-- ===== src/Record/Scan.antt =====
-- `RmScan` of record/rm_scan.cpp: the scan over the records of a file, page by page, and the loop
-- `for (RmScan scan(fh); !scan.is_end(); scan.next())` that its clients run.
pub mod Order
pub mod Listing
pub mod Complete
use cscc_db_rucbase.Common.{
  ℕ, zero, suc, ◌+◌, ◌-◌, Bool, true, false, List, [], ◌∷◌, ltb, leb, pos_part, if◌then◌else◌, ℤ,
  pos, negsuc,
}
use cscc_db_rucbase.Transaction.LockDataId.{Rid}
use cscc_db_rucbase.Record.Bitmap.{next_bit}
use cscc_db_rucbase.Record.File.{
  RmFile, RmFileHdr, RmPage, M, ◌>>=◌, ◌>>◌, return, get_page, get_hdr, ok, unpin_page,
  fetch_page_handle, slot_of,
}

-- `rid_`, whose parts are C `int`s; the current page handle is that of page `rid_.page_no`.
pub record RmScan : Type 0 where
  pub page_no : ℤ
  pub slot_no : ℤ

-- `curr + 1`, from which `next_bit` searches; a scan's slot number is never below -1.
abbrev pub after : ℤ → ℕ
after (pos n) = suc n
after (negsuc k) = 0

abbrev is_minus_one : ℤ → Bool
is_minus_one (negsuc zero) = true
is_minus_one (negsuc (suc k)) = false
is_minus_one (pos n) = false

-- The scan past its last record.
abbrev pub end_scan : ℕ → RmScan
end_scan slot_no = record { page_no = negsuc 0; slot_no = pos slot_no }

abbrev pub is_end : RmScan → Bool
is_end scan = is_minus_one scan.page_no

module _ (has_frame : List ℕ → ℕ → Bool) where
  -- The loop of `next`, on page n from slot `start`. A round goes to the next page, so the pages of
  -- the file are fuel enough.
  unfoldable pub next_loop : ℕ → ℕ → ℕ → M RmScan
  unfolding fetch_page_handle
  next_loop zero n start = return (record { page_no = pos n; slot_no = pos start })
  next_loop (suc fuel) n start = do
    p ← get_page n
    h ← get_hdr
    let slot_no = next_bit true p.bitmap h.num_records_per_page start
    let rest = fetch_page_handle has_frame (pos (suc n)) >> next_loop fuel (suc n) 0
    let next_page = if leb h.num_pages (suc n) then return (end_scan slot_no) else rest
    let found = return (record { page_no = pos n; slot_no = pos slot_no })
    if ltb slot_no h.num_records_per_page then found else unpin_page n >> next_page

  -- Past the end no client calls `next`.
  abbrev pub next_at : ℤ → ℤ → M RmScan
  next_at (pos n) slot_no f = next_loop f.hdr.num_pages n (after slot_no) f
  next_at (negsuc k) slot_no f = return (record { page_no = negsuc k; slot_no = slot_no }) f

  unfoldable pub next : RmScan → M RmScan
  unfolding next_loop
  next scan = next_at scan.page_no scan.slot_no

  -- The constructor.
  unfoldable pub rm_scan : M RmScan
  unfolding next fetch_page_handle
  rm_scan f =
      if ltb 1 f.hdr.num_pages
      then (fetch_page_handle has_frame (pos 1)
            >> next (record { page_no = pos 1; slot_no = negsuc 0 }))
          f
      else (f, ok (record { page_no = negsuc 0; slot_no = negsuc 0 }))

  -- `get_record`, off the current page.
  unfoldable pub get_record : RmScan → RmFile → List ℕ
  get_record scan f = slot_of f.hdr (f.pages (pos_part scan.page_no)) (pos_part scan.slot_no)

  -- The clients' loop, which reads `rid()` and `get_record()` until `is_end()`. A round passes a
  -- record, so the number of records is fuel enough.
  unfoldable pub collect : ℕ → RmScan → M (List (Rid × List ℕ))
  unfolding next get_record
  collect zero scan f = (f, ok [])
  collect (suc fuel) scan f =
      let here : Rid × List ℕ = (
        record { page_no = pos_part scan.page_no; slot_no = pos_part scan.slot_no },
        get_record scan f,
      ) in
      let rest = (do scan' ← next scan; more ← collect fuel scan'; return (here ∷ more)) in
      if is_end scan then (f, ok []) else rest f
