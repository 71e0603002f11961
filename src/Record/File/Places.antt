-- ===== src/Record/File/Places.antt =====
-- One place of a file: where a record is, what an operation at it leaves behind, and the code of
-- `update_record`, `delete_record` and `get_record` on each of their branches.
use cscc_db_rucbase.Common.{
  ℕ, ◌<◌, Bool, true, false, List, ◌∷◌, Option, some, ◌==◌, if◌then◌else◌, ◌≡◌, ◌≢◌, refl, arith,
  Bool-cases, inl, inr, pos, is_pos, ==_refl,
}
use cscc_db_rucbase.Transaction.LockDataId.{Rid}
use cscc_db_rucbase.Record.Bitmap.{is_set}
use cscc_db_rucbase.Record.File.{
  RmPage, RmFile, record_not_found, ok, err, update, fill_slot, slot_of, get_record, update_record,
  delete_record, fetch_page_handle, release_page_handle,
}
use cscc_db_rucbase.Record.File.Page.{page_read, freed}
use cscc_db_rucbase.Record.File.Invariant.{IsFile, record_at, Replaced, InFile, record_at-replaced}

-- One record of the file is now `v`; the others are what they were, and no pin is left over.
pub record Changed (f g : RmFile) (rid : Rid) (v : Option (List ℕ)) : Type 0 where
  pub valid : IsFile g
  pub held : record_at g rid ≡ v
  pub others : (q : Rid) → q ≢ rid → record_at g q ≡ record_at f q
  pub pins : g.pinned ≡ f.pinned

-- Where a record is, its page is in the file and its bit is set.
pub record Present (f : RmFile) (rid : Rid) : Type 0 where
  pub inside : InFile f.hdr rid.page_no
  pub slot : rid.slot_no < f.hdr.num_records_per_page
  pub there : is_set (f.pages rid.page_no).bitmap rid.slot_no ≡ true

pub some-Present : (f : RmFile) (rid : Rid) (v : List ℕ) → record_at f rid ≡ some v → Present f rid
some-Present f rid v h = record {
  inside = (ground arith, ground arith);
  slot = ground arith;
  there = ground arith;
}

module _ (f g : RmFile) (rid : Rid) (p : RmPage) (v : Option (List ℕ))
    (r : Replaced f g rid.page_no p) (inside : InFile f.hdr rid.page_no)
    (read : (q : ℕ)
      → page_read f.hdr p q
        ≡ (if rid.slot_no == q then v else page_read f.hdr (f.pages rid.page_no) q)) where
  pub replaced-Changed : IsFile g → g.pinned ≡ f.pinned → Changed f g rid v
  replaced-Changed valid pins = record {
    valid = valid;
    held = ground (
      arith,
      record_at-replaced r rid inside,
      read rid.slot_no,
      ==_refl rid.slot_no,
      ==_refl rid.page_no,
    );
    others = λ q ne. elim (Bool-cases (rid.page_no == q.page_no)) [
      | inl same_page ↦ elim (Bool-cases (rid.slot_no == q.slot_no)) [
        | inl same_slot ↦ absurd (ne (ground arith))
        | inr apart ↦ ground (arith, record_at-replaced r q inside, read q.slot_no)
      ]
      | inr apart ↦ ground (arith, record_at-replaced r q inside)
    ];
    pins = pins;
  }

module _ (has_frame : List ℕ → ℕ → Bool) (f : RmFile) (rid : Rid) where
  -- The file with the page pinned.
  abbrev pub held_page : RmFile
  held_page = record f { pinned = rid.page_no ∷ f.pinned }

  module _ (inside : rid.page_no < f.hdr.num_pages)
      (frame : has_frame f.pinned rid.page_no ≡ true) where
    pub fetch_page_handle_lem :
        fetch_page_handle has_frame (pos rid.page_no) f ≡ (held_page, ok rid.page_no)
    unfolding fetch_page_handle
    fetch_page_handle_lem = ground (arith, frame)

    pub get_record_lem : get_record has_frame rid f ≡ (
        if is_set (f.pages rid.page_no).bitmap rid.slot_no
        then (f, ok (slot_of f.hdr (f.pages rid.page_no) rid.slot_no))
        else (held_page, err record_not_found))
    unfolding get_record
    get_record_lem = rw fetch_page_handle_lem (ground (arith, ==_refl rid.page_no))

    -- The guard has passed.
    pub update_record_lem :
        (buf : List ℕ)
        → is_set (f.pages rid.page_no).bitmap rid.slot_no ≡ true
        → update_record has_frame rid buf f ≡ (
          record f {
            pages =
                update f.pages rid.page_no (fill_slot f.hdr (f.pages rid.page_no) rid.slot_no buf);
          },
          ok tt,
        )
    unfolding update_record
    update_record_lem buf there =
        rw fetch_page_handle_lem (rw there (ground (arith, ==_refl rid.page_no)))

    pub update_record_missing :
        (buf : List ℕ)
        → is_set (f.pages rid.page_no).bitmap rid.slot_no ≡ false
        → update_record has_frame rid buf f ≡ (held_page, err record_not_found)
    unfolding update_record
    update_record_missing buf free = rw fetch_page_handle_lem (rw free refl)

    pub delete_record_missing :
        is_set (f.pages rid.page_no).bitmap rid.slot_no ≡ false
        → delete_record has_frame rid f ≡ (held_page, err record_not_found)
    unfolding delete_record
    delete_record_missing free = rw fetch_page_handle_lem (rw free refl)

    -- The page was not full: it loses the record and the list stays.
    pub delete_record_plain :
        is_set (f.pages rid.page_no).bitmap rid.slot_no ≡ true
        → is_pos (f.pages rid.page_no).num_records f.hdr.num_records_per_page ≡ false
        → delete_record has_frame rid f ≡ (
          record f { pages = update f.pages rid.page_no (freed (f.pages rid.page_no) rid.slot_no) },
          ok tt,
        )
    unfolding delete_record
    delete_record_plain there plain =
        rw fetch_page_handle_lem (rw (there, plain) (ground (arith, ==_refl rid.page_no)))

    -- The page was full: it becomes the head of the free list.
    abbrev pub released : RmFile
    released = record f {
      hdr = record (f.hdr) { first_free_page_no = pos rid.page_no };
      pages =
          update (update f.pages rid.page_no (freed (f.pages rid.page_no) rid.slot_no)) rid.page_no
            (record (freed (f.pages rid.page_no) rid.slot_no) {
              next_free_page_no = f.hdr.first_free_page_no;
            });
    }

    pub delete_record_full :
        is_set (f.pages rid.page_no).bitmap rid.slot_no ≡ true
        → is_pos (f.pages rid.page_no).num_records f.hdr.num_records_per_page ≡ true
        → delete_record has_frame rid f ≡ (released, ok tt)
    unfolding delete_record release_page_handle
    delete_record_full there full =
        rw fetch_page_handle_lem
          (rw (there, full, ==_refl rid.page_no) (ground (arith, ==_refl rid.page_no)))

-- The same page, with a write to one page.
module _ (f : RmFile) (n : ℕ) (p : RmPage) where
  pub write-Replaced : Replaced f (record f { pages = update f.pages n p }) n p
  write-Replaced = record {
    shape = record {
      record_size = refl;
      num_pages = refl;
      num_records_per_page = refl;
      bitmap_size = refl;
    };
    next_page_no = refl;
    here = ground (arith, ==_refl n);
    there = λ m ne. ground arith;
  }
