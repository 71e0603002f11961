-- ===== src/Record/File/Change.antt =====
-- What `update_record`, `delete_record` and `get_record` do to the records of a file, and when they throw.
use cscc_db_rucbase.Common.{
  ℕ, ◌≤◌, ◌<◌, Bool, true, false, List, Option, none, some, ◌≡◌, refl, arith, length, Bool-cases,
  inl, inr, ◌⊎◌, pos, is_pos, ==_refl,
}
use cscc_db_rucbase.Transaction.LockDataId.{Rid}
use cscc_db_rucbase.Record.Bitmap.Count.{count_set, count_set-reset, count_set_le}
use cscc_db_rucbase.Record.File.{
  RmFile, record_not_found, page_not_exist, Result, ok, err, update, fill_slot, get_record,
  update_record, delete_record, insert_record_at, fetch_page_handle,
}
use cscc_db_rucbase.Record.File.Page.{
  IsPage, freed, freed-IsPage, fill_slot-IsPage, page_read-fill_slot, page_read-freed,
}
use cscc_db_rucbase.Record.File.Invariant.{
  IsFile, record_at, Replaced, HasRoom, InFile, kept-IsFile, pushed-IsFile,
}
use cscc_db_rucbase.Record.File.Places.{
  get_record_lem, update_record_lem, delete_record_plain, released, delete_record_full, Changed,
  Present, some-Present, replaced-Changed, held_page, write-Replaced,
}

module _ (has_frame : List ℕ → ℕ → Bool) (f : RmFile) (rid : Rid) (old : List ℕ) (valid : IsFile f)
    (held : record_at f rid ≡ some old) (frame : has_frame f.pinned rid.page_no ≡ true) where
  here : Present f rid
  here = some-Present f rid old held

  sound_here : IsPage f.hdr (f.pages rid.page_no)
  sound_here = valid.sound rid.page_no here.inside.0 here.inside.1

  -- update_record of a record that a well-formed file holds, with a new record of the file's size
  -- and a frame for its page: the place holds the new record, every other place what it held, no
  -- pin is left, and the file is well formed again.
  pub update_record-Changed :
      (buf : List ℕ)
      → length buf ≡ f.hdr.record_size
      → (g : RmFile) × (update_record has_frame rid buf f ≡ (g, ok tt)) × Changed f g rid (some buf)
  update_record-Changed buf size =
      let p = fill_slot f.hdr (f.pages rid.page_no) rid.slot_no buf in
      let page = fill_slot-IsPage f.hdr (f.pages rid.page_no) rid.slot_no buf sound_here in
      let r = write-Replaced f rid.page_no p in
      (
        record f { pages = update f.pages rid.page_no p },
        update_record_lem has_frame f rid here.inside.1 frame buf here.there,
        replaced-Changed f _ rid p (some buf) r here.inside
            (λ q.
              page_read-fill_slot f.hdr (f.pages rid.page_no) rid.slot_no sound_here
                valid.layout.bits here.slot buf q here.there size)
            (kept-IsFile r valid page (λ room. room) refl refl) refl,
      )

  -- The page had room for one more than it now holds.
  after_room : HasRoom f.hdr (freed (f.pages rid.page_no) rid.slot_no)
  after_room = omega (
    arith,
    count_set-reset (f.pages rid.page_no).bitmap rid.slot_no sound_here.bytes
        (omega (arith, sound_here.wide, valid.layout.bits, here.slot)) f.hdr.num_records_per_page
        here.there here.slot,
    count_set_le (f.pages rid.page_no).bitmap f.hdr.num_records_per_page,
  )

  freed_page : IsPage f.hdr (freed (f.pages rid.page_no) rid.slot_no)
  freed_page =
      freed-IsPage f.hdr (f.pages rid.page_no) rid.slot_no sound_here valid.layout.bits here.slot
        here.there

  full_count :
      is_pos (f.pages rid.page_no).num_records f.hdr.num_records_per_page ≡ true
      → count_set (f.pages rid.page_no).bitmap f.hdr.num_records_per_page
        ≡ f.hdr.num_records_per_page
  full_count full = ground (arith, sound_here.counted)

  -- delete_record of a record that a well-formed file holds, given a frame for its page: the place
  -- is empty afterwards, every other place holds what it held, no pin is left, and the file is well
  -- formed again, with a page that was full at the head of its free list.
  pub delete_record-Changed :
      (g : RmFile) × (delete_record has_frame rid f ≡ (g, ok tt)) × Changed f g rid none
  delete_record-Changed =
      let p = f.pages rid.page_no in
      let read = page_read-freed f.hdr p rid.slot_no sound_here valid.layout.bits here.slot in
      elim (Bool-cases (is_pos p.num_records f.hdr.num_records_per_page)) [
        | inl full ↦
            let linked = record (freed p rid.slot_no) {
              next_free_page_no = f.hdr.first_free_page_no;
            } in
            let r : Replaced f (released has_frame f rid here.inside.1 frame) rid.page_no linked =
              record {
                shape = record {
                  record_size = refl;
                  num_pages = refl;
                  num_records_per_page = refl;
                  bitmap_size = refl;
                };
                next_page_no = refl;
                here = ground (arith, ==_refl rid.page_no);
                there = λ m ne. ground arith;
              } in
            let page : IsPage f.hdr linked = record {
              wide = freed_page.wide;
              bytes = freed_page.bytes;
              counted = freed_page.counted;
              spread = freed_page.spread;
            } in
            (
              released has_frame f rid here.inside.1 frame,
              delete_record_full has_frame f rid here.inside.1 frame here.there full,
              replaced-Changed f _ rid linked none r here.inside read
                  (pushed-IsFile r valid page here.inside (full_count full) after_room refl refl)
                  refl,
            )
        | inr plain ↦
            let r = write-Replaced f rid.page_no (freed p rid.slot_no) in
            (
              record f { pages = update f.pages rid.page_no (freed p rid.slot_no) },
              delete_record_plain has_frame f rid here.inside.1 frame here.there plain,
              replaced-Changed f _ rid (freed p rid.slot_no) none r here.inside read
                  (kept-IsFile r valid freed_page (λ room. after_room) refl refl) refl,
            )
      ]

-- What `get_record` answers, by what the file holds there: the record, and the pin is given back;
-- or the exception, and the page stays pinned.
abbrev pub answered : RmFile → RmFile → Option (List ℕ) → RmFile × Result (List ℕ)
answered f pinned none = (pinned, err record_not_found)
answered f pinned (some v) = (f, ok v)

module _ (has_frame : List ℕ → ℕ → Bool) (f : RmFile) (rid : Rid)
    (inside : InFile f.hdr rid.page_no) (slot : rid.slot_no < f.hdr.num_records_per_page)
    (frame : has_frame f.pinned rid.page_no ≡ true) where
  -- get_record on a page of the file for which the pool has a frame, at a slot of the page: it
  -- returns what the file holds at the place and gives back its pin, or throws RecordNotFoundError
  -- if the place is empty, and then the page stays pinned.
  pub get_record-record_at :
      get_record has_frame rid f ≡ answered f (held_page has_frame f rid) (record_at f rid)
  get_record-record_at =
      rw (get_record_lem has_frame f rid inside.1 frame) (ground (arith, inside.0, inside.1))

fetch_page_handle_outside :
    (has_frame : List ℕ → ℕ → Bool) (f : RmFile) (rid : Rid)
    → (f.hdr.num_pages ≤ rid.page_no) ⊎ (has_frame f.pinned rid.page_no ≡ false)
    → fetch_page_handle has_frame (pos rid.page_no) f ≡ (f, err page_not_exist)
unfolding fetch_page_handle
fetch_page_handle_outside has_frame f rid h = ground arith

-- Outside the file, and where the pool has no frame, every operation at a place throws and changes nothing.
pub outside-untouched :
    (has_frame : List ℕ → ℕ → Bool) (f : RmFile) (rid : Rid) (buf : List ℕ)
    → (f.hdr.num_pages ≤ rid.page_no) ⊎ (has_frame f.pinned rid.page_no ≡ false)
    → (get_record has_frame rid f ≡ (f, err page_not_exist))
      × (update_record has_frame rid buf f ≡ (f, err page_not_exist))
      × (delete_record has_frame rid f ≡ (f, err page_not_exist))
      × (insert_record_at has_frame rid buf f ≡ (f, err page_not_exist))
unfolding get_record update_record delete_record insert_record_at
outside-untouched has_frame f rid buf h =
    let thrown : fetch_page_handle has_frame (pos rid.page_no) f ≡ (f, err page_not_exist) =
      fetch_page_handle_outside has_frame f rid h in
    (rw thrown refl, rw thrown refl, rw thrown refl, rw thrown refl)
