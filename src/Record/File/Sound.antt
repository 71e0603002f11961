-- ===== src/Record/File/Sound.antt =====
-- What the operations at a given place do to the records of a file of which nothing is known but
-- that its pages are sound: its list of free pages may be broken. Rollback uses only these.
use cscc_db_rucbase.Common.{
  ℕ, ◌<◌, Bool, true, false, List, Option, none, some, ◌==◌, if◌then◌else◌, ◌≡◌, ◌≢◌, refl, arith,
  length, Bool-cases, inl, inr, inc, is_pos, ==_refl,
}
use cscc_db_rucbase.Transaction.LockDataId.{Rid}
use cscc_db_rucbase.Record.Bitmap.{is_set}
use cscc_db_rucbase.Record.File.{
  RmFileHdr, RmPage, RmFile, ok, update, fill_slot, slot_of, update_record, delete_record,
  insert_record_at,
}
use cscc_db_rucbase.Record.File.Page.{
  IsPage, page_read, freed, freed-IsPage, taken, taken-IsPage, fill_slot-IsPage,
  page_read-fill_slot, page_read-freed, page_read-taken,
}
use cscc_db_rucbase.Record.File.Invariant.{
  IsFile, IsLayout, record_at, Replaced, SameShape, InFile, replaced-sound, record_at-replaced,
  shape-IsLayout,
}
use cscc_db_rucbase.Record.File.Places.{
  update_record_lem, delete_record_plain, delete_record_full, released, Present, some-Present,
  write-Replaced,
}
use cscc_db_rucbase.Record.File.Insert.{filled, past_head, filled-Replaced}
use cscc_db_rucbase.Record.File.Fill.{
  insert_record_at_taken, insert_record_at_plain, insert_record_at_full,
}

pub record IsSound (f : RmFile) : Type 0 where
  pub layout : IsLayout f.hdr
  pub sound : (n : ℕ) → 0 < n → n < f.hdr.num_pages → IsPage f.hdr (f.pages n)

-- One record of the file is now `v`; the others are what they were.
pub record SoundChanged (f g : RmFile) (rid : Rid) (v : Option (List ℕ)) : Type 0 where
  pub valid : IsSound g
  pub held : record_at g rid ≡ v
  pub others : (q : Rid) → q ≢ rid → record_at g q ≡ record_at f q
  pub shape : SameShape f.hdr g.hdr

pub IsFile-IsSound : (f : RmFile) → IsFile f → IsSound f
IsFile-IsSound f v = record { layout = v.layout; sound = v.sound }

module _ (f g : RmFile) (rid : Rid) (p : RmPage) (v : Option (List ℕ)) (valid : IsSound f)
    (r : Replaced f g rid.page_no p) (inside : InFile f.hdr rid.page_no) (page : IsPage f.hdr p)
    (read : (q : ℕ)
      → page_read f.hdr p q
        ≡ (if rid.slot_no == q then v else page_read f.hdr (f.pages rid.page_no) q)) where
  replaced-SoundChanged : SoundChanged f g rid v
  replaced-SoundChanged = record {
    valid = record {
      layout = shape-IsLayout r.shape valid.layout;
      sound = replaced-sound r page valid.sound;
    };
    held = ground (
      arith,
      record_at-replaced r rid inside,
      read rid.slot_no,
      ==_refl rid.slot_no,
      ==_refl rid.page_no,
    );
    others = λ q ne. elim (Bool-cases (rid.page_no == q.page_no)) [
      | inl same_page ↦ elim (Bool-cases (rid.slot_no == q.slot_no)) [
        | inl same_slot ↦ absurd (ne (ground arith))
        | inr apart ↦ ground (arith, record_at-replaced r q inside, read q.slot_no)
      ]
      | inr apart ↦ ground (arith, record_at-replaced r q inside)
    ];
    shape = r.shape;
  }

abbrev same_shape : (h : RmFileHdr) → SameShape h h
same_shape h = record {
  record_size = refl;
  num_pages = refl;
  num_records_per_page = refl;
  bitmap_size = refl;
}

abbrev past_shape : (f : RmFile) (n : ℕ) → SameShape f.hdr (past_head f n)
past_shape f n = record {
  record_size = refl;
  num_pages = refl;
  num_records_per_page = refl;
  bitmap_size = refl;
}

module _ (has_frame : List ℕ → ℕ → Bool) (f : RmFile) (rid : Rid) (valid : IsSound f)
    (frame : has_frame f.pinned rid.page_no ≡ true) where
  module _ (old : List ℕ) (held : record_at f rid ≡ some old) where
    here : Present f rid
    here = some-Present f rid old held

    sound_here : IsPage f.hdr (f.pages rid.page_no)
    sound_here = valid.sound rid.page_no here.inside.0 here.inside.1

    pub update_record-SoundChanged :
        (buf : List ℕ)
        → length buf ≡ f.hdr.record_size
        → (g : RmFile) × (update_record has_frame rid buf f ≡ (g, ok tt))
          × SoundChanged f g rid (some buf)
    update_record-SoundChanged buf size =
        let p = fill_slot f.hdr (f.pages rid.page_no) rid.slot_no buf in
        (
          record f { pages = update f.pages rid.page_no p },
          update_record_lem has_frame f rid here.inside.1 frame buf here.there,
          replaced-SoundChanged f _ rid p (some buf) valid (write-Replaced f rid.page_no p)
              here.inside (fill_slot-IsPage f.hdr (f.pages rid.page_no) rid.slot_no buf sound_here)
              (λ q.
                page_read-fill_slot f.hdr (f.pages rid.page_no) rid.slot_no sound_here
                  valid.layout.bits here.slot buf q here.there size),
        )

    pub delete_record-SoundChanged :
        (g : RmFile) × (delete_record has_frame rid f ≡ (g, ok tt)) × SoundChanged f g rid none
    delete_record-SoundChanged =
        let p = f.pages rid.page_no in
        let read = page_read-freed f.hdr p rid.slot_no sound_here valid.layout.bits here.slot in
        let page =
          freed-IsPage f.hdr p rid.slot_no sound_here valid.layout.bits here.slot here.there in
        elim (Bool-cases (is_pos p.num_records f.hdr.num_records_per_page)) [
          | inl full ↦
              let linked = record (freed p rid.slot_no) {
                next_free_page_no = f.hdr.first_free_page_no;
              } in
              let r : Replaced f (released has_frame f rid here.inside.1 frame) rid.page_no linked =
                record {
                  shape = record {
                    record_size = refl;
                    num_pages = refl;
                    num_records_per_page = refl;
                    bitmap_size = refl;
                  };
                  next_page_no = refl;
                  here = ground (arith, ==_refl rid.page_no);
                  there = λ m ne. ground arith;
                } in
              (
                released has_frame f rid here.inside.1 frame,
                delete_record_full has_frame f rid here.inside.1 frame here.there full,
                replaced-SoundChanged f _ rid linked none valid r here.inside
                    (record {
                      wide = page.wide;
                      bytes = page.bytes;
                      counted = page.counted;
                      spread = page.spread;
                    })
                    read,
              )
          | inr plain ↦ (
            record f { pages = update f.pages rid.page_no (freed p rid.slot_no) },
            delete_record_plain has_frame f rid here.inside.1 frame here.there plain,
            replaced-SoundChanged f _ rid (freed p rid.slot_no) none valid
                (write-Replaced f rid.page_no (freed p rid.slot_no)) here.inside page read,
          )
        ]

  module _ (inside : InFile f.hdr rid.page_no) (slot : rid.slot_no < f.hdr.num_records_per_page)
      (buf : List ℕ) (size : length buf ≡ f.hdr.record_size) where
    place_sound : IsPage f.hdr (f.pages rid.page_no)
    place_sound = valid.sound rid.page_no inside.0 inside.1

    filled-SoundChanged :
        (h : RmFileHdr)
        → SameShape f.hdr h
        → Replaced f
            (filled f rid.page_no rid.slot_no buf h f.pinned)
            rid.page_no
            (fill_slot f.hdr (taken (f.pages rid.page_no) rid.slot_no) rid.slot_no buf)
        → is_set (f.pages rid.page_no).bitmap rid.slot_no ≡ false
        → SoundChanged f (filled f rid.page_no rid.slot_no buf h f.pinned) rid (some buf)
    filled-SoundChanged h s r free =
        let p = f.pages rid.page_no in
        replaced-SoundChanged f _ rid (fill_slot f.hdr (taken p rid.slot_no) rid.slot_no buf)
          (some buf) valid r inside
          (fill_slot-IsPage f.hdr (taken p rid.slot_no) rid.slot_no buf
            (taken-IsPage f.hdr p rid.slot_no place_sound valid.layout.bits slot free))
          (λ q. page_read-taken f.hdr p rid.slot_no place_sound valid.layout.bits slot buf q size)

    pub insert_record_at-SoundChanged :
        (g : RmFile) × (insert_record_at has_frame rid buf f ≡ (g, ok tt))
        × SoundChanged f g rid (some buf)
    insert_record_at-SoundChanged =
        let p = f.pages rid.page_no in
        elim (Bool-cases (is_set p.bitmap rid.slot_no)) [
          | inl there ↦
              let held : record_at f rid ≡ some (slot_of f.hdr p rid.slot_no) =
                ground (arith, inside.0, inside.1) in
              rw (insert_record_at_taken has_frame f rid buf inside.1 frame there)
                (update_record-SoundChanged (slot_of f.hdr p rid.slot_no) held buf size)
          | inr free ↦ elim (Bool-cases (is_pos (inc p.num_records) f.hdr.num_records_per_page)) [
            | inl full ↦ (
              _,
              insert_record_at_full has_frame f rid buf inside.1 frame free full,
              filled-SoundChanged (past_head f rid.page_no) (past_shape f rid.page_no)
                  (filled-Replaced f rid buf (past_head f rid.page_no) (past_shape f rid.page_no))
                  free,
            )
            | inr more ↦ (
              _,
              insert_record_at_plain has_frame f rid buf inside.1 frame free more,
              filled-SoundChanged f.hdr (same_shape f.hdr)
                  (filled-Replaced f rid buf f.hdr (same_shape f.hdr)) free,
            )
          ]
        ]
