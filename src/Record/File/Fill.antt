-- ===== src/Record/File/Fill.antt =====
-- A free slot that is filled, on a page that stays on the free list or that leaves it from the head;
-- and the two inserts made of that.
use cscc_db_rucbase.Common.{
  ℕ, ◌<◌, Bool, true, false, List, [], ◌∷◌, none, some, ◌==◌, if◌then◌else◌, ◌≡◌, refl, arith,
  length, Bool-cases, inl, inr, pos, inc, is_pos, subst, sym, ◌∙◌, ==_refl,
}
use cscc_db_rucbase.Transaction.LockDataId.{Rid}
use cscc_db_rucbase.Record.Bitmap.Count.{count_set-set_bit, first_bit-free}
use cscc_db_rucbase.Record.Bitmap.{is_set, first_bit}
use cscc_db_rucbase.Record.File.{
  RmPage, RmFile, ok, fill_slot, slot_of, update_record, insert_record, insert_record_at, take_slot,
  create_page_handle,
}
use cscc_db_rucbase.Record.File.Page.{
  IsPage, page_read, taken, taken-IsPage, fill_slot-IsPage, page_read-taken,
}
use cscc_db_rucbase.Record.File.Invariant.{
  IsFile, record_at, HasRoom, InFile, FreeList, kept-IsFile, dropped-IsFile,
}
use cscc_db_rucbase.Record.File.Change.{update_record-Changed}
use cscc_db_rucbase.Record.File.Places.{fetch_page_handle_lem, Changed, replaced-Changed}
use cscc_db_rucbase.Record.File.Insert.{
  filled-Replaced, filled, past_head, Ready, target, create_page_handle-Ready, insert_record_plain,
  insert_record_full, pinned_IsFile,
}

module _ (g : RmFile) (rid : Rid) (buf : List ℕ) (valid : IsFile g)
    (inside : InFile g.hdr rid.page_no) (slot : rid.slot_no < g.hdr.num_records_per_page)
    (free : is_set (g.pages rid.page_no).bitmap rid.slot_no ≡ false)
    (size : length buf ≡ g.hdr.record_size) where
  abbrev pub old_page : RmPage
  old_page = g.pages rid.page_no

  abbrev pub new_page : RmPage
  new_page = fill_slot g.hdr (taken old_page rid.slot_no) rid.slot_no buf

  sound_here : IsPage g.hdr old_page
  sound_here = valid.sound rid.page_no inside.0 inside.1

  page : IsPage g.hdr new_page
  page =
      fill_slot-IsPage g.hdr (taken old_page rid.slot_no) rid.slot_no buf
        (taken-IsPage g.hdr old_page rid.slot_no sound_here valid.layout.bits slot free)

  read :
      (q : ℕ)
      → page_read g.hdr new_page q
        ≡ (if rid.slot_no == q then some buf else page_read g.hdr old_page q)
  read q = page_read-taken g.hdr old_page rid.slot_no sound_here valid.layout.bits slot buf q size

  -- The page keeps its place in the free list.
  pub plain-Changed :
      is_pos (inc old_page.num_records) g.hdr.num_records_per_page ≡ false
      → Changed g (filled g rid.page_no rid.slot_no buf g.hdr g.pinned) rid (some buf)
  plain-Changed more =
      let r = filled-Replaced g rid buf g.hdr (record {
        record_size = refl;
        num_pages = refl;
        num_records_per_page = refl;
        bitmap_size = refl;
      }) in
      let count =
        count_set-set_bit old_page.bitmap rid.slot_no sound_here.bytes
          (omega (arith, sound_here.wide, valid.layout.bits)) g.hdr.num_records_per_page free
          slot in
      replaced-Changed g _ rid new_page (some buf) r inside read
        (kept-IsFile r valid page (λ room. ground (arith, count, sound_here.counted, more)) refl
          refl)
        refl

  -- The page is full now, and was the head of the free list.
  pub full-Changed :
      g.hdr.first_free_page_no ≡ pos rid.page_no
      → Changed g
          (filled g rid.page_no rid.slot_no buf (past_head g rid.page_no) g.pinned)
          rid
          (some buf)
  full-Changed head =
      let r = filled-Replaced g rid buf (past_head g rid.page_no) (record {
        record_size = refl;
        num_pages = refl;
        num_records_per_page = refl;
        bitmap_size = refl;
      }) in
      replaced-Changed g _ rid new_page (some buf) r inside read
        (dropped-IsFile r valid page head refl) refl

-- What an insert achieves: the record stands at a place that was empty, and nothing else changed.
pub record Inserted (f g : RmFile) (rid : Rid) (buf : List ℕ) : Type 0 where
  pub was_free : record_at f rid ≡ none
  pub changed : Changed f g rid (some buf)

-- The head of the list lies in the file and has room.
head_lem :
    (f : RmFile) (n : ℕ)
    → IsFile f
    → f.hdr.first_free_page_no ≡ pos n
    → InFile f.hdr n × HasRoom f.hdr (f.pages n)
head_lem f n valid head = of_list valid.free_pages.0 valid.free_pages.1
  where
    of_list :
        (ns : List ℕ)
        → FreeList f.hdr f.pages f.hdr.first_free_page_no ns
        → InFile f.hdr n × HasRoom f.hdr (f.pages n)
    of_list [] l = cc
    of_list (m ∷ ns) (e, inside, room, once, rest) =
        let at : m ≡ n = cc in
        subst (λ k. InFile f.hdr k × HasRoom f.hdr (f.pages k)) at (inside, room)

module _ (has_frame : List ℕ → ℕ → Bool) (f g : RmFile) (n : ℕ) (buf : List ℕ)
    (size : length buf ≡ f.hdr.record_size) (made : create_page_handle has_frame f ≡ (g, ok n))
    (r : Ready f g n) where
  -- The ready file, with the pins of the first.
  abbrev base : RmFile
  base = record g { pinned = f.pinned }

  abbrev place : Rid
  place = record {
    page_no = n;
    slot_no = first_bit false (g.pages n).bitmap g.hdr.num_records_per_page;
  }

  base_valid : IsFile base
  base_valid = pinned_IsFile g f.pinned r.valid

  found : InFile g.hdr n × HasRoom g.hdr (g.pages n)
  found = head_lem g n r.valid r.head

  slot_free :
      (place.slot_no < g.hdr.num_records_per_page)
      × (is_set (g.pages n).bitmap place.slot_no ≡ false)
  slot_free = first_bit-free (g.pages n).bitmap g.hdr.num_records_per_page (found.1)

  inserted : (h : RmFile) → Changed base h place (some buf) → Inserted f h place buf
  inserted h c = record {
    was_free = sym (r.records place) ∙ ground (arith, slot_free.1);
    changed = record {
      valid = c.valid;
      held = c.held;
      others = λ q ne. c.others q ne ∙ r.records q;
      pins = c.pins;
    };
  }

  ready-Inserted :
      (h : RmFile) × (rid : Rid) × (insert_record has_frame buf f ≡ (h, ok rid))
      × Inserted f h rid buf
  ready-Inserted =
      let size_g : length buf ≡ base.hdr.record_size = size ∙ sym r.size in
      elim (Bool-cases (is_pos (inc (g.pages n).num_records) g.hdr.num_records_per_page)) [
        | inl full ↦ (
          _,
          place,
          insert_record_full has_frame f g n buf made r.pins full,
          inserted _ (
              full-Changed base place buf base_valid found.0 slot_free.0 slot_free.1 size_g r.head),
        )
        | inr more ↦ (
          _,
          place,
          insert_record_plain has_frame f g n buf made r.pins more,
          inserted _
              (plain-Changed base place buf base_valid found.0 slot_free.0 slot_free.1 size_g more),
        )
      ]

-- insert_record on a well-formed file, given a record of the file's size and a frame for its page:
-- it returns a place at which there was no record, the record is there afterwards, every other
-- place holds what it held, no pin is left, and the file is well formed again: each page counts its
-- set bits, and the list of free pages runs through distinct pages of the file that have room.
pub insert_record-Inserted :
    (has_frame : List ℕ → ℕ → Bool) (f : RmFile) (buf : List ℕ)
    → IsFile f
    → length buf ≡ f.hdr.record_size
    → has_frame f.pinned (target f) ≡ true
    → (g : RmFile) × (rid : Rid) × (insert_record has_frame buf f ≡ (g, ok rid))
      × Inserted f g rid buf
insert_record-Inserted has_frame f buf valid size frame =
    let (g, made, r) = create_page_handle-Ready has_frame f valid frame in
    ready-Inserted has_frame f g (target f) buf size made r

module _ (has_frame : List ℕ → ℕ → Bool) (f : RmFile) (rid : Rid) (buf : List ℕ)
    (inside : rid.page_no < f.hdr.num_pages) (frame : has_frame f.pinned rid.page_no ≡ true) where
  pub insert_record_at_taken :
      is_set (f.pages rid.page_no).bitmap rid.slot_no ≡ true
      → insert_record_at has_frame rid buf f ≡ update_record has_frame rid buf f
  unfolding insert_record_at update_record
  insert_record_at_taken there =
      rw (fetch_page_handle_lem has_frame f rid inside frame) (rw there refl)

  pub insert_record_at_plain :
      is_set (f.pages rid.page_no).bitmap rid.slot_no ≡ false
      → is_pos (inc (f.pages rid.page_no).num_records) f.hdr.num_records_per_page ≡ false
      → insert_record_at has_frame rid buf f
        ≡ (filled f rid.page_no rid.slot_no buf f.hdr f.pinned, ok tt)
  unfolding insert_record_at take_slot
  insert_record_at_plain free more =
      rw (fetch_page_handle_lem has_frame f rid inside frame) (ground (arith, ==_refl rid.page_no))

  pub insert_record_at_full :
      is_set (f.pages rid.page_no).bitmap rid.slot_no ≡ false
      → is_pos (inc (f.pages rid.page_no).num_records) f.hdr.num_records_per_page ≡ true
      → insert_record_at has_frame rid buf f
        ≡ (filled f rid.page_no rid.slot_no buf (past_head f rid.page_no) f.pinned, ok tt)
  unfolding insert_record_at take_slot
  insert_record_at_full free full =
      rw (fetch_page_handle_lem has_frame f rid inside frame) (ground (arith, ==_refl rid.page_no))

-- A page that the insert would fill must be the head of the free list.
abbrev pub FillsHead : RmFile → Rid → Type 0
FillsHead f rid =
    is_pos (inc (f.pages rid.page_no).num_records) f.hdr.num_records_per_page ≡ true
    → f.hdr.first_free_page_no ≡ pos rid.page_no

-- insert_record at a given place of a well-formed file, whether it holds a record or not, with a
-- record of the file's size and a frame for the page: if a page that this fills is the head of the
-- free list, then the place holds the record, every other place what it held, no pin is left, and
-- the file is well formed again.
pub insert_record_at-Changed :
    (has_frame : List ℕ → ℕ → Bool) (f : RmFile) (rid : Rid) (buf : List ℕ)
    → IsFile f
    → InFile f.hdr rid.page_no
    → rid.slot_no < f.hdr.num_records_per_page
    → length buf ≡ f.hdr.record_size
    → has_frame f.pinned rid.page_no ≡ true
    → FillsHead f rid
    → (g : RmFile) × (insert_record_at has_frame rid buf f ≡ (g, ok tt))
      × Changed f g rid (some buf)
insert_record_at-Changed has_frame f rid buf valid inside slot size frame head =
    let p = f.pages rid.page_no in
    elim (Bool-cases (is_set p.bitmap rid.slot_no)) [
      | inl there ↦
          let held : record_at f rid ≡ some (slot_of f.hdr p rid.slot_no) =
            ground (arith, inside.0, inside.1) in
          rw (insert_record_at_taken has_frame f rid buf inside.1 frame there) (
            update_record-Changed has_frame f rid (slot_of f.hdr p rid.slot_no) valid held frame buf
              size)
      | inr free ↦ elim (Bool-cases (is_pos (inc p.num_records) f.hdr.num_records_per_page)) [
        | inl full ↦ (
          _,
          insert_record_at_full has_frame f rid buf inside.1 frame free full,
          full-Changed f rid buf valid inside slot free size (head full),
        )
        | inr more ↦ (
          _,
          insert_record_at_plain has_frame f rid buf inside.1 frame free more,
          plain-Changed f rid buf valid inside slot free size more,
        )
      ]
    ]
