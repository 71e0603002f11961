-- ===== src/Record/File/Insert.antt =====
-- `insert_record`: the page that `create_page_handle` finds or makes, and the slot that is filled on it.
use cscc_db_rucbase.Common.{
  ℕ, zero, suc, ◌-◌, ◌<◌, Bool, true, false, List, [], ◌∷◌, none, ltb, ◌==◌, ◌≡◌, refl, ap, arith,
  Bool-cases, inl, inr, ℤ, pos, negsuc, inc, is_pos, sym, ==_refl,
}
use cscc_db_rucbase.Transaction.LockDataId.{Rid}
use cscc_db_rucbase.Record.Bitmap.Laws.{init-IsBytes, length-init, is_set-init}
use cscc_db_rucbase.Record.Bitmap.Count.{count_set-init}
use cscc_db_rucbase.Record.Bitmap.{init, first_bit}
use cscc_db_rucbase.Record.File.{
  RmFileHdr, RmPage, RmFile, ok, update, fill_slot, zero_page, page_room, new_page,
  create_new_page_handle, create_page_handle, page_handle_for, insert_record,
}
use cscc_db_rucbase.Record.File.Page.{IsPage, page_read, taken}
use cscc_db_rucbase.Record.File.Invariant.{
  SameShape, Replaced, IsFile, IsLayout, record_at, FreeList,
}
use cscc_db_rucbase.Record.File.Places.{fetch_page_handle_lem}

-- The page from which an insert takes its slot: the first free page, or the next new one.
abbrev pub target_of : ℤ → ℕ → ℕ
target_of (pos n) next = n
target_of (negsuc k) next = next

abbrev pub target : RmFile → ℕ
target f = target_of f.hdr.first_free_page_no f.next_page_no

-- A file that is ready for an insert into page n, which is pinned and heads the free list.
pub record Ready (f g : RmFile) (n : ℕ) : Type 0 where
  pub valid : IsFile g
  pub head : g.hdr.first_free_page_no ≡ pos n
  pub records : (q : Rid) → record_at g q ≡ record_at f q
  pub size : g.hdr.record_size ≡ f.hdr.record_size
  pub pins : g.pinned ≡ n ∷ f.pinned

-- The page as `create_new_page_handle` makes it.
abbrev pub fresh_page : RmFileHdr → RmPage
fresh_page h = record (zero_page h) {
  next_free_page_no = negsuc 0;
  num_records = pos 0;
  bitmap = init h.bitmap_size;
}

fresh-IsPage : (h : RmFileHdr) → IsLayout h → IsPage h (fresh_page h)
fresh-IsPage h l = record {
  wide = length-init h.bitmap_size;
  bytes = init-IsBytes h.bitmap_size;
  counted = ap pos (sym (count_set-init h.bitmap_size h.num_records_per_page));
  spread = rw (length-init (page_room - h.bitmap_size)) (omega (arith, l.slots_fit));
}

fresh_reads : (h : RmFileHdr) (q : ℕ) → page_read h (fresh_page h) q ≡ none
fresh_reads h q = ground (arith, is_set-init h.bitmap_size q)

-- The file after a new page has been put on it.
abbrev pub grown : RmFile → RmFile
grown f = record f {
  hdr = record (f.hdr) { num_pages = suc f.hdr.num_pages; first_free_page_no = pos f.next_page_no };
  pages =
      update (update f.pages f.next_page_no (zero_page f.hdr)) f.next_page_no (fresh_page f.hdr);
  next_page_no = suc f.next_page_no;
  pinned = f.next_page_no ∷ f.pinned;
}

module _ (has_frame : List ℕ → ℕ → Bool) (f : RmFile) (valid : IsFile f) where
  create_new_page_handle_lem :
      has_frame f.pinned f.next_page_no ≡ true
      → create_new_page_handle has_frame f ≡ (grown f, ok f.next_page_no)
  unfolding create_new_page_handle new_page
  create_new_page_handle_lem frame = rw frame (ground (arith, ==_refl f.next_page_no))

  grown_page : (grown f).pages f.next_page_no ≡ fresh_page f.hdr
  grown_page = ground (arith, ==_refl f.next_page_no)

  grown_old : (m : ℕ) → m < f.hdr.num_pages → (grown f).pages m ≡ f.pages m
  grown_old m h = ground (arith, valid.numbered)

  grown-IsFile : f.hdr.first_free_page_no ≡ negsuc 0 → IsFile (grown f)
  grown-IsFile empty =
      let zero_count = count_set-init f.hdr.bitmap_size f.hdr.num_records_per_page in
      record {
        layout = record {
          has_slots = valid.layout.has_slots;
          bits = valid.layout.bits;
          slots_fit = valid.layout.slots_fit;
        };
        started = omega arith;
        numbered = omega (arith, valid.numbered);
        sound = λ m a b. elim (Bool-cases (m == f.next_page_no)) [
          | inl same ↦
              let e : f.next_page_no ≡ m = ground arith in
              let page = fresh-IsPage f.hdr valid.layout in
              rw (← e) (
                rw grown_page (record {
                  wide = page.wide;
                  bytes = page.bytes;
                  counted = page.counted;
                  spread = page.spread;
                }))
          | inr apart ↦
              let old : m < f.hdr.num_pages = ground (arith, valid.numbered) in
              let page = valid.sound m a old in
              rw (grown_old m old) (record {
                wide = page.wide;
                bytes = page.bytes;
                counted = page.counted;
                spread = page.spread;
              })
        ];
        free_pages = (
          f.next_page_no ∷ [],
          (
            refl,
            (omega (arith, valid.numbered, valid.started), omega (arith, valid.numbered)),
            rw grown_page (omega (arith, zero_count, valid.layout.has_slots)),
            refl,
            rw grown_page refl,
          ),
        );
      }

  grown_records : (q : Rid) → record_at (grown f) q ≡ record_at f q
  grown_records q = elim (Bool-cases (ltb q.page_no f.hdr.num_pages)) [
    | inl old ↦ rw (grown_old q.page_no (ground arith)) (ground arith)
    | inr later ↦ elim (Bool-cases (q.page_no == f.next_page_no)) [
      | inl same ↦
          let e : f.next_page_no ≡ q.page_no = ground arith in
          rw (← e) (rw grown_page (ground (arith, fresh_reads f.hdr q.slot_no, valid.numbered)))
      | inr apart ↦ ground (arith, valid.numbered)
    ]
  ]

-- Pinning a page changes no record.
pub pinned_IsFile : (f : RmFile) (pins : List ℕ) → IsFile f → IsFile (record f { pinned = pins })
pinned_IsFile f pins v = record {
  layout = v.layout;
  started = v.started;
  numbered = v.numbered;
  sound = v.sound;
  free_pages = v.free_pages;
}

module _ (has_frame : List ℕ → ℕ → Bool) (f : RmFile) (valid : IsFile f) where
  page_handle_for-Ready :
      (first : ℤ) (ns : List ℕ)
      → f.hdr.first_free_page_no ≡ first
      → FreeList f.hdr f.pages first ns
      → has_frame f.pinned (target_of first f.next_page_no) ≡ true
      → (g : RmFile) × (page_handle_for has_frame first f
          ≡ (g, ok (target_of first f.next_page_no)))
        × Ready f g (target_of first f.next_page_no)
  unfolding page_handle_for
  page_handle_for-Ready (pos n) [] e l frame = cc
  page_handle_for-Ready (pos n) (m ∷ ns) e (e', inside, room, once, rest) frame =
      let at : m ≡ n = cc in
      let inside_n : n < f.hdr.num_pages = rw (← at) (inside.1) in
      (
        record f { pinned = n ∷ f.pinned },
        fetch_page_handle_lem has_frame f (record { page_no = n; slot_no = 0 }) inside_n frame,
        record {
          valid = pinned_IsFile f (n ∷ f.pinned) valid;
          head = e;
          records = λ q. refl;
          size = refl;
          pins = refl;
        },
      )
  page_handle_for-Ready (negsuc zero) ns e l frame = (
    grown f,
    create_new_page_handle_lem has_frame f valid frame,
    record {
      valid = grown-IsFile has_frame f valid e;
      head = refl;
      records = grown_records has_frame f valid;
      size = refl;
      pins = refl;
    },
  )
  page_handle_for-Ready (negsuc (suc k)) [] e l frame = cc
  page_handle_for-Ready (negsuc (suc k)) (m ∷ ns) e (e', inside, room, once, rest) frame = cc

  pub create_page_handle-Ready :
      has_frame f.pinned (target f) ≡ true
      → (g : RmFile) × (create_page_handle has_frame f ≡ (g, ok (target f))) × Ready f g (target f)
  unfolding create_page_handle
  create_page_handle-Ready frame =
      page_handle_for-Ready f.hdr.first_free_page_no valid.free_pages.0 refl valid.free_pages.1
        frame

-- A slot of page n taken and filled, under the header h.
abbrev pub filled : RmFile → ℕ → ℕ → List ℕ → RmFileHdr → List ℕ → RmFile
filled g n s buf h pins = record g {
  hdr = h;
  pages =
      update (update g.pages n (taken (g.pages n) s)) n (fill_slot h (taken (g.pages n) s) s buf);
  pinned = pins;
}

pub filled-Replaced :
    (g : RmFile) (rid : Rid) (buf : List ℕ) (h : RmFileHdr)
    → SameShape g.hdr h
    → Replaced g
        (filled g rid.page_no rid.slot_no buf h g.pinned)
        rid.page_no
        (fill_slot h (taken (g.pages rid.page_no) rid.slot_no) rid.slot_no buf)
filled-Replaced g rid buf h s = record {
  shape = s;
  next_page_no = refl;
  here = ground (arith, ==_refl rid.page_no);
  there = λ m ne. ground arith;
}

abbrev pub past_head : RmFile → ℕ → RmFileHdr
past_head g n = record (g.hdr) { first_free_page_no = (g.pages n).next_free_page_no }

module _ (has_frame : List ℕ → ℕ → Bool) (f g : RmFile) (n : ℕ) (buf : List ℕ)
    (made : create_page_handle has_frame f ≡ (g, ok n)) (pins : g.pinned ≡ n ∷ f.pinned) where
  abbrev pub slot : ℕ
  slot = first_bit false (g.pages n).bitmap g.hdr.num_records_per_page

  abbrev pub place : Rid
  place = record { page_no = n; slot_no = slot }

  pub insert_record_plain :
      is_pos (inc (g.pages n).num_records) g.hdr.num_records_per_page ≡ false
      → insert_record has_frame buf f ≡ (filled g n slot buf g.hdr f.pinned, ok place)
  unfolding insert_record
  insert_record_plain more = rw made (ground (arith, pins, ==_refl n))

  pub insert_record_full :
      is_pos (inc (g.pages n).num_records) g.hdr.num_records_per_page ≡ true
      → insert_record has_frame buf f ≡ (filled g n slot buf (past_head g n) f.pinned, ok place)
  unfolding insert_record
  insert_record_full full = rw made (ground (arith, pins, ==_refl n))
