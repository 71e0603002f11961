-- ===== src/Storage/BufferPool.antt =====
-- `PageId` and `Page` of storage/page.h and `BufferPoolInstance` of storage/buffer_pool_instance.cpp.
-- The files behind the DiskManager are a function from page ids to contents, which write_page changes
-- and read_page reads. The flushes of the log before a page is written change no page and are left out.
use cscc_db_rucbase.Common.{
  ℕ, zero, suc, Bool, true, false, ◌&&◌, ◌||◌, List, [], ◌∷◌, ◌++◌, Option, none, some, ◌==◌,
  if◌then◌else◌, ℤ, negsuc, pos_part, neg_part, find, store, erase_key,
}
use cscc_db_rucbase.Gap.Compare.{drop}
use cscc_db_rucbase.Replacer.Clock.{ClockReplacer, instance_size, put, victim, pin, unpin}

pub record PageId : Type 0 where
  pub fd : ℕ
  pub page_no : ℤ

abbrev pub page_no_eq : ℤ → ℤ → Bool
page_no_eq a b = (pos_part a == pos_part b) && (neg_part a == neg_part b)

abbrev pub page_id_eq : PageId → PageId → Bool
page_id_eq a b = (a.fd == b.fd) && page_no_eq a.page_no b.page_no

pub record Page : Type 0 where
  pub id : PageId
  pub page_data : List ℕ
  pub is_dirty : Bool
  pub pin_count : ℕ

unfoldable pub zeros : ℕ → List ℕ
zeros zero = []
zeros (suc n) = 0 ∷ zeros n

-- `set_page_lsn(INVALID_LSN)`: the first four bytes are those of -1.
abbrev pub without_lsn : List ℕ → List ℕ
without_lsn bytes = 255 ∷ 255 ∷ 255 ∷ 255 ∷ drop 4 bytes

abbrev pub reset_lsn : Page → Page
reset_lsn page = record page { page_data = without_lsn page.page_data }

-- `reset_memory`: PAGE_SIZE zeros but for the lsn.
abbrev pub reset_memory : Page → Page
reset_memory page = reset_lsn (record page { page_data = zeros 4096 })

pub record BufferPoolInstance : Type 0 where
  pub pages : ℕ → Page
  pub page_table : List (PageId × ℕ)
  pub free_list : List ℕ
  pub replacer : ClockReplacer
  pub disk : PageId → List ℕ

-- The constructor: every frame is free, and no page has a number. `fd` of a page and the arrays of
-- the clock are not initialised.
unfoldable pub frames_from : ℕ → ℕ → List ℕ
frames_from i zero = []
frames_from i (suc n) = i ∷ frames_from (suc i) n

abbrev pub new_pool : ℕ → ClockReplacer → (PageId → List ℕ) → BufferPoolInstance
new_pool fd clock disk = record {
  pages = λ f. record {
    id = record { fd = fd; page_no = negsuc 0 };
    page_data = without_lsn (zeros 4096);
    is_dirty = false;
    pin_count = 0;
  };
  page_table = [];
  free_list = frames_from 0 instance_size;
  replacer = clock;
  disk = disk;
}

-- `write_page`.
abbrev pub write_page : PageId → List ℕ → (PageId → List ℕ) → PageId → List ℕ
write_page id bytes disk j = if page_id_eq j id then bytes else disk j

abbrev pub frame_of : PageId → BufferPoolInstance → Option ℕ
frame_of id p = find page_id_eq id p.page_table

abbrev pub set_page : ℕ → Page → BufferPoolInstance → BufferPoolInstance
set_page f page p = record p { pages = put f page p.pages }

-- The first free frame, or the replacer's victim if there is none.
abbrev pub frame_from : BufferPoolInstance → List ℕ → BufferPoolInstance × Option ℕ
frame_from p [] = let (c, o) = victim p.replacer in (record p { replacer = c }, o)
frame_from p (f ∷ fs) = (record p { free_list = fs }, some f)

unfoldable pub find_victim_page : BufferPoolInstance → BufferPoolInstance × Option ℕ
find_victim_page p = frame_from p p.free_list

unfoldable pub update_page : ℕ → PageId → BufferPoolInstance → BufferPoolInstance
update_page f id p =
    let page = p.pages f in
    record p {
      disk = if page.is_dirty then write_page page.id page.page_data p.disk else p.disk;
      page_table = store page_id_eq id f (erase_key page_id_eq page.id p.page_table);
      pages = put f (record page { id = id; is_dirty = false; pin_count = 0 }) p.pages;
    }

-- What follows the look for a frame: the page is read into it and pinned.
unfoldable pub fetch_into : PageId → BufferPoolInstance × Option ℕ → BufferPoolInstance × Option ℕ
unfolding update_page
fetch_into id (p, none) = (p, none)
fetch_into id (p, some f) =
    let q = update_page f id p in
    let page = record (q.pages f) { page_data = q.disk id; pin_count = 1 } in
    (record (set_page f page q) { replacer = pin f q.replacer }, some f)

-- A page that is there is pinned once more.
unfoldable pub fetch_found : ℕ → BufferPoolInstance → BufferPoolInstance × Option ℕ
fetch_found f p =
    let count = suc (p.pages f).pin_count in
    (
      record (set_page f (record (p.pages f) { pin_count = count }) p) {
        replacer = if count == 1 then pin f p.replacer else p.replacer;
      },
      some f,
    )

-- The frame stands for the pointer that is returned, and `none` for nullptr.
unfoldable pub fetch_page : PageId → BufferPoolInstance → BufferPoolInstance × Option ℕ
unfolding fetch_found fetch_into
fetch_page id p = elim (frame_of id p) [
  | none ↦ fetch_into id (find_victim_page p)
  | some f ↦ fetch_found f p
]

unfoldable pub unpin_frame : ℕ → Bool → BufferPoolInstance → BufferPoolInstance × Bool
unpin_frame f is_dirty p = elim (p.pages f).pin_count [
  | zero ↦ (p, false)
  | suc n ↦ (
    record (set_page f
        (record (p.pages f) { pin_count = n; is_dirty = (p.pages f).is_dirty || is_dirty }) p) {
          replacer = if n == 0 then unpin f p.replacer else p.replacer;
        },
    true,
  )
]

unfoldable pub unpin_page : PageId → Bool → BufferPoolInstance → BufferPoolInstance × Bool
unfolding unpin_frame
unpin_page id is_dirty p = elim (frame_of id p) [
  | none ↦ (p, false)
  | some f ↦ unpin_frame f is_dirty p
]

-- A page written to disk and clean.
unfoldable pub flush_frame : ℕ → BufferPoolInstance → BufferPoolInstance
flush_frame f p = record (set_page f (record (p.pages f) { is_dirty = false }) p) {
  disk = write_page (p.pages f).id (p.pages f).page_data p.disk;
}

unfoldable pub flush_page : PageId → BufferPoolInstance → BufferPoolInstance × Bool
unfolding flush_frame
flush_page id p = elim (frame_of id p) [ none ↦ (p, false) | some f ↦ (flush_frame f p, true) ]

unfoldable pub new_into : PageId → BufferPoolInstance × Option ℕ → BufferPoolInstance × Option ℕ
unfolding update_page
new_into id (p, none) = (p, none)
new_into id (p, some f) =
    let q = update_page f id p in
    let page = record (reset_memory (q.pages f)) { pin_count = 1 } in
    (record (set_page f page q) { replacer = pin f q.replacer }, some f)

unfoldable pub new_page : PageId → BufferPoolInstance → BufferPoolInstance × Option ℕ
unfolding new_into
new_page id p = new_into id (find_victim_page p)

-- The frame of an unpinned page goes to the end of the free list. Its id stays as it is.
unfoldable pub delete_frame : ℕ → BufferPoolInstance → BufferPoolInstance × Bool
unfolding flush_frame
delete_frame f p = elim (p.pages f).pin_count [
  | suc n ↦ (p, false)
  | zero ↦
      let q = if (p.pages f).is_dirty then flush_frame f p else p in
      (
        record (set_page f (reset_memory (q.pages f)) q) {
          free_list = q.free_list ++ f ∷ [];
          page_table = erase_key page_id_eq (q.pages f).id q.page_table;
        },
        true,
      )
]

unfoldable pub delete_page : PageId → BufferPoolInstance → BufferPoolInstance × Bool
unfolding delete_frame
delete_page id p = elim (frame_of id p) [ none ↦ (p, true) | some f ↦ delete_frame f p ]

-- The loops over the page table; `entries` is what is left of it.
unfoldable pub flush_entries : ℕ → List (PageId × ℕ) → BufferPoolInstance → BufferPoolInstance
unfolding flush_frame
flush_entries fd [] p = p
flush_entries fd ((id, f) ∷ entries) p =
    flush_entries fd entries (if id.fd == fd then flush_frame f p else p)

unfoldable pub flush_all_pages : ℕ → BufferPoolInstance → BufferPoolInstance
unfolding flush_entries
flush_all_pages fd p = flush_entries fd p.page_table p

unfoldable pub checkpoint_entries : ℕ → List (PageId × ℕ) → BufferPoolInstance → BufferPoolInstance
unfolding flush_frame
checkpoint_entries fd [] p = p
checkpoint_entries fd ((id, f) ∷ entries) p =
    checkpoint_entries fd entries
      (if id.fd == fd then flush_frame f (set_page f (reset_lsn (p.pages f)) p) else p)

unfoldable pub flush_all_pages_for_checkpoint : ℕ → BufferPoolInstance → BufferPoolInstance
unfolding checkpoint_entries
flush_all_pages_for_checkpoint fd p = checkpoint_entries fd p.page_table p

-- The page of a frame whose file goes: only the page number of its id is reset.
abbrev pub clear_page : Page → Page
clear_page page = record (reset_memory page) {
  is_dirty = false;
  pin_count = 0;
  id = record (page.id) { page_no = negsuc 0 };
}

unfoldable pub delete_entries : ℕ → List (PageId × ℕ) → BufferPoolInstance → BufferPoolInstance
delete_entries fd [] p = p
delete_entries fd ((id, f) ∷ entries) p = delete_entries fd entries (
    if id.fd == fd
    then record (set_page f (clear_page (p.pages f)) p) {
      free_list = p.free_list ++ f ∷ [];
      page_table = erase_key page_id_eq id p.page_table;
    }
    else p)

unfoldable pub delete_all_pages : ℕ → BufferPoolInstance → BufferPoolInstance
unfolding delete_entries
delete_all_pages fd p = delete_entries fd p.page_table p
