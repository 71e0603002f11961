-- ===== src/Record/File.antt =====
-- `RmFileHandle` of record/rm_file_handle.cpp: the records of one table's file. The buffer pool is
-- seen from above, as the contents of each page of the file (Storage/View) and one entry for each
-- pin that the handle holds; whether `fetch_page` and `new_page` find a frame (they answer nullptr
-- when all are pinned) is the parameter `has_frame`. A page's bytes are its header, its bitmap and
-- its slots; what a `memcpy` would write past the page is lost. Page latches are not modelled.
pub mod Page
pub mod Sound
pub mod Fill
pub mod Insert
pub mod Places
pub mod Change
pub mod Invariant
use cscc_db_rucbase.Common.{
  ℕ, zero, suc, ◌+◌, ◌-◌, ◌*◌, Bool, true, false, not, ◌&&◌, ◌||◌, List, [], ◌∷◌, ◌++◌, ltb, leb,
  ◌==◌, if◌then◌else◌, ℤ, pos, negsuc, inc, dec, is_pos, slice, blit, length, Option, none, some,
}
use cscc_db_rucbase.Transaction.LockDataId.{Rid}
use cscc_db_rucbase.Record.Bitmap
use cscc_db_rucbase.Record.Bitmap.{is_set, set_bit, reset, first_bit, init}

pub record RmFileHdr : Type 0 where
  pub record_size : ℕ
  pub num_pages : ℕ
  pub num_records_per_page : ℕ
  pub first_free_page_no : ℤ
  pub bitmap_size : ℕ

-- `RmPageHdr`, then the bitmap, then the slots.
pub record RmPage : Type 0 where
  pub next_free_page_no : ℤ
  pub num_records : ℤ
  pub bitmap : List ℕ
  pub slots : List ℕ

-- `next_page_no` is the disk manager's counter for this file, from which `new_page` numbers pages.
pub record RmFile : Type 0 where
  pub hdr : RmFileHdr
  pub pages : ℕ → RmPage
  pub next_page_no : ℕ
  pub pinned : List ℕ

pub data RmError : Type 0 where
  page_not_exist record_not_found : RmError

pub data Result {ℓ} (A : Type ℓ) : Type ℓ where
  ok : A → Result A
  err : RmError → Result A

-- An exception leaves the file as it is at that point, its pins included.
abbrev pub M : Type 0 → Type 0
M A = RmFile → RmFile × Result A

abbrev pub bind_result : {A B : Type 0} → RmFile × Result A → (A → M B) → RmFile × Result B
bind_result (f, ok a) k = k a f
bind_result (f, err e) k = (f, err e)

infixl 5 ◌>>=◌ ◌>>◌
abbrev pub ◌>>=◌ : {A B : Type 0} → M A → (A → M B) → M B
◌>>=◌ m k f = bind_result (m f) k

abbrev pub ◌>>◌ : {A B : Type 0} → M A → M B → M B
m >> k = m >>= λ _. k

abbrev pub return : {A : Type 0} → A → M A
return a f = (f, ok a)

abbrev pub throw : {A : Type 0} → RmError → M A
throw e f = (f, err e)

abbrev pub get_page : ℕ → M RmPage
get_page n f = (f, ok (f.pages n))

abbrev pub get_hdr : M RmFileHdr
get_hdr f = (f, ok f.hdr)

abbrev pub put_hdr : RmFileHdr → M (Unit {0})
put_hdr h f = (record f { hdr = h }, ok tt)

-- A map with one value changed.
abbrev pub update : (ℕ → RmPage) → ℕ → RmPage → ℕ → RmPage
update pages n p m = if n == m then p else pages m

abbrev pub put_page : ℕ → RmPage → M (Unit {0})
put_page n p f = (record f { pages = update f.pages n p }, ok tt)

abbrev pub pin : ℕ → M (Unit {0})
pin n f = (record f { pinned = n ∷ f.pinned }, ok tt)

-- `unpin_page`: one pin of the page goes.
abbrev pub drop_pin : ℕ → List ℕ → List ℕ
drop_pin n [] = []
drop_pin n (m ∷ ms) = if m == n then ms else m ∷ drop_pin n ms

abbrev pub unpin_page : ℕ → M (Unit {0})
unpin_page n f = (record f { pinned = drop_pin n f.pinned }, ok tt)

-- `memcpy` out of and into `get_slot(slot_no)`.
abbrev pub slot_of : RmFileHdr → RmPage → ℕ → List ℕ
slot_of h p slot_no = slice (slot_no * h.record_size) h.record_size p.slots

abbrev pub fill_slot : RmFileHdr → RmPage → ℕ → List ℕ → RmPage
fill_slot h p slot_no buf = record p {
  slots = blit (slot_no * h.record_size) (slice 0 h.record_size buf) p.slots;
}

-- The bit is set and the record counted; a page that this fills gives the head of the free list to
-- the page after it.
unfoldable pub take_slot : ℕ → ℕ → M (Unit {0})
unfolding set_bit
take_slot page_no slot_no = do
  p ← get_page page_no
  h ← get_hdr
  let p' = record p { bitmap = set_bit p.bitmap slot_no; num_records = inc p.num_records }
  put_page page_no p'
  let fills = is_pos p'.num_records h.num_records_per_page
  if fills then put_hdr (record h { first_free_page_no = p.next_free_page_no }) else return tt

-- The bytes of a page past its lsn and its header, which the bitmap and the slots share.
abbrev pub page_room : ℕ
page_room = 4084

-- `new_page` hands out a zeroed page.
abbrev pub zero_page : RmFileHdr → RmPage
zero_page h = record {
  next_free_page_no = pos 0;
  num_records = pos 0;
  bitmap = init h.bitmap_size;
  slots = init (page_room - h.bitmap_size);
}

unfoldable pub release_page_handle : ℕ → M (Unit {0})
release_page_handle page_no = do
  p ← get_page page_no
  h ← get_hdr
  put_page page_no (record p { next_free_page_no = h.first_free_page_no })
  put_hdr (record h { first_free_page_no = pos page_no })

-- `memcpy(get_slot(slot_no), buf, record_size)`.
abbrev pub copy_in : ℕ → ℕ → List ℕ → M (Unit {0})
copy_in page_no slot_no buf = do
  p ← get_page page_no
  h ← get_hdr
  put_page page_no (fill_slot h p slot_no buf)

abbrev pub is_set_at : Rid → M Bool
is_set_at rid = do p ← get_page rid.page_no; return (is_set p.bitmap rid.slot_no)

-- The guard of `get_record`, `delete_record` and `update_record`, which throws with the page pinned.
abbrev pub must_be_set : Rid → M (Unit {0})
must_be_set rid = do there ← is_set_at rid; if there then return tt else throw record_not_found

module _ (has_frame : List ℕ → ℕ → Bool) where
  -- The page number is a C `int`.
  unfoldable pub fetch_page_handle : ℤ → M ℕ
  fetch_page_handle (negsuc n) f = throw page_not_exist f
  fetch_page_handle (pos n) f =
      if leb f.hdr.num_pages n || not (has_frame f.pinned n)
      then throw page_not_exist f
      else (record f { pinned = n ∷ f.pinned }, ok n)

  -- `BufferPoolManager::new_page` for this file.
  unfoldable pub new_page : M ℕ
  new_page f =
      if has_frame f.pinned f.next_page_no
      then (
        record f {
          pages = update f.pages f.next_page_no (zero_page f.hdr);
          next_page_no = suc f.next_page_no;
          pinned = f.next_page_no ∷ f.pinned;
        },
        ok f.next_page_no,
      )
      else throw page_not_exist f

  unfoldable pub create_new_page_handle : M ℕ
  unfolding new_page
  create_new_page_handle = do
    n ← new_page
    p ← get_page n
    h ← get_hdr
    put_page n (record p {
      next_free_page_no = negsuc 0;
      num_records = pos 0;
      bitmap = init h.bitmap_size;
    })
    put_hdr (record h { num_pages = suc h.num_pages; first_free_page_no = pos n })
    return n

  -- `create_page_handle`, by the number of the first free page: -1 says that there is none.
  unfoldable pub page_handle_for : ℤ → M ℕ
  unfolding fetch_page_handle create_new_page_handle
  page_handle_for (negsuc zero) = create_new_page_handle
  page_handle_for page_no = fetch_page_handle page_no

  unfoldable pub create_page_handle : M ℕ
  unfolding page_handle_for
  create_page_handle f = page_handle_for f.hdr.first_free_page_no f

  unfoldable pub get_record : Rid → M (List ℕ)
  unfolding fetch_page_handle
  get_record rid = do
    n ← fetch_page_handle (pos rid.page_no)
    must_be_set rid
    p ← get_page n
    h ← get_hdr
    unpin_page n
    return (slot_of h p rid.slot_no)

  unfoldable pub insert_record : List ℕ → M Rid
  unfolding create_page_handle take_slot
  insert_record buf = do
    n ← create_page_handle
    p ← get_page n
    h ← get_hdr
    let slot_no = first_bit false p.bitmap h.num_records_per_page
    take_slot n slot_no
    copy_in n slot_no buf
    unpin_page n
    return (record { page_no = n; slot_no = slot_no })

  -- `insert_record(rid, buf)`.
  unfoldable pub insert_record_at : Rid → List ℕ → M (Unit {0})
  unfolding fetch_page_handle take_slot
  insert_record_at rid buf = do
    n ← fetch_page_handle (pos rid.page_no)
    there ← is_set_at rid
    if there then return tt else take_slot n rid.slot_no
    copy_in n rid.slot_no buf
    unpin_page n

  unfoldable pub delete_record : Rid → M (Unit {0})
  unfolding fetch_page_handle release_page_handle
  delete_record rid = do
    n ← fetch_page_handle (pos rid.page_no)
    must_be_set rid
    p ← get_page n
    h ← get_hdr
    put_page n (record p { bitmap = reset p.bitmap rid.slot_no; num_records = dec p.num_records })
    if is_pos p.num_records h.num_records_per_page then release_page_handle n else return tt
    unpin_page n

  unfoldable pub update_record : Rid → List ℕ → M (Unit {0})
  unfolding fetch_page_handle
  update_record rid buf = do
    n ← fetch_page_handle (pos rid.page_no)
    must_be_set rid
    copy_in n rid.slot_no buf
    unpin_page n

  -- The page stays pinned.
  unfoldable pub is_record : Rid → M Bool
  unfolding fetch_page_handle
  is_record rid = do n ← fetch_page_handle (pos rid.page_no); is_set_at rid

-- `Bitmap::set` for the first `n` slots.
unfoldable pub set_first : ℕ → List ℕ → List ℕ
set_first zero bm = bm
set_first (suc n) bm = set_bit (set_first n bm) n

-- What `load_record` makes of a fresh page: the bytes copied over the slots, the first `nums` slots
-- taken.
abbrev pub loaded : RmFileHdr → List ℕ → ℕ → RmPage
loaded h bytes nums = record {
  next_free_page_no = negsuc 0;
  num_records = pos nums;
  bitmap = set_first nums (init h.bitmap_size);
  slots = blit 0 bytes (zero_page h).slots;
}

-- `load_record`. `none` is the use of a null page, or the assertion on the page's number.
unfoldable pub load_record : (List ℕ → ℕ → Bool) → ℕ → List ℕ → ℕ → RmFile → Option RmFile
load_record has_frame page_no bytes nums f =
    if has_frame f.pinned f.next_page_no && f.next_page_no == page_no
    then some (record f {
      hdr = record (f.hdr) { num_pages = suc f.hdr.num_pages };
      pages = update f.pages f.next_page_no (loaded f.hdr bytes nums);
      next_page_no = suc f.next_page_no;
      pinned = drop_pin f.next_page_no (f.next_page_no ∷ f.pinned);
    })
    else none
