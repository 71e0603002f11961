-- ===== src/Record/File/Invariant.antt =====
-- A record file as a whole: its pages, and the list of free pages that runs through them.
use cscc_db_rucbase.Common.{
  ℕ, ◌+◌, ◌*◌, ◌≤◌, ◌<◌, false, List, [], ◌∷◌, Option, none, ltb, ◌==◌, if◌then◌else◌, ◌&&◌, ◌≡◌,
  ◌≢◌, refl, arith, Bool-cases, inl, inr, ℤ, pos, negsuc, any, subst,
}
use cscc_db_rucbase.Transaction.LockDataId.{Rid}
use cscc_db_rucbase.Record.Bitmap.Count.{count_set}
use cscc_db_rucbase.Record.File.{RmFileHdr, RmPage, RmFile, page_room}
use cscc_db_rucbase.Record.File.Page.{IsPage, page_read}

abbrev pub HasRoom : RmFileHdr → RmPage → Type 0
HasRoom h p = count_set p.bitmap h.num_records_per_page < h.num_records_per_page

-- Page n is a data page of the file; page 0 holds the file's header.
abbrev pub InFile : RmFileHdr → ℕ → Type 0
InFile h n = (0 < n) × (n < h.num_pages)

-- From `first`, the links run through exactly the pages `ns`, each with a free slot, and end in -1.
abbrev pub FreeList : RmFileHdr → (ℕ → RmPage) → ℤ → List ℕ → Type 0
FreeList h pages first [] = first ≡ negsuc 0
FreeList h pages first (n ∷ ns) =
    (first ≡ pos n)
    × InFile h n
    × HasRoom h (pages n)
    × (any (λ m. m == n) ns ≡ false)
    × FreeList h pages (pages n).next_free_page_no ns

-- The layout of a page, as `RmManager::create_file` sets it up.
pub record IsLayout (h : RmFileHdr) : Type 0 where
  pub has_slots : 0 < h.num_records_per_page
  pub bits : h.num_records_per_page ≤ 8 * h.bitmap_size
  pub slots_fit : h.bitmap_size + h.num_records_per_page * h.record_size ≤ page_room

pub record IsFile (f : RmFile) : Type 0 where
  pub layout : IsLayout f.hdr
  pub started : 0 < f.hdr.num_pages
  pub numbered : f.next_page_no ≡ f.hdr.num_pages
  pub sound : (n : ℕ) → 0 < n → n < f.hdr.num_pages → IsPage f.hdr (f.pages n)
  pub free_pages : (ns : List ℕ) × FreeList f.hdr f.pages f.hdr.first_free_page_no ns

-- What the file holds: the abstract table.
abbrev pub record_at : RmFile → Rid → Option (List ℕ)
record_at f rid =
    if ltb 0 rid.page_no && ltb rid.page_no f.hdr.num_pages
    then page_read f.hdr (f.pages rid.page_no) rid.slot_no
    else none

-- The parts of the header that a page depends on.
pub record SameShape (h g : RmFileHdr) : Type 0 where
  pub record_size : g.record_size ≡ h.record_size
  pub num_pages : g.num_pages ≡ h.num_pages
  pub num_records_per_page : g.num_records_per_page ≡ h.num_records_per_page
  pub bitmap_size : g.bitmap_size ≡ h.bitmap_size

-- A page has been replaced; the free list may start elsewhere.
pub record Replaced (f g : RmFile) (n : ℕ) (p : RmPage) : Type 0 where
  pub shape : SameShape f.hdr g.hdr
  pub next_page_no : g.next_page_no ≡ f.next_page_no
  pub here : g.pages n ≡ p
  pub there : (m : ℕ) → n ≢ m → g.pages m ≡ f.pages m

module _ {h g : RmFileHdr} (s : SameShape h g) where
  pub shape-IsLayout : IsLayout h → IsLayout g
  shape-IsLayout l = record {
    has_slots = omega (arith, s.num_records_per_page, l.has_slots);
    bits = omega (arith, s.num_records_per_page, s.bitmap_size, l.bits);
    slots_fit = rw (s.bitmap_size, s.num_records_per_page, s.record_size) (l.slots_fit);
  }

  shape-IsPage : {p : RmPage} → IsPage h p → IsPage g p
  shape-IsPage {p} ok = record {
    wide = omega (arith, s.bitmap_size, ok.wide);
    bytes = ok.bytes;
    counted = rw s.num_records_per_page (ok.counted);
    spread = rw (s.num_records_per_page, s.record_size) (ok.spread);
  }

  shape-HasRoom : (p : RmPage) → HasRoom h p → HasRoom g p
  shape-HasRoom p r = rw s.num_records_per_page r

  pub shape-page_read : (p : RmPage) (q : ℕ) → page_read g p q ≡ page_read h p q
  shape-page_read p q = rw (s.num_records_per_page, s.record_size) refl

module _ {f g : RmFile} {n : ℕ} {p : RmPage} (r : Replaced f g n p) where
  pub replaced-sound :
      IsPage f.hdr p
      → ((m : ℕ) → 0 < m → m < f.hdr.num_pages → IsPage f.hdr (f.pages m))
      → (m : ℕ) → 0 < m
      → m < g.hdr.num_pages
      → IsPage g.hdr (g.pages m)
  replaced-sound ok old m a b = shape-IsPage r.shape (elim (Bool-cases (n == m)) [
    | inl same ↦ let e : n ≡ m = ground arith in rw (← e) (rw r.here ok)
    | inr apart ↦ rw (r.there m (ground arith)) (old m a (omega (arith, r.shape.num_pages)))
  ])

  -- Links that do not pass the page stay as they are.
  apart-FreeList :
      (first : ℤ) (ns : List ℕ)
      → any (λ m. m == n) ns ≡ false
      → FreeList f.hdr f.pages first ns
      → FreeList g.hdr g.pages first ns
  apart-FreeList first [] out l = l
  apart-FreeList first (m ∷ ns) out (e, inside, room, once, rest) =
      let ne : n ≢ m = ground arith in
      let same = r.there m ne in
      (
        e,
        (inside.0, omega (arith, inside.1, r.shape.num_pages)),
        rw same (shape-HasRoom r.shape (f.pages m) room),
        once,
        rw same (apart-FreeList (f.pages m).next_free_page_no ns (ground arith) rest),
      )

  -- Links through a page that keeps its own link and has room go on.
  through-FreeList :
      (first : ℤ) (ns : List ℕ)
      → (HasRoom f.hdr (f.pages n) → HasRoom f.hdr p)
      → p.next_free_page_no ≡ (f.pages n).next_free_page_no
      → FreeList f.hdr f.pages first ns
      → FreeList g.hdr g.pages first ns
  through-FreeList first [] room link l = l
  through-FreeList first (m ∷ ns) room link (e, inside, room_m, once, rest) =
      let tail = through-FreeList (f.pages m).next_free_page_no ns room link rest in
      let inside_g : InFile g.hdr m = (inside.0, omega (arith, inside.1, r.shape.num_pages)) in
      elim (Bool-cases (n == m)) [
        | inl same ↦
            let at : n ≡ m = ground arith in
            let page_m : g.pages m ≡ p = rw (← at) r.here in
            (
              e,
              inside_g,
              rw page_m (shape-HasRoom r.shape p (room (rw at room_m))),
              once,
              rw (page_m, link, at) tail,
            )
        | inr apart ↦
            let kept = r.there m (ground arith) in
            (e, inside_g, rw kept (shape-HasRoom r.shape (f.pages m) room_m), once, rw kept tail)
      ]

  pub record_at-replaced :
      (rid : Rid)
      → InFile f.hdr n
      → record_at g rid
        ≡ (if n == rid.page_no then page_read f.hdr p rid.slot_no else record_at f rid)
  record_at-replaced rid inside = elim (Bool-cases (n == rid.page_no)) [
    | inl same ↦
        let at : n ≡ rid.page_no = ground arith in
        rw (same, ← at)
          (rw r.here
            (ground (arith, r.shape.num_pages, inside, shape-page_read r.shape p rid.slot_no)))
    | inr apart ↦ rw apart (
        rw (r.there rid.page_no (ground arith)) (
          ground
            (arith, r.shape.num_pages, shape-page_read r.shape (f.pages rid.page_no) rid.slot_no)))
  ]

-- A page without room is not on the list.
full_apart :
    (h : RmFileHdr) (pages : ℕ → RmPage) (n : ℕ) (first : ℤ) (ns : List ℕ)
    → count_set (pages n).bitmap h.num_records_per_page ≡ h.num_records_per_page
    → FreeList h pages first ns
    → any (λ m. m == n) ns ≡ false
full_apart h pages n first [] full l = refl
full_apart h pages n first (m ∷ ns) full (e, inside, room, once, rest) =
    let later = full_apart h pages n (pages m).next_free_page_no ns full rest in
    elim (Bool-cases (m == n)) [
      | inl same ↦
          let at : m ≡ n = ground arith in
          let room_n : HasRoom h (pages n) = subst (λ k. HasRoom h (pages k)) at room in
          absurd (omega arith)
      | inr apart ↦ ground arith
    ]

module _ {f g : RmFile} {n : ℕ} {p : RmPage} (r : Replaced f g n p) (ok : IsFile f)
    (page : IsPage f.hdr p) where
  with_list : (ns : List ℕ) → FreeList g.hdr g.pages g.hdr.first_free_page_no ns → IsFile g
  with_list ns l = record {
    layout = shape-IsLayout r.shape ok.layout;
    started = omega (arith, ok.started, r.shape.num_pages);
    numbered = omega (arith, ok.numbered, r.shape.num_pages, r.next_page_no);
    sound = replaced-sound r page ok.sound;
    free_pages = (ns, l);
  }

  -- The list stays: the page, if it is on it, keeps its link and has room.
  pub kept-IsFile :
      (HasRoom f.hdr (f.pages n) → HasRoom f.hdr p)
      → p.next_free_page_no ≡ (f.pages n).next_free_page_no
      → g.hdr.first_free_page_no ≡ f.hdr.first_free_page_no
      → IsFile g
  kept-IsFile room link first = with_list ok.free_pages.0 (
      rw first
        (through-FreeList r f.hdr.first_free_page_no ok.free_pages.0 room link ok.free_pages.1))

  -- The page was the head of the list, and leaves it.
  pub dropped-IsFile :
      (f.hdr.first_free_page_no ≡ pos n)
      → g.hdr.first_free_page_no ≡ (f.pages n).next_free_page_no
      → IsFile g
  dropped-IsFile head first = without_head ok.free_pages.0 ok.free_pages.1
    where
      without_head : (ns : List ℕ) → FreeList f.hdr f.pages f.hdr.first_free_page_no ns → IsFile g
      without_head [] l = cc
      without_head (m ∷ ns) (e, inside, room, once, rest) =
          let at : m ≡ n = cc in
          with_list ns (
            rw first (
              apart-FreeList r (f.pages n).next_free_page_no ns
                (subst (λ k. any (λ j. j == k) ns ≡ false) at once)
                (subst (λ k. FreeList f.hdr f.pages (f.pages k).next_free_page_no ns) at rest)))

  -- The page was full, and becomes the head of the list.
  pub pushed-IsFile :
      InFile f.hdr n
      → count_set (f.pages n).bitmap f.hdr.num_records_per_page ≡ f.hdr.num_records_per_page
      → HasRoom f.hdr p
      → p.next_free_page_no ≡ f.hdr.first_free_page_no
      → g.hdr.first_free_page_no ≡ pos n
      → IsFile g
  pushed-IsFile inside full room link first =
      let ns = ok.free_pages.0 in
      let l = ok.free_pages.1 in
      let out = full_apart f.hdr f.pages n f.hdr.first_free_page_no ns full l in
      with_list (n ∷ ns) (
        first,
        (inside.0, omega (arith, inside.1, r.shape.num_pages)),
        rw r.here (shape-HasRoom r.shape p room),
        out,
        rw (r.here, link) (apart-FreeList r f.hdr.first_free_page_no ns out l),
      )
