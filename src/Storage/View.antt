-- ===== src/Storage/View.antt =====
-- What a buffer pool instance shows of the pages: the contents that a fetch gives for each page id,
-- whether the page is in memory or on disk.
use cscc_db_rucbase.Common.{
  ℕ, ◌<◌, ◌≡◌, ◌≢◌, ◌⊎◌, inl, inr, refl, ap, subst, Bool, true, false, ◌||◌, List, [], ◌∷◌, Option,
  none, some, ◌==◌, Option-cases, ℤ, pos, negsuc, any, arith,
}
use cscc_db_rucbase.Replacer.Clock.{instance_size, victim-unpinned}
use cscc_db_rucbase.Storage.BufferPool.{
  PageId, page_no_eq, page_id_eq, BufferPoolInstance, frame_of, frame_from, find_victim_page,
}

page_no_of_eq : (a b : ℤ) → page_no_eq a b ≡ true → a ≡ b
page_no_of_eq (pos a) (pos b) h = ap pos (ground arith)
page_no_of_eq (pos a) (negsuc b) h = ground arith
page_no_of_eq (negsuc a) (pos b) h = ground arith
page_no_of_eq (negsuc a) (negsuc b) h = ap negsuc (ground arith)

pub page_id_of_eq : (a b : PageId) → page_id_eq a b ≡ true → a ≡ b
page_id_of_eq a b h =
    let e : a.fd ≡ b.fd = ground arith in
    let n : a.page_no ≡ b.page_no = page_no_of_eq a.page_no b.page_no (ground arith) in cc

pub page_id_eq_refl : (a : PageId) → page_id_eq a a ≡ true
page_id_eq_refl a = ground arith

pub page_id_eq_cycle :
    (a b c : PageId) → page_id_eq a b ≡ true → page_id_eq a c ≡ true → page_id_eq b c ≡ true
page_id_eq_cycle a b c h k = ground arith

pub page_id_eq_comm : (a b : PageId) → page_id_eq a b ≡ page_id_eq b a
page_id_eq_comm a b = ground arith

-- The contents of a page: those in its frame, or else those on disk.
abbrev pub content : BufferPoolInstance → PageId → Option ℕ → List ℕ
content p id none = p.disk id
content p id (some f) = (p.pages f).page_data

abbrev pub view : BufferPoolInstance → PageId → List ℕ
view p id = content p id (frame_of id p)

abbrev pub is_free : BufferPoolInstance → ℕ → Bool
is_free p f = any (λ g. g == f) p.free_list

abbrev pub IsDistinct : List ℕ → Type 0
IsDistinct [] = Unit {0}
IsDistinct (f ∷ fs) = (any (λ g. g == f) fs ≡ false) × IsDistinct fs

-- What the operations keep: a frame of the page table holds the page, clean pages are as on disk,
-- free frames have no page number, and every other frame is in the page table.
pub record Coherent (p : BufferPoolInstance) : Type 0 where
  pub mapped : (id : PageId) (f : ℕ) → frame_of id p ≡ some f → (p.pages f).id ≡ id
  pub clean :
      (id : PageId) (f : ℕ)
      → frame_of id p ≡ some f
      → (p.pages f).is_dirty ≡ false
      → (p.pages f).page_data ≡ p.disk id
  pub free :
      (f : ℕ)
      → is_free p f ≡ true
      → ((p.pages f).id.page_no ≡ negsuc 0) × ((p.pages f).is_dirty ≡ false)
  pub valid : (id : PageId) (f : ℕ) → frame_of id p ≡ some f → id.page_no ≢ negsuc 0
  pub placed :
      (f : ℕ) → f < instance_size → is_free p f ≡ false → frame_of (p.pages f).id p ≡ some f
  pub distinct : IsDistinct p.free_list

-- A frame that may be given to another page, in a pool that has it no longer free.
pub record Spare (p q : BufferPoolInstance) (f : ℕ) : Type 0 where
  pub pages : q.pages ≡ p.pages
  pub page_table : q.page_table ≡ p.page_table
  pub disk : q.disk ≡ p.disk
  pub holds :
      ((frame_of (p.pages f).id p ≡ none) × ((p.pages f).is_dirty ≡ false))
      ⊎ (frame_of (p.pages f).id p ≡ some f)
  pub taken : is_free q f ≡ false
  pub rest : (g : ℕ) → (g == f) ≡ false → is_free q g ≡ is_free p g
  pub distinct : IsDistinct q.free_list

-- A page id without a page number is not in the page table.
pub not_mapped :
    (p : BufferPoolInstance) (id : PageId)
    → Coherent p
    → id.page_no ≡ negsuc 0
    → frame_of id p ≡ none
not_mapped p id c h = elim (Option-cases (frame_of id p)) [
  | inl absent ↦ absent
  | inr (f, found) ↦ absurd (c.valid id f found h)
]

frame_from-Spare :
    (p : BufferPoolInstance) (fs : List ℕ)
    → p.free_list ≡ fs
    → Coherent p
    → (f : ℕ) → (frame_from p fs).1 ≡ some f
    → Spare p (frame_from p fs).0 f
frame_from-Spare p [] e c f h =
    let free_of : (g : ℕ) → is_free p g ≡ false = λ g. ap (any (λ j. j == g)) e in
    record {
      pages = refl;
      page_table = refl;
      disk = refl;
      holds = inr (c.placed f ((victim-unpinned p.replacer).1 f h).1 (free_of f));
      taken = free_of f;
      rest = λ g ne. refl;
      distinct = c.distinct;
    }
frame_from-Spare p (g ∷ fs) e c f h =
    let same : g ≡ f = cc in
    let free_of : (j : ℕ) → is_free p j ≡ ((g == j) || any (λ k. k == j) fs) =
      λ j. ap (any (λ k. k == j)) e in
    let d : IsDistinct (g ∷ fs) = subst IsDistinct e c.distinct in
    record {
      pages = refl;
      page_table = refl;
      disk = refl;
      holds =
          let (unnamed, tidy) = c.free f (ground (arith, free_of f)) in
          inl (not_mapped p (p.pages f).id c unnamed, tidy);
      taken = subst (λ k. any (λ j. j == k) fs ≡ false) same d.0;
      rest = λ j ne. ground (arith, free_of j);
      distinct = d.1;
    }

pub victim-Spare :
    (p : BufferPoolInstance) (f : ℕ)
    → Coherent p
    → (find_victim_page p).1 ≡ some f
    → Spare p (find_victim_page p).0 f
unfolding find_victim_page
victim-Spare p f c h = frame_from-Spare p p.free_list refl c f h
