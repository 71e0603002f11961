-- ===== src/Storage/Unpin.antt =====
-- unpin_page of storage/buffer_pool_instance.cpp.
use cscc_db_rucbase.Common.{
  ℕ, zero, suc, ◌≡◌, refl, sym, ap, subst, ◌∙◌, Bool, true, false, ◌||◌, Option, none, some, ◌==◌,
  ==_iff, ==_refl, if◌then◌else◌, Bool-cases, inl, inr, pos, negsuc, dec, arith,
}
use cscc_db_rucbase.Replacer.Clock.{ClockReplacer, unpin}
use cscc_db_rucbase.Storage.BufferPool.{
  PageId, Page, BufferPoolInstance, frame_of, set_page, unpin_frame, unpin_page,
}
use cscc_db_rucbase.Storage.View.{content, view, is_free, Coherent}
use cscc_db_rucbase.Storage.Pins.{mapped_busy}
use cscc_db_rucbase.Storage.Pinned.{is_pinned, PinsMatch}

-- What an unpin of a page that is pinned has to give: one pin less, the dirty bit, and nothing else.
pub record Unpinned (id : PageId) (is_dirty : Bool) (p p' : BufferPoolInstance) : Type 0 where
  pub coherent : Coherent p'
  pub matches : PinsMatch p'
  pub views : (k : PageId) → view p' k ≡ view p k
  pub pins : (f : ℕ) → frame_of id p ≡ some f → (p.pages f).pin_count ≡ suc (p'.pages f).pin_count
  pub dirt :
      (f : ℕ) → frame_of id p ≡ some f → (p'.pages f).is_dirty ≡ ((p.pages f).is_dirty || is_dirty)

module _ (id : PageId) (d : Bool) (p : BufferPoolInstance) (c : Coherent p) (m : PinsMatch p)
    (f n : ℕ) (found : frame_of id p ≡ some f) (count : (p.pages f).pin_count ≡ suc n) where
  abbrev page : Page
  page = record (p.pages f) { pin_count = n; is_dirty = (p.pages f).is_dirty || d }

  abbrev clock : ClockReplacer
  clock = if n == 0 then unpin f p.replacer else p.replacer

  abbrev released : BufferPoolInstance
  released = record (set_page f page p) { replacer = clock }

  unpin_frame-released : unpin_frame f d p ≡ (released, true)
  unfolding unpin_frame
  unpin_frame-released = rw (count, unpin_frame) refl

  released-page :
      {A : Type 0} (read : Page → A)
      → read page ≡ read (p.pages f)
      → (g : ℕ) → read (released.pages g) ≡ read (p.pages g)
  released-page read blind g = elim (Bool-cases (g == f)) [
    | inl same ↦ rw same (blind ∙ ap (λ j. read (p.pages j)) (sym ((==_iff g f).0 same)))
    | inr other ↦ rw other refl
  ]

  content-same : (k : PageId) (o : Option ℕ) → content released k o ≡ content p k o
  content-same k none = refl
  content-same k (some g) = released-page (λ q. q.page_data) refl g

  still_clean : (g : ℕ) → (released.pages g).is_dirty ≡ false → (p.pages g).is_dirty ≡ false
  still_clean g h = elim (Bool-cases (g == f)) [
    | inr other ↦ rw other at h
    | inl same ↦
        subst (λ j. (p.pages j).is_dirty ≡ false) (sym ((==_iff g f).0 same))
          (first_false (p.pages f).is_dirty d (rw same at h))
  ]
    where
      first_false : (a b : Bool) → (a || b) ≡ false → a ≡ false
      first_false a b e = ground arith

  not_here : (g : ℕ) → is_free p g ≡ true → (g == f) ≡ false
  not_here g free = elim (Bool-cases (g == f)) [
    | inr other ↦ other
    | inl same ↦
        let w : true ≡ false =
          sym free ∙ ap (is_free p) ((==_iff g f).0 same) ∙ mapped_busy p c m id f found in
        cc
  ]

  page_elsewhere : (g : ℕ) → (g == f) ≡ false → released.pages g ≡ p.pages g
  page_elsewhere g other = rw other refl

  released-Coherent : Coherent released
  released-Coherent = record {
    mapped = λ k g h. id_of g ∙ c.mapped k g h;
    clean = λ k g h e. released-page (λ q. q.page_data) refl g ∙ c.clean k g h (still_clean g e);
    free = λ g h.
        subst (λ q. (q.id.page_no ≡ negsuc 0) × (q.is_dirty ≡ false))
          (sym (page_elsewhere g (not_here g h))) (c.free g h);
    valid = c.valid;
    placed = λ g low h. subst (λ i. frame_of i p ≡ some g) (sym (id_of g)) (c.placed g low h);
    distinct = c.distinct;
  }
    where
      id_of : (g : ℕ) → (released.pages g).id ≡ (p.pages g).id
      id_of g = released-page (λ q. q.id) refl g

  not_zero : (k : ℕ) → (suc k == 0) ≡ false
  not_zero k = ground arith

  clock_own :
      (k : ℕ)
      → p.replacer.pin_counter f ≡ pos 1
      → (if k == 0 then unpin f p.replacer else p.replacer).pin_counter f ≡ pos (is_pinned k)
  unfolding unpin
  clock_own zero h = rw (==_refl f) (ap dec h)
  clock_own (suc k) h = rw (not_zero k) h

  clock_other :
      (k g : ℕ)
      → (g == f) ≡ false
      → (if k == 0 then unpin f p.replacer else p.replacer).pin_counter g ≡ p.replacer.pin_counter g
  unfolding unpin
  clock_other zero g other = rw other refl
  clock_other (suc k) g other = rw (not_zero k) refl

  released-PinsMatch : PinsMatch released
  released-PinsMatch = record {
    counted = λ g. elim (Bool-cases (g == f)) [
      | inl same ↦ rw same (
          ap clock.pin_counter ((==_iff g f).0 same)
          ∙ clock_own n (m.counted f ∙ ap (λ k. pos (is_pinned k)) count))
      | inr other ↦ rw other (clock_other n g other ∙ m.counted g)
    ];
    idle = λ g h. ap (λ q. q.pin_count) (page_elsewhere g (not_here g h)) ∙ m.idle g h;
  }

  released-Unpinned : Unpinned id d p released
  released-Unpinned = record {
    coherent = released-Coherent;
    matches = released-PinsMatch;
    views = λ k. content-same k (frame_of k p);
    pins = λ g h.
        subst (λ j. (p.pages j).pin_count ≡ suc (released.pages j).pin_count) (here g h)
          (rw (==_refl f) count);
    dirt = λ g h.
        subst (λ j. (released.pages j).is_dirty ≡ ((p.pages j).is_dirty || d)) (here g h)
          (rw (==_refl f) refl);
  }
    where
      here : (g : ℕ) → frame_of id p ≡ some g → f ≡ g
      here g h = let w : some f ≡ some g = sym found ∙ h in cc

-- unpin_page, where it returns true on a coherent pool whose replacer counts agree with the pins:
-- the page has one pin less and is dirty if it was or is said to be, the contents shown of every
-- page stay the same, the pool stays coherent, and the counts agree with the pins again.
pub unpin_page-Unpinned :
    (id : PageId) (is_dirty : Bool) (p : BufferPoolInstance)
    → Coherent p
    → PinsMatch p
    → (unpin_page id is_dirty p).1 ≡ true
    → Unpinned id is_dirty p (unpin_page id is_dirty p).0
unfolding unpin_page
unpin_page-Unpinned id is_dirty p c m h = by_frame (frame_of id p) refl
  where
    by_count :
        (f n : ℕ)
        → frame_of id p ≡ some f
        → (p.pages f).pin_count ≡ n
        → (unpin_frame f is_dirty p).1 ≡ true
        → Unpinned id is_dirty p (unpin_frame f is_dirty p).0
    by_count f (suc n) e count t =
        rw (unpin_frame-released id is_dirty p c m f n e count)
          (released-Unpinned id is_dirty p c m f n e count)
    by_count f zero e count t = let w : false ≡ true = (rw (count, unpin_frame) at t) in cc

    by_frame :
        (o : Option ℕ) → frame_of id p ≡ o → Unpinned id is_dirty p (unpin_page id is_dirty p).0
    by_frame none e = let w : false ≡ true = (rw (e, unpin_page) at h) in cc
    by_frame (some f) e =
        rw (e, unpin_page) (by_count f (p.pages f).pin_count e refl (rw (e, unpin_page) at h))
