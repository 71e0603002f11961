-- ===== src/Storage/Fetch.antt =====
-- fetch_page of storage/buffer_pool_instance.cpp as a read of one memory of pages.
use cscc_db_rucbase.Common.{
  ℕ, suc, ◌<◌, ◌≡◌, ◌≢◌, ◌⊎◌, inl, inr, refl, sym, ap, subst, ◌∙◌, true, false, List, [], ◌∷◌,
  Option, none, some, ◌==◌, ==_iff, Bool-cases, negsuc, any,
}
use cscc_db_rucbase.Replacer.Clock.{ClockReplacer, instance_size, is_unpinned, victim-finds}
use cscc_db_rucbase.Storage.BufferPool.{
  PageId, Page, BufferPoolInstance, frame_of, set_page, frame_from, find_victim_page, fetch_into,
  fetch_found, fetch_page,
}
use cscc_db_rucbase.Storage.View.{
  page_id_eq_refl, content, view, is_free, Coherent, Spare, victim-Spare,
}
use cscc_db_rucbase.Storage.Exchange.Coherence.{after-Coherent}
use cscc_db_rucbase.Storage.Exchange.{after, view-after, frame_of-after, page-taken, disk-missing}

-- What a fetch of a page has to give: the same view of all pages, and a frame with the contents that
-- the view had of the page.
pub record Fetched (id : PageId) (p p' : BufferPoolInstance) (o : Option ℕ) : Type 0 where
  pub coherent : Coherent p'
  pub views : (k : PageId) → view p' k ≡ view p k
  pub frame : (f : ℕ) → o ≡ some f → frame_of id p' ≡ some f
  pub holds : (f : ℕ) → o ≡ some f → (p'.pages f).page_data ≡ view p id

-- The same pool but for pin counts and the replacer.
module _ (p : BufferPoolInstance) (c : Coherent p) where
  same_but_replacer-Coherent : (r : ClockReplacer) → Coherent (record p { replacer = r })
  same_but_replacer-Coherent r = record {
    mapped = c.mapped;
    clean = c.clean;
    free = c.free;
    valid = c.valid;
    placed = c.placed;
    distinct = c.distinct;
  }

  -- A pool in which the pin count of a page is another one.
  abbrev repinned : ℕ → ℕ → ClockReplacer → BufferPoolInstance
  repinned f n r = record (set_page f (record (p.pages f) { pin_count = n }) p) { replacer = r }

  repinned-page {ℓ} :
      {A : Type ℓ} (f n : ℕ) (r : ClockReplacer) (read : Page → A)
      → ((page : Page) → read (record page { pin_count = n }) ≡ read page)
      → (g : ℕ) → read ((repinned f n r).pages g) ≡ read (p.pages g)
  repinned-page f n r read blind g = elim (Bool-cases (g == f)) [
    | inl same ↦
        rw same (blind (p.pages f) ∙ ap (λ j. read (p.pages j)) (sym ((==_iff g f).0 same)))
    | inr other ↦ rw other refl
  ]

  repinned-view : (f n : ℕ) (r : ClockReplacer) (k : PageId) → view (repinned f n r) k ≡ view p k
  repinned-view f n r k = of_frame (frame_of k p)
    where
      of_frame : (o : Option ℕ) → content (repinned f n r) k o ≡ content p k o
      of_frame none = refl
      of_frame (some g) = repinned-page f n r (λ page. page.page_data) (λ page. refl) g

  repinned-Coherent : (f n : ℕ) (r : ClockReplacer) → Coherent (repinned f n r)
  repinned-Coherent f n r = record {
    mapped = λ k g h. id_of g ∙ c.mapped k g h;
    clean = λ k g h d.
        repinned-page f n r (λ page. page.page_data) (λ page. refl) g
        ∙ c.clean k g h (sym (dirty_of g) ∙ d);
    free = λ g h.
        let (unnamed, tidy) = c.free g h in
        (ap (λ i. i.page_no) (id_of g) ∙ unnamed, dirty_of g ∙ tidy);
    valid = c.valid;
    placed = λ g low h. subst (λ i. frame_of i p ≡ some g) (sym (id_of g)) (c.placed g low h);
    distinct = c.distinct;
  }
    where
      id_of : (g : ℕ) → ((repinned f n r).pages g).id ≡ (p.pages g).id
      id_of g = repinned-page f n r (λ page. page.id) (λ page. refl) g

      dirty_of : (g : ℕ) → ((repinned f n r).pages g).is_dirty ≡ (p.pages g).is_dirty
      dirty_of g = repinned-page f n r (λ page. page.is_dirty) (λ page. refl) g

  found-Fetched :
      (id : PageId) (f : ℕ)
      → frame_of id p ≡ some f
      → Fetched id p (fetch_found f p).0 (fetch_found f p).1
  unfolding fetch_found
  found-Fetched id f found = record {
    coherent = repinned-Coherent f (suc (p.pages f).pin_count) _;
    views = repinned-view f (suc (p.pages f).pin_count) (fetch_found f p).0.replacer;
    frame = λ g h. found ∙ h;
    holds = λ g h.
        let here : f ≡ g = cc in
        subst (λ j. ((fetch_found f p).0.pages j).page_data ≡ view p id) here
          (repinned-page f (suc (p.pages f).pin_count) (fetch_found f p).0.replacer
              (λ page. page.page_data) (λ page. refl) f
            ∙ sym (ap (content p id) found));
  }

  -- Without a frame only the replacer's hand has moved.
  no_frame :
      (fs : List ℕ)
      → (frame_from p fs).1 ≡ none
      → (r : ClockReplacer) × ((frame_from p fs).0 ≡ record p { replacer = r })
  no_frame [] h = (_, refl)
  no_frame (f ∷ fs) h = cc

  no_victim :
      (find_victim_page p).1 ≡ none
      → (r : ClockReplacer) × ((find_victim_page p).0 ≡ record p { replacer = r })
  unfolding find_victim_page
  no_victim h = no_frame p.free_list h

  none-Fetched : (id : PageId) (r : ClockReplacer) → Fetched id p (record p { replacer = r }) none
  none-Fetched id r = record {
    coherent = same_but_replacer-Coherent r;
    views = λ k. refl;
    frame = λ g h. cc;
    holds = λ g h. cc;
  }

  into-Fetched :
      (id : PageId)
      → frame_of id p ≡ none
      → id.page_no ≢ negsuc 0
      → (q : BufferPoolInstance) (o : Option ℕ) → find_victim_page p ≡ (q, o)
      → Fetched id p (fetch_into id (q, o)).0 (fetch_into id (q, o)).1
  unfolding fetch_into
  into-Fetched id missing named q none e =
      let (r, same) = no_victim (ap (λ a. a.1) e) in
      subst (λ a. Fetched id p a none) (sym same ∙ ap (λ a. a.0) e) (none-Fetched id r)
  into-Fetched id missing named q (some f) e =
      let s : Spare p q f = subst (λ a. Spare p a.0 f) e (victim-Spare p f c (ap (λ a. a.1) e)) in
      record {
        coherent = after-Coherent p q f id c s missing named;
        views = view-after p q f id c s missing;
        frame = λ g h. mapped s ∙ h;
        holds = λ g h.
            let here : f ≡ g = cc in
            subst (λ j. ((after p q f id c s missing).pages j).page_data ≡ view p id) here
              (ap (λ page. page.page_data) (page-taken p q f id c s missing)
                ∙ disk-missing p q f id c s missing
                ∙ sym (ap (content p id) missing));
      }
    where
      mapped : (s : Spare p q f) → frame_of id (fetch_into id (q, some f)).0 ≡ some f
      mapped s = frame_of-after p q f id c s missing id ∙ rw (page_id_eq_refl id) refl

-- fetch_page reads one memory of pages: on a coherent pool and for a page id with a page number,
-- whichever page it puts out of its frame, the contents that the pool and the files together show
-- of every page stay the same, a frame that it returns is the one of the page table and holds the
-- contents shown of the page before, and the pool stays coherent.
pub fetch_page-Fetched :
    (id : PageId) (p : BufferPoolInstance)
    → Coherent p
    → id.page_no ≢ negsuc 0
    → Fetched id p (fetch_page id p).0 (fetch_page id p).1
unfolding fetch_page
fetch_page-Fetched id p c named = by_frame (frame_of id p) refl
  where
    by_frame :
        (o : Option ℕ) → frame_of id p ≡ o → Fetched id p (fetch_page id p).0 (fetch_page id p).1
    by_frame none e =
        rw (e, fetch_page)
          (into-Fetched p c id e named (find_victim_page p).0 (find_victim_page p).1 refl)
    by_frame (some f) e = rw (e, fetch_page) (found-Fetched p c id f e)

-- fetch_page returns a page whenever some frame is on the free list or is one of the instance's
-- 4096 frames that the replacer counts as unpinned.
pub fetch_page-succeeds :
    (id : PageId) (p : BufferPoolInstance) (f : ℕ)
    → ((is_free p f ≡ true) ⊎ ((f < instance_size) × (is_unpinned p.replacer f ≡ true)))
    → (g : ℕ) × ((fetch_page id p).1 ≡ some g)
unfolding fetch_page
fetch_page-succeeds id p f h = by_frame (frame_of id p) refl
  where
    by_list : (fs : List ℕ) → p.free_list ≡ fs → (g : ℕ) × ((frame_from p fs).1 ≡ some g)
    by_list (g ∷ fs) e = (g, refl)
    by_list [] e = elim h [
      | inl free ↦ let w : true ≡ false = sym free ∙ ap (any (λ j. j == f)) e in cc
      | inr (low, unpinned) ↦
          let (g, found, _, _) = victim-finds p.replacer f low unpinned in (g, found)
    ]

    into : (a : BufferPoolInstance × Option ℕ) (g : ℕ) → a.1 ≡ some g → (fetch_into id a).1 ≡ some g
    into (q, none) g e = cc
    into (q, some j) g e = unfold fetch_into in e

    by_frame : (o : Option ℕ) → frame_of id p ≡ o → (g : ℕ) × ((fetch_page id p).1 ≡ some g)
    by_frame none e =
        let (g, found) = by_list p.free_list refl in
        (g, rw (e, fetch_page) (into (find_victim_page p) g (unfold find_victim_page in found)))
    by_frame (some j) e = (j, rw (e, fetch_page) (unfold fetch_found in refl))
