-- ===== src/Storage/Flush.antt =====
-- flush_page of storage/buffer_pool_instance.cpp.
use cscc_db_rucbase.Common.{
  ℕ, ◌≡◌, inl, inr, refl, sym, ap, subst, ◌∙◌, true, false, Option, none, some, ◌==◌, ==_iff,
  Bool-cases, negsuc,
}
use cscc_db_rucbase.Storage.BufferPool.{
  PageId, page_id_eq, Page, BufferPoolInstance, frame_of, flush_frame, flush_page,
}
use cscc_db_rucbase.Storage.View.{page_id_of_eq, page_id_eq_refl, content, view, is_free, Coherent}

-- What a flush of a page has to give: the page's contents on disk, and the same view of all pages.
pub record Flushed (id : PageId) (p p' : BufferPoolInstance) : Type 0 where
  pub coherent : Coherent p'
  pub views : (k : PageId) → view p' k ≡ view p k
  pub durable : p'.disk id ≡ view p id

module _ (p : BufferPoolInstance) (c : Coherent p) (id : PageId) (f : ℕ)
    (found : frame_of id p ≡ some f) where
  abbrev flushed : BufferPoolInstance
  flushed = flush_frame f p

  flushed-page :
      {A : Type 0} (read : Page → A)
      → ((page : Page) → read (record page { is_dirty = false }) ≡ read page)
      → (g : ℕ) → read (flushed.pages g) ≡ read (p.pages g)
  unfolding flush_frame
  flushed-page read blind g = elim (Bool-cases (g == f)) [
    | inl same ↦
        rw same (blind (p.pages f) ∙ ap (λ j. read (p.pages j)) (sym ((==_iff g f).0 same)))
    | inr other ↦ rw other refl
  ]

  disk_self : flushed.disk id ≡ view p id
  unfolding flush_frame
  disk_self = rw (c.mapped id f found, page_id_eq_refl id) (sym (ap (content p id) found))

  disk_ne : (k : PageId) → page_id_eq k id ≡ false → flushed.disk k ≡ p.disk k
  unfolding flush_frame
  disk_ne k other = rw (c.mapped id f found, other) refl

  content-same :
      (k : PageId) (o : Option ℕ) → frame_of k p ≡ o → content flushed k o ≡ content p k o
  content-same k (some g) e = flushed-page (λ page. page.page_data) (λ page. refl) g
  content-same k none e = elim (Bool-cases (page_id_eq k id)) [
    | inr other ↦ disk_ne k other
    | inl same ↦
        let w : none ≡ some f =
          sym e ∙ subst (λ j. frame_of j p ≡ some f) (sym (page_id_of_eq k id same)) found in
        cc
  ]

  views-same : (k : PageId) → view flushed k ≡ view p k
  unfolding flush_frame
  views-same k = content-same k (frame_of k p) refl

  still_clean :
      (k : PageId) (g : ℕ)
      → frame_of k p ≡ some g
      → (flushed.pages g).is_dirty ≡ false
      → page_id_eq k id ≡ false
      → (p.pages g).is_dirty ≡ false
  unfolding flush_frame
  still_clean k g h d other = elim (Bool-cases (g == f)) [
    | inr ne ↦ rw ne at d
    | inl same ↦
        let here = (==_iff g f).0 same in
        let e : k ≡ id =
          sym (c.mapped k g h) ∙ ap (λ j. (p.pages j).id) here ∙ c.mapped id f found in
        absurd (
          let w : true ≡ false =
            sym (subst (λ j. page_id_eq k j ≡ true) e (page_id_eq_refl k)) ∙ other in
          cc)
  ]

  flushed-free :
      (g : ℕ)
      → is_free p g ≡ true
      → ((flushed.pages g).id.page_no ≡ negsuc 0) × ((flushed.pages g).is_dirty ≡ false)
  unfolding flush_frame
  flushed-free g h =
      let (unnamed, tidy) = c.free g h in
      (
        ap (λ i. i.page_no) (flushed-page (λ page. page.id) (λ page. refl) g) ∙ unnamed,
        elim (Bool-cases (g == f)) [ inl same ↦ rw same refl | inr ne ↦ rw ne tidy ],
      )

  flushed-clean :
      (k : PageId) (g : ℕ)
      → frame_of k p ≡ some g
      → (flushed.pages g).is_dirty ≡ false
      → (flushed.pages g).page_data ≡ flushed.disk k
  flushed-clean k g h d =
      flushed-page (λ page. page.page_data) (λ page. refl) g ∙ elim (Bool-cases (page_id_eq k id)) [
        | inl same ↦
            let e = page_id_of_eq k id same in
            sym (ap (content p k) h)
            ∙ subst (λ j. view p j ≡ flushed.disk j) (sym e) (sym disk_self)
        | inr other ↦ c.clean k g h (still_clean k g h d other) ∙ sym (disk_ne k other)
      ]

  flushed-Coherent : Coherent flushed
  unfolding flush_frame
  flushed-Coherent = record {
    mapped = λ k g h. flushed-page (λ page. page.id) (λ page. refl) g ∙ c.mapped k g h;
    clean = flushed-clean;
    free = flushed-free;
    valid = c.valid;
    placed = λ g low h.
        subst (λ i. frame_of i p ≡ some g) (sym (flushed-page (λ page. page.id) (λ page. refl) g))
          (c.placed g low h);
    distinct = c.distinct;
  }

-- flush_page, where it returns true on a coherent pool: the file has the contents that were shown
-- of the page, the contents shown of every page stay the same, and the pool stays coherent.
pub flush_page-Flushed :
    (id : PageId) (p : BufferPoolInstance)
    → Coherent p
    → (flush_page id p).1 ≡ true
    → Flushed id p (flush_page id p).0
unfolding flush_page
flush_page-Flushed id p c h = by_frame (frame_of id p) refl
  where
    by_frame : (o : Option ℕ) → frame_of id p ≡ o → Flushed id p (flush_page id p).0
    by_frame none e = let w : false ≡ true = (rw (e, flush_page) at h) in cc
    by_frame (some f) e =
        rw (e, flush_page)
          (record {
            coherent = flushed-Coherent p c id f e;
            views = views-same p c id f e;
            durable = disk_self p c id f e;
          })
