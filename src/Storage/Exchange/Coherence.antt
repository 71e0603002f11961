-- ===== src/Storage/Exchange/Coherence.antt =====
-- A pool is coherent again after a frame has gone from one page to another.
use cscc_db_rucbase.Common.{
  ℕ, ◌<◌, ◌≡◌, ◌≢◌, ◌⊎◌, inl, inr, refl, sym, ap, subst, ◌∙◌, true, false, none, some, ◌==◌, ==_iff,
  Bool-cases, negsuc,
}
use cscc_db_rucbase.Replacer.Clock.{instance_size}
use cscc_db_rucbase.Storage.BufferPool.{
  PageId, page_id_eq, BufferPoolInstance, frame_of, update_page, fetch_into,
}
use cscc_db_rucbase.Storage.View.{
  page_id_of_eq, page_id_eq_refl, is_free, IsDistinct, Coherent, Spare,
}
use cscc_db_rucbase.Storage.Exchange.{
  put_disk, after, frame_of-after, page-taken, page-other, disk-after, disk-other, other_frame,
  free-after, not_taken,
}

module _ (p q : BufferPoolInstance) (f : ℕ) (id : PageId) (c : Coherent p) (s : Spare p q f)
    (missing : frame_of id p ≡ none) where
  -- Where an entry of the new page table comes from.
  entry-after :
      (k : PageId) (g : ℕ)
      → frame_of k (after p q f id c s missing) ≡ some g
      → ((id ≡ k) × (f ≡ g))
        ⊎ ((page_id_eq id k ≡ false)
            × (page_id_eq (p.pages f).id k ≡ false)
            × (frame_of k p ≡ some g))
  entry-after k g h =
      by_id (Bool-cases (page_id_eq id k)) (Bool-cases (page_id_eq (p.pages f).id k))
    where
      by_id :
          (page_id_eq id k ≡ true) ⊎ (page_id_eq id k ≡ false)
          → (page_id_eq (p.pages f).id k ≡ true) ⊎ (page_id_eq (p.pages f).id k ≡ false)
          → ((id ≡ k) × (f ≡ g))
            ⊎ ((page_id_eq id k ≡ false)
                × (page_id_eq (p.pages f).id k ≡ false)
                × (frame_of k p ≡ some g))
      by_id (inl new) _ =
          let e : some f ≡ some g = rw new at (sym ((frame_of-after p q f id c s missing) k) ∙ h) in
          inl (page_id_of_eq id k new, cc)
      by_id (inr ne) (inl old) =
          let e : none ≡ some g =
            rw (ne, old) at (sym ((frame_of-after p q f id c s missing) k) ∙ h) in
          cc
      by_id (inr ne) (inr other) =
          inr (ne, other, rw (ne, other) at (sym ((frame_of-after p q f id c s missing) k) ∙ h))

  after-mapped :
      (k : PageId) (g : ℕ)
      → frame_of k (after p q f id c s missing) ≡ some g
      → ((after p q f id c s missing).pages g).id ≡ k
  after-mapped k g h = elim (entry-after k g h) [
    | inl (new, here) ↦
        subst (λ j. ((after p q f id c s missing).pages j).id ≡ k) here
          (ap (λ page. page.id) (page-taken p q f id c s missing) ∙ new)
    | inr (ne, other, found) ↦
        ap (λ page. page.id)
          ((page-other p q f id c s missing) g ((other_frame p q f id c s missing) k g other found))
        ∙ c.mapped k g found
  ]

  after-clean :
      (k : PageId) (g : ℕ)
      → frame_of k (after p q f id c s missing) ≡ some g
      → ((after p q f id c s missing).pages g).is_dirty ≡ false
      → ((after p q f id c s missing).pages g).page_data ≡ (after p q f id c s missing).disk k
  after-clean k g h d = elim (entry-after k g h) [
    | inl (new, here) ↦
        subst
          (λ j.
            ((after p q f id c s missing).pages j).page_data ≡ (after p q f id c s missing).disk k)
          here
          (ap (λ page. page.page_data) (page-taken p q f id c s missing)
            ∙ subst (λ j. put_disk (p.pages f) p.disk id ≡ (after p q f id c s missing).disk j) new
                (sym ((disk-after p q f id c s missing) id)))
    | inr (ne, other, found) ↦
        let same =
          (page-other p q f id c s missing) g
            ((other_frame p q f id c s missing) k g other found) in
        ap (λ page. page.page_data) same
        ∙ c.clean k g found (sym (ap (λ page. page.is_dirty) same) ∙ d)
        ∙ sym ((disk-other p q f id c s missing) k other)
        ∙ sym ((disk-after p q f id c s missing) k)
  ]

  after-free :
      (g : ℕ)
      → is_free (after p q f id c s missing) g ≡ true
      → (((after p q f id c s missing).pages g).id.page_no ≡ negsuc 0)
        × (((after p q f id c s missing).pages g).is_dirty ≡ false)
  after-free g h =
      let free : is_free q g ≡ true = sym ((free-after p q f id c s missing) g) ∙ h in
      let ne = (not_taken p q f id c s missing) g free in
      subst (λ page. (page.id.page_no ≡ negsuc 0) × (page.is_dirty ≡ false))
        (sym ((page-other p q f id c s missing) g ne)) (c.free g (sym (s.rest g ne) ∙ free))

  after-placed :
      (g : ℕ)
      → g < instance_size
      → is_free (after p q f id c s missing) g ≡ false
      → frame_of ((after p q f id c s missing).pages g).id (after p q f id c s missing) ≡ some g
  after-placed g low h = elim (Bool-cases (g == f)) [
    | inl same ↦
        subst
          (λ j.
            frame_of ((after p q f id c s missing).pages j).id (after p q f id c s missing)
            ≡ some j)
          (sym ((==_iff g f).0 same))
          (subst (λ j. frame_of j (after p q f id c s missing) ≡ some f)
            (sym (ap (λ page. page.id) (page-taken p q f id c s missing)))
            ((frame_of-after p q f id c s missing) id ∙ rw (page_id_eq_refl id) refl))
    | inr ne ↦
        let found =
          c.placed g low (sym (s.rest g ne) ∙ sym ((free-after p q f id c s missing) g) ∙ h) in
        subst (λ page. frame_of page.id (after p q f id c s missing) ≡ some g)
          (sym ((page-other p q f id c s missing) g ne))
          ((frame_of-after p q f id c s missing) (p.pages g).id
            ∙ rw (new_id g found, old_id g ne found) found)
  ]
    where
      new_id : (g : ℕ) → frame_of (p.pages g).id p ≡ some g → page_id_eq id (p.pages g).id ≡ false
      new_id g found = elim (Bool-cases (page_id_eq id (p.pages g).id)) [
        | inr ne ↦ ne
        | inl same ↦
            let w : none ≡ some g =
              sym missing
              ∙ subst (λ k. frame_of k p ≡ some g) (sym (page_id_of_eq id (p.pages g).id same))
                  found in
            cc
      ]

      old_id :
          (g : ℕ)
          → (g == f) ≡ false
          → frame_of (p.pages g).id p ≡ some g
          → page_id_eq (p.pages f).id (p.pages g).id ≡ false
      old_id g ne found = elim (Bool-cases (page_id_eq (p.pages f).id (p.pages g).id)) [
        | inr other ↦ other
        | inl same ↦
            let moved : frame_of (p.pages f).id p ≡ some g =
              subst (λ k. frame_of k p ≡ some g)
                (sym (page_id_of_eq (p.pages f).id (p.pages g).id same)) found in
            elim s.holds [
              | inl (absent, _) ↦ let w : none ≡ some g = sym absent ∙ moved in cc
              | inr here ↦
                  let w : some g ≡ some f = sym moved ∙ here in
                  let e : g ≡ f = cc in
                  absurd (let t : true ≡ false = sym ((==_iff g f).1 e) ∙ ne in cc)
            ]
      ]

  after-IsDistinct : IsDistinct (after p q f id c s missing).free_list
  unfolding fetch_into update_page
  after-IsDistinct = s.distinct

  pub after-Coherent : id.page_no ≢ negsuc 0 → Coherent (after p q f id c s missing)
  after-Coherent named = record {
    mapped = after-mapped;
    clean = after-clean;
    free = after-free;
    valid = λ k g h. elim (entry-after k g h) [
      | inl (new, here) ↦ subst (λ j. j.page_no ≢ negsuc 0) new named
      | inr (ne, other, found) ↦ c.valid k g found
    ];
    placed = after-placed;
    distinct = after-IsDistinct;
  }
