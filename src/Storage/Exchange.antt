-- ===== src/Storage/Exchange.antt =====
-- A frame that goes from one page to another, in fetch_page of storage/buffer_pool_instance.cpp.
pub mod Coherence
use cscc_db_rucbase.Common.{
  ℕ, ◌<◌, ◌≡◌, ◌≢◌, ◌⊎◌, inl, inr, refl, sym, ap, subst, ◌∙◌, true, false, List, none, some, ◌==◌,
  ==_iff, ==_refl, if◌then◌else◌, Bool-cases, Option-cases, negsuc, find, store, erase_key,
  find-store_self, find-store_ne, find-erase_key_self, find-erase_key_ne, arith,
}
use cscc_db_rucbase.Replacer.Clock.{instance_size}
use cscc_db_rucbase.Storage.BufferPool.{
  PageId, page_id_eq, Page, BufferPoolInstance, write_page, frame_of, update_page, fetch_into,
}
use cscc_db_rucbase.Storage.View.{
  page_id_of_eq, page_id_eq_refl, page_id_eq_cycle, page_id_eq_comm, content, view, is_free,
  IsDistinct, Coherent, Spare,
}

-- The page table after a frame has gone from the page `old` to the page `id`.
pub find-update :
    (id old q : PageId) (f : ℕ) (m : List (PageId × ℕ))
    → find page_id_eq q (store page_id_eq id f (erase_key page_id_eq old m))
      ≡ (if page_id_eq id q then some f else if page_id_eq old q then none else find page_id_eq q m)
find-update id old q f m = elim (Bool-cases (page_id_eq id q)) [
  | inl same ↦ rw same (
      subst (λ k. find page_id_eq k (store page_id_eq id f (erase_key page_id_eq old m)) ≡ some f)
        (page_id_of_eq id q same)
        (find-store_self page_id_eq page_id_eq_refl id f (erase_key page_id_eq old m)))
  | inr other ↦ rw other (
      find-store_ne page_id_eq page_id_eq_cycle id q f (erase_key page_id_eq old m) other
      ∙ erased (Bool-cases (page_id_eq old q)))
]
  where
    erased :
        (page_id_eq old q ≡ true) ⊎ (page_id_eq old q ≡ false)
        → find page_id_eq q (erase_key page_id_eq old m)
          ≡ (if page_id_eq old q then none else find page_id_eq q m)
    erased (inl same) = rw same (
        subst (λ k. find page_id_eq k (erase_key page_id_eq old m) ≡ none)
          (page_id_of_eq old q same) (find-erase_key_self page_id_eq page_id_eq_cycle old m))
    erased (inr other) = rw other (find-erase_key_ne page_id_eq page_id_eq_cycle old q m other)

abbrev pub put_disk : Page → (PageId → List ℕ) → PageId → List ℕ
put_disk page disk = if page.is_dirty then write_page page.id page.page_data disk else disk

-- The frame is given to another page.
module _ (p q : BufferPoolInstance) (f : ℕ) (id : PageId) (c : Coherent p) (s : Spare p q f)
    (missing : frame_of id p ≡ none) where
  abbrev pub after : BufferPoolInstance
  after = (fetch_into id (q, some f)).0

  pub frame_of-after :
      (k : PageId)
      → frame_of k after ≡ (
          if page_id_eq id k
          then some f
          else if page_id_eq (p.pages f).id k
          then none
          else frame_of k p)
  unfolding fetch_into update_page
  frame_of-after k = rw (s.pages, s.page_table) (find-update id (p.pages f).id k f p.page_table)

  pub disk-after : (k : PageId) → after.disk k ≡ put_disk (p.pages f) p.disk k
  unfolding fetch_into update_page
  disk-after k = rw (s.pages, s.disk) refl

  pub pages-after :
      (g : ℕ)
      → after.pages g ≡ (
          if g == f
          then record {
            id = id;
            page_data = put_disk (p.pages f) p.disk id;
            is_dirty = false;
            pin_count = 1;
          }
          else p.pages g)
  unfolding fetch_into update_page
  pages-after g = elim (Bool-cases (g == f)) [
    | inl same ↦ rw same (rw (==_refl f, s.pages, s.disk) refl)
    | inr other ↦ rw other (rw (s.pages) refl)
  ]

  pub page-taken : after.pages f ≡ record {
    id = id;
    page_data = put_disk (p.pages f) p.disk id;
    is_dirty = false;
    pin_count = 1;
  }
  page-taken = pages-after f ∙ rw (==_refl f) refl

  pub page-other : (g : ℕ) → (g == f) ≡ false → after.pages g ≡ p.pages g
  page-other g other = pages-after g ∙ rw other refl

  -- The page that is read is not the dirty one that is written.
  pub disk-missing : put_disk (p.pages f) p.disk id ≡ p.disk id
  disk-missing = elim s.holds [
    | inl (_, tidy) ↦ rw tidy refl
    | inr here ↦ elim (Bool-cases (page_id_eq id (p.pages f).id)) [
      | inl same ↦
          let found : frame_of id p ≡ some f =
            subst (λ k. frame_of k p ≡ some f) (sym (page_id_of_eq id (p.pages f).id same)) here in
          absurd (let w : none ≡ some f = sym missing ∙ found in cc)
      | inr other ↦ ground arith
    ]
  ]

  -- What becomes of the page that leaves the frame.
  disk-leaving :
      (k : PageId) → page_id_eq (p.pages f).id k ≡ true → put_disk (p.pages f) p.disk k ≡ view p k
  disk-leaving k same =
      let old = page_id_of_eq (p.pages f).id k same in
      subst (λ j. put_disk (p.pages f) p.disk j ≡ view p j) old
        (elim s.holds [
          | inl (absent, tidy) ↦ rw tidy (sym (ap (content p (p.pages f).id) absent))
          | inr here ↦ elim (Bool-cases (p.pages f).is_dirty) [
            | inl dirty ↦
                rw (dirty, page_id_eq_refl (p.pages f).id)
                  (sym (ap (content p (p.pages f).id) here))
            | inr tidy ↦
                rw tidy
                  (sym (ap (content p (p.pages f).id) here ∙ c.clean (p.pages f).id f here tidy))
          ]
        ])

  pub disk-other :
      (k : PageId) → page_id_eq (p.pages f).id k ≡ false → put_disk (p.pages f) p.disk k ≡ p.disk k
  disk-other k other = ground (arith, page_id_eq_comm (p.pages f).id k)

  -- Another page's frame is another one.
  pub other_frame :
      (k : PageId) (g : ℕ)
      → page_id_eq (p.pages f).id k ≡ false
      → frame_of k p ≡ some g
      → (g == f) ≡ false
  other_frame k g other found = elim (Bool-cases (g == f)) [
    | inr ne ↦ ne
    | inl same ↦
        let here : (p.pages f).id ≡ k =
          subst (λ j. (p.pages j).id ≡ k) ((==_iff g f).0 same) (c.mapped k g found) in
        absurd (
          subst (λ j. page_id_eq (p.pages f).id j ≡ false → ⊥) here
            (λ w. ground (arith, page_id_eq_refl (p.pages f).id)) other)
  ]

  pub view-after : (k : PageId) → view after k ≡ view p k
  view-after k =
      ap (content after k) (frame_of-after k)
      ∙ by_frame (Bool-cases (page_id_eq id k)) (Bool-cases (page_id_eq (p.pages f).id k))
          (Option-cases (frame_of k p))
    where
      by_frame :
          (page_id_eq id k ≡ true) ⊎ (page_id_eq id k ≡ false)
          → (page_id_eq (p.pages f).id k ≡ true) ⊎ (page_id_eq (p.pages f).id k ≡ false)
          → (frame_of k p ≡ none) ⊎ ((g : ℕ) × (frame_of k p ≡ some g))
          → content after k (
              if page_id_eq id k
              then some f
              else if page_id_eq (p.pages f).id k
              then none
              else frame_of k p)
            ≡ view p k
      by_frame (inl new) _ _ =
          let same = page_id_of_eq id k new in
          rw new (
            ap (λ page. page.page_data) page-taken
            ∙ disk-missing
            ∙ sym (ap (content p id) missing)
            ∙ ap (view p) same)
      by_frame (inr ne) (inl old) _ = rw (ne, old) (disk-after k ∙ disk-leaving k old)
      by_frame (inr ne) (inr other) (inl absent) =
          rw (ne, other)
            (ap (content after k) absent
              ∙ disk-after k
              ∙ disk-other k other
              ∙ sym (ap (content p k) absent))
      by_frame (inr ne) (inr other) (inr (g, found)) =
          rw (ne, other)
            (ap (content after k) found
              ∙ ap (λ page. page.page_data) (page-other g (other_frame k g other found))
              ∙ sym (ap (content p k) found))

  pub free-after : (g : ℕ) → is_free after g ≡ is_free q g
  unfolding fetch_into update_page
  free-after g = refl

  pub not_taken : (g : ℕ) → is_free q g ≡ true → (g == f) ≡ false
  not_taken g h = elim (Bool-cases (g == f)) [
    | inr ne ↦ ne
    | inl same ↦
        let free : is_free q f ≡ true = subst (λ j. is_free q j ≡ true) ((==_iff g f).0 same) h in
        absurd (let w : true ≡ false = sym free ∙ s.taken in cc)
  ]
