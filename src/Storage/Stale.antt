-- ===== src/Storage/Stale.antt =====
-- The id that delete_page of storage/buffer_pool_instance.cpp leaves in a free frame.
use cscc_db_rucbase.Common.{
  ℕ, ◌≡◌, inl, inr, refl, sym, subst, ◌∙◌, false, List, ◌∷◌, none, some, Bool-cases,
}
use cscc_db_rucbase.Storage.BufferPool.{
  PageId, page_id_eq, BufferPoolInstance, frame_of, frame_from, find_victim_page, update_page,
  fetch_into, fetch_page,
}
use cscc_db_rucbase.Storage.View.{page_id_of_eq, page_id_eq_refl}
use cscc_db_rucbase.Storage.Exchange.{find-update}

-- If the first free frame still has the id of a page that another frame holds, as after
-- delete_page, then a fetch of a page that is not in the pool takes the other frame's entry out of
-- the page table.
pub fetch_page-stale :
    (id : PageId) (p : BufferPoolInstance) (f g : ℕ) (fs : List ℕ)
    → p.free_list ≡ f ∷ fs
    → frame_of id p ≡ none
    → frame_of (p.pages f).id p ≡ some g
    → frame_of (p.pages f).id (fetch_page id p).0 ≡ none
unfolding fetch_page find_victim_page fetch_into update_page
fetch_page-stale id p f g fs free missing found =
    rw (missing, fetch_page)
      (subst (λ l. frame_of (p.pages f).id (fetch_into id (frame_from p l)).0 ≡ none) (sym free)
        (find-update id (p.pages f).id (p.pages f).id f p.page_table
          ∙ rw (other_id, page_id_eq_refl (p.pages f).id) refl))
  where
    other_id : page_id_eq id (p.pages f).id ≡ false
    other_id = elim (Bool-cases (page_id_eq id (p.pages f).id)) [
      | inr other ↦ other
      | inl same ↦
          let w : none ≡ some g =
            sym missing
            ∙ subst (λ k. frame_of k p ≡ some g) (sym (page_id_of_eq id (p.pages f).id same))
                found in
          cc
    ]
