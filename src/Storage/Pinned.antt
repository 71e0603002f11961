-- ===== src/Storage/Pinned.antt =====
-- When the pins of a pool agree with its replacer, and what a frame that goes to another page does to them.
use cscc_db_rucbase.Common.{
  ℕ, zero, suc, ◌≡◌, ◌≢◌, inl, inr, refl, sym, ap, subst, ◌∙◌, true, false, ◌||◌, List, [], ◌∷◌,
  none, some, ◌==◌, ==_iff, ==_refl, Bool-cases, ℤ, pos, inc, is_pos, any, arith,
}
use cscc_db_rucbase.Replacer.Clock.{put, pin, victim-unpinned}
use cscc_db_rucbase.Storage.BufferPool.{
  PageId, page_id_eq, BufferPoolInstance, frame_of, frame_from, find_victim_page, update_page,
  fetch_into,
}
use cscc_db_rucbase.Storage.View.{page_id_of_eq, is_free, Coherent, Spare}
use cscc_db_rucbase.Storage.Exchange.{
  after, frame_of-after, page-taken, page-other, not_taken, free-after,
}

abbrev pub is_pinned : ℕ → ℕ
is_pinned zero = 0
is_pinned (suc n) = 1

-- The replacer counts each frame once as long as its page is pinned, and no free frame is pinned.
pub record PinsMatch (p : BufferPoolInstance) : Type 0 where
  pub counted : (f : ℕ) → p.replacer.pin_counter f ≡ pos (is_pinned (p.pages f).pin_count)
  pub idle : (f : ℕ) → is_free p f ≡ true → (p.pages f).pin_count ≡ 0

-- The page that a frame holds, if it is pinned, is there afterwards, and pinned.
abbrev pub KeepsPinned : BufferPoolInstance → BufferPoolInstance → Type 0
KeepsPinned p p' =
    (k : PageId) (g : ℕ)
    → frame_of k p ≡ some g
    → (p.pages g).pin_count ≢ 0
    → (frame_of k p' ≡ some g) × ((p'.pages g).pin_count ≢ 0)

idle_of_counted : (n : ℕ) (c : ℤ) → c ≡ pos (is_pinned n) → is_pos c 0 ≡ true → n ≡ 0
idle_of_counted zero c e h = refl
idle_of_counted (suc n) c e h =
    let w : is_pos (pos 1) 0 ≡ true = subst (λ d. is_pos d 0 ≡ true) e h in cc

module _ (p : BufferPoolInstance) (c : Coherent p) (m : PinsMatch p) where
  -- The frame that is found for a page is not pinned, and the replacer counts as before.
  frame_from-idle :
      (fs : List ℕ) (f : ℕ)
      → p.free_list ≡ fs
      → (frame_from p fs).1 ≡ some f
      → ((p.pages f).pin_count ≡ 0)
        × ((frame_from p fs).0.replacer.pin_counter ≡ p.replacer.pin_counter)
  frame_from-idle [] f e h =
      let (same, taken) = victim-unpinned p.replacer in
      (idle_of_counted (p.pages f).pin_count _ (m.counted f) (taken f h).0, same)
  frame_from-idle (g ∷ fs) f e h =
      let same : g ≡ f = cc in
      let free : is_free p f ≡ ((g == f) || any (λ k. k == f) fs) = ap (any (λ k. k == f)) e in
      (m.idle f (ground (arith, free)), refl)

  pub victim-idle :
      (f : ℕ)
      → (find_victim_page p).1 ≡ some f
      → ((p.pages f).pin_count ≡ 0)
        × ((find_victim_page p).0.replacer.pin_counter ≡ p.replacer.pin_counter)
  unfolding find_victim_page
  victim-idle f h = frame_from-idle p.free_list f refl h

  module _ (q : BufferPoolInstance) (f : ℕ) (id : PageId) (s : Spare p q f)
      (missing : frame_of id p ≡ none) (idle : (p.pages f).pin_count ≡ 0)
      (same : q.replacer.pin_counter ≡ p.replacer.pin_counter) where
    abbrev next : BufferPoolInstance
    next = after p q f id c s missing

    counter-after :
        (g : ℕ)
        → next.replacer.pin_counter g
          ≡ put f (inc (q.replacer.pin_counter f)) q.replacer.pin_counter g
    unfolding fetch_into update_page pin
    counter-after g = refl

    after-counted : (g : ℕ) → next.replacer.pin_counter g ≡ pos (is_pinned (next.pages g).pin_count)
    after-counted g = elim (Bool-cases (g == f)) [
      | inl here ↦
          subst (λ j. next.replacer.pin_counter j ≡ pos (is_pinned (next.pages j).pin_count))
            (sym ((==_iff g f).0 here)) (at_frame)
      | inr other ↦
          counter-after g
          ∙ rw other (
              ap (λ r. r g) same
              ∙ m.counted g
              ∙ ap (λ page. pos (is_pinned page.pin_count))
                  (sym (page-other p q f id c s missing g other)))
    ]
      where
        was_zero : q.replacer.pin_counter f ≡ pos 0
        was_zero = ap (λ r. r f) same ∙ m.counted f ∙ ap (λ n. pos (is_pinned n)) idle

        at_frame : next.replacer.pin_counter f ≡ pos (is_pinned (next.pages f).pin_count)
        at_frame =
            counter-after f
            ∙ rw (==_refl f) (
                ap inc was_zero
                ∙ ap (λ page. pos (is_pinned page.pin_count))
                    (sym (page-taken p q f id c s missing)))

    pub after-PinsMatch : PinsMatch next
    after-PinsMatch = record {
      counted = after-counted;
      idle = λ g h.
          let free = sym (free-after p q f id c s missing g) ∙ h in
          let other = not_taken p q f id c s missing g free in
          ap (λ page. page.pin_count) (page-other p q f id c s missing g other)
          ∙ m.idle g (sym (s.rest g other) ∙ free);
    }

    pub after-KeepsPinned : KeepsPinned p next
    after-KeepsPinned k g found pinned = (
      frame_of-after p q f id c s missing k ∙ rw (new_id, old_id) found,
      λ h. pinned (ap (λ page. page.pin_count) (sym page_same) ∙ h),
    )
      where
        other : (g == f) ≡ false
        other = elim (Bool-cases (g == f)) [
          | inr ne ↦ ne
          | inl here ↦
              absurd (pinned (ap (λ j. (p.pages j).pin_count) ((==_iff g f).0 here) ∙ idle))
        ]

        page_same : next.pages g ≡ p.pages g
        page_same = page-other p q f id c s missing g other

        new_id : page_id_eq id k ≡ false
        new_id = elim (Bool-cases (page_id_eq id k)) [
          | inr ne ↦ ne
          | inl here ↦
              let w : none ≡ some g =
                sym missing
                ∙ subst (λ j. frame_of j p ≡ some g) (sym (page_id_of_eq id k here)) found in
              cc
        ]

        old_id : page_id_eq (p.pages f).id k ≡ false
        old_id = elim (Bool-cases (page_id_eq (p.pages f).id k)) [
          | inr ne ↦ ne
          | inl here ↦
              let moved : frame_of (p.pages f).id p ≡ some g =
                subst (λ j. frame_of j p ≡ some g) (sym (page_id_of_eq (p.pages f).id k here))
                  found in
              elim s.holds [
                | inl (absent, _) ↦ let w : none ≡ some g = sym absent ∙ moved in cc
                | inr there ↦
                    let w : some g ≡ some f = sym moved ∙ there in
                    let e : g ≡ f = cc in
                    absurd (let t : true ≡ false = sym ((==_iff g f).1 e) ∙ other in cc)
              ]
        ]
