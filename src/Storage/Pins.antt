-- ===== src/Storage/Pins.antt =====
-- Pinned pages stay in their frames, in fetch_page of storage/buffer_pool_instance.cpp.
use cscc_db_rucbase.Common.{
  ℕ, zero, suc, ◌≡◌, ◌≢◌, inl, inr, refl, sym, ap, subst, ◌∙◌, true, false, List, [], ◌∷◌, Option,
  none, some, ◌==◌, ==_iff, ==_refl, if◌then◌else◌, Bool-cases, pos, inc, arith,
}
use cscc_db_rucbase.Replacer.Clock.{ClockReplacer, pin, victim-unpinned}
use cscc_db_rucbase.Storage.BufferPool.{
  PageId, BufferPoolInstance, frame_of, frame_from, find_victim_page, fetch_into, fetch_found,
  fetch_page,
}
use cscc_db_rucbase.Storage.View.{is_free, Coherent, Spare, victim-Spare}
use cscc_db_rucbase.Storage.Pinned.{
  after-PinsMatch, after-KeepsPinned, is_pinned, PinsMatch, KeepsPinned, victim-idle,
}

module _ (p : BufferPoolInstance) (c : Coherent p) (m : PinsMatch p) where
  repin : ℕ → ℕ → ClockReplacer
  repin f n = if suc n == 1 then pin f p.replacer else p.replacer

  not_one : (n : ℕ) → (suc (suc n) == 1) ≡ false
  not_one n = ground arith

  repin_own :
      (f n : ℕ) → p.replacer.pin_counter f ≡ pos (is_pinned n) → (repin f n).pin_counter f ≡ pos 1
  unfolding repin pin
  repin_own f zero h = rw (==_refl f) (ap inc h)
  repin_own f (suc n) h = rw (not_one n) h

  repin_other :
      (f n g : ℕ) → (g == f) ≡ false → (repin f n).pin_counter g ≡ p.replacer.pin_counter g
  unfolding repin pin
  repin_other f zero g other = rw other refl
  repin_other f (suc n) g other = rw (not_one n) refl

  -- A page that is there is pinned once more.
  found-counted :
      (f g : ℕ)
      → (fetch_found f p).0.replacer.pin_counter g
        ≡ pos (is_pinned ((fetch_found f p).0.pages g).pin_count)
  unfolding fetch_found repin
  found-counted f g = elim (Bool-cases (g == f)) [
    | inl here ↦ rw here (
        ap (repin f (p.pages f).pin_count).pin_counter ((==_iff g f).0 here)
        ∙ repin_own f (p.pages f).pin_count (m.counted f))
    | inr other ↦ rw other (repin_other f (p.pages f).pin_count g other ∙ m.counted g)
  ]

  found-idle :
      (f g : ℕ)
      → is_free p f ≡ false
      → is_free p g ≡ true
      → ((fetch_found f p).0.pages g).pin_count ≡ 0
  unfolding fetch_found
  found-idle f g busy free = elim (Bool-cases (g == f)) [
    | inr other ↦ rw other (m.idle g free)
    | inl here ↦ let w : true ≡ false = sym free ∙ ap (is_free p) ((==_iff g f).0 here) ∙ busy in cc
  ]

  found-pinned : (f g : ℕ) → (p.pages g).pin_count ≢ 0 → ((fetch_found f p).0.pages g).pin_count ≢ 0
  unfolding fetch_found
  found-pinned f g pinned h = elim (Bool-cases (g == f)) [
    | inr other ↦ pinned (rw other at h)
    | inl here ↦ (let w : suc (p.pages f).pin_count ≡ 0 = (rw here at h) in absurd (ground arith))
  ]

  pub mapped_busy : (id : PageId) (f : ℕ) → frame_of id p ≡ some f → is_free p f ≡ false
  mapped_busy id f found = elim (Bool-cases (is_free p f)) [
    | inr busy ↦ busy
    | inl free ↦
        absurd
          (c.valid id f found (ap (λ i. i.page_no) (sym (c.mapped id f found)) ∙ (c.free f free).0))
  ]

  found-PinsMatch :
      (id : PageId) (f : ℕ)
      → frame_of id p ≡ some f
      → PinsMatch (fetch_found f p).0 × KeepsPinned p (fetch_found f p).0
  unfolding fetch_found
  found-PinsMatch id f found = (
    record { counted = found-counted f; idle = λ g h. found-idle f g (mapped_busy id f found) h },
    λ k g h pinned. (h, found-pinned f g pinned),
  )

  no_frame-PinsMatch :
      (fs : List ℕ)
      → (frame_from p fs).1 ≡ none
      → PinsMatch (frame_from p fs).0 × KeepsPinned p (frame_from p fs).0
  no_frame-PinsMatch [] h = (
    record {
      counted = λ f. ap (λ r. r f) (victim-unpinned p.replacer).0 ∙ m.counted f;
      idle = m.idle;
    },
    λ k g found pinned. (found, pinned),
  )
  no_frame-PinsMatch (f ∷ fs) h = cc

  no_victim-PinsMatch :
      (find_victim_page p).1 ≡ none
      → PinsMatch (find_victim_page p).0 × KeepsPinned p (find_victim_page p).0
  unfolding find_victim_page
  no_victim-PinsMatch h = no_frame-PinsMatch p.free_list h

  into-PinsMatch :
      (id : PageId)
      → frame_of id p ≡ none
      → (q : BufferPoolInstance) (o : Option ℕ) → find_victim_page p ≡ (q, o)
      → PinsMatch (fetch_into id (q, o)).0 × KeepsPinned p (fetch_into id (q, o)).0
  unfolding fetch_into
  into-PinsMatch id missing q (some f) e =
      let s : Spare p q f = subst (λ a. Spare p a.0 f) e (victim-Spare p f c (ap (λ a. a.1) e)) in
      let (idle, counter) = (victim-idle p c m) f (ap (λ a. a.1) e) in
      let same = subst (λ a. a.0.replacer.pin_counter ≡ p.replacer.pin_counter) e counter in
      (
        after-PinsMatch p c m q f id s missing idle same,
        after-KeepsPinned p c m q f id s missing idle same,
      )
  into-PinsMatch id missing q none e =
      subst (λ a. PinsMatch a.0 × KeepsPinned p a.0) e (no_victim-PinsMatch (ap (λ a. a.1) e))

-- Pinned pages stay: on a coherent pool in which the replacer counts exactly the frames of pinned
-- pages and no free frame is pinned, a fetch of any page leaves every pinned page in its frame, in
-- the page table and pinned, and the replacer's counts agree with the pins again.
pub fetch_page-PinsMatch :
    (id : PageId) (p : BufferPoolInstance)
    → Coherent p
    → PinsMatch p
    → PinsMatch (fetch_page id p).0 × KeepsPinned p (fetch_page id p).0
unfolding fetch_page
fetch_page-PinsMatch id p c m = by_frame (frame_of id p) refl
  where
    by_frame :
        (o : Option ℕ)
        → frame_of id p ≡ o
        → PinsMatch (fetch_page id p).0 × KeepsPinned p (fetch_page id p).0
    by_frame none e =
        rw (e, fetch_page)
          (into-PinsMatch p c m id e (find_victim_page p).0 (find_victim_page p).1 refl)
    by_frame (some f) e = rw (e, fetch_page) (found-PinsMatch p c m id f e)
