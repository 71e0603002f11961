-- ===== src/Record/Scan/Order.antt =====
-- `RmScan::next`: from a place, the scan goes to the first record after it, or ends.
use cscc_db_rucbase.Common.{
  ℕ, zero, suc, ◌+◌, ◌-◌, ◌≤◌, ◌<◌, Bool, true, false, List, [], ◌∷◌, ltb, leb, if◌then◌else◌, ◌≡◌,
  refl, arith, Bool-cases, inl, inr, pos, subst, ◌∙◌, ==_refl,
}
use cscc_db_rucbase.Transaction.LockDataId.{Rid}
use cscc_db_rucbase.Record.Bitmap.{is_set, next_bit, next_from}
use cscc_db_rucbase.Record.File.{RmFile, Result, ok, slot_of, fetch_page_handle}
use cscc_db_rucbase.Record.Scan.{RmScan, next_loop, end_scan}

-- The set slots among the `rounds` ones from i on.
unfoldable pub set_slots : List ℕ → ℕ → ℕ → List ℕ
set_slots bm zero i = []
set_slots bm (suc rounds) i =
    if is_set bm i then i ∷ set_slots bm rounds (suc i) else set_slots bm rounds (suc i)

abbrev pub slots_after : RmFile → ℕ → ℕ → List ℕ
slots_after f n i = set_slots (f.pages n).bitmap (f.hdr.num_records_per_page - i) i

abbrev pub places : ℕ → List ℕ → List Rid → List Rid
places n [] more = more
places n (s ∷ ss) more = record { page_no = n; slot_no = s } ∷ places n ss more

-- The places with a record from slot `start` of page n on, with k pages to come after it.
unfoldable pub remaining : RmFile → ℕ → ℕ → ℕ → List Rid
unfolding set_slots
remaining f zero n start = places n (slots_after f n start) []
remaining f (suc k) n start = places n (slots_after f n start) (remaining f k (suc n) 0)

-- Where `next_bit` stops: at the first set slot, past which lie the others.
pub next_from_first :
    (bm : List ℕ) (rounds i s : ℕ) (ss : List ℕ)
    → set_slots bm rounds i ≡ s ∷ ss
    → (next_from true bm rounds i ≡ s)
      × (s < i + rounds)
      × (set_slots bm (i + rounds - suc s) (suc s) ≡ ss)
unfolding next_from set_slots
next_from_first bm zero i s ss h = cc
next_from_first bm (suc rounds) i s ss h = elim (Bool-cases (is_set bm i)) [
  | inl found ↦
      let h' : i ∷ set_slots bm rounds (suc i) ≡ s ∷ ss = (rw found at h) in
      let at : i ≡ s = cc in
      let tail : set_slots bm rounds (suc i) ≡ ss = cc in
      let left : i + suc rounds - suc i ≡ rounds = omega arith in
      rw (← at) (rw (found, left) (refl, omega arith, tail))
  | inr miss ↦
      let ih = next_from_first bm rounds (suc i) s ss (rw miss at h) in
      let same : suc i + rounds ≡ i + suc rounds = omega arith in
      rw miss (
        subst
          (λ m.
            (next_from true bm rounds (suc i) ≡ s)
            × (s < m)
            × (set_slots bm (m - suc s) (suc s) ≡ ss))
          same ih)
]

next_from_none :
    (bm : List ℕ) (rounds i : ℕ)
    → set_slots bm rounds i ≡ []
    → next_from true bm rounds i ≡ i + rounds
unfolding next_from set_slots
next_from_none bm zero i h = omega arith
next_from_none bm (suc rounds) i h = elim (Bool-cases (is_set bm i)) [
  | inl found ↦ let w : i ∷ set_slots bm rounds (suc i) ≡ [] = (rw found at h) in cc
  | inr miss ↦ rw miss (omega (arith, next_from_none bm rounds (suc i) (rw miss at h)))
]

next_bit-next_from :
    (bm : List ℕ) (n i : ℕ) → i ≤ n → next_bit true bm n i ≡ next_from true bm (n - i) i
unfolding next_bit next_from
next_bit-next_from bm n i h = elim (Bool-cases (ltb i n)) [
  | inl inside ↦ rw inside refl
  | inr past ↦ let none_left : n - i ≡ 0 = ground arith in rw (past, none_left) (ground arith)
]

-- What a scan finds at a place.
abbrev pub content : RmFile → Rid → Rid × List ℕ
content f r = (r, slot_of f.hdr (f.pages r.page_no) r.slot_no)

-- The pool has a frame for every page while the scan holds no pin.
module _ (has_frame : List ℕ → ℕ → Bool) (f : RmFile)
    (frames : (n : ℕ) → has_frame f.pinned n ≡ true) where
  abbrev pub per : ℕ
  per = f.hdr.num_records_per_page

  abbrev pub held : ℕ → RmFile
  held n = record f { pinned = n ∷ f.pinned }

  abbrev pub scan_of : Rid → RmScan
  scan_of r = record { page_no = pos r.page_no; slot_no = pos r.slot_no }

  -- The scan that stands on the first of the places, whose page it has pinned.
  abbrev pub at_head : List Rid → RmFile × Result RmScan
  at_head [] = (f, ok (end_scan per))
  at_head (r ∷ rs) = (held r.page_no, ok (scan_of r))

  step_found :
      (fuel n start s : ℕ) (ss : List ℕ)
      → start ≤ per
      → slots_after f n start ≡ s ∷ ss
      → next_loop has_frame (suc fuel) n start (held n)
        ≡ at_head (record { page_no = n; slot_no = s } ∷ [])
  unfolding next_loop
  step_found fuel n start s ss h e =
      let first = next_from_first (f.pages n).bitmap (per - start) start s ss e in
      let bit : next_bit true (f.pages n).bitmap per start ≡ s =
        next_bit-next_from (f.pages n).bitmap per start h ∙ first.0 in
      let lt : ltb s per ≡ true = ground (arith, first.1) in rw (bit, lt) refl

  no_more :
      (n start : ℕ)
      → start ≤ per
      → slots_after f n start ≡ []
      → next_bit true (f.pages n).bitmap per start ≡ per
  no_more n start h e =
      next_bit-next_from (f.pages n).bitmap per start h
      ∙ omega (arith, next_from_none (f.pages n).bitmap (per - start) start e)

  step_last :
      (fuel n start : ℕ)
      → start ≤ per
      → slots_after f n start ≡ []
      → f.hdr.num_pages ≡ suc n
      → next_loop has_frame (suc fuel) n start (held n) ≡ at_head []
  unfolding next_loop
  step_last fuel n start h e last =
      let past : ltb per per ≡ false = ground arith in
      let end : leb f.hdr.num_pages (suc n) ≡ true = ground arith in
      rw (no_more n start h e, past, end) (rw (==_refl n) refl)

  step_on :
      (fuel n start : ℕ)
      → start ≤ per
      → slots_after f n start ≡ []
      → suc n < f.hdr.num_pages
      → next_loop has_frame (suc fuel) n start (held n)
        ≡ next_loop has_frame fuel (suc n) 0 (held (suc n))
  unfolding next_loop fetch_page_handle
  step_on fuel n start h e more =
      let past : ltb per per ≡ false = ground arith in
      let inside : leb f.hdr.num_pages (suc n) ≡ false = ground arith in
      rw (no_more n start h e, past, inside) (rw (==_refl n) (rw (inside, frames (suc n)) refl))

  pub next_loop-at_head :
      (fuel k n start : ℕ)
      → k < fuel
      → n + suc k ≡ f.hdr.num_pages
      → start ≤ per
      → next_loop has_frame fuel n start (held n) ≡ at_head (remaining f k n start)
  unfolding remaining
  next_loop-at_head zero k n start enough pages h = absurd (omega arith)
  next_loop-at_head (suc fuel) zero n start enough pages h = on_page (slots_after f n start) refl
    where
      on_page :
          (ss : List ℕ)
          → slots_after f n start ≡ ss
          → next_loop has_frame (suc fuel) n start (held n)
            ≡ at_head (places n (slots_after f n start) [])
      on_page [] e = step_last fuel n start h e (omega arith) ∙ rw e refl
      on_page (s ∷ ss) e = step_found fuel n start s ss h e ∙ rw e refl
  next_loop-at_head (suc fuel) (suc k) n start enough pages h =
      let later = next_loop-at_head fuel k (suc n) 0 (omega arith) (omega arith) (omega arith) in
      on_page (slots_after f n start) refl later
    where
      on_page :
          (ss : List ℕ)
          → slots_after f n start ≡ ss
          → next_loop has_frame fuel (suc n) 0 (held (suc n)) ≡ at_head (remaining f k (suc n) 0)
          → next_loop has_frame (suc fuel) n start (held n)
            ≡ at_head (places n (slots_after f n start) (remaining f k (suc n) 0))
      on_page [] e later = step_on fuel n start h e (omega arith) ∙ later ∙ rw e refl
      on_page (s ∷ ss) e later = step_found fuel n start s ss h e ∙ rw e refl
