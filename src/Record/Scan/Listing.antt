-- ===== src/Record/Scan/Listing.antt =====
-- A whole scan of a file: it gives every record once, by page and then by slot, and leaves no pin.
use cscc_db_rucbase.Common.{
  ℕ, zero, suc, ◌+◌, ◌-◌, ◌≤◌, ◌<◌, Bool, true, false, List, [], ◌∷◌, map, ltb, leb, ltb→lt,
  if◌then◌else◌, ◌≡◌, refl, ap, arith, length, Bool-cases, inl, inr, subst, sym, ◌∙◌,
}
use cscc_db_rucbase.Transaction.LockDataId.{Rid}
use cscc_db_rucbase.Record.File.{RmFile, Result, ok, err, M, fetch_page_handle, bind_result, ◌>>=◌}
use cscc_db_rucbase.Record.Scan.{next, rm_scan, collect, get_record}
use cscc_db_rucbase.Record.Scan.Order.{
  set_slots, slots_after, places, remaining, next_from_first, next_loop-at_head, content, held,
  scan_of, at_head,
}

bind_assoc :
    {A B C : Type 0} (m : RmFile × Result A) (k : A → M B) (l : B → M C)
    → bind_result (bind_result m k) l ≡ bind_result m (λ a f. bind_result (k a f) l)
bind_assoc (f, ok a) k l = refl
bind_assoc (f, err e) k l = refl

-- The places that are left once the scan has passed the first of them.
pub record After (f : RmFile) (r : Rid) (rest : List Rid) : Type 0 where
  pub pages : ℕ
  pub count : r.page_no + suc pages ≡ f.hdr.num_pages
  pub slot : r.slot_no < f.hdr.num_records_per_page
  pub left : remaining f pages r.page_no (suc r.slot_no) ≡ rest

module _ (f : RmFile) where
  first_on_page :
      (n start s : ℕ) (ss : List ℕ)
      → start ≤ f.hdr.num_records_per_page
      → slots_after f n start ≡ s ∷ ss
      → (s < f.hdr.num_records_per_page) × (slots_after f n (suc s) ≡ ss)
  first_on_page n start s ss h e =
      let first =
        next_from_first (f.pages n).bitmap (f.hdr.num_records_per_page - start) start s ss e in
      let total : start + (f.hdr.num_records_per_page - start) ≡ f.hdr.num_records_per_page =
        omega arith in
      (
        omega (arith, first.1),
        subst (λ m. set_slots (f.pages n).bitmap (m - suc s) (suc s) ≡ ss) total (first.2),
      )

  remaining-After :
      (k n start : ℕ) (r : Rid) (rest : List Rid)
      → n + suc k ≡ f.hdr.num_pages
      → start ≤ f.hdr.num_records_per_page
      → remaining f k n start ≡ r ∷ rest
      → After f r rest
  unfolding remaining
  remaining-After zero n start r rest pages h e = on_page (slots_after f n start) refl e
    where
      on_page :
          (ss : List ℕ)
          → slots_after f n start ≡ ss
          → places n (slots_after f n start) [] ≡ r ∷ rest
          → After f r rest
      on_page [] es e = let w : [] ≡ r ∷ rest = (rw es at e) in cc
      on_page (s ∷ ss) es e =
          let first = first_on_page n start s ss h es in
          let e' : record { page_no = n; slot_no = s } ∷ places n ss [] ≡ r ∷ rest = (rw es at e) in
          let place : record { page_no = n; slot_no = s } ≡ r = cc in
          let tail : places n ss [] ≡ rest = cc in
          rw (← place) (record { pages = 0; count = pages; slot = first.0; left = rw first.1 tail })
  remaining-After (suc k) n start r rest pages h e =
      on_page (slots_after f n start) refl e
        (λ e'. remaining-After k (suc n) 0 r rest (omega arith) (omega arith) e')
    where
      on_page :
          (ss : List ℕ)
          → slots_after f n start ≡ ss
          → places n (slots_after f n start) (remaining f k (suc n) 0) ≡ r ∷ rest
          → (remaining f k (suc n) 0 ≡ r ∷ rest → After f r rest)
          → After f r rest
      on_page [] es e later = later (rw es at e)
      on_page (s ∷ ss) es e later =
          let first = first_on_page n start s ss h es in
          let e' : record { page_no = n; slot_no = s } ∷ places n ss (remaining f k (suc n) 0)
              ≡ r ∷ rest =
            (rw es at e) in
          let place : record { page_no = n; slot_no = s } ≡ r = cc in
          let tail : places n ss (remaining f k (suc n) 0) ≡ rest = cc in
          rw (← place)
            (record { pages = suc k; count = pages; slot = first.0; left = rw first.1 tail })

-- The places of the file that hold a record, by page and then by slot.
unfoldable pub listing : RmFile → List Rid
listing f = if ltb 1 f.hdr.num_pages then remaining f (f.hdr.num_pages - 2) 1 0 else []

module _ (has_frame : List ℕ → ℕ → Bool) (f : RmFile)
    (frames : (n : ℕ) → has_frame f.pinned n ≡ true) where
  next-at_head :
      (r : Rid) (rest : List Rid)
      → After f r rest
      → next has_frame (scan_of has_frame f frames r) (held has_frame f frames r.page_no)
        ≡ at_head has_frame f frames rest
  unfolding next
  next-at_head r rest a =
      next_loop-at_head has_frame f frames f.hdr.num_pages a.pages r.page_no (suc r.slot_no)
        (omega (arith, a.count)) a.count a.slot
      ∙ ap (λ l. at_head has_frame f frames l) a.left

  collect-at_head :
      (fuel k n start : ℕ) (rs : List Rid)
      → length rs < fuel
      → n + suc k ≡ f.hdr.num_pages
      → start ≤ f.hdr.num_records_per_page
      → remaining f k n start ≡ rs
      → bind_result (at_head has_frame f frames rs) (collect has_frame fuel)
        ≡ (f, ok (map (content f) rs))
  unfolding collect get_record
  collect-at_head zero k n start rs enough pages h e = absurd (omega arith)
  collect-at_head (suc fuel) k n start [] enough pages h e = refl
  collect-at_head (suc fuel) k n start (r ∷ rs) enough pages h e =
      let a = remaining-After f k n start r rs pages h e in
      let more =
        collect-at_head fuel a.pages r.page_no (suc r.slot_no) rs (omega arith) a.count a.slot
          a.left in
      rw (next-at_head r rs a) (
        sym (
          bind_assoc (at_head has_frame f frames rs) (collect has_frame fuel)
            (λ more g. (g, ok (content f r ∷ more))))
        ∙ ap (λ t. bind_result t (λ more g. (g, ok (content f r ∷ more)))) more)

  abbrev first_places : List Rid
  first_places = remaining f (f.hdr.num_pages - 2) 1 0

  rm_scan-at_head :
      1 < f.hdr.num_pages → rm_scan has_frame f ≡ at_head has_frame f frames first_places
  unfolding rm_scan next fetch_page_handle
  rm_scan-at_head pages =
      let some_pages : ltb 1 f.hdr.num_pages ≡ true = ground arith in
      let inside : leb f.hdr.num_pages 1 ≡ false = ground arith in
      let start =
        next_loop-at_head has_frame f frames f.hdr.num_pages (f.hdr.num_pages - 2) 1 0 (omega arith)
          (omega arith) (omega arith) in
      rw (some_pages, inside, frames 1) start

  collect-empty :
      (fuel : ℕ)
      → ltb 1 f.hdr.num_pages ≡ false
      → (rm_scan has_frame >>= collect has_frame fuel) f ≡ (f, ok [])
  unfolding rm_scan collect
  collect-empty zero none_there = rw none_there refl
  collect-empty (suc fuel) none_there = rw none_there refl

  pub rm_scan-collect :
      (fuel : ℕ)
      → length (listing f) < fuel
      → (rm_scan has_frame >>= collect has_frame fuel) f ≡ (f, ok (map (content f) (listing f)))
  unfolding listing
  rm_scan-collect fuel enough = elim (Bool-cases (ltb 1 f.hdr.num_pages)) [
    | inl some_pages ↦
        let pages : 1 < f.hdr.num_pages = ltb→lt _ _ some_pages in
        let all =
          collect-at_head fuel (f.hdr.num_pages - 2) 1 0 first_places (rw some_pages at enough)
            (omega arith) (omega arith) refl in
        rw some_pages
          (ap (λ m. bind_result m (collect has_frame fuel)) (rm_scan-at_head pages) ∙ all)
    | inr none_there ↦ collect-empty fuel none_there ∙ rw none_there refl
  ]
