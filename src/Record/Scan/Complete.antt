-- ===== src/Record/Scan/Complete.antt =====
-- The listing of a file against the abstract table: a place is listed exactly when a record is there.
use cscc_db_rucbase.Common.{
  ℕ, zero, suc, ◌+◌, ◌-◌, ◌≤◌, ◌<◌, Bool, true, false, List, [], ◌∷◌, ltb, leb, ◌==◌, ◌≡◌, refl,
  arith, Bool-cases, inl, inr, any, ◌&&◌, ◌||◌, Option, none, some, All, All-imp, map, length,
}
use cscc_db_rucbase.Transaction.LockDataId.{Rid, rid_eq}
use cscc_db_rucbase.Record.Bitmap.{is_set}
use cscc_db_rucbase.Record.File.{RmFile, ok, ◌>>=◌}
use cscc_db_rucbase.Record.File.Invariant.{record_at}
use cscc_db_rucbase.Record.Scan.Order.{set_slots, slots_after, places, remaining, content}
use cscc_db_rucbase.Record.Scan.Listing.{listing, rm_scan-collect}
use cscc_db_rucbase.Record.Scan.{rm_scan, collect}

abbrev pub is_some {ℓ} : {A : Type ℓ} → Option A → Bool
is_some none = false
is_some (some a) = true

any-set_slots :
    (bm : List ℕ) (rounds i s : ℕ)
    → any (λ q. s == q) (set_slots bm rounds i) ≡ ((leb i s && ltb s (i + rounds)) && is_set bm s)
unfolding set_slots
any-set_slots bm zero i s = ground arith
any-set_slots bm (suc rounds) i s = elim (Bool-cases (i == s)) [
  | inl here ↦
      let at : i ≡ s = ground arith in rw (← at) (ground (arith, any-set_slots bm rounds (suc i) i))
  | inr apart ↦ ground (arith, any-set_slots bm rounds (suc i) s)
]

any-places :
    (r : Rid) (n : ℕ) (ss : List ℕ) (more : List Rid)
    → any (rid_eq r) (places n ss more)
      ≡ (((r.page_no == n) && any (λ q. r.slot_no == q) ss) || any (rid_eq r) more)
any-places r n [] more = ground arith
any-places r n (s ∷ ss) more = ground (arith, any-places r n ss more)

module _ (f : RmFile) (r : Rid) where
  abbrev on_its_page : Bool
  on_its_page =
      ltb r.slot_no f.hdr.num_records_per_page && is_set (f.pages r.page_no).bitmap r.slot_no

  page_lem :
      (n : ℕ)
      → ((r.page_no == n) && any (λ q. r.slot_no == q) (slots_after f n 0))
        ≡ ((r.page_no == n) && on_its_page)
  page_lem n = elim (Bool-cases (r.page_no == n)) [
    | inl here ↦
        let at : r.page_no ≡ n = ground arith in
        rw (← at) (
          ground (
            arith,
            any-set_slots (f.pages r.page_no).bitmap (f.hdr.num_records_per_page - 0) 0 r.slot_no,
          ))
    | inr apart ↦ rw apart refl
  ]

  any-remaining :
      (k n : ℕ)
      → any (rid_eq r) (remaining f k n 0)
        ≡ ((leb n r.page_no && leb r.page_no (n + k)) && on_its_page)
  unfolding remaining
  any-remaining zero n = ground (arith, any-places r n (slots_after f n 0) [], page_lem n)
  any-remaining (suc k) n = ground (
    arith,
    any-places r n (slots_after f n 0) (remaining f k (suc n) 0),
    page_lem n,
    any-remaining k (suc n),
  )

  pub listing-record_at : any (rid_eq r) (listing f) ≡ is_some (record_at f r)
  unfolding listing
  listing-record_at = ground (arith, any-remaining (f.hdr.num_pages - 2) 1)

-- Page n from slot i on, or a later page.
abbrev pub from_place : ℕ → ℕ → Rid → Bool
from_place n i q = ltb n q.page_no || ((n == q.page_no) && leb i q.slot_no)

-- Every place comes before those behind it.
abbrev pub Ascending : List Rid → Type 0
Ascending [] = Unit {0}
Ascending (r ∷ rs) = All (λ q. from_place r.page_no (suc r.slot_no) q ≡ true) rs × Ascending rs

from_later : (n i j : ℕ) (q : Rid) → i ≤ j → from_place n j q ≡ true → from_place n i q ≡ true
from_later n i j q h e = ground arith

from_next_page : (n i : ℕ) (q : Rid) → from_place (suc n) 0 q ≡ true → from_place n i q ≡ true
from_next_page n i q e = ground arith

module _ (bm : List ℕ) (n : ℕ) (more : List Rid)
    (later : All (λ q. from_place (suc n) 0 q ≡ true) more) where
  places_from :
      (rounds i : ℕ) → All (λ q. from_place n i q ≡ true) (places n (set_slots bm rounds i) more)
  unfolding set_slots
  places_from zero i =
      All-imp (λ q. from_place (suc n) 0 q ≡ true) (λ q. from_place n i q ≡ true)
        (from_next_page n i) more later
  places_from (suc rounds) i =
      let rest =
        All-imp (λ q. from_place n (suc i) q ≡ true) (λ q. from_place n i q ≡ true)
          (λ q. from_later n i (suc i) q (omega arith))
          (places n (set_slots bm rounds (suc i)) more) (places_from rounds (suc i)) in
      elim (Bool-cases (is_set bm i)) [
        | inl there ↦ rw there (ground arith, rest)
        | inr free ↦ rw free rest
      ]

  places-Ascending :
      Ascending more → (rounds i : ℕ) → Ascending (places n (set_slots bm rounds i) more)
  unfolding set_slots
  places-Ascending a zero i = a
  places-Ascending a (suc rounds) i = elim (Bool-cases (is_set bm i)) [
    | inl there ↦ rw there (places_from rounds (suc i), places-Ascending a rounds (suc i))
    | inr free ↦ rw free (places-Ascending a rounds (suc i))
  ]

remaining_from : (f : RmFile) (k n i : ℕ) → All (λ q. from_place n i q ≡ true) (remaining f k n i)
unfolding remaining
remaining_from f zero n i =
    places_from (f.pages n).bitmap n [] tt (f.hdr.num_records_per_page - i) i
remaining_from f (suc k) n i =
    places_from (f.pages n).bitmap n (remaining f k (suc n) 0) (remaining_from f k (suc n) 0)
      (f.hdr.num_records_per_page - i) i

remaining-Ascending : (f : RmFile) (k n i : ℕ) → Ascending (remaining f k n i)
unfolding remaining
remaining-Ascending f zero n i =
    places-Ascending (f.pages n).bitmap n [] tt tt (f.hdr.num_records_per_page - i) i
remaining-Ascending f (suc k) n i =
    places-Ascending (f.pages n).bitmap n (remaining f k (suc n) 0) (remaining_from f k (suc n) 0)
      (remaining-Ascending f k (suc n) 0) (f.hdr.num_records_per_page - i) i

listing-Ascending : (f : RmFile) → Ascending (listing f)
unfolding listing
listing-Ascending f = elim (Bool-cases (ltb 1 f.hdr.num_pages)) [
  | inl pages ↦ rw pages (remaining-Ascending f (f.hdr.num_pages - 2) 1 0)
  | inr no_pages ↦ rw no_pages tt
]

-- What a whole scan of `f` must give: its records, each once, in the order of their places.
pub record IsScan (f : RmFile) (rs : List Rid) : Type 0 where
  pub complete : (r : Rid) → any (rid_eq r) rs ≡ is_some (record_at f r)
  pub ascending : Ascending rs

-- A whole scan of a file, on a pool that has a frame for each page while the scan holds none: it
-- gives exactly the places that hold a record, in ascending order of page and slot and so each
-- once, with the bytes of each, and leaves the file as it was, with no pin. As many rounds as there
-- are records, and one, are fuel enough.
pub rm_scan-IsScan :
    (has_frame : List ℕ → ℕ → Bool) (f : RmFile) (fuel : ℕ)
    → ((n : ℕ) → has_frame f.pinned n ≡ true)
    → length (listing f) < fuel
    → (rs : List Rid) × ((rm_scan has_frame >>= collect has_frame fuel) f
        ≡ (f, ok (map (content f) rs)))
      × IsScan f rs
rm_scan-IsScan has_frame f fuel frames enough = (
  listing f,
  rm_scan-collect has_frame f frames fuel enough,
  record { complete = listing-record_at f; ascending = listing-Ascending f },
)
