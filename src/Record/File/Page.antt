-- ===== src/Record/File/Page.antt =====
-- One page of a record file: its invariant, what can be read from it, and what a write to one slot
-- makes of both.
use cscc_db_rucbase.Common.{
  ℕ, ◌+◌, ◌*◌, ◌≤◌, ◌<◌, true, false, List, Option, none, some, ltb, ◌==◌, if◌then◌else◌, ◌&&◌, ◌≡◌,
  ◌≢◌, arith, length, Bool-cases, inl, inr, pos, inc, dec, slice, blit, slice_all, length-blit,
  slice-blit_self, slice-blit_apart, subst,
}
use cscc_db_rucbase.Record.Bitmap.{set_bit, reset, is_set}
use cscc_db_rucbase.Record.Bitmap.Laws.{
  IsBytes, is_set-set_bit, is_set-reset, set_bit-IsBytes, reset-IsBytes, length-set_bit,
  length-reset,
}
use cscc_db_rucbase.Record.Bitmap.Count.{count_set, count_set-set_bit, count_set-reset}
use cscc_db_rucbase.Record.File.{RmFileHdr, RmPage, slot_of, fill_slot}

-- The bitmap has a bit for each slot, the slots lie on the page, and the counter counts.
pub record IsPage (h : RmFileHdr) (p : RmPage) : Type 0 where
  pub wide : length p.bitmap ≡ h.bitmap_size
  pub bytes : IsBytes p.bitmap
  pub counted : p.num_records ≡ pos (count_set p.bitmap h.num_records_per_page)
  pub spread : h.num_records_per_page * h.record_size ≤ length p.slots

-- What the page holds in a slot.
abbrev pub page_read : RmFileHdr → RmPage → ℕ → Option (List ℕ)
page_read h p s =
    if ltb s h.num_records_per_page && is_set p.bitmap s then some (slot_of h p s) else none

-- The page after `Bitmap::set` and `++num_records`, and after `Bitmap::reset` and `num_records--`.
abbrev pub taken : RmPage → ℕ → RmPage
taken p s = record p { bitmap = set_bit p.bitmap s; num_records = inc p.num_records }

abbrev pub freed : RmPage → ℕ → RmPage
freed p s = record p { bitmap = reset p.bitmap s; num_records = dec p.num_records }

slots_apart : (s q size : ℕ) → s < q → s * size + size ≤ q * size
slots_apart s q size h = grind arith

module _ (h : RmFileHdr) (p : RmPage) (s : ℕ) where
  slot_fits :
      (n : ℕ)
      → n * h.record_size ≤ length p.slots
      → s < n
      → s * h.record_size + h.record_size ≤ length p.slots
  slot_fits n fits lt = omega (arith, slots_apart s n h.record_size lt)

  pub slot_of-fill_slot_self :
      (buf : List ℕ)
      → IsPage h p
      → s < h.num_records_per_page
      → length buf ≡ h.record_size
      → slot_of h (fill_slot h p s buf) s ≡ buf
  slot_of-fill_slot_self buf ok lt e =
      let whole : slice 0 h.record_size buf ≡ buf = rw (← e) (slice_all buf) in
      let fits = slot_fits h.num_records_per_page ok.spread lt in
      rw whole (
        subst (λ n. slice (s * h.record_size) n (blit (s * h.record_size) buf p.slots) ≡ buf) e
          (slice-blit_self (s * h.record_size) buf p.slots (omega arith)))

  pub slot_of-fill_slot_ne :
      (buf : List ℕ) (q : ℕ)
      → s ≢ q
      → length buf ≡ h.record_size
      → slot_of h (fill_slot h p s buf) q ≡ slot_of h p q
  slot_of-fill_slot_ne buf q ne e =
      let whole : slice 0 h.record_size buf ≡ buf = rw (← e) (slice_all buf) in
      rw whole (
        slice-blit_apart (q * h.record_size) h.record_size (s * h.record_size) buf p.slots
          (elim (Bool-cases (ltb s q)) [
            | inl before ↦ inr (omega (arith, slots_apart s q h.record_size (ground arith)))
            | inr after ↦ inl (omega (arith, slots_apart q s h.record_size (ground arith)))
          ]))

  pub fill_slot-IsPage : (buf : List ℕ) → IsPage h p → IsPage h (fill_slot h p s buf)
  fill_slot-IsPage buf ok = record {
    wide = ok.wide;
    bytes = ok.bytes;
    counted = ok.counted;
    spread =
        omega
          (arith, ok.spread, length-blit (s * h.record_size) (slice 0 h.record_size buf) p.slots);
  }

  module _ (ok : IsPage h p) (room : h.num_records_per_page ≤ 8 * h.bitmap_size)
      (lt : s < h.num_records_per_page) where
    has_room : s < 8 * length p.bitmap
    has_room = omega (arith, ok.wide)

    pub taken-IsPage : is_set p.bitmap s ≡ false → IsPage h (taken p s)
    taken-IsPage free = record {
      wide = omega (arith, ok.wide, length-set_bit p.bitmap s);
      bytes = set_bit-IsBytes p.bitmap s ok.bytes;
      counted = ground (
        arith,
        ok.counted,
        count_set-set_bit p.bitmap s ok.bytes has_room h.num_records_per_page free lt,
      );
      spread = ok.spread;
    }

    pub freed-IsPage : is_set p.bitmap s ≡ true → IsPage h (freed p s)
    freed-IsPage there = record {
      wide = omega (arith, ok.wide, length-reset p.bitmap s);
      bytes = reset-IsBytes p.bitmap s ok.bytes;
      counted = ground (
        arith,
        ok.counted,
        count_set-reset p.bitmap s ok.bytes has_room h.num_records_per_page there lt,
      );
      spread = ok.spread;
    }

    -- The slot holds the new record; the other slots hold what they held.
    pub page_read-taken :
        (buf : List ℕ) (q : ℕ)
        → length buf ≡ h.record_size
        → page_read h (fill_slot h (taken p s) s buf) q
          ≡ (if s == q then some buf else page_read h p q)
    page_read-taken buf q e = elim (Bool-cases (s == q)) [
      | inl here ↦
          let at : s ≡ q = ground arith in
          rw (← at) (
            ground (
              arith,
              is_set-set_bit p.bitmap s s ok.bytes has_room,
              slot_of-fill_slot_self buf ok lt e,
            ))
      | inr there ↦ ground (
        arith,
        is_set-set_bit p.bitmap s q ok.bytes has_room,
        slot_of-fill_slot_ne buf q (ground arith) e,
      )
    ]

    -- The slot holds nothing; the other slots hold what they held.
    pub page_read-freed :
        (q : ℕ) → page_read h (freed p s) q ≡ (if s == q then none else page_read h p q)
    page_read-freed q = ground (arith, is_set-reset p.bitmap s q ok.bytes has_room)

    -- A new record in a slot that is taken.
    pub page_read-fill_slot :
        (buf : List ℕ) (q : ℕ)
        → is_set p.bitmap s ≡ true
        → length buf ≡ h.record_size
        → page_read h (fill_slot h p s buf) q ≡ (if s == q then some buf else page_read h p q)
    page_read-fill_slot buf q there e = elim (Bool-cases (s == q)) [
      | inl here ↦
          let at : s ≡ q = ground arith in
          rw (← at) (ground (arith, slot_of-fill_slot_self buf ok lt e))
      | inr apart ↦ ground (arith, slot_of-fill_slot_ne buf q (ground arith) e)
    ]
