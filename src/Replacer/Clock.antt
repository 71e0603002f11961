-- ===== src/Replacer/Clock.antt =====
-- `ClockReplacer` of replacer/lru_replacer.h. Its arrays are functions of the frame; what they hold
-- at first is left open, for the constructor does not initialise them.
use cscc_db_rucbase.Common.{
  ℕ, zero, suc, ◌+◌, ◌-◌, ◌*◌, ◌/◌, ◌%◌, ◌<◌, ◌≡◌, inl, inr, refl, ap, subst, Bool, true, false,
  not, ◌&&◌, Option, none, some, ◌==◌, ==_iff, ==_refl, if◌then◌else◌, Bool-cases, ℤ, inc, dec,
  dec-inc, is_pos, arith,
}

-- BUFFER_POOL_INSTANCE_SIZE of common/config.h.
abbrev pub instance_size : ℕ
instance_size = 65536 / 16

pub record ClockReplacer : Type 0 where
  pub pin_counter : ℕ → ℤ
  pub pin_bit : ℕ → Bool
  pub pointer : ℕ

-- A write to an array.
abbrev pub put {ℓ} : {A : Type ℓ} → ℕ → A → (ℕ → A) → ℕ → A
put i a f j = if j == i then a else f j

abbrev pub is_unpinned : ClockReplacer → ℕ → Bool
is_unpinned c f = is_pos (c.pin_counter f) 0

abbrev pub advance : ClockReplacer → ℕ
advance c = (c.pointer + 1) % instance_size

-- A round of the loop that takes no frame: the second `if`.
unfoldable pub pass_over : ClockReplacer → ClockReplacer
pass_over c =
    let f = advance c in
    record c { pointer = f; pin_bit = if is_unpinned c f then put f false c.pin_bit else c.pin_bit }

-- The loop, on as many rounds as it may still make.
unfoldable pub victim_rounds : ℕ → ClockReplacer → ClockReplacer × Option ℕ
unfolding pass_over
victim_rounds zero c = (c, none)
victim_rounds (suc n) c =
    let rest = victim_rounds n (pass_over c) in
    if is_unpinned c (advance c) && not (c.pin_bit (advance c))
    then (record c { pointer = advance c }, some (advance c))
    else rest

unfoldable pub victim : ClockReplacer → ClockReplacer × Option ℕ
unfolding victim_rounds
victim c = victim_rounds (2 * instance_size) c

unfoldable pub pin : ℕ → ClockReplacer → ClockReplacer
pin f c =
    let counter = put f (inc (c.pin_counter f)) c.pin_counter in
    record c {
      pin_counter = counter;
      pin_bit = if is_pos (counter f) 1 then put f true c.pin_bit else c.pin_bit;
    }

unfoldable pub unpin : ℕ → ClockReplacer → ClockReplacer
unpin f c = record c { pin_counter = put f (dec (c.pin_counter f)) c.pin_counter }

-- The frame that is `j` rounds ahead.
abbrev ahead : ClockReplacer → ℕ → ℕ
ahead c j = (c.pointer + j) % instance_size

ahead-pass_over : (c : ClockReplacer) (j : ℕ) → ahead (pass_over c) j ≡ ahead c (suc j)
unfolding pass_over
ahead-pass_over c j = omega arith

abbrev takes : ClockReplacer → Bool
takes c = is_unpinned c (advance c) && not (c.pin_bit (advance c))

rounds-take :
    (n : ℕ) (c : ClockReplacer)
    → takes c ≡ true
    → victim_rounds (suc n) c ≡ (record c { pointer = advance c }, some (advance c))
unfolding victim_rounds
rounds-take n c h = rw (h, victim_rounds) refl

rounds-pass :
    (n : ℕ) (c : ClockReplacer)
    → takes c ≡ false
    → victim_rounds (suc n) c ≡ victim_rounds n (pass_over c)
unfolding victim_rounds
rounds-pass n c h = rw (h, victim_rounds) refl

pass_over-counter : (c : ClockReplacer) → (pass_over c).pin_counter ≡ c.pin_counter
unfolding pass_over
pass_over-counter c = refl

-- The frame that is taken is unpinned, and no counter changes.
Taken : ClockReplacer → ClockReplacer × Option ℕ → Type 0
Taken c (c', o) =
    (c'.pin_counter ≡ c.pin_counter)
    × ((f : ℕ) → o ≡ some f → (is_unpinned c f ≡ true) × (f < instance_size))

victim_rounds-Taken : (n : ℕ) (c : ClockReplacer) → Taken c (victim_rounds n c)
unfolding victim_rounds Taken
victim_rounds-Taken zero c = (refl, λ f h. cc)
victim_rounds-Taken (suc n) c = elim (Bool-cases (takes c)) [
  | inl t ↦ rw (rounds-take n c t) (
    refl,
    λ f h.
        let here : advance c ≡ f = cc in
        subst (λ g. (is_unpinned c g ≡ true) × (g < instance_size)) here
          (ground arith, omega arith),
  )
  | inr p ↦ rw (rounds-pass n c p) (
      subst
        (λ k.
          ((victim_rounds n (pass_over c)).0.pin_counter ≡ k)
          × ((f : ℕ)
              → (victim_rounds n (pass_over c)).1 ≡ some f
              → (is_pos (k f) 0 ≡ true) × (f < instance_size)))
        (pass_over-counter c) (victim_rounds-Taken n (pass_over c)))
]

-- A frame that is unpinned and whose bit is clear is found when the hand comes to it, if no other
-- is before.
pass_over-bit : (c : ClockReplacer) (f : ℕ) → c.pin_bit f ≡ false → (pass_over c).pin_bit f ≡ false
unfolding pass_over
pass_over-bit c f h = ground arith

pass_over-clears :
    (c : ClockReplacer)
    → is_unpinned c (advance c) ≡ true
    → (pass_over c).pin_bit (advance c) ≡ false
unfolding pass_over
pass_over-clears c h = rw h (ground (arith, ==_refl (advance c)))

abbrev Finds : ℕ → ClockReplacer → Type 0
Finds n c = (f : ℕ) × ((victim_rounds n c).1 ≡ some f)

Finds-clear :
    (j n : ℕ) (c : ClockReplacer)
    → j < n
    → is_unpinned c (ahead c (suc j)) ≡ true
    → c.pin_bit (ahead c (suc j)) ≡ false
    → Finds n c
Finds-clear j zero c h u b = absurd (omega arith)
Finds-clear zero (suc n) c h u b = (advance c, ap (λ r. r.1) (rounds-take n c (ground arith)))
Finds-clear (suc j) (suc n) c h u b = elim (Bool-cases (takes c)) [
  | inl t ↦ (advance c, ap (λ r. r.1) (rounds-take n c t))
  | inr p ↦ rw (rounds-pass n c p) (
      Finds-clear j n (pass_over c) (omega arith)
        (rw (ahead-pass_over c (suc j), pass_over-counter c) u)
        (rw (ahead-pass_over c (suc j)) (pass_over-bit c (ahead c (suc (suc j))) b)))
]

-- A turn of the hand comes back to the same frame.
ahead-turn : (c : ClockReplacer) → ahead (pass_over c) instance_size ≡ advance c
unfolding pass_over
ahead-turn c = omega arith

finds :
    (j n : ℕ) (c : ClockReplacer)
    → j + instance_size < n
    → is_unpinned c (ahead c (suc j)) ≡ true
    → Finds n c
finds j zero c h u = absurd (omega arith)
finds zero (suc n) c h u = elim (Bool-cases (takes c)) [
  | inl t ↦ (advance c, ap (λ r. r.1) (rounds-take n c t))
  | inr p ↦ rw (rounds-pass n c p) (
      Finds-clear 4095 n (pass_over c) (omega arith) (rw (ahead-turn c, pass_over-counter c) u)
        (rw (ahead-turn c) (pass_over-clears c u)))
]
finds (suc j) (suc n) c h u = elim (Bool-cases (takes c)) [
  | inl t ↦ (advance c, ap (λ r. r.1) (rounds-take n c t))
  | inr p ↦ rw (rounds-pass n c p) (
      finds j n (pass_over c) (omega arith) (rw (ahead-pass_over c (suc j), pass_over-counter c) u))
]

-- How far ahead of the hand a frame is.
reached_ahead :
    (c : ClockReplacer) (f : ℕ)
    → f < instance_size
    → (j : ℕ) × (j < instance_size) × (ahead c (suc j) ≡ f)
reached_ahead c f h = (
  (f + instance_size + instance_size - 1 - c.pointer % instance_size) % instance_size,
  omega arith,
  omega arith,
)

-- ClockReplacer::victim, within two turns of the hand and whatever the bits are, finds a victim if
-- some frame has a pin counter of 0, and the victim is such a frame, in the array.
pub victim-finds :
    (c : ClockReplacer) (f : ℕ)
    → f < instance_size
    → is_unpinned c f ≡ true
    → (g : ℕ) × ((victim c).1 ≡ some g) × (is_unpinned c g ≡ true) × (g < instance_size)
unfolding victim Taken
victim-finds c f h u =
    let (j, lt, e) = reached_ahead c f h in
    let (g, found) = finds j (2 * instance_size) c (omega arith) (rw e u) in
    let (unpinned, low) = (victim_rounds-Taken (2 * instance_size) c).1 g found in
    (g, found, unpinned, low)

-- The victim that is handed out.
pub victim-unpinned :
    (c : ClockReplacer)
    → ((victim c).0.pin_counter ≡ c.pin_counter)
      × ((f : ℕ) → (victim c).1 ≡ some f → (is_unpinned c f ≡ true) × (f < instance_size))
unfolding victim Taken
victim-unpinned c = victim_rounds-Taken (2 * instance_size) c

-- Pins and unpins of one frame count up and down.
pub unpin-pin_counter :
    (c : ClockReplacer) (f g : ℕ) → (unpin f (pin f c)).pin_counter g ≡ c.pin_counter g
unfolding pin unpin
unpin-pin_counter c f g = elim (Bool-cases (g == f)) [
  | inl same ↦ rw (same, ==_refl f, (==_iff g f).0 same) (dec-inc (c.pin_counter f))
  | inr other ↦ rw other refl
]
