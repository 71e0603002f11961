-- ===== src/TransactionManager/Written.antt =====
-- The writes of a transaction on the files of its tables, and a write taken back.
use cscc_db_rucbase.Common.{
  ℕ, ◌≤◌, Bool, true, false, ◌&&◌, List, [], ◌∷◌, ◌≡◌, refl, sym, ◌∙◌, subst, arith, length, Option,
  none, some, Bool-cases, inl, inr, ==_refl,
}
use cscc_db_rucbase.Transaction.LockDataId.{Rid, rid_eq}
use cscc_db_rucbase.Record.File.{RmFile}
use cscc_db_rucbase.Record.File.Invariant.{record_at}
use cscc_db_rucbase.Record.File.Sound.{IsSound, SoundChanged}
use cscc_db_rucbase.TransactionManager.{
  Name, name_eq, WriteRecord, insert_tuple, delete_tuple, update_tuple, set_at,
}

abbrev pub Files : Type 0
Files = Name → RmFile

-- What the place of a table holds.
abbrev pub at : Files → Name → Rid → Option (List ℕ)
at fs n rid = record_at (fs n) rid

-- A place of a table, told from another one.
abbrev pub same_place : Name → Rid → Name → Rid → Bool
same_place n rid m q = name_eq n m && rid_eq rid q

-- The files only grow, and keep the sizes of their records and pages.
pub record Grown (f g : RmFile) : Type 0 where
  pub pages : f.hdr.num_pages ≤ g.hdr.num_pages
  pub size : g.hdr.record_size ≡ f.hdr.record_size
  pub per_page : g.hdr.num_records_per_page ≡ f.hdr.num_records_per_page

-- One place changed from `old` to `new`.
pub record Wrote (fs gs : Files) (n : Name) (rid : Rid) (old new : Option (List ℕ)) : Type 0 where
  pub before : at fs n rid ≡ old
  pub after : at gs n rid ≡ new
  pub others : (m : Name) (q : Rid) → same_place n rid m q ≡ false → at gs m q ≡ at fs m q
  pub grown : (m : Name) → Grown (fs m) (gs m)

-- The write that a record of the write set stands for: its records are of the table's size.
abbrev pub Recorded : WriteRecord → Files → Files → Type 0
Recorded (insert_tuple n rid rec) fs gs = Wrote fs gs n rid none (some rec)
Recorded (delete_tuple n rid rec) fs gs =
    (length rec ≡ (fs n).hdr.record_size) × Wrote fs gs n rid (some rec) none
Recorded (update_tuple n rid old new b) fs gs =
    (length old ≡ (fs n).hdr.record_size) × Wrote fs gs n rid (some old) (some new)

-- The writes of a transaction, the last one first.
abbrev pub Written : List WriteRecord → Files → Files → Type 0
Written [] fs gs = (n : Name) (q : Rid) → at gs n q ≡ at fs n q
Written (r ∷ rs) fs hs = (gs : Files) × Written rs fs gs × Recorded r gs hs

name_eq-eq : (a b : Name) → name_eq a b ≡ true → a ≡ b
name_eq-eq [] [] h = refl
name_eq-eq [] (y ∷ b) h = cc
name_eq-eq (x ∷ a) [] h = cc
name_eq-eq (x ∷ a) (y ∷ b) h = ground (arith, name_eq-eq a b)

name_eq_refl : (a : Name) → name_eq a a ≡ true
name_eq_refl [] = refl
name_eq_refl (x ∷ a) = ground (arith, name_eq_refl a)

-- A file replaced by one with another record at one place.
module _ (fs : Files) (n : Name) (g : RmFile) (rid : Rid) (v : Option (List ℕ))
    (c : SoundChanged (fs n) g rid v) where
  pub set_at-held : at (set_at n g fs) n rid ≡ v
  set_at-held = rw (name_eq_refl n) c.held

  pub set_at-others :
      (m : Name) (q : Rid) → same_place n rid m q ≡ false → at (set_at n g fs) m q ≡ at fs m q
  set_at-others m q h = elim (Bool-cases (name_eq n m)) [
    | inl same ↦
        let e : n ≡ m = name_eq-eq n m same in
        rw (same, ← e) (c.others q (λ eq. apart_rid eq (ground arith)))
    | inr apart ↦ rw apart refl
  ]
    where
      apart_rid : q ≡ rid → rid_eq rid q ≡ false → ⊥
      apart_rid e h =
          let self : rid_eq rid rid ≡ false = subst (λ z. rid_eq rid z ≡ false) e h in
          absurd (ground (arith, ==_refl rid.page_no, ==_refl rid.slot_no))

  pub set_at-Grown : (m : Name) → Grown (fs m) (set_at n g fs m)
  set_at-Grown m = elim (Bool-cases (name_eq n m)) [
    | inl same ↦
        let e : n ≡ m = name_eq-eq n m same in
        let grown : Grown (fs n) g = record {
          pages = omega (arith, c.shape.num_pages);
          size = c.shape.record_size;
          per_page = c.shape.num_records_per_page;
        } in
        rw same (subst (λ z. Grown (fs z) g) e grown)
    | inr apart ↦ rw apart (record { pages = omega arith; size = refl; per_page = refl })
  ]

  pub set_at-IsSound : ((m : Name) → IsSound (fs m)) → (m : Name) → IsSound (set_at n g fs m)
  set_at-IsSound sound m = elim (Bool-cases (name_eq n m)) [
    | inl same ↦ rw same c.valid
    | inr apart ↦ rw apart (sound m)
  ]

pub Grown-trans : {f g h : RmFile} → Grown f g → Grown g h → Grown f h
Grown-trans a b = record {
  pages = omega (arith, a.pages, b.pages);
  size = b.size ∙ a.size;
  per_page = b.per_page ∙ a.per_page;
}

-- Sound files that hold what `gs` hold.
pub record Tracks (gs fs : Files) : Type 0 where
  pub contents : (m : Name) (q : Rid) → at fs m q ≡ at gs m q
  pub sound : (m : Name) → IsSound (fs m)
  pub grown : (m : Name) → Grown (gs m) (fs m)

-- A write taken back.
pub back-Tracks :
    (gs hs fs : Files) (n : Name) (rid : Rid) (old new : Option (List ℕ)) (g : RmFile)
    → Wrote gs hs n rid old new
    → Tracks hs fs
    → SoundChanged (fs n) g rid old
    → Tracks gs (set_at n g fs)
back-Tracks gs hs fs n rid old new g w t c = record {
  contents = λ m q. elim (Bool-cases (same_place n rid m q)) [
    | inl same ↦
        let e : n ≡ m = name_eq-eq n m (ground arith) in
        let e' : rid ≡ q = ground arith in
        subst (λ z. at (set_at n g fs) z q ≡ at gs z q) e
          (subst (λ z. at (set_at n g fs) n z ≡ at gs n z) e'
            (set_at-held fs n g rid old c ∙ sym w.before))
    | inr apart ↦ set_at-others fs n g rid old c m q apart ∙ t.contents m q ∙ w.others m q apart
  ];
  sound = set_at-IsSound fs n g rid old c t.sound;
  grown = λ m. Grown-trans (Grown-trans (w.grown m) (t.grown m)) (set_at-Grown fs n g rid old c m);
}
