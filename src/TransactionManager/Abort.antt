-- ===== src/TransactionManager/Abort.antt =====
-- Rollback: what `abort` makes of the tables that the transaction has written.
use cscc_db_rucbase.Common.{
  ℕ, Bool, true, List, [], ◌∷◌, ◌≡◌, refl, ap, sym, ◌∙◌, arith, Option, none, some, Bool-cases, inl,
  inr,
}
use mathlib.Core.List.{reverse}
use cscc_db_rucbase.Transaction.LockDataId.{Rid, IndexMeta}
use cscc_db_rucbase.Transaction.State.{aborted}
use cscc_db_rucbase.Gap.Compare.{Gap}
use cscc_db_rucbase.Record.File.{RmFile, ok}
use cscc_db_rucbase.Record.File.Invariant.{InFile}
use cscc_db_rucbase.Record.File.Places.{some-Present}
use cscc_db_rucbase.Record.File.Sound.{
  IsSound, SoundChanged, update_record-SoundChanged, delete_record-SoundChanged,
  insert_record_at-SoundChanged,
}
use cscc_db_rucbase.TransactionManager.{
  Name, WriteRecord, insert_tuple, delete_tuple, update_tuple, World, set_at, undo_write, undo_all,
  abort_txn, finish, log_for,
}
use cscc_db_rucbase.TransactionManager.Written.{
  Files, at, Wrote, Recorded, Written, set_at-held, set_at-others, set_at-Grown, Grown-trans,
  Tracks, back-Tracks,
}

module _ {Ih : Type 0} (insert_entry : List ℕ → Rid → Ih → Ih) (delete_entry : List ℕ → Ih → Ih)
    (indexes : Name → List (Name × IndexMeta)) (has_frame : List ℕ → ℕ → Bool)
    (frames : (pins : List ℕ) (n : ℕ) → has_frame pins n ≡ true) where
  -- A write record undone without an exception.
  record Undone (gs : Files) (r : WriteRecord) (w : World Ih) : Type 0 where
    done : (undo_write insert_entry delete_entry indexes has_frame r w).1 ≡ ok tt
    tracks : Tracks gs (undo_write insert_entry delete_entry indexes has_frame r w).0.fhs

  undo_write-Undone :
      (gs hs : Files) (r : WriteRecord) (w : World Ih)
      → Recorded r gs hs
      → Tracks hs w.fhs
      → Undone gs r w
  unfolding undo_write
  undo_write-Undone gs hs (insert_tuple n rid rec) w wrote t =
      let held = t.contents n rid ∙ wrote.after in
      let (g, e, c) =
        delete_record-SoundChanged has_frame (w.fhs n) rid (t.sound n)
          (frames (w.fhs n).pinned rid.page_no) rec held in
      record {
        done = rw e refl;
        tracks = rw e (back-Tracks gs hs w.fhs n rid none (some rec) g wrote t c);
      }
  undo_write-Undone gs hs (delete_tuple n rid rec) w (size, wrote) t =
      let place = some-Present (gs n) rid rec wrote.before in
      let grown = Grown-trans (wrote.grown n) (t.grown n) in
      let inside : InFile (w.fhs n).hdr rid.page_no =
        (place.inside.0, omega (arith, place.inside.1, grown.pages)) in
      let (g, e, c) =
        insert_record_at-SoundChanged has_frame (w.fhs n) rid (t.sound n)
          (frames (w.fhs n).pinned rid.page_no) inside (omega (arith, place.slot, grown.per_page))
          rec (size ∙ sym grown.size) in
      record {
        done = rw e refl;
        tracks = rw e (back-Tracks gs hs w.fhs n rid (some rec) none g wrote t c);
      }
  undo_write-Undone gs hs (update_tuple n rid old new set_key) w (size, wrote) t =
      let held = t.contents n rid ∙ wrote.after in
      let grown = Grown-trans (wrote.grown n) (t.grown n) in
      let (g, e, c) =
        update_record-SoundChanged has_frame (w.fhs n) rid (t.sound n)
          (frames (w.fhs n).pinned rid.page_no) new held old (size ∙ sym grown.size) in
      record {
        done = rw e refl;
        tracks = elim (Bool-cases set_key) [
          | inl yes_key ↦
              rw (e, yes_key) (back-Tracks gs hs w.fhs n rid (some old) (some new) g wrote t c)
          | inr no_key ↦
              rw (e, no_key) (back-Tracks gs hs w.fhs n rid (some old) (some new) g wrote t c)
        ];
      }

  undo_all-Tracks :
      (rs : List WriteRecord) (fs hs : Files) (w : World Ih)
      → Written rs fs hs
      → Tracks hs w.fhs
      → ((undo_all insert_entry delete_entry indexes has_frame rs w).1 ≡ ok tt)
        × ((n : Name) (q : Rid)
            → at (undo_all insert_entry delete_entry indexes has_frame rs w).0.fhs n q ≡ at fs n q)
  unfolding undo_all
  undo_all-Tracks [] fs hs w same t = (refl, λ n q. t.contents n q ∙ same n q)
  undo_all-Tracks (r ∷ rs) fs hs w (gs, before, wrote) t =
      let u = undo_write-Undone gs hs r w wrote t in
      let w' = (undo_write insert_entry delete_entry indexes has_frame r w).0 in
      let step : undo_write insert_entry delete_entry indexes has_frame r w ≡ (w', ok tt) =
        ap (λ z. (w', z)) u.done in
      rw step (undo_all-Tracks rs fs gs w' before u.tracks)

-- After a rollback: the tables hold what `fs` hold, and the transaction has no writes, no locks, and
-- is aborted.
pub record RolledBack {Ih : Type 0} (fs : Files) (w : World Ih) : Type 0 where
  pub contents : (n : Name) (q : Rid) → at w.fhs n q ≡ at fs n q
  pub writes : w.txn.write_set ≡ []
  pub locks : w.txn.base.lock_set ≡ []
  pub state : w.txn.base.state ≡ aborted

-- A rollback takes back all writes: if the write set of a transaction lists the inserts, deletes
-- and updates, with records of their tables' sizes, that led from some tables to sound files, and
-- the pool always has a frame, then abort throws nothing, every place of every table holds what it
-- held before the first of them, and the transaction has no writes and no locks and is ABORTED. The
-- lists of free pages of the files may be in any state.
pub abort_txn-RolledBack :
    {Ih : Type 0} (insert_entry : List ℕ → Rid → Ih → Ih) (delete_entry : List ℕ → Ih → Ih)
    (indexes : Name → List (Name × IndexMeta)) (has_frame : List ℕ → ℕ → Bool)
    (gap_hasher : Gap → ℕ) (fs : Files) (w : World Ih)
    → ((pins : List ℕ) (n : ℕ) → has_frame pins n ≡ true)
    → ((n : Name) → IsSound (w.fhs n))
    → Written (reverse w.txn.write_set) fs w.fhs
    → (w' : World Ih) × (abort_txn insert_entry delete_entry indexes has_frame gap_hasher w
        ≡ (w', ok tt))
      × RolledBack fs w'
unfolding abort_txn finish log_for
abort_txn-RolledBack {Ih} insert_entry delete_entry indexes has_frame gap_hasher fs w frames sound
      written =
    let undone = undo_all insert_entry delete_entry indexes has_frame (reverse w.txn.write_set) w in
    let t : Tracks w.fhs w.fhs = record {
      contents = λ m q. refl;
      sound = sound;
      grown = λ m. record { pages = omega arith; size = refl; per_page = refl };
    } in
    let all =
      undo_all-Tracks insert_entry delete_entry indexes has_frame frames (reverse w.txn.write_set)
        fs w.fhs w written t in
    let step : undone ≡ (undone.0, ok tt) = ap (λ z. (undone.0, z)) all.0 in
    rw step (_, refl, record { contents = all.1; writes = refl; locks = refl; state = refl })

-- An operation on a file of one table, as a write of the transaction.
pub SoundChanged-Wrote :
    (fs : Files) (n : Name) (g : RmFile) (rid : Rid) (v : Option (List ℕ))
    → SoundChanged (fs n) g rid v
    → Wrote fs (set_at n g fs) n rid (at fs n rid) v
SoundChanged-Wrote fs n g rid v c = record {
  before = refl;
  after = set_at-held fs n g rid v c;
  others = set_at-others fs n g rid v c;
  grown = set_at-Grown fs n g rid v c;
}
