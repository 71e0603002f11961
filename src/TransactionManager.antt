-- ===== src/TransactionManager.antt =====
-- `begin`, `commit` and `abort` of transaction/transaction_manager.cpp, over the record files, the
-- lock manager and the log manager of this development. The trees of the indexes, and what they do at
-- a key, are parameters; the key is built as the code builds it, in a buffer that the columns fill.
-- Table and index names are their bytes, and each table of a write record has a file. The map
-- `txn_map` of all transactions is left out.
pub mod Written
pub mod Abort
mod Tests
use cscc_db_rucbase.Common.{
  ℕ, zero, suc, ◌+◌, Bool, true, false, ◌&&◌, List, [], ◌∷◌, ◌==◌, if◌then◌else◌, ℤ, pos, negsuc,
  slice, blit, Option, none, some,
}
use mathlib.Core.List.{reverse}
use cscc_db_rucbase.Transaction.LockDataId.{Rid, ColMeta, IndexMeta, LockDataId}
use cscc_db_rucbase.Transaction.State.{Transaction, TransactionState, default, committed, aborted}
use cscc_db_rucbase.Gap.Compare.{Gap}
use cscc_db_rucbase.LockManager.Manager.{LockManager, unlock}
use cscc_db_rucbase.Record.Bitmap.{init}
use cscc_db_rucbase.Record.File.{
  RmFile, RmError, Result, ok, err, insert_record_at, delete_record, update_record,
}
use cscc_db_rucbase.Recovery.Log.{
  LogType, begin, commit, abort, LogRecord, set_prev_lsn, mark_log_record, insert_log_record,
  delete_log_record, update_log_record,
}
use cscc_db_rucbase.Recovery.Manager
use cscc_db_rucbase.Recovery.Manager.{add_log_to_buffer}

abbrev pub Name : Type 0
Name = List ℕ

abbrev pub name_eq : Name → Name → Bool
name_eq [] [] = true
name_eq (a ∷ as') (b ∷ bs) = (a == b) && name_eq as' bs
name_eq _ _ = false

-- `WriteRecord`, a constructor for each `WType`.
pub data WriteRecord : Type 0 where
  insert_tuple delete_tuple : Name → Rid → List ℕ → WriteRecord
  update_tuple : Name → Rid → List ℕ → List ℕ → Bool → WriteRecord

-- The parts of `Transaction` beyond those that locking uses.
pub record Txn : Type 0 where
  pub base : Transaction
  pub start_ts : ℕ
  pub prev_lsn : ℤ
  pub write_set : List WriteRecord

pub record World (Ih : Type 0) : Type 0 where
  pub fhs : Name → RmFile
  pub ihs : Name → Ih
  pub locks : LockManager
  pub log : Manager.LogManager
  pub txn : Txn

abbrev pub set_at {ℓ} : {A : Type ℓ} → Name → A → (Name → A) → Name → A
set_at n a f m = if name_eq n m then a else f m

-- The key of a record in an index: each column copied to its place.
unfoldable pub fill_key : List (ℕ × ColMeta) → List ℕ → List ℕ → List ℕ
fill_key [] rec key = key
fill_key ((index_offset, col) ∷ cols) rec key =
    fill_key cols rec (blit index_offset (slice col.offset col.len rec) key)

unfoldable pub index_key : IndexMeta → List ℕ → List ℕ
unfolding fill_key
index_key m rec = fill_key m.cols rec (init m.col_tot_len)

-- The two counters of the manager.
pub record Counters : Type 0 where
  pub next_txn_id : ℕ
  pub next_timestamp : ℕ

-- A record linked to the transaction's last one, and logged.
unfoldable pub log_for : LogRecord → Txn → Manager.LogManager → Txn × Manager.LogManager
log_for r t log =
    let (log', lsn) = add_log_to_buffer (set_prev_lsn r t.prev_lsn) log in
    (record t { prev_lsn = lsn }, log')

abbrev pub txn_or_new : Option Txn → Counters → Txn × Counters
txn_or_new (some t) c = (t, c)
txn_or_new none c = (
  record {
    base = record { txn_id = c.next_txn_id; state = default; lock_set = [] };
    start_ts = 0;
    prev_lsn = negsuc 0;
    write_set = [];
  },
  record c { next_txn_id = suc c.next_txn_id },
)

unfoldable pub begin_txn :
    Option Txn → Counters → Manager.LogManager → Txn × Manager.LogManager × Counters
unfolding log_for
begin_txn o c log =
    let (t, c') = txn_or_new o c in
    let started = record t { start_ts = c'.next_timestamp } in
    let (t', log') = log_for (mark_log_record begin (pos t.base.txn_id)) started log in
    (t', log', record c' { next_timestamp = suc c'.next_timestamp })

module _ (gap_hasher : Gap → ℕ) where
  -- `unlock` for each lock of the set, then `lock_set->clear()`.
  unfoldable pub unlock_each :
      List LockDataId → LockManager → Transaction → LockManager × Transaction
  unlock_each [] m t = (m, t)
  unlock_each (d ∷ ds) m t = let r = unlock gap_hasher m t d in unlock_each ds r.manager r.txn

  -- The end of `commit` and of `abort`.
  unfoldable pub finish : {Ih : Type 0} → LogType → TransactionState → World Ih → World Ih
  unfolding unlock_each log_for
  finish t state w =
      let (locks', base') = unlock_each w.txn.base.lock_set w.locks w.txn.base in
      let released = record (w.txn) { base = record base' { lock_set = [] } } in
      let (txn', log') = log_for (mark_log_record t (pos base'.txn_id)) released w.log in
      record w {
        locks = locks';
        log = log';
        txn = record txn' { base = record (txn'.base) { state = state } };
      }

  -- The write records are freed, the set keeps their pointers.
  unfoldable pub commit_txn : {Ih : Type 0} → World Ih → World Ih
  unfolding finish
  commit_txn w = finish commit committed w

-- A step that may throw; what it did before stays done.
abbrev pub run_next :
    {Ih : Type 0}
    → World Ih × Result (Unit {0})
    → (World Ih → World Ih × Result (Unit {0}))
    → World Ih × Result (Unit {0})
run_next (w, ok u) k = k w
run_next (w, err e) k = (w, err e)

abbrev on_file :
    {Ih : Type 0}
    → Name
    → (RmFile → RmFile × Result (Unit {0}))
    → World Ih
    → World Ih × Result (Unit {0})
on_file n op w = let (f, r) = op (w.fhs n) in (record w { fhs = set_at n f w.fhs }, r)

abbrev logged : {Ih : Type 0} → LogRecord → World Ih → World Ih
logged r w = let (t, log') = log_for r w.txn w.log in record w { txn = t; log = log' }

module _ {Ih : Type 0} (insert_entry : List ℕ → Rid → Ih → Ih) (delete_entry : List ℕ → Ih → Ih)
    (indexes : Name → List (Name × IndexMeta)) (has_frame : List ℕ → ℕ → Bool) where
  each_index : List (Name × IndexMeta) → (IndexMeta → Ih → Ih) → (Name → Ih) → Name → Ih
  each_index [] op ihs = ihs
  each_index ((n, m) ∷ ms) op ihs = each_index ms op (set_at n (op m (ihs n)) ihs)

  abbrev on_indexes : Name → (IndexMeta → Ih → Ih) → World Ih → World Ih
  on_indexes n op w = record w { ihs = each_index (indexes n) op w.ihs }

  -- One round of the loop over the write set.
  unfoldable pub undo_write : WriteRecord → World Ih → World Ih × Result (Unit {0})
  unfolding each_index index_key log_for
  undo_write (insert_tuple tab rid rec) w =
      run_next (on_file tab (delete_record has_frame rid) w) (λ w'. (
        logged (delete_log_record (pos w.txn.base.txn_id) rec rid tab)
            (on_indexes tab (λ m. delete_entry (index_key m rec)) w'),
        ok tt,
      ))
  undo_write (delete_tuple tab rid rec) w =
      run_next (on_file tab (insert_record_at has_frame rid rec) w) (λ w'. (
        logged (insert_log_record (pos w.txn.base.txn_id) rec rid tab)
            (on_indexes tab (λ m. insert_entry (index_key m rec) rid) w'),
        ok tt,
      ))
  undo_write (update_tuple tab rid old new is_set_index_key) w =
      run_next (on_file tab (update_record has_frame rid old) w) (λ w'.
        let moved =
          on_indexes tab
            (λ m ih. insert_entry (index_key m old) rid (delete_entry (index_key m new) ih)) w' in
        (
          logged (update_log_record (pos w.txn.base.txn_id) new old rid tab)
              (if is_set_index_key then moved else w'),
          ok tt,
        ))

  unfoldable pub undo_all : List WriteRecord → World Ih → World Ih × Result (Unit {0})
  unfolding undo_write
  undo_all [] w = (w, ok tt)
  undo_all (r ∷ rs) w = run_next (undo_write r w) (undo_all rs)

  unfoldable pub abort_txn : (Gap → ℕ) → World Ih → World Ih × Result (Unit {0})
  unfolding undo_all finish
  abort_txn gap_hasher w = run_next (undo_all (reverse w.txn.write_set) w) (λ w'. (
    finish gap_hasher abort aborted (record w' { txn = record (w'.txn) { write_set = [] } }),
    ok tt,
  ))
