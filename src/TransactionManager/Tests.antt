-- ===== src/TransactionManager/Tests.antt =====
-- A rollback of one update, as an instance of the theorem on rollbacks.
use cscc_db_rucbase.Common.{ℕ, ◌+◌, ◌-◌, true, [], ◌∷◌, some, ◌≡◌, refl, pos, negsuc}
use mathlib.Core.List.{reverse}
use cscc_db_rucbase.Transaction.State.{growing}
use cscc_db_rucbase.Gap.Compare.{Gap}
use cscc_db_rucbase.Record.File.{RmFile, ok, update_record}
use cscc_db_rucbase.Record.File.Sound.{SoundChanged, IsFile-IsSound, update_record-SoundChanged}
use cscc_db_rucbase.Record.Example.{small_file, always, taken_place, small_file-IsFile, taken_there}
use cscc_db_rucbase.TransactionManager.{Name, World, update_tuple, set_at, abort_txn}
use cscc_db_rucbase.TransactionManager.Abort.{RolledBack, SoundChanged-Wrote, abort_txn-RolledBack}
use cscc_db_rucbase.TransactionManager.Written.{Files, Written, set_at-IsSound}

abbrev tab : Name
tab = 97 ∷ []

abbrev tables : Files
tables n = small_file

-- The table with record 5, 6 in place of 7, 8.
updated :
    (g : RmFile) × (update_record always taken_place (5 ∷ 6 ∷ []) small_file ≡ (g, ok tt))
    × SoundChanged small_file g taken_place (some (5 ∷ 6 ∷ []))
updated =
    update_record-SoundChanged always small_file taken_place
      (IsFile-IsSound small_file small_file-IsFile) refl (7 ∷ 8 ∷ []) taken_there (5 ∷ 6 ∷ []) refl

abbrev world : World ℕ
world = record {
  fhs = set_at tab updated.0 tables;
  ihs = λ n. 0;
  locks = record { lock_table = []; gap_lock_table = [] };
  log = record { buffer = []; offset = 0; global_lsn = pos 0; persist_lsn = negsuc 0; log = [] };
  txn = record {
    base = record { txn_id = 1; state = growing; lock_set = [] };
    start_ts = 0;
    prev_lsn = negsuc 0;
    write_set = update_tuple tab taken_place (7 ∷ 8 ∷ []) (5 ∷ 6 ∷ []) true ∷ [];
  };
}

abbrev same_hash : Gap → ℕ
same_hash g = 0

world-Written : Written (reverse world.txn.write_set) tables world.fhs
world-Written = (
  tables,
  (λ n q. refl),
  (
    refl,
    rw (← taken_there)
        (SoundChanged-Wrote tables tab updated.0 taken_place (some (5 ∷ 6 ∷ [])) updated.2),
  ),
)

abort_txn-RolledBack_example :
    (w : World ℕ) × (abort_txn (λ k rid n. n + 1) (λ k n. n - 1) (λ n. []) always same_hash world
      ≡ (w, ok tt))
    × RolledBack tables w
abort_txn-RolledBack_example =
    abort_txn-RolledBack (λ k rid n. n + 1) (λ k n. n - 1) (λ n. []) always same_hash tables world
      (λ pins n. refl)
      (set_at-IsSound tables tab updated.0 taken_place (some (5 ∷ 6 ∷ [])) updated.2
        (λ m. IsFile-IsSound small_file small_file-IsFile))
      world-Written
