-- ===== src/Recovery/Tests.antt =====
-- Instances of the theorems on the log.
use cscc_db_rucbase.Common.{List, [], ◌∷◌, ◌++◌, some, ◌≡◌, refl, arith, pos, negsuc, slice}
use cscc_db_rucbase.Record.Bitmap.{init}
use cscc_db_rucbase.Record.Bitmap.Laws.{length-init}
use cscc_db_rucbase.Recovery.Log.{
  LogRecord, insert_log_record, serialize, deserialize, set_lsn, header,
}
use cscc_db_rucbase.Recovery.Log.RoundTrip.{IsLogRecord, deserialize-serialize}
use cscc_db_rucbase.Recovery.Manager.{LogManager, add_log_to_buffer}
use cscc_db_rucbase.Recovery.Manager.Appends.{IsLog, bytes, add_log_to_buffer-IsLog}

abbrev inserted : LogRecord
inserted = insert_log_record (pos 3) (7 ∷ 8 ∷ []) (record { page_no = 1; slot_no = 1 }) (97 ∷ [])

inserted_ok : IsLogRecord inserted
unfolding insert_log_record
inserted_ok = (
  record {
    lsn = omega arith;
    log_tot_len = omega arith;
    log_tid = omega arith;
    prev_lsn = omega arith;
  },
  refl,
  record {
    value_size = omega arith;
    page_no = omega arith;
    slot_no = omega arith;
    name_size = omega arith;
  },
)

deserialize-serialize_example : deserialize (serialize inserted (0 ∷ [])) ≡ some inserted
unfolding insert_log_record
deserialize-serialize_example = deserialize-serialize inserted (0 ∷ []) inserted_ok

-- The log manager at its start, after the analysis of an empty log.
abbrev started : LogManager
started = record {
  buffer = init 1048577;
  offset = 0;
  global_lsn = pos 0;
  persist_lsn = negsuc 0;
  log = [];
}

started-IsLog : IsLog started [] (pos 0) [] []
unfolding bytes slice
started-IsLog = record {
  on_disk = refl;
  in_buffer = refl;
  room = rw (length-init 1048577) (omega arith);
  offset = omega arith;
  persisted = refl;
  numbered = refl;
}

inserted_size : (header inserted).log_tot_len ≡ 43
unfolding insert_log_record
inserted_size = refl

add_log_to_buffer-IsLog_example :
    (done waiting : List LogRecord) × IsLog
      (add_log_to_buffer inserted started).0
      []
      (pos 0)
      done
      waiting
    × (done ++ waiting ≡ set_lsn inserted (pos 0) ∷ [])
    × ((add_log_to_buffer inserted started).1 ≡ pos 0)
unfolding insert_log_record
add_log_to_buffer-IsLog_example =
    add_log_to_buffer-IsLog started [] (pos 0) [] [] inserted started-IsLog refl (omega arith)
