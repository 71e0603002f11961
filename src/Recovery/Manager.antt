-- ===== src/Recovery/Manager.antt =====
-- `LogManager` and `LogBuffer` of recovery/log_manager.{h,cpp}. Each operation holds the latch from
-- its start to its end. The thread that flushes each second is a flush at any time.
pub mod Appends
use cscc_db_rucbase.Common.{
  ℕ, zero, suc, ◌+◌, Bool, List, [], ◌++◌, ◌==◌, ltb, if◌then◌else◌, ℤ, inc, dec, slice, blit,
}
use cscc_db_rucbase.Recovery.Log.{LogRecord, header, set_lsn, serialize}

-- `LOG_BUFFER_SIZE`.
abbrev pub log_buffer_size : ℕ
log_buffer_size = 1048576

-- `log` is the log file.
pub record LogManager : Type 0 where
  pub buffer : List ℕ
  pub offset : ℕ
  pub global_lsn : ℤ
  pub persist_lsn : ℤ
  pub log : List ℕ

-- `LogBuffer::is_full`.
abbrev pub is_full : LogManager → ℕ → Bool
is_full m append_size = ltb log_buffer_size (m.offset + append_size)

unfoldable pub flush_log_to_disk : LogManager → LogManager
flush_log_to_disk m = if m.offset == 0 then m else (record m {
  log = m.log ++ slice 0 m.offset m.buffer;
  offset = 0;
  persist_lsn = dec m.global_lsn;
})

-- The record numbered and written behind the others.
unfoldable pub append_log : LogRecord → LogManager → LogManager
append_log r m = record m {
  buffer = blit m.offset (serialize (set_lsn r m.global_lsn) []) m.buffer;
  offset = m.offset + (header r).log_tot_len;
  global_lsn = inc m.global_lsn;
}

-- The new state, and the record's number, which the record carries from here on.
unfoldable pub add_log_to_buffer : LogRecord → LogManager → LogManager × ℤ
unfolding append_log flush_log_to_disk
add_log_to_buffer r m =
    let m' = if is_full m (header r).log_tot_len then flush_log_to_disk m else m in
    (append_log r m', m'.global_lsn)
