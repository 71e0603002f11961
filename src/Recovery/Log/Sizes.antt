-- ===== src/Recovery/Log/Sizes.antt =====
-- `log_tot_len_` is the number of bytes that `serialize` writes.
use cscc_db_rucbase.Common.{ℕ, ◌+◌, List, ◌++◌, ◌≡◌, arith, ℤ, pos, length, length-append}
use cscc_db_rucbase.Transaction.LockDataId.{Rid}
use cscc_db_rucbase.Recovery.Log.{
  LogHeader, LogRecord, log_mark, log_insert, log_delete, log_update, put_word, put_int, put_size,
  put_rid, put_name, put_header, serialize, header_size, change_size,
}

-- What a record takes, by its class.
abbrev pub record_size : LogRecord → ℕ
record_size (log_mark h) = header_size
record_size (log_insert h value rid name) = change_size value name
record_size (log_delete h value rid name) = change_size value name
record_size (log_update h old new rid name) =
    header_size + (4 + length old + length new) + 8 + (8 + length name)

length-put_header : (h : LogHeader) (rest : List ℕ) → length (put_header h rest) ≡ 20 + length rest
unfolding put_header put_int put_word
length-put_header h rest = omega arith

length-tail :
    (rid : Rid) (name rest : List ℕ)
    → length (put_rid rid (put_name name rest)) ≡ 16 + length name + length rest
unfolding put_int put_size put_word
length-tail rid name rest = omega (arith, length-append name rest)

length-put_int : (z : ℤ) (rest : List ℕ) → length (put_int z rest) ≡ 4 + length rest
unfolding put_int put_word
length-put_int z rest = omega arith

pub length-serialize :
    (r : LogRecord) (rest : List ℕ) → length (serialize r rest) ≡ record_size r + length rest
unfolding serialize
length-serialize (log_mark h) rest = length-put_header h rest
length-serialize (log_insert h value rid name) rest = omega (
  arith,
  length-put_header h (put_int (pos (length value)) (value ++ put_rid rid (put_name name rest))),
  length-put_int (pos (length value)) (value ++ put_rid rid (put_name name rest)),
  length-append value (put_rid rid (put_name name rest)),
  length-tail rid name rest,
)
length-serialize (log_delete h value rid name) rest = omega (
  arith,
  length-put_header h (put_int (pos (length value)) (value ++ put_rid rid (put_name name rest))),
  length-put_int (pos (length value)) (value ++ put_rid rid (put_name name rest)),
  length-append value (put_rid rid (put_name name rest)),
  length-tail rid name rest,
)
length-serialize (log_update h old new rid name) rest = omega (
  arith,
  length-put_header h
      (put_int (pos (length old)) (old ++ (new ++ put_rid rid (put_name name rest)))),
  length-put_int (pos (length old)) (old ++ (new ++ put_rid rid (put_name name rest))),
  length-append old (new ++ put_rid rid (put_name name rest)),
  length-append new (put_rid rid (put_name name rest)),
  length-tail rid name rest,
)
