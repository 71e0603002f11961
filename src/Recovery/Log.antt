-- ===== src/Recovery/Log.antt =====
-- The log records of recovery/log_manager.h and recovery/log_defs.h, and their bytes. A `char*` is a
-- list of bytes, `src + offset` what is left of it, and an `int32_t` its four bytes, the lowest
-- first; the sizes of a struct's parts are those of a 64-bit machine. A table name is its bytes,
-- without the closing NUL, which is not written.
pub mod Ints
pub mod RoundTrip
pub mod Sizes
use cscc_db_rucbase.Common.{
  ℕ, zero, suc, ◌+◌, ◌-◌, ◌*◌, ◌/◌, ◌%◌, Bool, List, [], ◌∷◌, ◌++◌, Option, none, some, ◌==◌,
  if◌then◌else◌, ℤ, pos, negsuc, pos_part, slice, length,
}
use cscc_db_rucbase.Transaction.LockDataId.{Rid}
use cscc_db_rucbase.Gap.Compare.{byte_at, drop, int_at}

pub data LogType : Type 0 where
  update insert delete begin commit abort static_checkpoint : LogType

-- The parts of `LogRecord` itself.
pub record LogHeader : Type 0 where
  pub log_type : LogType
  pub lsn : ℤ
  pub log_tot_len : ℕ
  pub log_tid : ℤ
  pub prev_lsn : ℤ

-- The subclasses. A `log_mark` is one of the four that add no field.
pub data LogRecord : Type 0 where
  log_mark : LogHeader → LogRecord
  log_insert log_delete : LogHeader → List ℕ → Rid → List ℕ → LogRecord
  log_update : LogHeader → List ℕ → List ℕ → Rid → List ℕ → LogRecord

abbrev pub header : LogRecord → LogHeader
header (log_mark h) = h
header (log_insert h value rid table_name) = h
header (log_delete h value rid table_name) = h
header (log_update h old new rid table_name) = h

-- `log_record->lsn_ = lsn`.
abbrev numbered : LogHeader → ℤ → LogHeader
numbered h lsn = record h { lsn = lsn }

abbrev pub set_lsn : LogRecord → ℤ → LogRecord
set_lsn (log_mark h) lsn = log_mark (numbered h lsn)
set_lsn (log_insert h value rid table_name) lsn = log_insert (numbered h lsn) value rid table_name
set_lsn (log_delete h value rid table_name) lsn = log_delete (numbered h lsn) value rid table_name
set_lsn (log_update h old new rid table_name) lsn =
    log_update (numbered h lsn) old new rid table_name

-- `log_record->prev_lsn_ = lsn`.
abbrev linked : LogHeader → ℤ → LogHeader
linked h lsn = record h { prev_lsn = lsn }

abbrev pub set_prev_lsn : LogRecord → ℤ → LogRecord
set_prev_lsn (log_mark h) lsn = log_mark (linked h lsn)
set_prev_lsn (log_insert h value rid table_name) lsn =
    log_insert (linked h lsn) value rid table_name
set_prev_lsn (log_delete h value rid table_name) lsn =
    log_delete (linked h lsn) value rid table_name
set_prev_lsn (log_update h old new rid table_name) lsn =
    log_update (linked h lsn) old new rid table_name

-- `LOG_HEADER_SIZE`.
abbrev pub header_size : ℕ
header_size = 20

abbrev new_header : LogType → ℤ → ℕ → LogHeader
new_header t tid len = record {
  log_type = t;
  lsn = negsuc 0;
  log_tot_len = len;
  log_tid = tid;
  prev_lsn = negsuc 0;
}

-- The constructors.
unfoldable pub mark_log_record : LogType → ℤ → LogRecord
mark_log_record t tid = log_mark (new_header t tid header_size)

abbrev pub change_size : List ℕ → List ℕ → ℕ
change_size value table_name = header_size + 4 + length value + 8 + (8 + length table_name)

unfoldable pub insert_log_record : ℤ → List ℕ → Rid → List ℕ → LogRecord
insert_log_record tid value rid table_name =
    log_insert (new_header insert tid (change_size value table_name)) value rid table_name

unfoldable pub delete_log_record : ℤ → List ℕ → Rid → List ℕ → LogRecord
delete_log_record tid value rid table_name =
    log_delete (new_header delete tid (change_size value table_name)) value rid table_name

unfoldable pub update_log_record : ℤ → List ℕ → List ℕ → Rid → List ℕ → LogRecord
update_log_record tid old new rid table_name =
    log_update
      (new_header update tid
        (header_size + (4 + length old + length new) + 8 + (8 + length table_name)))
      old new rid table_name

-- Bytes are written in front of what follows them.
unfoldable pub put_word : ℕ → List ℕ → List ℕ
put_word w rest = (w % 256) ∷ (w / 256 % 256) ∷ (w / 65536 % 256) ∷ (w / 16777216 % 256) ∷ rest

-- An `int32_t` in two's complement.
abbrev pub to_word : ℤ → ℕ
to_word (pos n) = n % 4294967296
to_word (negsuc n) = 4294967295 - n % 4294967296

unfoldable pub put_int : ℤ → List ℕ → List ℕ
unfolding put_word
put_int z rest = put_word (to_word z) rest

-- A `size_t`.
unfoldable pub put_size : ℕ → List ℕ → List ℕ
unfolding put_word
put_size n rest = put_word (n % 4294967296) (put_word (n / 4294967296 % 4294967296) rest)

abbrev pub put_rid : Rid → List ℕ → List ℕ
put_rid rid rest = put_int (pos rid.page_no) (put_int (pos rid.slot_no) rest)

abbrev pub code : LogType → ℕ
code update = 0
code insert = 1
code delete = 2
code begin = 3
code commit = 4
code abort = 5
code static_checkpoint = 6

-- `LogRecord::serialize`.
unfoldable pub put_header : LogHeader → List ℕ → List ℕ
unfolding put_int put_word
put_header h rest =
    put_int (pos (code h.log_type))
      (put_int h.lsn (put_word h.log_tot_len (put_int h.log_tid (put_int h.prev_lsn rest))))

abbrev pub put_name : List ℕ → List ℕ → List ℕ
put_name name rest = put_size (length name) (name ++ rest)

-- `serialize` of the classes, with what lies behind the record in the buffer.
abbrev pub serialize_insert : LogHeader → List ℕ → Rid → List ℕ → List ℕ → List ℕ
serialize_insert h value rid table_name rest =
    put_header h (put_int (pos (length value)) (value ++ put_rid rid (put_name table_name rest)))

abbrev pub serialize_delete : LogHeader → List ℕ → Rid → List ℕ → List ℕ → List ℕ
serialize_delete h value rid table_name rest =
    put_header h (put_int (pos (length value)) (value ++ put_rid rid (put_name table_name rest)))

abbrev pub serialize_update : LogHeader → List ℕ → List ℕ → Rid → List ℕ → List ℕ → List ℕ
serialize_update h old new rid table_name rest =
    put_header h
      (put_int (pos (length old)) (old ++ (new ++ put_rid rid (put_name table_name rest))))

unfoldable pub serialize : LogRecord → List ℕ → List ℕ
unfolding put_header put_size
serialize (log_mark h) rest = put_header h rest
serialize (log_insert h value rid table_name) rest = serialize_insert h value rid table_name rest
serialize (log_delete h value rid table_name) rest = serialize_delete h value rid table_name rest
serialize (log_update h old new rid table_name) rest =
    serialize_update h old new rid table_name rest

unfoldable pub word_at : List ℕ → ℕ
word_at bs = byte_at bs 0 + 256 * byte_at bs 1 + 65536 * byte_at bs 2 + 16777216 * byte_at bs 3

unfoldable pub size_at : List ℕ → ℕ
unfolding word_at
size_at bs = word_at bs + 4294967296 * word_at (drop 4 bs)

-- The type whose case the switch of `analyze` takes; `none` is the default, which is also taken for a
-- checkpoint.
unfoldable pub type_of : ℤ → Option LogType
type_of (negsuc n) = none
type_of (pos n) =
    if n == 0
    then some update
    else if n == 1
    then some insert
    else if n == 2
    then some delete
    else if n == 3
    then some begin
    else if n == 4
    then some commit
    else if n == 5
    then some abort
    else none

-- `LogRecord::deserialize`, after the type.
unfoldable pub header_at : LogType → List ℕ → LogHeader
unfolding word_at
header_at t src = record {
  log_type = t;
  lsn = int_at (drop 4 src);
  log_tot_len = word_at (drop 8 src);
  log_tid = int_at (drop 12 src);
  prev_lsn = int_at (drop 16 src);
}

abbrev pub rid_at : List ℕ → Rid
rid_at src = record { page_no = pos_part (int_at src); slot_no = pos_part (int_at (drop 4 src)) }

abbrev pub name_at : List ℕ → List ℕ
name_at src = slice 0 (size_at src) (drop 8 src)

-- `RmRecord::Deserialize`: the size in front, then the bytes.
abbrev pub value_size : List ℕ → ℕ
value_size src = pos_part (int_at (drop 20 src))

abbrev pub values : List ℕ → List ℕ
values src = drop 4 (drop 20 src)

-- `deserialize` of the classes.
abbrev pub deserialize_insert : List ℕ → LogRecord
deserialize_insert src =
    let n = value_size src in
    let after = drop n (values src) in
    log_insert (header_at insert src) (slice 0 n (values src)) (rid_at after)
      (name_at (drop 8 after))

abbrev pub deserialize_delete : List ℕ → LogRecord
deserialize_delete src =
    let n = value_size src in
    let after = drop n (values src) in
    log_delete (header_at delete src) (slice 0 n (values src)) (rid_at after)
      (name_at (drop 8 after))

abbrev pub deserialize_update : List ℕ → LogRecord
deserialize_update src =
    let n = value_size src in
    let new = drop n (values src) in
    let after = drop n new in
    log_update (header_at update src) (slice 0 n (values src)) (slice 0 n new) (rid_at after)
      (name_at (drop 8 after))

-- What the cases of the switch read; the default reads nothing.
abbrev pub begin_case : List ℕ → Option LogRecord
begin_case src = some (log_mark (header_at begin src))

abbrev pub commit_case : List ℕ → Option LogRecord
commit_case src = some (log_mark (header_at commit src))

abbrev pub abort_case : List ℕ → Option LogRecord
abort_case src = some (log_mark (header_at abort src))

abbrev pub insert_case : List ℕ → Option LogRecord
insert_case src = some (deserialize_insert src)

abbrev pub delete_case : List ℕ → Option LogRecord
delete_case src = some (deserialize_delete src)

abbrev pub update_case : List ℕ → Option LogRecord
update_case src = some (deserialize_update src)

abbrev pub default_case : Option LogRecord
default_case = none

unfoldable pub deserialize_as : LogType → List ℕ → Option LogRecord
unfolding header_at size_at
deserialize_as begin src = begin_case src
deserialize_as commit src = commit_case src
deserialize_as abort src = abort_case src
deserialize_as insert src = insert_case src
deserialize_as delete src = delete_case src
deserialize_as update src = update_case src
deserialize_as static_checkpoint src = default_case

-- The type is read first, and picks the class.
unfoldable pub deserialize : List ℕ → Option LogRecord
unfolding type_of deserialize_as
deserialize src = elim (type_of (int_at src)) [
  | none ↦ default_case
  | some t ↦ deserialize_as t src
]
