-- ===== src/Recovery/Log/RoundTrip.antt =====
-- A log record is read back from the log as it was written, whatever lies behind it.
use cscc_db_rucbase.Common.{
  ℕ, ◌<◌, List, ◌++◌, ◌≡◌, refl, ap, sym, ◌∙◌, arith, pos, slice, length, none, some, subst, Option,
}
use cscc_db_rucbase.Transaction.LockDataId.{Rid}
use cscc_db_rucbase.Gap.Compare.{drop, int_at}
use cscc_db_rucbase.Recovery.Log.{
  LogType, update, insert, delete, begin, commit, abort, static_checkpoint, LogHeader, LogRecord,
  log_mark, log_insert, log_delete, log_update, put_word, put_int, put_size, put_rid, put_header,
  put_name, serialize, type_of, header_at, rid_at, name_at, value_size, values, deserialize_as,
  deserialize, code,
}
use cscc_db_rucbase.Recovery.Log.Ints.{
  IsInt32, word_at-put_word, int_at-put_int, size_at-put_size, drop-append, slice-append,
}

abbrev IsMark : LogType → Type 0
IsMark begin = Unit
IsMark commit = Unit
IsMark abort = Unit
IsMark static_checkpoint = Unit
IsMark _ = ⊥

-- The parts of a record fit their fields, and its type is that of its class.
pub record IsHeader (h : LogHeader) : Type 0 where
  pub lsn : IsInt32 h.lsn
  pub log_tot_len : h.log_tot_len < 4294967296
  pub log_tid : IsInt32 h.log_tid
  pub prev_lsn : IsInt32 h.prev_lsn

pub record IsChange (value : List ℕ) (rid : Rid) (table_name : List ℕ) : Type 0 where
  pub value_size : length value < 2147483648
  pub page_no : rid.page_no < 2147483648
  pub slot_no : rid.slot_no < 2147483648
  pub name_size : length table_name < 18446744073709551616

abbrev pub IsLogRecord : LogRecord → Type 0
IsLogRecord (log_mark h) = IsHeader h × IsMark h.log_type
IsLogRecord (log_insert h value rid table_name) =
    IsHeader h × (h.log_type ≡ insert) × IsChange value rid table_name
IsLogRecord (log_delete h value rid table_name) =
    IsHeader h × (h.log_type ≡ delete) × IsChange value rid table_name
IsLogRecord (log_update h old new rid table_name) =
    IsHeader h × (h.log_type ≡ update) × (length new ≡ length old) × IsChange old rid table_name

-- The types that have a case in the switch: all but the checkpoint.
abbrev pub case_of : LogType → Option LogType
case_of static_checkpoint = none
case_of t = some t

type_of-code : (t : LogType) → type_of (pos (code t)) ≡ case_of t
unfolding type_of
type_of-code update = refl
type_of-code insert = refl
type_of-code delete = refl
type_of-code begin = refl
type_of-code commit = refl
type_of-code abort = refl
type_of-code static_checkpoint = refl

code_small : (t : LogType) → code t < 2147483648
code_small update = omega arith
code_small insert = omega arith
code_small delete = omega arith
code_small begin = omega arith
code_small commit = omega arith
code_small abort = omega arith
code_small static_checkpoint = omega arith

module _ (h : LogHeader) (rest : List ℕ) (ok : IsHeader h) where
  type-put_header : type_of (int_at (put_header h rest)) ≡ case_of h.log_type
  unfolding put_header
  type-put_header =
      ap type_of (int_at-put_int (pos (code h.log_type)) _ (code_small h.log_type))
      ∙ type_of-code h.log_type

  header_at-put_header : header_at h.log_type (put_header h rest) ≡ h
  unfolding header_at put_header put_int put_word
  header_at-put_header = ground (
    arith,
    int_at-put_int h.lsn (put_word h.log_tot_len (put_int h.log_tid (put_int h.prev_lsn rest)))
        ok.lsn,
    word_at-put_word h.log_tot_len (put_int h.log_tid (put_int h.prev_lsn rest)) ok.log_tot_len,
    int_at-put_int h.log_tid (put_int h.prev_lsn rest) ok.log_tid,
    int_at-put_int h.prev_lsn rest ok.prev_lsn,
  )

  drop-put_header : drop 20 (put_header h rest) ≡ rest
  unfolding put_header put_int put_word
  drop-put_header = refl

rid_at-put_rid :
    (rid : Rid) (rest : List ℕ)
    → rid.page_no < 2147483648
    → rid.slot_no < 2147483648
    → (rid_at (put_rid rid rest) ≡ rid) × (drop 8 (put_rid rid rest) ≡ rest)
unfolding put_int put_word
rid_at-put_rid rid rest hp hs =
    let page = int_at-put_int (pos rid.page_no) (put_int (pos rid.slot_no) rest) hp in
    let slot = int_at-put_int (pos rid.slot_no) rest hs in (ground (arith, page, slot), refl)

name_at-put_name :
    (name rest : List ℕ) → length name < 18446744073709551616 → name_at (put_name name rest) ≡ name
unfolding put_size put_word
name_at-put_name name rest h =
    rw (size_at-put_size (length name) (name ++ rest) h) (slice-append name rest)

-- The record behind the header, whatever is behind the record.
module _ (src value tail : List ℕ)
    (behind : drop 20 src ≡ put_int (pos (length value)) (value ++ tail))
    (small : length value < 2147483648) where
  value_size_lem : value_size src ≡ length value
  value_size_lem = rw behind (rw (int_at-put_int (pos (length value)) (value ++ tail) small) refl)

  values_lem : values src ≡ value ++ tail
  unfolding put_int put_word
  values_lem = rw behind refl

  value_lem : slice 0 (value_size src) (values src) ≡ value
  value_lem = rw (value_size_lem, values_lem) (slice-append value tail)

  after_lem : drop (value_size src) (values src) ≡ tail
  after_lem = rw (value_size_lem, values_lem) (drop-append value tail)

-- The place and the table's name.
module _ (after : List ℕ) (rid : Rid) (name rest : List ℕ)
    (here : after ≡ put_rid rid (put_name name rest)) where
  place_lem : rid.page_no < 2147483648 → rid.slot_no < 2147483648 → rid_at after ≡ rid
  place_lem hp hs = rw here ((rid_at-put_rid rid (put_name name rest) hp hs).0)

  name_lem : length name < 18446744073709551616 → name_at (drop 8 after) ≡ name
  unfolding put_int put_word
  name_lem h = rw here (name_at-put_name name rest h)

module _ (h : LogHeader) (value : List ℕ) (rid : Rid) (name rest : List ℕ) (head : IsHeader h)
    (ok : IsChange value rid name) where
  abbrev tail : List ℕ
  tail = put_rid rid (put_name name rest)

  insert_lem :
      h.log_type ≡ insert
      → deserialize_as insert (serialize (log_insert h value rid name) rest)
        ≡ some (log_insert h value rid name)
  unfolding deserialize_as serialize
  insert_lem type =
      let src = put_header h (put_int (pos (length value)) (value ++ tail)) in
      let behind = drop-put_header h (put_int (pos (length value)) (value ++ tail)) head in
      let after = after_lem src value tail behind ok.value_size in
      let head_lem : header_at insert src ≡ h =
        subst (λ t. header_at t src ≡ h) type (header_at-put_header h _ head) in
      cc (
        head_lem,
        value_lem src value tail behind ok.value_size,
        place_lem (drop (value_size src) (values src)) rid name rest after ok.page_no ok.slot_no,
        name_lem (drop (value_size src) (values src)) rid name rest after ok.name_size,
      )

  delete_lem :
      h.log_type ≡ delete
      → deserialize_as delete (serialize (log_delete h value rid name) rest)
        ≡ some (log_delete h value rid name)
  unfolding deserialize_as serialize
  delete_lem type =
      let src = put_header h (put_int (pos (length value)) (value ++ tail)) in
      let behind = drop-put_header h (put_int (pos (length value)) (value ++ tail)) head in
      let after = after_lem src value tail behind ok.value_size in
      let head_lem : header_at delete src ≡ h =
        subst (λ t. header_at t src ≡ h) type (header_at-put_header h _ head) in
      cc (
        head_lem,
        value_lem src value tail behind ok.value_size,
        place_lem (drop (value_size src) (values src)) rid name rest after ok.page_no ok.slot_no,
        name_lem (drop (value_size src) (values src)) rid name rest after ok.name_size,
      )

  update_lem :
      (new : List ℕ)
      → length new ≡ length value
      → h.log_type ≡ update
      → deserialize_as update (serialize (log_update h value new rid name) rest)
        ≡ some (log_update h value new rid name)
  unfolding deserialize_as serialize
  update_lem new size type =
      let both = new ++ tail in
      let src = put_header h (put_int (pos (length value)) (value ++ both)) in
      let behind = drop-put_header h (put_int (pos (length value)) (value ++ both)) head in
      let n = value_size_lem src value both behind ok.value_size ∙ sym size in
      let middle = after_lem src value both behind ok.value_size in
      let new_lem : slice 0 (value_size src) (drop (value_size src) (values src)) ≡ new =
        ap (slice 0 (value_size src)) middle ∙ ap (λ k. slice 0 k both) n ∙ slice-append new tail in
      let after : drop (value_size src) (drop (value_size src) (values src)) ≡ tail =
        ap (drop (value_size src)) middle ∙ ap (λ k. drop k both) n ∙ drop-append new tail in
      let head_lem : header_at update src ≡ h =
        subst (λ t. header_at t src ≡ h) type (header_at-put_header h _ head) in
      cc (
        head_lem,
        value_lem src value both behind ok.value_size,
        new_lem,
        place_lem (drop (value_size src) (drop (value_size src) (values src))) rid name rest after
            ok.page_no ok.slot_no,
        name_lem (drop (value_size src) (drop (value_size src) (values src))) rid name rest after
            ok.name_size,
      )

-- What is read back of a record: a checkpoint, whose type has no case, is passed over.
abbrev pub read_back : LogRecord → Option LogRecord
read_back (log_mark h) = elim h.log_type [ static_checkpoint ↦ none | _ ↦ some (log_mark h) ]
read_back r = some r

-- The class is picked by the type.
with_type :
    (src : List ℕ) (t : LogType) (r : LogRecord)
    → type_of (int_at src) ≡ some t
    → deserialize_as t src ≡ some r
    → deserialize src ≡ some r
unfolding deserialize
with_type src t r e d = rw (e, deserialize) d

mark_read :
    (t : LogType) (h : LogHeader) (rest : List ℕ)
    → IsHeader h
    → h.log_type ≡ t
    → case_of t ≡ some t
    → ((src : List ℕ) → deserialize_as t src ≡ some (log_mark (header_at t src)))
    → deserialize (put_header h rest) ≡ some (log_mark (record h { log_type = t }))
mark_read t h rest ok type c reads =
    with_type (put_header h rest) t _ (type-put_header h rest ok ∙ ap case_of type ∙ c) (
      reads (put_header h rest)
      ∙ subst
          (λ k.
            some (log_mark (header_at k (put_header h rest)))
            ≡ some (log_mark (record h { log_type = k })))
          type (ap (λ g. some (log_mark g)) (header_at-put_header h rest ok)))

mark_lem :
    (t : LogType) (h : LogHeader) (rest : List ℕ)
    → IsHeader h
    → h.log_type ≡ t
    → IsMark t
    → deserialize (put_header h rest) ≡ read_back (log_mark (record h { log_type = t }))
unfolding deserialize deserialize_as
mark_lem update h rest ok type m = elim m [ ]
mark_lem insert h rest ok type m = elim m [ ]
mark_lem delete h rest ok type m = elim m [ ]
mark_lem begin h rest ok type m = mark_read begin h rest ok type refl (λ src. refl)
mark_lem commit h rest ok type m = mark_read commit h rest ok type refl (λ src. refl)
mark_lem abort h rest ok type m = mark_read abort h rest ok type refl (λ src. refl)
mark_lem static_checkpoint h rest ok type m =
    rw (type-put_header h rest ok ∙ ap case_of type, deserialize) refl

-- A log record of any class, whose numbers fit their fields and whose updated value is as long as
-- the old one, is read back from the bytes of serialize, whatever bytes lie behind them, by the
-- case of analyze's switch that its type picks, as it was written; only a static checkpoint, for
-- which the switch has no case, is not read.
pub deserialize-serialize :
    (r : LogRecord) (rest : List ℕ) → IsLogRecord r → deserialize (serialize r rest) ≡ read_back r
unfolding serialize
deserialize-serialize (log_mark h) rest (ok, m) = mark_lem h.log_type h rest ok refl m
deserialize-serialize (log_insert h value rid name) rest (ok, type, c) =
    with_type _ insert _ (type-put_header h _ ok ∙ ap case_of type)
      (insert_lem h value rid name rest ok c type)
deserialize-serialize (log_delete h value rid name) rest (ok, type, c) =
    with_type _ delete _ (type-put_header h _ ok ∙ ap case_of type)
      (delete_lem h value rid name rest ok c type)
deserialize-serialize (log_update h old new rid name) rest (ok, type, size, c) =
    with_type _ update _ (type-put_header h _ ok ∙ ap case_of type)
      (update_lem h old rid name rest ok c new size type)
