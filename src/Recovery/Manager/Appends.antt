-- ===== src/Recovery/Manager/Appends.antt =====
-- The log file and the buffer hold the records that were added, in their order.
use cscc_db_rucbase.Common.{
  ℕ, zero, suc, ◌+◌, ◌≤◌, ◌<◌, List, [], ◌∷◌, ◌++◌, ◌≡◌, refl, ap, sym, ◌∙◌, arith, ℤ, pos, negsuc,
  inc, dec, slice, length, subst, slice-blit_end, length-blit, Bool-cases, inl, inr, ◌==◌, false,
}
use mathlib.Core.List.{append_assoc}
use cscc_db_rucbase.Recovery.Log.{
  LogRecord, LogHeader, log_mark, log_insert, log_delete, log_update, header, set_lsn, serialize,
  put_header, put_int, put_word, put_size,
}
use cscc_db_rucbase.Recovery.Log.Sizes.{record_size, length-serialize}
use cscc_db_rucbase.Recovery.Manager.{
  LogManager, flush_log_to_disk, append_log, add_log_to_buffer, log_buffer_size, is_full,
}

-- The bytes of records one behind the other.
unfoldable pub bytes : List LogRecord → List ℕ
bytes [] = []
bytes (r ∷ rs) = serialize r (bytes rs)

-- The records carry the numbers from `first` on, up to the next one.
abbrev pub Numbered : ℤ → List LogRecord → ℤ → Type 0
Numbered first [] next = first ≡ next
Numbered first (r ∷ rs) next = ((header r).lsn ≡ first) × Numbered (inc first) rs next

-- The file ends in the records `done`, whose last number is `persist_lsn`, and the buffer holds the
-- records `waiting`.
pub record IsLog (m : LogManager) (base : List ℕ) (first : ℤ) (done waiting : List LogRecord)
    : Type 0 where
  pub on_disk : m.log ≡ base ++ bytes done
  pub in_buffer : slice 0 m.offset m.buffer ≡ bytes waiting
  pub room : log_buffer_size < length m.buffer
  pub offset : m.offset ≤ log_buffer_size
  pub persisted : Numbered first done (inc m.persist_lsn)
  pub numbered : Numbered (inc m.persist_lsn) waiting m.global_lsn

append-put_header : (h : LogHeader) (a b : List ℕ) → put_header h (a ++ b) ≡ put_header h a ++ b
unfolding put_header put_int put_word
append-put_header h a b = refl

serialize-append : (r : LogRecord) (a b : List ℕ) → serialize r (a ++ b) ≡ serialize r a ++ b
unfolding serialize put_header put_int put_word put_size
serialize-append (log_mark h) a b = refl
serialize-append (log_insert h value rid name) a b = simp append_assoc
serialize-append (log_delete h value rid name) a b = simp append_assoc
serialize-append (log_update h old new rid name) a b = simp append_assoc

bytes-append : (rs qs : List LogRecord) → bytes (rs ++ qs) ≡ bytes rs ++ bytes qs
unfolding bytes
bytes-append [] qs = refl
bytes-append (r ∷ rs) qs =
    ap (serialize r) (bytes-append rs qs) ∙ serialize-append r (bytes rs) (bytes qs)

Numbered-append :
    (first next : ℤ) (rs : List LogRecord) (r : LogRecord)
    → Numbered first rs next
    → (header r).lsn ≡ next
    → Numbered first (rs ++ r ∷ []) (inc next)
Numbered-append first next [] r n e = (e ∙ sym n, ap inc n)
Numbered-append first next (q ∷ rs) r (here, n) e =
    (here, Numbered-append (inc first) next rs r n e)

Numbered-join :
    (first middle next : ℤ) (rs qs : List LogRecord)
    → Numbered first rs middle
    → Numbered middle qs next
    → Numbered first (rs ++ qs) next
Numbered-join first middle next [] qs a b = subst (λ z. Numbered z qs next) (sym a) b
Numbered-join first middle next (r ∷ rs) qs (here, a) b =
    (here, Numbered-join (inc first) middle next rs qs a b)

inc-dec : (z : ℤ) → inc (dec z) ≡ z
inc-dec (pos zero) = refl
inc-dec (pos (suc n)) = refl
inc-dec (negsuc n) = refl

set_lsn_size : (r : LogRecord) (lsn : ℤ) → record_size (set_lsn r lsn) ≡ record_size r
set_lsn_size (log_mark h) lsn = refl
set_lsn_size (log_insert h value rid name) lsn = refl
set_lsn_size (log_delete h value rid name) lsn = refl
set_lsn_size (log_update h old new rid name) lsn = refl

set_lsn_lem : (r : LogRecord) (lsn : ℤ) → (header (set_lsn r lsn)).lsn ≡ lsn
set_lsn_lem (log_mark h) lsn = refl
set_lsn_lem (log_insert h value rid name) lsn = refl
set_lsn_lem (log_delete h value rid name) lsn = refl
set_lsn_lem (log_update h old new rid name) lsn = refl

flushed_lem :
    (m : LogManager)
    → 0 < m.offset
    → ((flush_log_to_disk m).offset ≡ 0) × ((flush_log_to_disk m).global_lsn ≡ m.global_lsn)
unfolding flush_log_to_disk
flushed_lem m h = (ground arith, ground arith)

module _ (m : LogManager) (base : List ℕ) (first : ℤ) (done waiting : List LogRecord)
    (ok : IsLog m base first done waiting) where
  -- The waiting records go to the file.
  pub flush-IsLog : (0 < m.offset) → IsLog (flush_log_to_disk m) base first (done ++ waiting) []
  unfolding flush_log_to_disk bytes slice
  flush-IsLog some_there =
      let more : (m.offset == 0) ≡ false = ground arith in
      rw more (record {
        on_disk =
            rw (ok.on_disk, ok.in_buffer, bytes-append done waiting)
              (append_assoc base (bytes done) (bytes waiting));
        in_buffer = refl;
        room = ok.room;
        offset = omega arith;
        persisted =
            Numbered-join first (inc m.persist_lsn) (inc (dec m.global_lsn)) done waiting
              ok.persisted
              (subst (Numbered (inc m.persist_lsn) waiting) (sym (inc-dec m.global_lsn))
                ok.numbered);
        numbered = inc-dec m.global_lsn;
      })

  -- One record more waits.
  pub append-IsLog :
      (r : LogRecord)
      → (header r).log_tot_len ≡ record_size r
      → m.offset + record_size r ≤ log_buffer_size
      → IsLog (append_log r m) base first done (waiting ++ set_lsn r m.global_lsn ∷ [])
  unfolding append_log bytes
  append-IsLog r sized fits =
      let q = set_lsn r m.global_lsn in
      let size = length-serialize q [] in
      let same = set_lsn_size r m.global_lsn in
      record {
        on_disk = ok.on_disk;
        in_buffer =
            slice-blit_end m.offset (m.offset + (header r).log_tot_len) (serialize q []) m.buffer
              (omega (arith, size, same, sized)) (omega (arith, sized, ok.room))
            ∙ ap (λ t. t ++ serialize q []) ok.in_buffer
            ∙ sym (bytes-append waiting (q ∷ []));
        room = omega (arith, ok.room, length-blit m.offset (serialize q []) m.buffer);
        offset = omega (arith, sized);
        persisted = ok.persisted;
        numbered =
            Numbered-append (inc m.persist_lsn) m.global_lsn waiting q ok.numbered
              (set_lsn_lem r m.global_lsn);
      }

-- The log is a list of records: if the log file ends in the bytes of some records, with numbers in
-- sequence up to persist_lsn, and the buffer holds those of the records numbered after them, and
-- add_log_to_buffer is given a record of any of the classes that fits the buffer and whose length
-- is right, then the same holds of these records and the new one behind them, which has the next
-- number, the one returned.
pub add_log_to_buffer-IsLog :
    (m : LogManager) (base : List ℕ) (first : ℤ) (done waiting : List LogRecord) (r : LogRecord)
    → IsLog m base first done waiting
    → (header r).log_tot_len ≡ record_size r
    → record_size r ≤ log_buffer_size
    → (done' waiting' : List LogRecord) × IsLog (add_log_to_buffer r m).0 base first done' waiting'
      × (done' ++ waiting' ≡ (done ++ waiting) ++ set_lsn r m.global_lsn ∷ [])
      × ((add_log_to_buffer r m).1 ≡ m.global_lsn)
unfolding add_log_to_buffer
add_log_to_buffer-IsLog m base first done waiting r ok sized fits =
    elim (Bool-cases (is_full m (header r).log_tot_len)) [
      | inl full ↦
          let there : 0 < m.offset = ground arith in
          let flushed = flush-IsLog m base first done waiting ok there in
          let e = flushed_lem m there in
          let next =
            append-IsLog (flush_log_to_disk m) base first (done ++ waiting) [] flushed r sized
              (omega (arith, e.0)) in
          rw full (
            (done ++ waiting),
            (set_lsn r m.global_lsn ∷ []),
            subst
                (λ z.
                  IsLog (append_log r (flush_log_to_disk m)) base first (done ++ waiting)
                    (set_lsn r z ∷ []))
                e.1 next,
            refl,
            e.1,
          )
      | inr space ↦ rw space (
        done,
        (waiting ++ set_lsn r m.global_lsn ∷ []),
        append-IsLog m base first done waiting ok r sized (ground arith),
        sym (append_assoc done waiting (set_lsn r m.global_lsn ∷ [])),
        refl,
      )
    ]
