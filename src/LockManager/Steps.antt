-- ===== src/LockManager/Steps.antt =====
-- The life of a request queue in `lock_table_`, as a step relation: which requests come in which
-- order, and which sleepers wake when, is left open.
use cscc_db_rucbase.Common.{ℕ, ◌≡◌, ◌≤◌, Bool, true, Option, none, some, ◌==◌, if◌then◌else◌}
use cscc_db_rucbase.LockManager.Queue.{LockRequestQueue, Verdict, blocked, int32_max}
use cscc_db_rucbase.LockManager.Record
use cscc_db_rucbase.LockManager.Table
use cscc_db_rucbase.LockManager.Intention
use cscc_db_rucbase.LockManager.Release.{unlock_queue}

-- The operations on records and tables.
pub data Kind : Type 0 where
  shared_record exclusive_record shared_table exclusive_table is_table ix_table : Kind

abbrev pub request : Kind → ℕ → Option LockRequestQueue → LockRequestQueue × Verdict
request shared_record = Record.shared_on_record
request exclusive_record = Record.exclusive_on_record
request shared_table = Table.shared_on_table
request exclusive_table = Table.exclusive_on_table
request is_table = Intention.is_on_table
request ix_table = Intention.ix_on_table

abbrev pub wake : Kind → ℕ → LockRequestQueue → Option LockRequestQueue
wake shared_record = Record.wake_shared_on_record
wake exclusive_record = Record.wake_exclusive_on_record
wake shared_table = Table.wake_shared_on_table
wake exclusive_table = Table.wake_exclusive_on_table
wake is_table = Intention.wake_is_on_table
wake ix_table = Intention.wake_ix_on_table

-- A queue, and which transactions sleep in it, in the wait of which operation.
pub record Entry : Type 0 where
  pub queue : LockRequestQueue
  pub asleep : ℕ → Option Kind

abbrev pub update : ℕ → Option Kind → (ℕ → Option Kind) → ℕ → Option Kind
update txn k asleep t = if t == txn then k else asleep t

abbrev pub fall_asleep : Kind → ℕ → Verdict → (ℕ → Option Kind) → ℕ → Option Kind
fall_asleep k txn blocked asleep = update txn (some k) asleep
fall_asleep k txn _ asleep = asleep

-- A transaction that is awake asks for one of the allowed locks or releases what it has; one that
-- sleeps goes on when the predicate of its wait holds.
pub data Step (allowed : Kind → Bool) (e e' : Entry) : Type 0 where
  asks :
      (k : Kind) (txn : ℕ) (v : Verdict)
      → allowed k ≡ true
      → txn ≤ int32_max
      → e.asleep txn ≡ none
      → request k txn (some e.queue) ≡ (e'.queue, v)
      → e'.asleep ≡ fall_asleep k txn v e.asleep
      → Step allowed e e'
  wakes :
      (k : Kind) (txn : ℕ)
      → allowed k ≡ true
      → e.asleep txn ≡ some k
      → wake k txn e.queue ≡ some e'.queue
      → e'.asleep ≡ update txn none e.asleep
      → Step allowed e e'
  releases :
      (txn : ℕ)
      → e.asleep txn ≡ none
      → unlock_queue txn e.queue ≡ some e'.queue
      → e'.asleep ≡ e.asleep
      → Step allowed e e'

-- What an entry of the lock table can come to from its first request.
pub data Reached (allowed : Kind → Bool) : Entry → Type 0 where
  first :
      (k : Kind) (txn : ℕ) (v : Verdict) (e : Entry)
      → allowed k ≡ true
      → txn ≤ int32_max
      → request k txn none ≡ (e.queue, v)
      → e.asleep ≡ (λ t. none)
      → Reached allowed e
  next : {e e' : Entry} → Reached allowed e → Step allowed e e' → Reached allowed e'
