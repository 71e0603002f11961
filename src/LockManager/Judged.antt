-- ===== src/LockManager/Judged.antt =====
-- The verdicts of the wait-die rule on one queue of a record or a table.
use cscc_db_rucbase.Common.{
  ℕ, ◌≤◌, ◌≡◌, if◌then◌else◌, refl, ◌≢◌, ◌∙◌, sym, Bool, Bool-cases, true, false, none, some, arith,
  Option-cases, inl, inr,
}
use cscc_db_rucbase.LockManager.Queue.{
  LockRequest, LockRequestQueue, LockMode, Verdict, granted, held, assertion, blocked, die,
  note_oldest, is_group, x_lock, non_lock, int32_max, find_request, update_first, shared, exclusive,
  intention_shared, intention_exclusive, s_ix, with_mode, enqueue, wait_die,
}
use cscc_db_rucbase.LockManager.Record.{
  give_shared, give_exclusive, first_shared, first_exclusive, shared_on_record, upgrade_record,
  exclusive_on_record,
}
use cscc_db_rucbase.LockManager.Table.{
  shared_on_table, exclusive_on_table, upgrade_table, suspend, make_exclusive,
}
use cscc_db_rucbase.LockManager.Intention.{
  is_on_table, first_is, ix_on_table, first_ix, bars_ix, upgrade_ix,
}
use cscc_db_rucbase.LockManager.Steps.{
  Kind, shared_record, exclusive_record, shared_table, exclusive_table, is_table, ix_table, request,
}
use cscc_db_rucbase.LockManager.Age.{
  min_txn, min_txn-append_singleton, min_txn-update_first, min_txn-le_find, has_older,
  has_older-min_txn,
}

-- The field is the least id.
abbrev pub IsFair : LockRequestQueue → Type 0
IsFair q = q.oldest_txn_id ≡ min_txn q.request_queue

-- What a verdict says of the transactions in the queue, and what becomes of the field.
pub record Judged (txn : ℕ) (q : LockRequestQueue) (a : LockRequestQueue × Verdict) : Type 0 where
  pub fair : IsFair a.0
  pub waits : a.1 ≡ blocked → has_older txn q.request_queue ≡ false
  pub dies : a.1 ≡ die → has_older txn q.request_queue ≡ true

module _ (txn : ℕ) (small : txn ≤ int32_max) (q : LockRequestQueue) (fair : IsFair q) where
  -- The new request of the transaction.
  abbrev asked : LockMode → Bool → LockRequest
  asked m g = record { txn_id = txn; lock_mode = m; granted = g }

  pub enqueue-Judged : (m : LockMode) → Judged txn q (wait_die txn q (enqueue txn m false q))
  enqueue-Judged m = record {
    fair = ground (arith, min_txn-append_singleton q.request_queue (asked m false));
    waits = ground (arith, has_older-min_txn txn q.request_queue);
    dies = ground (arith, has_older-min_txn txn q.request_queue);
  }

  pub first_shared-Judged : Judged txn q (first_shared txn q)
  unfolding first_shared give_shared
  first_shared-Judged = record {
    fair = ground (
      arith,
      min_txn-append_singleton q.request_queue (asked shared false),
      min_txn-append_singleton q.request_queue (asked shared true),
    );
    waits = ground (arith, has_older-min_txn txn q.request_queue);
    dies = ground (arith, has_older-min_txn txn q.request_queue);
  }

  -- A request that is given at once, in a queue whose field was lowered first.
  pub given-Judged :
      (m : LockMode) (a : LockRequestQueue × Verdict)
      → a.0.request_queue ≡ (enqueue txn m true q).request_queue
      → a.0.oldest_txn_id ≡ (note_oldest txn q).oldest_txn_id
      → a.1 ≡ granted
      → Judged txn q a
  given-Judged m (q', v) er eo ev = record {
    fair = ground (arith, er, eo, min_txn-append_singleton q.request_queue (asked m true));
    waits = λ e. cc;
    dies = λ e. cc;
  }

  -- A request that changes no id and no field, and is neither blocked nor dies.
  pub kept-Judged :
      (a : LockRequestQueue × Verdict) → IsFair a.0 → a.1 ≢ blocked → a.1 ≢ die → Judged txn q a
  kept-Judged a f nb nd = record { fair = f; waits = λ e. absurd (nb e); dies = λ e. absurd (nd e) }

  pub first_exclusive-Judged : Judged txn q (first_exclusive txn q)
  unfolding first_exclusive give_exclusive
  first_exclusive-Judged = elim (Bool-cases (is_group q.group_lock_mode non_lock)) [
    | inl e ↦ rw e (given-Judged exclusive _ refl refl refl)
    | inr e ↦ rw e (enqueue-Judged exclusive)
  ]

  first_is-Judged : Judged txn q (first_is txn q)
  unfolding first_is
  first_is-Judged = elim (Bool-cases (is_group q.group_lock_mode x_lock)) [
    | inl e ↦ rw e (enqueue-Judged intention_shared)
    | inr e ↦ rw e (given-Judged intention_shared _ refl refl refl)
  ]

  first_ix-Judged : Judged txn q (first_ix txn q)
  unfolding first_ix
  first_ix-Judged = elim (Bool-cases (bars_ix q.group_lock_mode)) [
    | inl e ↦ rw e (enqueue-Judged intention_exclusive)
    | inr e ↦ rw e (given-Judged intention_exclusive _ refl refl refl)
  ]

  suspend-Judged :
      (r : LockRequest)
      → find_request txn q.request_queue ≡ some r
      → Judged txn q
          (wait_die txn q (record q { request_queue = update_first txn suspend q.request_queue }))
  suspend-Judged r found = record {
    fair = ground (
      arith,
      min_txn-update_first txn suspend (λ e. refl) q.request_queue,
      min_txn-le_find txn q.request_queue r found,
    );
    waits = ground (arith, has_older-min_txn txn q.request_queue);
    dies = ground (arith, has_older-min_txn txn q.request_queue);
  }

  remode-IsFair :
      (f : LockRequest → LockRequest)
      → ((r : LockRequest) → (f r).txn_id ≡ r.txn_id)
      → q.oldest_txn_id ≡ min_txn (update_first txn f q.request_queue)
  remode-IsFair f keeps = fair ∙ sym (min_txn-update_first txn f keeps q.request_queue)

  upgrade_record-Judged :
      (r : LockRequest)
      → find_request txn q.request_queue ≡ some r
      → Judged txn q (upgrade_record txn r q)
  unfolding upgrade_record
  upgrade_record-Judged r found = record {
    fair =
        ground
          (arith, remode-IsFair (with_mode exclusive) (λ e. refl), (enqueue-Judged exclusive).fair);
    waits = ground (arith, (enqueue-Judged exclusive).waits);
    dies = ground (arith, (enqueue-Judged exclusive).dies);
  }

  upgrade_table-Judged :
      (r : LockRequest)
      → find_request txn q.request_queue ≡ some r
      → Judged txn q (upgrade_table txn r q)
  unfolding upgrade_table
  upgrade_table-Judged r found = record {
    fair = ground (arith, remode-IsFair make_exclusive (λ e. refl), (suspend-Judged r found).fair);
    waits = ground (arith, (suspend-Judged r found).waits);
    dies = ground (arith, (suspend-Judged r found).dies);
  }

  upgrade_ix-Judged :
      (r : LockRequest)
      → find_request txn q.request_queue ≡ some r
      → Judged txn q (upgrade_ix txn r q)
  unfolding upgrade_ix
  upgrade_ix-Judged r found = record {
    fair = ground (
      arith,
      remode-IsFair (with_mode s_ix) (λ e. refl),
      remode-IsFair (with_mode intention_exclusive) (λ e. refl),
      (enqueue-Judged intention_exclusive).fair,
    );
    waits = ground (arith, (enqueue-Judged intention_exclusive).waits);
    dies = ground (arith, (enqueue-Judged intention_exclusive).dies);
  }

  -- An operation that looks for its own request first.
  found-Judged :
      (own : LockRequest → LockRequestQueue × Verdict) (new : LockRequestQueue × Verdict)
      → ((r : LockRequest) → find_request txn q.request_queue ≡ some r → Judged txn q (own r))
      → Judged txn q new
      → Judged txn q (elim (find_request txn q.request_queue) [ some r ↦ own r | none ↦ new ])
  found-Judged own new ho hn = elim (Option-cases (find_request txn q.request_queue)) [
    | inl e ↦ rw e hn
    | inr (r, e) ↦ rw e (ho r e)
  ]

  -- The transaction has its lock already, or an assertion fails.
  held-Judged : (b : Bool) → Judged txn q (q, if b then held else assertion)
  held-Judged b = record { fair = fair; waits = ground arith; dies = ground arith }

  if-Judged :
      (b : Bool) (x y : LockRequestQueue × Verdict)
      → Judged txn q x
      → Judged txn q y
      → Judged txn q (if b then x else y)
  if-Judged true x y hx hy = hx
  if-Judged false x y hx hy = hy

  own_exclusive-Judged :
      (r : LockRequest)
      → find_request txn q.request_queue ≡ some r
      → Judged txn q (if r.granted then upgrade_record txn r q else (q, assertion))
  own_exclusive-Judged r found =
      if-Judged r.granted _ _ (upgrade_record-Judged r found) (held-Judged false)

  pub request-Judged : (k : Kind) → Judged txn q (request k txn (some q))
  unfolding shared_on_record exclusive_on_record shared_on_table exclusive_on_table is_on_table
      ix_on_table
  request-Judged shared_record = found-Judged _ _ (λ r e. held-Judged _) first_shared-Judged
  request-Judged exclusive_record = found-Judged _ _ own_exclusive-Judged first_exclusive-Judged
  request-Judged shared_table = found-Judged _ _ (λ r e. held-Judged _) first_shared-Judged
  request-Judged exclusive_table = found-Judged _ _ upgrade_table-Judged first_exclusive-Judged
  request-Judged is_table = found-Judged _ _ (λ r e. held-Judged _) first_is-Judged
  request-Judged ix_table = found-Judged _ _ upgrade_ix-Judged first_ix-Judged
