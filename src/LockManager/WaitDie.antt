-- ===== src/LockManager/WaitDie.antt =====
-- The verdicts of the wait-die rule in every reachable queue of a record or a table.
use cscc_db_rucbase.Common.{
  ℕ, ◌≤◌, ◌≡◌, length, refl, Bool, true, false, List, [], ◌∷◌, subst, none, some, arith,
  Option-cases, inl, inr,
}
use cscc_db_rucbase.LockManager.Queue.{
  LockRequest, LockRequestQueue, blocked, die, int32_max, find_request, grant,
}
use cscc_db_rucbase.LockManager.Record.{
  give_shared, give_exclusive, shared_on_record, exclusive_on_record, wake_shared_on_record,
  wake_exclusive_on_record,
}
use cscc_db_rucbase.LockManager.Table.{
  shared_on_table, exclusive_on_table, wake_shared_on_table, wake_exclusive_on_table,
}
use cscc_db_rucbase.LockManager.Intention.{
  is_on_table, first_is, ix_on_table, first_ix, wake_is_on_table, wake_ix_on_table,
}
use cscc_db_rucbase.LockManager.Release.{unlock_queue, refresh, settle, drop_requests}
use cscc_db_rucbase.LockManager.Steps.{
  Kind, shared_record, exclusive_record, shared_table, exclusive_table, is_table, ix_table, request,
  wake, Entry, Step, asks, wakes, releases, Reached, first, next,
}
use cscc_db_rucbase.LockManager.Age.{
  min_txn-update_first, min_txn-update_last, oldest_of-min_txn, min_txn-le, has_older,
}
use cscc_db_rucbase.LockManager.Judged.{IsFair, request-Judged}

-- The first request on a record or table makes a fair queue.
first-IsFair : (k : Kind) (txn : ℕ) → txn ≤ int32_max → IsFair (request k txn none).0
unfolding shared_on_record exclusive_on_record shared_on_table exclusive_on_table is_on_table
    ix_on_table give_shared give_exclusive find_request first_is first_ix
first-IsFair shared_record txn h = ground arith
first-IsFair exclusive_record txn h = ground arith
first-IsFair shared_table txn h = ground arith
first-IsFair exclusive_table txn h = ground arith
first-IsFair is_table txn h = ground arith
first-IsFair ix_table txn h = ground arith

refresh-IsFair : (q : LockRequestQueue) → IsFair (refresh q)
unfolding refresh
refresh-IsFair q =
    omega
      (arith, oldest_of-min_txn int32_max q.request_queue (omega arith), min_txn-le q.request_queue)

settle-IsFair :
    (q : LockRequestQueue) {q' : LockRequestQueue} (rs : List LockRequest)
    → settle q rs ≡ some q'
    → IsFair q'
settle-IsFair q [] h = cc
settle-IsFair q (r ∷ rs) h = ground (arith, refresh-IsFair q)

module _ (txn : ℕ) (q : LockRequestQueue) {q' : LockRequestQueue} (fair : IsFair q) where
  wake-IsFair : (k : Kind) → wake k txn q ≡ some q' → IsFair q'
  unfolding wake_shared_on_record wake_exclusive_on_record wake_shared_on_table
      wake_exclusive_on_table wake_is_on_table wake_ix_on_table
  wake-IsFair shared_record h =
      ground (arith, min_txn-update_last txn grant (λ e. refl) q.request_queue)
  wake-IsFair exclusive_record h =
      ground (arith, min_txn-update_first txn grant (λ e. refl) q.request_queue)
  wake-IsFair shared_table h =
      ground (arith, min_txn-update_last txn grant (λ e. refl) q.request_queue)
  wake-IsFair exclusive_table h =
      ground (arith, min_txn-update_last txn grant (λ e. refl) q.request_queue)
  wake-IsFair is_table h =
      ground (arith, min_txn-update_first txn grant (λ e. refl) q.request_queue)
  wake-IsFair ix_table h =
      ground (arith, min_txn-update_first txn grant (λ e. refl) q.request_queue)

  unlock_queue-IsFair : unlock_queue txn q ≡ some q' → IsFair q'
  unfolding unlock_queue
  unlock_queue-IsFair h = elim (Option-cases (find_request txn q.request_queue)) [
    | inl e ↦ let h' = rw (e, unlock_queue) at h in ground arith
    | inr (r, e) ↦
        let h' = rw (e, unlock_queue) at h in
        settle-IsFair (drop_requests (length q.request_queue) txn q) _ h'
  ]

module _ {allowed : Kind → Bool} where
  Step-IsFair : {e e' : Entry} → Step allowed e e' → IsFair e.queue → IsFair e'.queue
  Step-IsFair {e} (asks k txn v a small _ h _) fair =
      subst (λ p. IsFair p.0) h (request-Judged txn small e.queue fair k).fair
  Step-IsFair {e} (wakes k txn _ _ h _) fair = wake-IsFair txn e.queue fair k h
  Step-IsFair {e} (releases txn _ h _) fair = unlock_queue-IsFair txn e.queue fair h

  -- In every queue that an entry of the lock table can come to, `oldest_txn_id_` is the least
  -- transaction id of the queue.
  pub Reached-IsFair : {e : Entry} → Reached allowed e → IsFair e.queue
  Reached-IsFair (first k txn v e _ small h _) =
      subst (λ p. IsFair p.0) h (first-IsFair k txn small)
  Reached-IsFair (next r st) = Step-IsFair st (Reached-IsFair r)

-- Wait-die on records and tables: a request for any of the six locks, in a queue reached from a
-- first request by any requests, wake-ups and releases, goes to sleep only if no transaction in the
-- queue is older, and is aborted for deadlock prevention only if one is. Transaction ids are int32.
pub request-wait_die :
    (k : Kind) (txn : ℕ) {e : Entry}
    → Reached (λ _. true) e
    → txn ≤ int32_max
    → ((request k txn (some e.queue)).1 ≡ blocked → has_older txn e.queue.request_queue ≡ false)
      × ((request k txn (some e.queue)).1 ≡ die → has_older txn e.queue.request_queue ≡ true)
request-wait_die k txn {e} r small =
    let j = request-Judged txn small e.queue (Reached-IsFair r) k in (j.waits, j.dies)
