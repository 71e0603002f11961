-- ===== src/LockManager/Tests/Queues.antt =====
-- Table locks and transactions at work.
use cscc_db_rucbase.Common.{◌≡◌, refl, true, false, [], ◌∷◌, none, some, arith}
use cscc_db_rucbase.Transaction.LockDataId.{table}
use cscc_db_rucbase.Transaction.State.{Transaction, growing, shrinking, aborted, lock_on_shrinking}
use cscc_db_rucbase.LockManager.Queue.{
  LockRequestQueue, shared, exclusive, granted, blocked, die, find_request,
}
use cscc_db_rucbase.LockManager.Table.{shared_on_table}
use cscc_db_rucbase.LockManager.Release.{drop_requests, unlock_queue}
use cscc_db_rucbase.LockManager.Release.Spec.{
  others, Unlocked, unlock_queue-Released, drop_requests-others,
}
use cscc_db_rucbase.LockManager.Steps.{
  Entry, Reached, first, request, shared_table, exclusive_table,
}
use cscc_db_rucbase.LockManager.Age.{has_older}
use cscc_db_rucbase.LockManager.WaitDie.{request-wait_die}
use cscc_db_rucbase.LockManager.Manager.{
  LockManager, reply, returned, abort, unlock, lock_ix_on_table,
}
use cscc_db_rucbase.LockManager.TwoPhase.{
  Call, run, run_all, run-shrinking, run-over, unlock-two_phase, lock_ix_on_table-any_state,
}
use cscc_db_rucbase.LockManager.Tests.{by_int, hash_gap}

abbrev reading : Entry
reading = record { queue = (request shared_table 5 none).0; asleep = λ t. none }

reading-Reached : Reached (λ k. true) reading
reading-Reached =
    first shared_table 5 granted reading refl (omega arith) (unfold shared_on_table in refl) refl

request-wait_die_example :
    ((request exclusive_table 4 (some reading.queue)).1 ≡ blocked
      → has_older 4 reading.queue.request_queue ≡ false)
    × ((request exclusive_table 4 (some reading.queue)).1 ≡ die
        → has_older 4 reading.queue.request_queue ≡ true)
request-wait_die_example = request-wait_die exclusive_table 4 reading-Reached (omega arith)

-- Two readers, of which 5 holds a second request.
abbrev two_readers : LockRequestQueue
two_readers = record reading.queue {
  request_queue =
      record { txn_id = 5; lock_mode = shared; granted = true }
      ∷ record { txn_id = 8; lock_mode = shared; granted = true }
      ∷ record { txn_id = 5; lock_mode = exclusive; granted = false }
      ∷ [];
}

five_found :
    find_request 5 two_readers.request_queue
    ≡ some (record { txn_id = 5; lock_mode = shared; granted = true })
unfolding find_request
five_found = refl

unlock_queue-Released_example :
    Unlocked 5 two_readers (others 5 two_readers.request_queue) (unlock_queue 5 two_readers)
unlock_queue-Released_example = unlock_queue-Released 5 two_readers _ five_found

drop_requests-others_example :
    (drop_requests 3 5 two_readers).request_queue
    ≡ record { txn_id = 8; lock_mode = shared; granted = true } ∷ []
drop_requests-others_example = drop_requests-others 3 5 two_readers (omega arith)

abbrev no_locks : LockManager
no_locks = record { lock_table = []; gap_lock_table = [] }

abbrev grown : Transaction
grown = record { txn_id = 5; state = growing; lock_set = table 1 ∷ [] }

unlock-two_phase_example :
    ((unlock hash_gap no_locks grown (table 1)).txn.state ≡ shrinking)
    × (run_all by_int hash_gap
          ((no_locks, Call.shared_table 2) ∷ (no_locks, Call.release (table 1)) ∷ [])
          (unlock hash_gap no_locks grown (table 1)).txn
        ≡ record grown { state = shrinking })
unlock-two_phase_example =
    unlock-two_phase by_int hash_gap no_locks grown (table 1)
      ((no_locks, Call.shared_table 2) ∷ (no_locks, Call.release (table 1)) ∷ []) refl
      (refl, (refl, tt))

run-shrinking_example :
    run by_int hash_gap (Call.exclusive_table 2) no_locks (record grown { state = shrinking })
    ≡ reply no_locks (record grown { state = shrinking }) (abort lock_on_shrinking)
run-shrinking_example =
    run-shrinking by_int hash_gap (Call.exclusive_table 2) no_locks
      (record grown { state = shrinking }) refl refl

run-over_example :
    run by_int hash_gap (Call.release (table 1)) no_locks (record grown { state = aborted })
    ≡ reply no_locks (record grown { state = aborted }) (returned false)
run-over_example =
    run-over by_int hash_gap (Call.release (table 1)) no_locks (record grown { state = aborted })
      refl refl

lock_ix_on_table-any_state_example :
    ((lock_ix_on_table hash_gap no_locks (record grown { state = shrinking }) 1).outcome
      ≡ (lock_ix_on_table hash_gap no_locks grown 1).outcome)
    × ((lock_ix_on_table hash_gap no_locks (record grown { state = shrinking }) 1).manager
        ≡ (lock_ix_on_table hash_gap no_locks grown 1).manager)
lock_ix_on_table-any_state_example =
    lock_ix_on_table-any_state by_int hash_gap no_locks grown 1 shrinking
