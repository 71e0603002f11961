-- ===== src/LockManager/Exclusion/Tests.antt =====
-- A run of one table's queue: transaction 5 reads, 3 asks to write and sleeps, 5 releases, 3 wakes.
use cscc_db_rucbase.Common.{◌≡◌, refl, false, true, [], ◌∷◌, none, some, pos, arith}
use cscc_db_rucbase.LockManager.Queue.{
  LockRequestQueue, exclusive, granted, blocked, x_lock, find_request, other_granted, update_last,
  update_first,
}
use cscc_db_rucbase.LockManager.Record.{give_shared, give_exclusive, first_shared, first_exclusive}
use cscc_db_rucbase.LockManager.Table.{
  shared_on_table, exclusive_on_table, upgrade_table, wake_exclusive_on_table,
}
use cscc_db_rucbase.LockManager.Release.{
  unlock_queue, drop_requests, drop_request, erase_first, refresh, strongest_mode, oldest_of,
}
use cscc_db_rucbase.LockManager.Steps.{
  Entry, Reached, first, next, asks, wakes, releases, request, fall_asleep, update, shared_table,
  exclusive_table,
}
use cscc_db_rucbase.LockManager.Exclusion.Invariant.{on_table}
use cscc_db_rucbase.LockManager.Exclusion.Tables.{Reached-exclusive}

abbrev reading : Entry
reading = record { queue = (request shared_table 5 none).0; asleep = λ t. none }

abbrev sleeping_writer : Entry
sleeping_writer = record {
  queue = (request exclusive_table 3 (some reading.queue)).0;
  asleep = fall_asleep exclusive_table 3 blocked reading.asleep;
}

abbrev waiting_writer : LockRequestQueue
waiting_writer = record {
  request_queue = record { txn_id = 3; lock_mode = exclusive; granted = false } ∷ [];
  group_lock_mode = x_lock;
  upgrading = false;
  shared_lock_num = pos 0;
  ix_lock_num = pos 0;
  oldest_txn_id = 3;
}

abbrev released : Entry
released = record { queue = waiting_writer; asleep = sleeping_writer.asleep }

abbrev writing : Entry
writing = record {
  queue = record waiting_writer {
    request_queue = record { txn_id = 3; lock_mode = exclusive; granted = true } ∷ [];
  };
  asleep = update 3 none released.asleep;
}

pub writing-Reached : Reached on_table writing
unfolding shared_on_table exclusive_on_table give_shared give_exclusive first_shared first_exclusive
    upgrade_table wake_exclusive_on_table unlock_queue drop_requests drop_request erase_first
    refresh strongest_mode oldest_of find_request update_last update_first
writing-Reached =
    next
      (next
        (next (first shared_table 5 granted reading refl (omega arith) refl refl)
          (asks exclusive_table 3 blocked refl (omega arith) refl refl refl))
        (releases 5 refl refl refl))
      (wakes exclusive_table 3 refl refl refl refl)

writer_found :
    find_request 3 writing.queue.request_queue
    ≡ some (record { txn_id = 3; lock_mode = exclusive; granted = true })
unfolding find_request
writer_found = refl

Reached-exclusive_example : other_granted 3 writing.queue.request_queue ≡ false
Reached-exclusive_example =
    Reached-exclusive writing 3 (record { txn_id = 3; lock_mode = exclusive; granted = true })
      writing-Reached writer_found refl
