-- ===== src/LockManager/Tests/Gaps.antt =====
-- Gap locks on the index of the test table: `low` is 10 ≤ id ≤ 20, and `high` is 15 < id.
use cscc_db_rucbase.Common.{
  ℕ, ◌≡◌, subst, refl, true, false, [], ◌∷◌, none, some, pos, find, store, erase_key,
}
use cscc_db_rucbase.Gap.Compare.{
  int_at, compare_int, compare, cmp_index_cond, cmp_left_conds, cmp_right_conds, is_in_gap,
  is_apart, lower_meets_upper, is_coincide,
}
use cscc_db_rucbase.Transaction.LockDataId.{
  LockDataId, gap_lock, index_meta_eq, cols_eq, col_meta_eq, lock_data_id_eq,
}
use cscc_db_rucbase.Transaction.State.{Transaction, growing, add_lock}
use cscc_db_rucbase.LockManager.Queue.{
  LockRequestQueue, shared, exclusive, s_lock, is_mode, granted, blocked, x_lock, non_lock,
  find_request, update_last,
}
use cscc_db_rucbase.LockManager.Record.{give_shared, give_exclusive}
use cscc_db_rucbase.LockManager.Release.{
  unlock_queue, drop_requests, drop_request, erase_first, refresh,
}
use cscc_db_rucbase.LockManager.Manager.{
  LockTable, LockManager, inner_table, Reply, reply, returned, unlock_in,
}
use cscc_db_rucbase.LockManager.Gaps.{
  scan, conflict, bars_shared_gap, shared_on_new, shared_on_gap, exclusive_on_queue, upgrade_gap,
  bars_exclusive_gap, exclusive_after_scan, exclusive_on_gap, wake_exclusive_on_gap,
}
use cscc_db_rucbase.LockManager.GapSteps.{
  GapReached, Moded, start, next, asks_shared, asks_exclusive, releases,
}
use cscc_db_rucbase.LockManager.GapSteps.Tables.{GapReached-Moded}
use cscc_db_rucbase.LockManager.GapExclusion.{
  Free, gives, Askable, exclusive_on_gap-Free, wake_exclusive_on_gap-Free,
}
use cscc_db_rucbase.LockManager.SafeInGap.{
  Moment, wait, free, point_gap, point_conds, probe, claimed_queue, claim, safe_round, safe_rounds,
  is_safe_in_gap,
}
use cscc_db_rucbase.LockManager.Insert.{
  Unclaimed, Holds, is_safe_in_gap-Unclaimed, is_safe_in_gap-spins,
}
use cscc_db_rucbase.LockManager.Tests.{
  by_int, AnyBytes, by_int-Coherent, hash_gap, id_column, sixteen, above_fifteen, id_index, low,
  high, ten_to_twenty-GapOf, above_fifteen-GapOf, above_fifteen-holds,
}

abbrev held_by : ℕ → LockRequestQueue
held_by txn = record {
  request_queue = record { txn_id = txn; lock_mode = exclusive; granted = true } ∷ [];
  group_lock_mode = x_lock;
  upgrading = false;
  shared_lock_num = pos 0;
  ix_lock_num = pos 0;
  oldest_txn_id = txn;
}

-- The queue that a request makes which has to wait for another gap's lock: it has no mode.
abbrev wanted_by : ℕ → LockRequestQueue
wanted_by txn = record (held_by txn) {
  request_queue = record { txn_id = txn; lock_mode = exclusive; granted = false } ∷ [];
  group_lock_mode = non_lock;
}

abbrev low_held : LockTable
low_held = (low, held_by 5) ∷ []

abbrev low_held_high_wanted : LockTable
low_held_high_wanted = (low, held_by 5) ∷ (high, wanted_by 3) ∷ []

low_held-GapReached : GapReached by_int hash_gap low_held
unfolding exclusive_on_gap exclusive_after_scan scan give_exclusive find store
low_held-GapReached = next start (asks_exclusive 5 low granted refl)

-- 5 reads `high` too, and upgrades.
abbrev high_read : LockRequestQueue
high_read = record (held_by 5) {
  request_queue = record { txn_id = 5; lock_mode = shared; granted = true } ∷ [];
  group_lock_mode = s_lock;
  shared_lock_num = pos 1;
}

abbrev low_held_high_read : LockTable
low_held_high_read = (low, held_by 5) ∷ (high, high_read) ∷ []

low_held_high_read-GapReached : GapReached by_int hash_gap low_held_high_read
unfolding shared_on_gap shared_on_new scan bars_shared_gap give_shared find store lock_data_id_eq
    index_meta_eq cols_eq col_meta_eq is_coincide lower_meets_upper is_apart compare compare_int
    int_at
low_held_high_read-GapReached = next low_held-GapReached (asks_shared 5 high granted refl)

high_found :
    (q : LockRequestQueue)
    → find (lock_data_id_eq hash_gap) high low_held_high_read ≡ some q
    → high_read ≡ q
unfolding find lock_data_id_eq index_meta_eq cols_eq col_meta_eq
high_found q h = cc

high_read-Askable : Askable by_int hash_gap 5 high_read
unfolding find_request
high_read-Askable = (
  refl,
  λ r h.
      let e : record { txn_id = 5; lock_mode = shared; granted = true } ≡ r = cc in
      subst (λ z. is_mode z.lock_mode exclusive ≡ false) e refl,
)

high-Askable :
    (q : LockRequestQueue)
    → find (lock_data_id_eq hash_gap) high low_held_high_read ≡ some q
    → Askable by_int hash_gap 5 q
high-Askable q h = subst (Askable by_int hash_gap 5) (high_found q h) high_read-Askable

high_given : gives (exclusive_on_gap by_int hash_gap 5 high low_held_high_read).1 ≡ true
unfolding exclusive_on_gap exclusive_after_scan exclusive_on_queue upgrade_gap scan
    bars_exclusive_gap find find_request lock_data_id_eq index_meta_eq cols_eq col_meta_eq
    is_coincide lower_meets_upper is_apart compare compare_int int_at
high_given = refl

exclusive_on_gap-Free_example :
    Free by_int hash_gap AnyBytes by_int-Coherent (id_column ∷ []) sixteen 5 low_held_high_read
exclusive_on_gap-Free_example =
    exclusive_on_gap-Free by_int hash_gap AnyBytes by_int-Coherent (id_column ∷ []) sixteen 5 high
      low_held_high_read low_held_high_read-GapReached (tt, tt) above_fifteen-GapOf
      above_fifteen-holds (ten_to_twenty-GapOf, (above_fifteen-GapOf, tt)) high-Askable high_given

-- Transaction 3 waits for `high`, and 5 releases `low`.
abbrev high_wanted : LockTable
high_wanted = (high, wanted_by 3) ∷ []

low_held_high_wanted-GapReached : GapReached by_int hash_gap low_held_high_wanted
unfolding exclusive_on_gap exclusive_after_scan scan bars_exclusive_gap find store lock_data_id_eq
    index_meta_eq cols_eq col_meta_eq is_coincide lower_meets_upper is_apart compare compare_int
    int_at
low_held_high_wanted-GapReached = next low_held-GapReached (asks_exclusive 3 high blocked refl)

high_wanted-GapReached : GapReached by_int hash_gap high_wanted
unfolding find store unlock_in unlock_queue drop_requests drop_request erase_first refresh
    find_request erase_key lock_data_id_eq index_meta_eq cols_eq col_meta_eq
high_wanted-GapReached = next low_held_high_wanted-GapReached (releases 5 low refl)

high_wakes :
    wake_exclusive_on_gap by_int hash_gap 3 high high_wanted
    ≡ some (
        (
          high,
          record (held_by 3) {
            request_queue = record { txn_id = 3; lock_mode = exclusive; granted = true } ∷ [];
          },
        )
        ∷ [])
unfolding wake_exclusive_on_gap bars_exclusive_gap find store update_last lock_data_id_eq
    index_meta_eq cols_eq col_meta_eq is_coincide lower_meets_upper is_apart compare compare_int
    int_at
high_wakes = refl

wake_exclusive_on_gap-Free_example :
    Free by_int hash_gap AnyBytes by_int-Coherent (id_column ∷ []) sixteen 3 high_wanted
wake_exclusive_on_gap-Free_example =
    wake_exclusive_on_gap-Free by_int hash_gap AnyBytes by_int-Coherent (id_column ∷ []) sixteen 3
      high high_wanted _ high_wanted-GapReached (tt, tt) above_fifteen-GapOf above_fifteen-holds
      (above_fifteen-GapOf, tt) high_wakes

GapReached-Moded_example : Moded low_held_high_wanted
GapReached-Moded_example = GapReached-Moded by_int hash_gap low_held_high_wanted-GapReached

-- Transaction 1 gets `high` at once, though the scan finds 5, because 3 waits in a queue of no mode.
high_scanned :
    scan by_int hash_gap (bars_exclusive_gap by_int hash_gap 1 above_fifteen) 1 low_held_high_wanted
    ≡ conflict
unfolding scan bars_exclusive_gap is_coincide lower_meets_upper is_apart compare compare_int int_at
high_scanned = refl

high_given_in_conflict : (exclusive_on_gap by_int hash_gap 1 high low_held_high_wanted).1 ≡ granted
unfolding exclusive_on_gap exclusive_after_scan exclusive_on_queue scan bars_exclusive_gap find
    find_request lock_data_id_eq index_meta_eq cols_eq col_meta_eq is_coincide lower_meets_upper
    is_apart compare compare_int int_at
high_given_in_conflict = refl

-- Inserts of id 16 by transaction 5, which holds `low`, and by another one.
abbrev point : LockDataId
point = gap_lock 7 id_index (point_gap id_index sixteen)

abbrev txn_of : ℕ → Transaction
txn_of n = record { txn_id = n; state = growing; lock_set = [] }

-- 8 holds `low` and 9 wants it; 5, which is older, waits until 8 has released it.
abbrev wanted_too : LockRequestQueue
wanted_too = record (held_by 8) {
  request_queue =
      record { txn_id = 8; lock_mode = exclusive; granted = true }
      ∷ record { txn_id = 9; lock_mode = exclusive; granted = false }
      ∷ [];
}

abbrev busy_manager : LockManager
busy_manager = record { lock_table = []; gap_lock_table = (id_index, (low, wanted_too) ∷ []) ∷ [] }

abbrev released : Moment
released = record {
  manager = record { lock_table = []; gap_lock_table = (id_index, (low, wanted_by 9) ∷ []) ∷ [] };
  state = growing;
}

abbrev inserted : Reply
inserted =
    reply
      (record {
        lock_table = [];
        gap_lock_table = (id_index, (low, wanted_by 9) ∷ (point, held_by 5) ∷ []) ∷ [];
      })
      (record { txn_id = 5; state = growing; lock_set = point ∷ [] }) (returned true)

insert_goes_on :
    is_safe_in_gap by_int hash_gap 2 (released ∷ []) busy_manager (txn_of 5) id_index sixteen 7
    ≡ some inserted
unfolding is_safe_in_gap safe_rounds safe_round wait claim claimed_queue probe point_gap point_conds
    add_lock find store lock_data_id_eq index_meta_eq cols_eq col_meta_eq is_in_gap cmp_left_conds
    cmp_right_conds cmp_index_cond compare compare_int int_at
insert_goes_on = refl

is_safe_in_gap-Unclaimed_example :
    Unclaimed by_int hash_gap 5 sixteen (inner_table id_index inserted.manager)
    × Holds by_int hash_gap point id_index 5 inserted.manager
unfolding find index_meta_eq cols_eq col_meta_eq
is_safe_in_gap-Unclaimed_example =
    is_safe_in_gap-Unclaimed by_int hash_gap 2 (released ∷ []) busy_manager (txn_of 5) id_index
      sixteen 7 inserted insert_goes_on refl

-- 3 waits for the point gap, in which 5 holds `low`; 5 looks again and again.
abbrev crowded_manager : LockManager
crowded_manager = record {
  lock_table = [];
  gap_lock_table = (id_index, (low, held_by 5) ∷ (point, wanted_by 3) ∷ []) ∷ [];
}

crowded_free : probe by_int hash_gap 5 sixteen (inner_table id_index crowded_manager) ≡ free
unfolding probe point_gap point_conds find index_meta_eq cols_eq col_meta_eq is_in_gap
    cmp_left_conds cmp_right_conds cmp_index_cond compare compare_int int_at
crowded_free = refl

crowded_found :
    find (lock_data_id_eq hash_gap) point (inner_table id_index crowded_manager)
    ≡ some (wanted_by 3)
unfolding find lock_data_id_eq index_meta_eq cols_eq col_meta_eq point_gap point_conds
crowded_found = refl

is_safe_in_gap-spins_example :
    is_safe_in_gap by_int hash_gap 100 [] crowded_manager (txn_of 5) id_index sixteen 7 ≡ none
is_safe_in_gap-spins_example =
    is_safe_in_gap-spins by_int hash_gap 100 [] crowded_manager (txn_of 5) id_index sixteen 7
      (wanted_by 3) crowded_free crowded_found refl
