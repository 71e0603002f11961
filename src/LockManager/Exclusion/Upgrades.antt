-- ===== src/LockManager/Exclusion/Upgrades.antt =====
-- A request for an exclusive table lock by a transaction that has one in the queue keeps the invariant.
use cscc_db_rucbase.Common.{
  ℕ, ◌+◌, ◌≡◌, ◌∙◌, inl, inr, Bool-cases, refl, Bool, true, false, Option, none, some, ap, is_pos,
  arith,
}
use cscc_db_rucbase.LockManager.Queue.{
  LockRequest, LockRequestQueue, exclusive, is_mode, find_request, update_first, x_lock,
}
use cscc_db_rucbase.LockManager.Table.{upgrade_table, suspend, make_exclusive}
use cscc_db_rucbase.LockManager.Steps.{Kind, exclusive_table, update}
use cscc_db_rucbase.LockManager.Readers.{
  count, one_if, is_writer, is_reader, count-update_first, update_first-IsUnique,
}
use cscc_db_rucbase.LockManager.Exclusion.Invariant.{
  Regular, TableInv, All-update_first_to, All-find,
}
use cscc_db_rucbase.LockManager.Exclusion.Joins.{
  weight-lt, granted_le, Keeps, never_asleep, wait_die-Keeps,
}

module _ (txn : ℕ) (q : LockRequestQueue) (asleep : ℕ → Option Kind) (inv : TableInv q asleep)
    (awake : asleep txn ≡ none) where
  module _ (r : LockRequest) (found : find_request txn q.request_queue ≡ some r) where
    own : Regular q.group_lock_mode asleep r × (r.txn_id ≡ txn)
    own = All-find _ txn q.request_queue r inv.regular found

    own_granted : r.granted ≡ true
    own_granted = own.0.awake (ap asleep own.1 ∙ awake)

    -- What changes when the own request is rewritten.
    counts :
        (p : LockRequest → Bool) (f : LockRequest → LockRequest)
        → count p (update_first txn f q.request_queue) + one_if (p r)
          ≡ count p q.request_queue + one_if (p (f r))
    counts p f = count-update_first p txn f q.request_queue r found

    made_exclusive-TableInv :
        is_mode r.lock_mode exclusive ≡ false
        → is_pos q.shared_lock_num 1 ≡ true
        → TableInv
            (record q {
              request_queue = update_first txn make_exclusive q.request_queue;
              group_lock_mode = x_lock;
            })
            asleep
    made_exclusive-TableInv reader one = record {
      unique = update_first-IsUnique txn make_exclusive (λ e. refl) q.request_queue inv.unique;
      regular =
          All-update_first_to _ _ txn
            (λ e reg other. record {
              mode = reg.mode;
              covered = weight-lt e;
              awake = reg.awake;
              reads = reg.reads;
              writes = reg.writes;
            })
            make_exclusive q.request_queue inv.unique inv.regular
            (λ e reg mine. record {
              mode = refl;
              covered = weight-lt (make_exclusive e);
              awake = reg.awake;
              reads = λ s. absurd ((never_asleep txn q asleep inv awake) e mine s);
              writes = λ s. refl;
            });
      natural = inv.natural;
      counted = ground (arith, inv.counted, counts is_reader make_exclusive);
      alone = inr (
          ground (
            arith,
            inv.alone,
            inv.counted,
            own_granted,
            own.0.mode,
            granted_le q.group_lock_mode asleep q.request_queue inv.regular,
            counts (λ e. e.granted) make_exclusive,
          ));
    }

    suspended-TableInv :
        TableInv
          (record q {
            request_queue = update_first txn suspend q.request_queue;
            oldest_txn_id = txn;
          })
          (update txn (some exclusive_table) asleep)
    suspended-TableInv = record {
      unique = update_first-IsUnique txn suspend (λ e. refl) q.request_queue inv.unique;
      regular =
          All-update_first_to _ _ txn
            (λ e reg other. record {
              mode = reg.mode;
              covered = reg.covered;
              awake = ground (arith, reg.awake);
              reads = ground (arith, reg.reads);
              writes = ground (arith, reg.writes);
            })
            suspend q.request_queue inv.unique inv.regular
            (λ e reg mine. record {
              mode = refl;
              covered = omega (arith, reg.covered);
              awake = ground arith;
              reads = ground arith;
              writes = λ s. refl;
            });
      natural = inv.natural;
      counted = ground (arith, inv.counted, counts is_reader suspend);
      alone = ground (arith, inv.alone, counts is_writer suspend, counts (λ e. e.granted) suspend);
    }

    pub upgrade_table-Keeps : (Keeps txn q asleep inv awake) exclusive_table (upgrade_table txn r q)
    unfolding upgrade_table
    upgrade_table-Keeps = elim (Bool-cases (is_mode r.lock_mode exclusive)) [
      | inl writer ↦ simp writer inv
      | inr reader ↦ elim (Bool-cases (is_pos q.shared_lock_num 1)) [
        | inl one ↦ simp (reader, one) (made_exclusive-TableInv reader one)
        | inr more ↦
            simp (reader, more)
              ((wait_die-Keeps txn q asleep inv awake) exclusive_table
                (record q { request_queue = update_first txn suspend q.request_queue })
                suspended-TableInv)
      ]
    ]
