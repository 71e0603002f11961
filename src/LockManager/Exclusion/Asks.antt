-- ===== src/LockManager/Exclusion/Asks.antt =====
-- A request for a table lock by a transaction that is awake keeps the invariant.
use cscc_db_rucbase.Common.{ℕ, ◌≡◌, refl, Bool, true, false, Option, none, some, if◌then◌else◌}
use cscc_db_rucbase.LockManager.Queue.{
  LockRequest, LockRequestQueue, find_request, Verdict, held, assertion,
}
use cscc_db_rucbase.LockManager.Table.{shared_on_table, exclusive_on_table, covers_shared}
use cscc_db_rucbase.LockManager.Steps.{Kind, shared_table, exclusive_table, request}
use cscc_db_rucbase.LockManager.Exclusion.Invariant.{TableInv}
use cscc_db_rucbase.LockManager.Exclusion.Joins.{Keeps, first_shared-Keeps, first_exclusive-Keeps}
use cscc_db_rucbase.LockManager.Exclusion.Upgrades.{upgrade_table-Keeps}

module _ (txn : ℕ) (q : LockRequestQueue) (asleep : ℕ → Option Kind) (inv : TableInv q asleep)
    (awake : asleep txn ≡ none) where
  -- The lock is held already, or an assertion fails.
  held-Keeps :
      (k : Kind) (b : Bool) → (Keeps txn q asleep inv awake) k (q, if b then held else assertion)
  held-Keeps k true = inv
  held-Keeps k false = inv

  -- An operation that looks for its own request first.
  found-Keeps :
      (k : Kind) (o : Option LockRequest) (mine : LockRequest → LockRequestQueue × Verdict)
      (new : LockRequestQueue × Verdict)
      → (o ≡ none → (Keeps txn q asleep inv awake) k new)
      → ((r : LockRequest) → o ≡ some r → (Keeps txn q asleep inv awake) k (mine r))
      → (Keeps txn q asleep inv awake) k (elim o [ some r ↦ mine r | none ↦ new ])
  found-Keeps k none mine new hn hs = hn refl
  found-Keeps k (some r) mine new hn hs = hs r refl

  -- A request for a table lock, by a transaction that is awake, keeps the invariant.
  pub ask_shared-Keeps :
      (Keeps txn q asleep inv awake) shared_table (request shared_table txn (some q))
  unfolding shared_on_table
  ask_shared-Keeps =
      found-Keeps shared_table (find_request txn q.request_queue) _ _
        (first_shared-Keeps txn q asleep inv awake)
        (λ r found. held-Keeps shared_table (covers_shared r.lock_mode))

  pub ask_exclusive-Keeps :
      (Keeps txn q asleep inv awake) exclusive_table (request exclusive_table txn (some q))
  unfolding exclusive_on_table
  ask_exclusive-Keeps =
      found-Keeps exclusive_table (find_request txn q.request_queue) _ _
        (first_exclusive-Keeps txn q asleep inv awake) (upgrade_table-Keeps txn q asleep inv awake)
