-- ===== src/Scenarios/Starting.antt =====
-- A node that starts with the logs 0 to 99, of which three are memberships.
use async_raft.Base.{
  ℕ, ◌+◌, ◌-◌, ◌≡◌, refl, ap, Bool, true, List, [], Option, none, some, if◌then◌else◌, ◌==◌, ◌||◌,
  arith, add64,
}
use async_raft.Base.Order.{nat_ord, max_of}
use async_raft.Handler.{Entry}
use async_raft.Following.{last_two_memberships}
use async_raft.StorageHelper.{finished, StoredLogs, last_membership_in_log, reapply_committed}
use async_raft.StorageHelper.Slices.{Reads, slice}
use async_raft.StorageHelper.Memberships.{last_membership_in_log_lem}
use async_raft.StorageHelper.Reapplied.{reapply_committed_lem}
use async_raft.Scenarios.Nodes.{node, at}

abbrev log : ℕ → Entry ℕ
log i = record {
  log_id = at 1 i;
  membership =
      if (i == 3) || ((i == 20) || (i == 90))
      then some node.state.membership_state.effective.stored.membership
      else none;
}

abbrev read : ℕ → ℕ → Option (List (Entry ℕ))
read i j = some (slice log i (j - i))

abbrev works : List (Entry ℕ) → Bool
works es = true

read-Reads : Reads read log 0 100
read-Reads = record {
  answers =
      λ i n l h. let size : i + n - i ≡ n = omega arith in ap (λ j. some (slice log i j)) size;
  indexed = λ i l h. refl;
}

abbrev stored : StoredLogs
stored = record { last_purged_log_id = none; last_log_id = some (at 1 99) }

last_membership_in_log_lem_example :
    last_membership_in_log read 100 stored 10
    ≡ finished (last_two_memberships (slice log (max_of 0 10) (100 - max_of 0 10)))
unfolding add64
last_membership_in_log_lem_example =
    last_membership_in_log_lem read log 0 100 read-Reads 100 stored 10 refl refl (omega arith)

reapply_committed_lem_example :
    reapply_committed read works 90 10 100 [] ≡ finished (slice log 10 (100 - 10))
reapply_committed_lem_example =
    reapply_committed_lem read works log 0 100 read-Reads (λ es. refl) (omega arith) 90 10 100
      (omega arith) (omega arith) (omega arith) (omega arith)
