-- ===== src/Scenarios/Committing.antt =====
-- Node 1 leads three nodes: its own log is flushed, then node 2 has it too.
use async_raft.Base.{
  ℕ, ◌≡◌, refl, ◌⊎◌, true, false, ◌&&◌, [], ◌∷◌, Option, none, some, if◌then◌else◌, done, add64,
}
use async_raft.Base.Order.{◌<?◌, option_ord}
use async_raft.LogId.{LogId, log_id_ord, next_index}
use async_raft.Quorum.{is_joint_quorum, joint_ids}
use async_raft.Progress.{VecProgress, new, update, try_get, index}
use async_raft.Progress
use async_raft.Progress.Votes.{HasQuorum}
use async_raft.Progress.Granted.{Inv}
use async_raft.Progress.Updates.{new-Inv, update-Inv}
use async_raft.ProgressEntry.{ProgressEntry, logs_of, nothing}
use async_raft.ProgressEntry
use async_raft.Leader.{Leader, matching_of}
use async_raft.Leader
use async_raft.Handler.{Node}
use async_raft.Replication.{Leading, own, try_commit_quorum_accepted, update_matching}
use async_raft.Replication.Commit.{SameBut, try_commit_quorum_accepted_lem}
use async_raft.Replication.Quorum.{update_matching-commits}
use async_raft.Scenarios.Nodes.{node, at, leader_vote}

abbrev pub leader_node : Node ℕ
leader_node = record node {
  config = record node.config { id = 1 };
  state = record node.state { log_ids = at 1 0 ∷ at 2 3 ∷ at 4 6 ∷ [] };
}

try_commit_quorum_accepted_lem_example :
    (n' : Node ℕ) × (try_commit_quorum_accepted leader_node (some (at 4 6)) ≡ done n')
    × (n'.state.committed ≡ (
        if own leader_node.state (some (at 4 6)) && (leader_node.state.committed <? some (at 4 6))
        then some (at 4 6)
        else leader_node.state.committed))
    × SameBut leader_node n'
try_commit_quorum_accepted_lem_example = try_commit_quorum_accepted_lem leader_node (some (at 4 6))

-- Log 6 is on its way to every node.
abbrev waiting : ProgressEntry
waiting = record {
  matching = none;
  inflight = logs_of (record { prev = none; last = some (at 4 6) });
  searching_end = 7;
  allow_log_reversion = false;
}

abbrev has_it : ProgressEntry
has_it = record waiting { matching = some (at 4 6) }

abbrev start : VecProgress ProgressEntry (Option LogId)
start = Progress.new matching_of ((1 ∷ 2 ∷ 3 ∷ []) ∷ []) [] waiting

abbrev own_flushed : VecProgress ProgressEntry (Option LogId)
own_flushed = (update matching_of start 1 has_it).0

own_flushed-Inv : Inv matching_of none own_flushed
unfolding Progress.new joint_ids try_get
own_flushed-Inv =
    (update-Inv matching_of none start 1 waiting has_it
      (new-Inv matching_of (1 ∷ 2 ∷ 3 ∷ []) [] [] waiting) refl refl (λ i x s d. refl)).0

abbrev pub led : Leading ℕ
led = record {
  node = leader_node;
  lead = record (Leader.new 100 leader_vote ((1 ∷ 2 ∷ 3 ∷ []) ∷ []) [] (some (at 4 6, at 4 6))) {
    progress = own_flushed;
  };
}

update_matching-commits_example :
    (l' : Leading ℕ) × (update_matching led 2 (some (at 4 6)) ≡ done l')
    × (q : Inv matching_of none l'.lead.progress) × ((l'.node.state.committed
          ≡ leader_node.state.committed)
        ⊎ (((leader_node.state.committed <? l'.node.state.committed) ≡ true)
            × (own leader_node.state l'.node.state.committed ≡ true)
            × HasQuorum matching_of l'.lead.progress.quorum_set l'.node.state.committed q.voters))
unfolding Progress.new joint_ids update ProgressEntry.update_matching try_get is_joint_quorum
    next_index add64
update_matching-commits_example =
    update_matching-commits led 2 (some (at 4 6)) waiting (record has_it { inflight = nothing })
      own_flushed-Inv refl refl refl (λ i x s d. refl)
