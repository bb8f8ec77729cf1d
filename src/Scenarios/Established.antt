-- ===== src/Scenarios/Established.antt =====
-- Node 2 is a candidate of term 5, and node 3 grants its vote.
use async_raft.Base.{
  ℕ, ◌≡◌, refl, true, false, [], ◌∷◌, none, some, done, Checked, panicked, Bool, arith, All, add64,
}
use async_raft.Vote.{Vote}
use async_raft.Quorum.{is_joint_quorum}
use async_raft.Membership.{contains}
use async_raft.Progress.{update}
use async_raft.Candidate.{Candidate, grant_by}
use async_raft.RaftState.Whole.{IsWhole, NotAfter}
use async_raft.Engine.{Engine}
use async_raft.Leader.{into_leader}
use async_raft.Leader
use async_raft.Handler.{Entry}
use async_raft.Replication.{Leading}
use async_raft.Replication.Sends.{IsSearched}
use async_raft.LeaderHandler.{leader_append_entries}
use async_raft.LeaderHandler.Proposed.{IsReady, Appended, leader_append_entries_lem}
use async_raft.Engine.Electing.{VoteResponse, handle_vote_resp}
use async_raft.Engine.NewLeader.{IsLeading}
use async_raft.Engine.Searches.{new_leader-IsSearched}
use async_raft.Engine.Established.{handle_vote_resp-leads}
use async_raft.Scenarios.Nodes.{node, at}
use async_raft.Scenarios.Voting.{voter, moment}

abbrev ballot : Vote
ballot = record { leader_id = record { term = 5; node_id = 2 }; committed = false }

abbrev running : Candidate
running = record {
  starting_time = 100;
  vote = ballot;
  last_log_id = some (at 2 5);
  progress = record {
    quorum_set = (1 ∷ 2 ∷ 3 ∷ []) ∷ [];
    granted = false;
    voter_count = 3;
    vector = (2, true) ∷ (1, false) ∷ (3, false) ∷ [];
  };
  quorum_set = (1 ∷ 2 ∷ 3 ∷ []) ∷ [];
  learner_ids = [];
}

abbrev candidate_node : Engine ℕ
candidate_node = record voter {
  node = record node {
    state = record node.state { vote = record node.state.vote { data_of = ballot } };
  };
  candidate = some running;
}

abbrev granting : VoteResponse
granting = record { vote = ballot; last_log_id = some (at 2 5); vote_granted = true }

abbrev counted : Checked (Candidate × Bool) → Candidate
counted (done (c, b)) = c
counted panicked = running

wins : grant_by running 3 ≡ done (counted (grant_by running 3), true)
unfolding grant_by update is_joint_quorum
wins = refl

whole : IsWhole candidate_node.node.state (at 1 0) (at 2 3 ∷ at 2 5 ∷ [])
whole = record {
  parts = refl;
  ascending = (omega arith, (omega arith, tt));
  first = λ i h. omega arith;
  rising = λ i j d f l h k. ground (arith, l, h, k);
}

not_after : NotAfter ballot.leader_id (at 1 0 ∷ at 2 3 ∷ at 2 5 ∷ [])
not_after i d h = ground (arith, h)

handle_vote_resp-leads_example :
    (e' : Engine ℕ) × (handle_vote_resp candidate_node 200 moment 3 granting ≡ done e')
    × IsLeading candidate_node.node.state e' ballot (at 1 0) (at 2 3 ∷ at 2 5 ∷ [])
unfolding contains
handle_vote_resp-leads_example =
    handle_vote_resp-leads candidate_node 200 moment 3 granting running
      (counted (grant_by running 3)) (at 1 0) (at 2 3 ∷ at 2 5 ∷ []) refl refl refl wins
      (λ l h. absurd cc) refl refl refl refl refl whole not_after (omega arith)

-- Node 2 leads, and proposes two logs.
abbrev lead : Leading ℕ
lead = record { node = candidate_node.node; lead = into_leader 100 running }

abbrev proposal : Entry ℕ
proposal = record { log_id = at 0 0; membership = none }

lead-IsSearched : All (λ x. IsSearched 6 x.1) lead.lead.progress.vector
unfolding add64
lead-IsSearched = new_leader-IsSearched 100 running (at 2 5) refl

lead-IsReady : IsReady lead (at 1 0) (at 2 3 ∷ at 2 5 ∷ [])
unfolding into_leader Leader.new
lead-IsReady = record { last = refl; whole = whole; top = not_after; searched = lead-IsSearched }

leader_append_entries_lem_example :
    (l' : Leading ℕ) × (leader_append_entries lead (proposal ∷ proposal ∷ []) ≡ done l')
    × Appended lead l' (at 1 0) (at 2 3 ∷ at 2 5 ∷ []) 2
leader_append_entries_lem_example =
    leader_append_entries_lem lead (at 1 0) (at 2 3 ∷ at 2 5 ∷ []) proposal (proposal ∷ [])
      (refl, (refl, tt)) lead-IsReady (omega arith)
