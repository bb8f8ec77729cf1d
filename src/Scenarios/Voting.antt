-- ===== src/Scenarios/Voting.antt =====
-- Node 2 of three is asked for its vote by node 3, and starts an election itself.
use async_raft.Base.{
  ℕ, ◌≡◌, refl, true, false, ◌++◌, [], ◌∷◌, none, some, if◌then◌else◌, done, arith,
}
use async_raft.Vote.{Vote}
use async_raft.Engine.Requests.{append_to_log}
use async_raft.Engine.Appending.{append_answer, append_to_log_lem}
use async_raft.Base.Order.{◌≤?◌, ◌<?◌}
use async_raft.Vote.AdvOrder.{vote_ord}
use async_raft.Membership.{contains}
use async_raft.RaftState.{last_log_id, effective_membership}
use async_raft.Handler.{save_vote, send_vote}
use async_raft.Engine.{Engine, Times, new_candidate}
use async_raft.Engine.Electing.{VoteRequest, handle_vote_req, respond_vote, elect}
use async_raft.Engine.Ballots.{may_vote, next_ballot, handle_vote_req_lem, elect_lem}
use async_raft.Scenarios.Nodes.{node, at}

abbrev pub voter : Engine ℕ
voter = record { node = node; seen_greater_log = false; leader = none; candidate = none }

abbrev pub moment : Times
moment = record { voted = 1000; led = 1001 }

abbrev pub ballot_of : ℕ → VoteRequest
ballot_of term = record {
  vote = record { leader_id = record { term = term; node_id = 3 }; committed = false };
  last_log_id = some (at 2 5);
}

handle_vote_req_lem_example :
    (e' : Engine ℕ) × (handle_vote_req voter 1000 moment (ballot_of 5)
      ≡ done (respond_vote e' (may_vote node.state 1000 (ballot_of 5))))
    × (e'.node.state.vote.data_of ≡ (
        if may_vote node.state 1000 (ballot_of 5)
        then (ballot_of 5).vote
        else node.state.vote.data_of))
    × (e'.node.state.committed ≡ node.state.committed)
    × (may_vote node.state 1000 (ballot_of 5) ≡ false → e' ≡ voter)
handle_vote_req_lem_example = handle_vote_req_lem voter 1000 moment (ballot_of 5) refl

elect_lem_example :
    let v = next_ballot voter in
    (e' : Engine ℕ) × (elect voter 1000 moment ≡ done e')
    × (e'.node.state.vote.data_of ≡ v)
    × ((node.state.vote.data_of <? v) ≡ true)
    × (e'.node.state.committed ≡ node.state.committed)
    × (e'.node.output ≡ [] ++ save_vote v ∷ send_vote v (last_log_id node.state) ∷ [])
    × (contains (effective_membership node.state) 2 ≡ true
        → e'.candidate ≡ (new_candidate voter 1000 v).candidate)
elect_lem_example = elect_lem voter 1000 moment (omega arith)

-- Node 1 leads in a later term; node 2 has the log before its entries.
abbrev leader_vote : Vote
leader_vote = record { leader_id = record { term = 5; node_id = 1 }; committed = true }

append_to_log_lem_example :
    (e' : Engine ℕ) × (append_to_log voter moment leader_vote (some (at 2 5)) []
      ≡ done (e', append_answer node.state leader_vote (some (at 2 5))))
    × (e'.node.state.vote.data_of
        ≡ (if node.state.vote.data_of ≤? leader_vote then leader_vote else node.state.vote.data_of))
    × (e'.node.state.committed ≡ node.state.committed)
    × ((node.state.vote.data_of ≤? leader_vote) ≡ true → (e'.leader ≡ none) × (e'.candidate ≡ none))
    × ((node.state.vote.data_of ≤? leader_vote) ≡ false → e' ≡ voter)
append_to_log_lem_example =
    append_to_log_lem voter moment leader_vote (some (at 2 5)) [] (λ e. omega (arith, e))
