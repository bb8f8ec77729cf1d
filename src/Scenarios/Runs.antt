-- ===== src/Scenarios/Runs.antt =====
-- Node 2 grants a vote, saves it, and is asked again.
use async_raft.Base.{
  ℕ, ◌≡◌, refl, true, false, List, [], ◌∷◌, some, Checked, done, panicked, Ensures,
}
use async_raft.Base.Order.{◌≤?◌, option_ord}
use async_raft.LogId.{log_id_ord}
use async_raft.Vote.{vote_ge, vote_gt, ref_vote_cmp, into_vote_status}
use async_raft.Vote.AdvOrder.{vote_ord}
use async_raft.Membership.{contains}
use async_raft.IoState.{new_io}
use async_raft.RaftState.{is_leader, is_leading, accept_io, calc_server_state}
use async_raft.Handler.{Command, update_server_state, respond, save_vote, log_flushed}
use async_raft.Leased.{is_expired, update}
use async_raft.Engine.{Engine}
use async_raft.Engine.Voting.{
  update_vote, grant_vote, update_internal_server_state, become_following,
}
use async_raft.Engine.Electing.{VoteResponse, handle_vote_req, respond_vote}
use async_raft.RaftCore.{Core, Moments, with_engine, request_vote}
use async_raft.RaftCore.Dispatch.{answer_ballot, handle_api_msg}
use async_raft.RaftCore.Commands.{
  run_engine_commands, run_queue, run_command, execute, condition_of, is_met, own_grant,
  after_command, after_attempt,
}
use async_raft.RaftCore.Queue.{Settled, run_engine_commands_lem}
use async_raft.RaftCore.Runs.{Event, message, commands, run, step, run-Ahead, granted_once}
use async_raft.Scenarios.Quorums.{ℕ_eq}
use async_raft.Scenarios.Nodes.{node, at}
use async_raft.Scenarios.Voting.{voter, moment, ballot_of}

abbrev pub core : Core ℕ
core = record {
  engine = voter;
  settings = record {
    enable_elect = true;
    enable_heartbeat = true;
    heartbeat_interval = 50;
    election_timeout = 150;
    smaller_log_timeout = 600;
  };
  replications = [];
}

abbrev pub moments : Moments
moments = record { now = 1000; checked = 1000; started = 1000; times = moment; after = 1002 }

abbrev asked : List (Event ℕ)
asked = message moments (request_vote (ballot_of 5)) ∷ commands (λ _. true) ∷ []

abbrev result : Core ℕ → Checked (Core ℕ) → Core ℕ
result c (done c') = c'
result c panicked = c

run-asked : run core asked ≡ done (result core (run core asked))
unfolding run step handle_api_msg handle_vote_req update_vote grant_vote update
    update_internal_server_state is_leader is_leading become_following update_server_state
    calc_server_state accept_io is_expired vote_ge vote_gt ref_vote_cmp run_engine_commands
    run_queue run_command execute condition_of is_met own_grant after_command after_attempt
    into_vote_status contains new_io
run-asked = refl

run-Ahead_example :
    let c = result core (run core asked) in
    ((node.state.vote.data_of ≤? c.engine.node.state.vote.data_of) ≡ true)
    × ((node.state.committed ≤? c.engine.node.state.committed) ≡ true)
run-Ahead_example = run-Ahead core (result core (run core asked)) asked run-asked

-- The vote of node 3 is granted; then it is saved, and node 1 asks for a vote in an older term.
abbrev voted : Checked (Engine ℕ × VoteResponse) → Engine ℕ
voted (done r) = r.0
voted panicked = voter

abbrev granting : Core ℕ
granting = with_engine core (voted (handle_vote_req voter 1000 moment (ballot_of 5)))

abbrev saving : List (Event ℕ)
saving = commands (λ _. true) ∷ []

abbrev saved : Core ℕ
saved = result core (run (with_engine core (answer_ballot granting.engine)) saving)

was_granted :
    handle_vote_req voter 1000 moment (ballot_of 5) ≡ done (respond_vote granting.engine true)
unfolding run step handle_api_msg handle_vote_req update_vote grant_vote update
    update_internal_server_state is_leader is_leading become_following update_server_state
    calc_server_state accept_io is_expired vote_ge vote_gt ref_vote_cmp contains new_io
was_granted = refl

was_saved : run (with_engine core (answer_ballot granting.engine)) saving ≡ done saved
unfolding run step handle_api_msg handle_vote_req update_vote grant_vote update
    update_internal_server_state is_leader is_leading become_following update_server_state
    calc_server_state accept_io is_expired vote_ge vote_gt ref_vote_cmp run_engine_commands
    run_queue run_command execute condition_of is_met own_grant after_command after_attempt
    into_vote_status contains new_io
was_saved = refl

granted_once_example :
    handle_vote_req saved.engine 2000 moment (ballot_of 4) ≡ done (respond_vote saved.engine false)
granted_once_example =
    granted_once core saved saving 1000 2000 moment moment (ballot_of 5) (ballot_of 4)
      granting.engine was_granted refl refl was_saved refl

-- A vote to be saved, then an answer that waits for a log that is not flushed.
abbrev queue : List (Command ℕ)
queue = save_vote (ballot_of 5).vote ∷ respond (some (log_flushed (some (at 2 5)))) ∷ []

abbrev queued : Core ℕ
queued = record core { engine = record voter { node = record node { output = queue } } }

run_engine_commands_lem_example :
    Ensures (run_engine_commands (λ _. true) queued) (Settled queued queue)
run_engine_commands_lem_example = run_engine_commands_lem (λ _. true) queued
