-- ===== src/Scenarios/Reading.antt =====
-- A leader of three nodes answers a reader, and a node that follows takes a round of its loop.
use async_raft.Base.{
  ℕ, ◌*◌, ◌≤◌, ◌≡◌, refl, true, List, [], ◌∷◌, Option, none, some, Checked, done, panicked, arith,
}
use async_raft.Base.Order.{◌≤?◌, option_ord}
use async_raft.LogId.{LogId, log_id_ord}
use async_raft.Quorum.{joint_ids}
use async_raft.Progress
use async_raft.Vote.{vote_ge, vote_gt, ref_vote_cmp, into_vote_status}
use async_raft.Membership.{contains, get_node}
use async_raft.IoState.{new_io}
use async_raft.RaftState.{is_leader, is_leading, accept_io, calc_server_state}
use async_raft.Handler.{update_server_state}
use async_raft.Leased.{is_expired, update}
use async_raft.Engine.Voting.{
  update_vote, grant_vote, update_internal_server_state, become_following,
}
use async_raft.Engine.Electing.{handle_vote_req}
use async_raft.RaftCore.{Core, request_vote}
use async_raft.RaftCore.Dispatch.{handle_api_msg}
use async_raft.RaftCore.Commands.{
  run_engine_commands, run_queue, run_command, execute, condition_of, is_met, own_grant,
  after_command, after_attempt,
}
use async_raft.RaftCore.Runs.{message, step}
use async_raft.RaftCore.Reads.{
  Read, read_at, confirmed, lost, read_of, handle_check_is_leader_request,
}
use async_raft.RaftCore.Confirmed.{IsConfirmed, handle_check_is_leader_request_lem}
use async_raft.RaftCore.Loop.{
  new, notification_of, rebalance, increase_notification, increase_raft_msg, Work, Loop, handle,
  process, keep_replicating, round,
}
use async_raft.RaftCore.Rounds.{Rounded, round_lem}
use async_raft.Scenarios.Quorums.{ℕ_eq}
use async_raft.Scenarios.Voting.{voter, ballot_of}
use async_raft.Scenarios.Committing.{leader_node, led}
use async_raft.Scenarios.Runs.{core, moments}

abbrev leading_core : Core ℕ
leading_core = record core { engine = record voter { node = leader_node; leader = some led.lead } }

-- Node 3 does not answer, node 2 does.
handle_check_is_leader_request_lem_example :
    let replies = lost 3 ∷ confirmed 2 ∷ [] in
    (r : Read ℕ) × (handle_check_is_leader_request leading_core replies ≡ done r)
    × IsConfirmed leading_core led.lead replies r.answer
    × (log : Option LogId) × (read_of leading_core led.lead
        ≡ read_at log leader_node.state.io_state.applied)
    × ((leader_node.state.committed ≤? log) ≡ true)
    × ((led.lead.noop_log_id ≤? log) ≡ true)
unfolding Progress.update Progress.new joint_ids get_node
handle_check_is_leader_request_lem_example =
    handle_check_is_leader_request_lem leading_core led.lead (lost 3 ∷ confirmed 2 ∷ []) refl
      ((1, refl), ((2, refl), ((3, refl), tt)))

abbrev asking : ℕ → Work ℕ
asking term = (message moments (request_vote (ballot_of term)), λ _. true)

abbrev loop : Loop ℕ
loop = record { core = core; balancer = new 10 }

abbrev left_of :
    Checked (Option (Loop ℕ × List (Work ℕ) × List (Work ℕ)))
    → Loop ℕ × List (Work ℕ) × List (Work ℕ)
left_of (done (some r)) = r
left_of (done none) = (loop, [], [])
left_of panicked = (loop, [], [])

abbrev after_round : Loop ℕ × List (Work ℕ) × List (Work ℕ)
after_round = left_of (round loop (asking 5) (asking 6 ∷ asking 7 ∷ []) [] (λ _. true))

-- One of the two messages that wait is processed.
one_round :
    round loop (asking 5) (asking 6 ∷ asking 7 ∷ []) [] (λ _. true)
    ≡ done (some (after_round.0, after_round.1, after_round.2))
unfolding round handle process keep_replicating rebalance increase_notification increase_raft_msg
    step handle_api_msg handle_vote_req update_vote grant_vote update update_internal_server_state
    is_leader is_leading become_following update_server_state calc_server_state accept_io is_expired
    vote_ge vote_gt ref_vote_cmp run_engine_commands run_queue run_command execute condition_of
    is_met own_grant after_command after_attempt into_vote_status contains new_io
one_round = refl

round_lem_example :
    Rounded loop (asking 6 ∷ asking 7 ∷ []) [] (after_round.0, after_round.1, after_round.2)
    × (after_round.0.balancer.total ≤ 2 * notification_of after_round.0.balancer)
round_lem_example =
    round_lem loop after_round.0 (asking 5) (asking 6 ∷ asking 7 ∷ []) [] after_round.1
      after_round.2 (λ _. true)
      (record { enough = omega arith; some_messages = omega arith; half = omega arith }) one_round
