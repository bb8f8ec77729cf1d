-- ===== src/Engine/Voting.antt =====
-- openraft/src/engine/handler/vote_handler and establish_handler: how the vote of a message changes the
-- vote of the node, and with it the role of the node.
use async_raft.Base.{
  ℕ, Bool, true, false, Option, none, some, if◌then◌else◌, [], ◌∷◌, Checked, done, ◌>>=◌,
}
use async_raft.Base.Order.{◌<?◌, ◌=?◌, option_ord}
use async_raft.Vote.{Vote, leader_id_ord, vote_ge, vote_gt, to_committed, committed_vote}
use async_raft.LogId.{log_id_ord}
use async_raft.LogIdList.{by_last_leader}
use async_raft.Membership.{learner_ids}
use async_raft.IoState.{new_io, new_log_io}
use async_raft.Leased.{update, touch}
use async_raft.Candidate.{Candidate}
use async_raft.Leader.{Leader, into_leader}
use async_raft.Leader
use async_raft.RaftState.{RaftState, accept_io, is_leader, is_leading, effective_membership}
use async_raft.Handler.{update_server_state, update_io_progress, save_vote, respond, io_flushed}
use async_raft.Replication.{Leading, rebuild_streams, initiate_replication}
use async_raft.LeaderHandler.{leader_append_entries}
use async_raft.Engine.{Engine, Times, with_state, emit, leading, with_leading, blank}

-- `Result<(), RejectVoteRequest>`, where the error is by the vote of this node.
pub data VoteResult : Type 0 where
  granted : VoteResult
  by_vote : Vote → VoteResult

abbrev pub is_granted : VoteResult → Bool
is_granted granted = true
is_granted (by_vote v) = false

module _ {N : Type 0} where
  -- `RaftState::new_leader`, at the time `now`.
  unfoldable pub new_leader : RaftState N → ℕ → Leader
  new_leader s now =
      let m = effective_membership s in
      Leader.new now (to_committed s.vote.data_of) m.configs (learner_ids m)
        (by_last_leader s.log_ids)

  abbrev pub refresh : Engine N → Engine N
  refresh e = record e { node = update_server_state e.node }

  -- A new leader, with its vote and its last log id accepted.
  unfoldable pub enter : Engine N → Leader → Engine N
  enter e l =
      let io = new_log_io l.committed_vote l.last_log_id in
      let accepted = with_state e (accept_io e.node.state io).0 in
      refresh (emit accepted (update_io_progress none io))

  -- A leader that has proposed no log proposes a blank one.
  unfoldable pub propose_blank : Leading N → Checked (Leading N)
  propose_blank l =
      if l.lead.last_log_id <? l.lead.noop_log_id
      then leader_append_entries l (blank ∷ [])
      else initiate_replication l

  unfoldable pub start_leader : Engine N → Leader → Checked (Engine N)
  start_leader e l = do
    let e' = enter e l
    l' ← propose_blank (rebuild_streams (leading e' l))
    done (with_leading e' l')

  -- `become_leader`, by the leader that there is.
  unfoldable pub lead_after : Engine N → ℕ → Option Leader → Checked (Engine N)
  lead_after e now none = start_leader e (new_leader e.node.state now)
  lead_after e now (some l) =
      let vote = e.node.state.vote.data_of in
      let same = record e { leader = some (record l { committed_vote = to_committed vote }) } in
      if l.committed_vote.leader_id =? vote.leader_id
      then done (refresh same)
      else start_leader e (new_leader e.node.state now)

  unfoldable pub become_leader : Engine N → ℕ → Checked (Engine N)
  become_leader e now = lead_after e now e.leader

  unfoldable pub become_following : Engine N → Engine N
  become_following e = refresh (record e { leader = none; candidate = none })

  unfoldable pub update_internal_server_state : Engine N → ℕ → Checked (Engine N)
  update_internal_server_state e now =
      if is_leader e.node.state e.node.config.id
      then become_leader e now
      else if is_leading e.node.state e.node.config.id
      then done e
      else done (become_following e)

  -- The part of `update_vote` that writes a vote that is not smaller than the one of this node.
  unfoldable pub grant_vote : Engine N → ℕ → Vote → Engine N
  grant_vote e now vote =
      let s = e.node.state in
      let lease = if vote.committed then e.node.config.leader_lease else 0 in
      let written =
        (accept_io (record s { vote = update s.vote now lease vote }) (new_io vote)).0 in
      if vote_gt vote s.vote.data_of
      then emit (with_state e written) (save_vote vote)
      else with_state e (record s { vote = touch s.vote now lease })

  unfoldable pub update_vote : Engine N → Times → Vote → Checked (Engine N × VoteResult)
  update_vote e t vote =
      let updated : Checked (Engine N × VoteResult) = (do
        e' ← update_internal_server_state (grant_vote e t.voted vote) t.led
        done (e', granted)) in
      if vote_ge vote e.node.state.vote.data_of
      then updated
      else done (e, by_vote e.node.state.vote.data_of)

  abbrev pub answer_vote : Engine N × VoteResult → Engine N × Bool
  answer_vote (e, granted) = (e, true)
  answer_vote (e, by_vote v) =
      (emit e (respond (some (io_flushed (new_io e.node.state.vote.data_of)))), false)

  -- `accept_vote`: whether the caller goes on; else the answer waits until the vote is flushed.
  unfoldable pub accept_vote : Engine N → Times → Vote → Checked (Engine N × Bool)
  accept_vote e t vote = do r ← update_vote e t vote; done (answer_vote r)

-- `EstablishHandler::establish`: the new leader, unless there is one with a vote that is not smaller.
unfoldable pub establish : ℕ → Option Leader → Candidate → Option Leader
establish now none c = some (into_leader now c)
establish now (some l) c =
    if vote_gt c.vote (committed_vote l.committed_vote) then some (into_leader now c) else none
