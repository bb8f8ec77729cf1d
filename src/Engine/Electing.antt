-- ===== src/Engine/Electing.antt =====
-- openraft/src/engine/engine_impl.rs: starting up, forming a cluster, and elections.
use async_raft.Base.{
  ℕ, Bool, true, false, not, ◌&&◌, Option, none, some, if◌then◌else◌, [], ◌∷◌, Checked, done,
  panicked, ◌>>=◌, unwrap,
}
use async_raft.Base.Order.{◌≤?◌, ◌<?◌, ◌=?◌, option_ord}
use async_raft.Vote.{Vote, next_term, to_committed, committed_vote}
use async_raft.Vote.AdvOrder.{vote_ord}
use async_raft.LogId.{LogId, log_id_ord}
use async_raft.Membership.{Membership, is_voter}
use async_raft.IoState.{new_log_io}
use async_raft.Leased.{update, is_expired}
use async_raft.Candidate.{Candidate, grant_by}
use async_raft.Leader.{Leader}
use async_raft.RaftState.{
  last_log_id, accept_io, is_leader, is_initialized, effective_membership, follower, learner,
}
use async_raft.Handler.{Entry, send_vote}
use async_raft.Replication.{rebuild_streams}
use async_raft.LeaderHandler.{leader_append_entries}
use async_raft.Following.{do_append_entries}
use async_raft.Engine.{Engine, Times, with_state, emit, leading, with_leading, new_candidate, blank}
use async_raft.Engine.Voting.{
  VoteResult, granted, by_vote, is_granted, refresh, update_vote, update_internal_server_state,
  establish,
}

pub record VoteRequest : Type 0 where
  pub vote : Vote
  pub last_log_id : Option LogId

pub record VoteResponse : Type 0 where
  pub vote : Vote
  pub last_log_id : Option LogId
  pub vote_granted : Bool

-- `InitializeError`.
pub data InitializeError (N : Type 0) : Type 0 where
  not_allowed : Option LogId → Vote → InitializeError N
  not_in_members : ℕ → Membership N → InitializeError N

-- `LogId::default()`.
abbrev first_log_id : LogId
first_log_id = record { leader_id = record { term = 0; node_id = 0 }; index = 0 }

module _ {N : Type 0} where
  -- `startup`: a former leader goes on leading.
  unfoldable pub startup : Engine N → ℕ → Checked (Engine N)
  startup e now =
      let s = e.node.state in
      let role = if is_voter (effective_membership s) e.node.config.id then follower else learner in
      if is_leader s e.node.config.id
      then update_internal_server_state e now
      else done (with_state e (record s { server_state = role }))

  -- The end of `elect`: a node does not reject itself.
  unfoldable pub send_ballot : Vote → Option LogId → Engine N × VoteResult → Checked (Engine N)
  send_ballot vote last (e, by_vote v) = panicked
  send_ballot vote last (e, granted) = done (refresh (emit e (send_vote vote last)))

  -- `elect`, started at the time `now`: the node votes for itself in the next term.
  unfoldable pub elect : Engine N → ℕ → Times → Checked (Engine N)
  elect e now t =
      let vote : Vote = record {
        leader_id = record {
          term = next_term e.node.state.vote.data_of.leader_id.term;
          node_id = e.node.config.id;
        };
        committed = false;
      } in
      do
        r ← update_vote (new_candidate e now vote) t vote
        send_ballot vote (last_log_id e.node.state) r

  -- `check_initialize` and `check_members_contain_me`.
  unfoldable pub check_initialize : Engine N → Option (InitializeError N)
  check_initialize e =
      let s = e.node.state in
      if is_initialized s then some (not_allowed (last_log_id s) s.vote.data_of) else none

  unfoldable pub check_members_contain_me : Engine N → Membership N → Option (InitializeError N)
  check_members_contain_me e m =
      if not (is_voter m e.node.config.id) then some (not_in_members e.node.config.id m) else none

  -- `initialize` once the checks have passed: the first log, then the election.
  unfoldable pub form_cluster : Engine N → ℕ → Times → Entry N → Checked (Engine N)
  form_cluster e now t entry =
      let s = e.node.state in
      let vote : Vote = record { leader_id = record { term = 0; node_id = 0 }; committed = true } in
      let voted = with_state e (record s { vote = update s.vote now 0 vote }) in
      let appended = record voted {
        node = do_append_entries (to_committed vote) voted.node (entry ∷ []);
      } in
      elect appended now t

  unfoldable pub form_if :
      Engine N
      → ℕ
      → Times
      → Entry N
      → Option (InitializeError N)
      → Checked (Engine N × Option (InitializeError N))
  form_if e now t entry (some error) = done (e, some error)
  form_if e now t entry none = do
    e' ← form_cluster e now t (record entry { log_id = first_log_id })
    done (e', none)

  unfoldable pub initialize_if :
      Engine N
      → ℕ
      → Times
      → Entry N
      → Option (InitializeError N)
      → Checked (Engine N × Option (InitializeError N))
  initialize_if e now t entry (some error) = done (e, some error)
  initialize_if e now t entry none = do
    m ← unwrap entry.membership
    form_if e now t entry (check_members_contain_me e m)

  unfoldable pub initialize :
      Engine N → ℕ → Times → Entry N → Checked (Engine N × Option (InitializeError N))
  initialize e now t entry = initialize_if e now t entry (check_initialize e)

  -- The node with its new leader, which proposes a blank log.
  unfoldable pub lead_with : Engine N → Leader → Checked (Engine N)
  lead_with e l = do
    let accepted =
        with_state e (accept_io e.node.state (new_log_io l.committed_vote l.last_log_id)).0
    l' ← unwrap accepted.leader
    led ← leader_append_entries (leading accepted l') (blank ∷ [])
    done (with_leading accepted led)

  unfoldable pub establish_if : Engine N → Times → Option Leader → Checked (Engine N)
  establish_if e t none = done e
  establish_if e t (some l) = do
    r ←
        update_vote (with_leading e (rebuild_streams (leading e l))) t
          (committed_vote l.committed_vote)
    lead_with r.0 l

  -- `establish_leader`, once a quorum has granted the vote of the candidate.
  unfoldable pub establish_leader : Engine N → ℕ → Times → Checked (Engine N)
  establish_leader e now t = do
    c ← unwrap e.candidate
    establish_if (record e { candidate = none }) t (establish now e.leader c)

  abbrev pub respond_vote : Engine N → Bool → Engine N × VoteResponse
  respond_vote e b = (
    e,
    record {
      vote = e.node.state.vote.data_of;
      last_log_id = last_log_id e.node.state;
      vote_granted = b;
    },
  )

  -- `handle_vote_req` at the time `now`.
  unfoldable pub handle_vote_req :
      Engine N → ℕ → Times → VoteRequest → Checked (Engine N × VoteResponse)
  handle_vote_req e now t req =
      let s = e.node.state in
      let checked : Checked (Engine N × VoteResponse) = (do
        r ← update_vote e t req.vote
        done (respond_vote r.0 (is_granted r.1))) in
      if s.vote.data_of.committed && not (is_expired s.vote now 0)
      then done (respond_vote e false)
      else if last_log_id s ≤? req.last_log_id
      then checked
      else done (respond_vote e false)

  -- The end of `handle_vote_resp`, where the vote is not granted by this answer.
  unfoldable pub reject_vote_resp : Engine N → Times → VoteResponse → Checked (Engine N)
  reject_vote_resp e t resp =
      let greater = last_log_id e.node.state <? resp.last_log_id in
      do
        r ←
            update_vote
              (record e { seen_greater_log = if greater then true else e.seen_greater_log }) t
              resp.vote
        done r.0

  -- The end of `handle_vote_resp`, where this answer grants the vote.
  unfoldable pub count_vote : Engine N → ℕ → Times → Candidate × Bool → Checked (Engine N)
  count_vote e now t (c, quorum) =
      let e' = record e { candidate = some c } in
      if quorum then establish_leader e' now t else done e'

  unfoldable pub vote_resp_of :
      Engine N → ℕ → Times → ℕ → VoteResponse → Option Candidate → Checked (Engine N)
  vote_resp_of e now t target resp none = done e
  vote_resp_of e now t target resp (some c) =
      let counted : Checked (Engine N) = (do r ← grant_by c target; count_vote e now t r) in
      if resp.vote_granted && (resp.vote =? c.vote) then counted else reject_vote_resp e t resp

  unfoldable pub handle_vote_resp : Engine N → ℕ → Times → ℕ → VoteResponse → Checked (Engine N)
  handle_vote_resp e now t target resp = vote_resp_of e now t target resp e.candidate
