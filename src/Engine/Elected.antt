-- ===== src/Engine/Elected.antt =====
-- Starting up, forming a cluster and elections take no vote and no commit back:
-- openraft/src/engine/engine_impl.rs.
use async_raft.Base.{
  ℕ, ◌≡◌, refl, Bool, not, ◌&&◌, [], ◌∷◌, Option, none, some, unwrap, Ensures, Ensures-bind,
  Ensures-any, Ensures-map, Ensures-if, arith,
}
use async_raft.Base.Order.{◌≤?◌, ◌=?◌, option_ord, le?_refl, =?→eq}
use async_raft.Vote.{Vote, default_vote, committed_vote, to_committed}
use async_raft.Vote.AdvOrder.{vote_ord}
use async_raft.LogId.{LogId, log_id_ord}
use async_raft.IoState.{new_log_io}
use async_raft.Leased.{update, is_expired}
use async_raft.Candidate.{Candidate, grant_by}
use async_raft.Leader.{Leader}
use async_raft.RaftState.{is_initialized, is_leader, last_log_id, accept_io}
use async_raft.Handler.{Entry, update_server_state}
use async_raft.Replication.{rebuild_streams}
use async_raft.LeaderHandler.{leader_append_entries}
use async_raft.Following.{do_append_entries}
use async_raft.Engine.{Engine, Times, new_candidate, with_state, leading, with_leading, blank}
use async_raft.Engine.Voting.{VoteResult, granted, by_vote, update_vote, establish}
use async_raft.Engine.Electing.{
  InitializeError, VoteRequest, VoteResponse, startup, elect, send_ballot, check_initialize,
  check_members_contain_me, form_cluster, form_if, initialize_if, initialize, lead_with,
  establish_if, establish_leader, handle_vote_req, reject_vote_resp, count_vote, vote_resp_of,
  handle_vote_resp,
}
use async_raft.Engine.Same.{
  Same, Same-trans, accept_io-Same, leader_append_entries-Same, update_internal_server_state-Same,
}
use async_raft.Engine.Ahead.{Ahead, Ahead-refl, Ahead-trans, Same-Ahead, update_vote-Ahead}
use async_raft.Engine.Followed.{do_append_entries-Same}

module _ {N : Type 0} where
  -- The state of an engine after an operation.
  abbrev pub Onward : Engine N → Engine N → Type 0
  Onward e e' = Ahead e.node.state e'.node.state

  pub startup-Ahead : (e : Engine N) (now : ℕ) → Ensures (startup e now) (Onward e)
  unfolding startup
  startup-Ahead e now =
      Ensures-if (is_leader e.node.state e.node.config.id) _ _ (Onward e)
        (λ _.
          Ensures-map _ _ (Onward e) (update_internal_server_state-Same e now)
            (λ e'. Same-Ahead e.node.state e'.node.state))
        (λ _. Ahead-refl e.node.state)

  send_ballot-Ahead :
      (e : Engine N) (v : Vote) (last : Option LogId) (r : Engine N × VoteResult)
      → Onward e r.0
      → Ensures (send_ballot v last r) (Onward e)
  unfolding send_ballot update_server_state
  send_ballot-Ahead e v last (e', granted) a = a
  send_ballot-Ahead e v last (e', by_vote w) a = tt

  pub elect-Ahead : (e : Engine N) (now : ℕ) (t : Times) → Ensures (elect e now t) (Onward e)
  unfolding elect new_candidate
  elect-Ahead e now t =
      Ensures-bind (update_vote _ t _) _ (λ r. Onward e r.0) (Onward e)
        (update_vote-Ahead (new_candidate e now _) t _) (λ r a. send_ballot-Ahead e _ _ r a)

  -- The default vote is the least but those that are not committed; the cluster is formed with it.
  fresh_vote : (e : Engine N) → check_initialize e ≡ none → e.node.state.vote.data_of ≡ default_vote
  unfolding check_initialize is_initialized
  fresh_vote e h = ground (arith, h, =?→eq {A = Vote} e.node.state.vote.data_of default_vote)

  form_cluster-Ahead :
      (e : Engine N) (now : ℕ) (t : Times) (entry : Entry N)
      → e.node.state.vote.data_of ≡ default_vote
      → Ensures (form_cluster e now t entry) (Onward e)
  unfolding form_cluster update
  form_cluster-Ahead e now t entry h =
      let s = e.node.state in
      let vote = committed_vote (to_committed default_vote) in
      let voted = with_state e (record s { vote = update s.vote now 0 vote }) in
      let n = do_append_entries (to_committed vote) voted.node (entry ∷ []) in
      let first : Ahead s voted.node.state = (rw h refl, le?_refl {A = Option LogId} s.committed) in
      let same =
        Same-Ahead voted.node.state n.state
          (do_append_entries-Same (to_committed vote) voted.node (entry ∷ [])) in
      Ensures-map (elect (record voted { node = n }) now t) (Onward (record voted { node = n }))
        (Onward e) (elect-Ahead (record voted { node = n }) now t)
        (λ e' a.
          Ahead-trans s voted.node.state e'.node.state first
            (Ahead-trans voted.node.state n.state e'.node.state same a))

  form_if-Ahead :
      (e : Engine N) (now : ℕ) (t : Times) (entry : Entry N) (o : Option (InitializeError N))
      → e.node.state.vote.data_of ≡ default_vote
      → Ensures (form_if e now t entry o) (λ r. Onward e r.0)
  unfolding form_if
  form_if-Ahead e now t entry (some error) h = Ahead-refl e.node.state
  form_if-Ahead e now t entry none h =
      Ensures-bind (form_cluster e now t _) _ (Onward e) (λ r. Onward e r.0)
        (form_cluster-Ahead e now t _ h) (λ e' a. a)

  initialize_if-Ahead :
      (e : Engine N) (now : ℕ) (t : Times) (entry : Entry N) (o : Option (InitializeError N))
      → check_initialize e ≡ o
      → Ensures (initialize_if e now t entry o) (λ r. Onward e r.0)
  unfolding initialize_if
  initialize_if-Ahead e now t entry (some error) h = Ahead-refl e.node.state
  initialize_if-Ahead e now t entry none h =
      Ensures-any (unwrap entry.membership) _ (λ r. Onward e r.0)
        (λ m. form_if-Ahead e now t entry (check_members_contain_me e m) (fresh_vote e h))

  pub initialize-Ahead :
      (e : Engine N) (now : ℕ) (t : Times) (entry : Entry N)
      → Ensures (initialize e now t entry) (λ r. Onward e r.0)
  unfolding initialize
  initialize-Ahead e now t entry = initialize_if-Ahead e now t entry (check_initialize e) refl

  lead_with-Ahead : (e : Engine N) (l : Leader) → Ensures (lead_with e l) (Onward e)
  unfolding lead_with
  lead_with-Ahead e l =
      let io = new_log_io l.committed_vote l.last_log_id in
      let accepted = with_state e (accept_io e.node.state io).0 in
      Ensures-any (unwrap e.leader) _ (Onward e) (λ l'.
        Ensures-bind (leader_append_entries (leading accepted l') (blank ∷ [])) _
          (λ x. Same accepted.node.state x.node.state) (Onward e)
          (leader_append_entries-Same (leading accepted l') (blank ∷ []))
          (λ x s. Same-Ahead e.node.state x.node.state (
            Same-trans e.node.state accepted.node.state x.node.state
              (accept_io-Same e.node.state io) s)))

  establish_if-Ahead :
      (e : Engine N) (t : Times) (o : Option Leader) → Ensures (establish_if e t o) (Onward e)
  unfolding establish_if rebuild_streams
  establish_if-Ahead e t none = Ahead-refl e.node.state
  establish_if-Ahead e t (some l) =
      let e' = with_leading e (rebuild_streams (leading e l)) in
      Ensures-bind (update_vote e' t (committed_vote l.committed_vote)) _ (λ r. Onward e r.0)
        (Onward e) (update_vote-Ahead e' t (committed_vote l.committed_vote))
        (λ r a.
          Ensures-map (lead_with r.0 l) (Onward r.0) (Onward e) (lead_with-Ahead r.0 l)
            (λ x b. Ahead-trans e.node.state r.0.node.state x.node.state a b))

  establish_leader-Ahead :
      (e : Engine N) (now : ℕ) (t : Times) → Ensures (establish_leader e now t) (Onward e)
  unfolding establish_leader
  establish_leader-Ahead e now t =
      Ensures-any (unwrap e.candidate) _ (Onward e)
        (λ c. establish_if-Ahead (record e { candidate = none }) t (establish now e.leader c))

  pub handle_vote_req-Ahead :
      (e : Engine N) (now : ℕ) (t : Times) (req : VoteRequest)
      → Ensures (handle_vote_req e now t req) (λ r. Onward e r.0)
  unfolding handle_vote_req
  handle_vote_req-Ahead e now t req =
      let s = e.node.state in
      let P = λ (r : Engine N × VoteResponse). Onward e r.0 in
      Ensures-if (s.vote.data_of.committed && not (is_expired s.vote now 0)) _ _ P
        (λ _. Ahead-refl s)
        (λ _.
          Ensures-if (last_log_id s ≤? req.last_log_id) _ _ P
            (λ _.
              Ensures-bind (update_vote e t req.vote) _ (λ r. Onward e r.0) P
                (update_vote-Ahead e t req.vote) (λ r a. a))
            (λ _. Ahead-refl s))

  count_vote-Ahead :
      (e : Engine N) (now : ℕ) (t : Times) (r : Candidate × Bool)
      → Ensures (count_vote e now t r) (Onward e)
  unfolding count_vote
  count_vote-Ahead e now t (c, quorum) =
      Ensures-if quorum _ _ (Onward e)
        (λ _. establish_leader-Ahead (record e { candidate = some c }) now t)
        (λ _. Ahead-refl e.node.state)

  vote_resp_of-Ahead :
      (e : Engine N) (now : ℕ) (t : Times) (target : ℕ) (resp : VoteResponse) (o : Option Candidate)
      → Ensures (vote_resp_of e now t target resp o) (Onward e)
  unfolding vote_resp_of reject_vote_resp
  vote_resp_of-Ahead e now t target resp none = Ahead-refl e.node.state
  vote_resp_of-Ahead e now t target resp (some c) =
      Ensures-if (resp.vote_granted && (resp.vote =? c.vote)) _ _ (Onward e)
        (λ _. Ensures-any (grant_by c target) _ (Onward e) (λ r. count_vote-Ahead e now t r))
        (λ _.
          Ensures-bind (update_vote _ t resp.vote) _ (λ r. Onward e r.0) (Onward e)
            (update_vote-Ahead _ t resp.vote) (λ r a. a))

  pub handle_vote_resp-Ahead :
      (e : Engine N) (now : ℕ) (t : Times) (target : ℕ) (resp : VoteResponse)
      → Ensures (handle_vote_resp e now t target resp) (Onward e)
  unfolding handle_vote_resp
  handle_vote_resp-Ahead e now t target resp = vote_resp_of-Ahead e now t target resp e.candidate
