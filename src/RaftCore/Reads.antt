-- ===== src/RaftCore/Reads.antt =====
-- `handle_check_is_leader_request` of openraft/src/core/raft_core.rs: a leader confirms to a reader that
-- it still leads. What comes of the requests to the voters is an argument, in the order in which it
-- comes; a request that fails or times out is lost.
use async_raft.Base.{
  ℕ, Bool, false, List, [], ◌∷◌, Option, none, some, if◌then◌else◌, ltb, ◌==◌, ◌||◌, Checked, done,
  ◌>>=◌, unwrap, not,
}
use async_raft.Base.Order.{option_ord}
use async_raft.Base.Sets.{insert}
use async_raft.Vote.{Vote, to_committed}
use async_raft.LogId.{LogId, log_id_ord}
use async_raft.Quorum.{is_joint_quorum}
use async_raft.Progress.{VecProgress, index}
use async_raft.ProgressEntry.{ProgressEntry}
use async_raft.Membership.{get_node}
use async_raft.RaftState.{forward_to_leader, effective_membership}
use async_raft.Leader.{Leader}
use async_raft.LeaderHandler.{get_read_log_id}
use async_raft.Engine.{leading}
use async_raft.RaftCore.{Core, Notification, higher_vote}

-- What comes of a request: an answer, an answer with a greater vote, or none.
pub data Reply : Type 0 where
  confirmed : ℕ → Reply
  outvoted : ℕ → Vote → Reply
  lost : ℕ → Reply

-- The empty `AppendEntriesRequest` to a voter.
pub record Asked : Type 0 where
  pub target : ℕ
  pub vote : Vote
  pub prev_log_id : Option LogId
  pub leader_commit : Option LogId

pub data ReadAnswer (N : Type 0) : Type 0 where
  forward : Option (ℕ × N) → ReadAnswer N
  read_at : Option LogId → Option LogId → ReadAnswer N
  quorum_not_enough : List ℕ → ReadAnswer N

-- The answer, the requests, and the greater vote that the core is notified of. The message of the core
-- has no target in this model.
pub record Read (N : Type 0) : Type 0 where
  pub answer : ReadAnswer N
  pub asked : List Asked
  pub notified : Option (Notification N)

abbrev pub is_voter : VecProgress ProgressEntry (Option LogId) → ℕ → Bool
unfolding index
is_voter p id = elim (index p.vector id) [ none ↦ false | some i ↦ ltb i p.voter_count ]

module _ {N : Type 0} where
  unfoldable pub ask_voters : Core N → Leader → List (ℕ × ProgressEntry) → Checked (List Asked)
  ask_voters c l [] = done []
  ask_voters c l ((id, entry) ∷ rest) =
      let others = ask_voters c l rest in
      let s = c.engine.node.state in
      let request : Asked = record {
        target = id;
        vote = s.vote.data_of;
        prev_log_id = entry.matching;
        leader_commit = s.committed;
      } in
      let asking : Checked (List Asked) = (do
        node ← unwrap (get_node (effective_membership s) id)
        tail ← others
        done (request ∷ tail)) in
      if not (is_voter l.progress id) || id == c.engine.node.config.id then others else asking

  -- Waiting for what comes of the requests.
  unfoldable pub wait_for :
      List (List ℕ) → ReadAnswer N → List ℕ → List Reply → ReadAnswer N × Option (ℕ × Vote)
  wait_for quorum_set resp granted [] = (quorum_not_enough granted, none)
  wait_for quorum_set resp granted (lost t ∷ replies) = wait_for quorum_set resp granted replies
  wait_for quorum_set resp granted (outvoted t v ∷ replies) = (forward none, some (t, v))
  wait_for quorum_set resp granted (confirmed t ∷ replies) =
      let rest = wait_for quorum_set resp (insert t granted) replies in
      if is_joint_quorum quorum_set (insert t granted) then (resp, none) else rest

  abbrev pub notification_of_vote : Core N → Option (ℕ × Vote) → Option (Notification N)
  notification_of_vote c none = none
  notification_of_vote c (some (target, higher)) =
      some (higher_vote higher (to_committed c.engine.node.state.vote.data_of))

  abbrev pub waited : Core N → List Asked → ReadAnswer N × Option (ℕ × Vote) → Read N
  waited c asked (answer, outvoted_by) = record {
    answer = answer;
    asked = asked;
    notified = notification_of_vote c outvoted_by;
  }

  abbrev pub read_of : Core N → Leader → ReadAnswer N
  read_of c l = read_at (get_read_log_id (leading c.engine l)) c.engine.node.state.io_state.applied

  abbrev pub check_leader : Core N → List Reply → Leader → Checked (Read N)
  check_leader c replies l =
      let quorum_set = c.engine.node.state.membership_state.effective.quorum_set in
      let granted = c.engine.node.config.id ∷ [] in
      let asking : Checked (Read N) = (do
        asked ← ask_voters c l l.progress.vector
        done (waited c asked (wait_for quorum_set (read_of c l) granted replies))) in
      if is_joint_quorum quorum_set granted
      then done (record { answer = read_of c l; asked = []; notified = none })
      else asking

  unfoldable pub handle_check_is_leader_request : Core N → List Reply → Checked (Read N)
  unfolding ask_voters wait_for
  handle_check_is_leader_request c replies = elim c.engine.leader [
    | none ↦ done (record {
      answer = forward (forward_to_leader c.engine.node.state);
      asked = [];
      notified = none;
    })
    | some l ↦ check_leader c replies l
  ]
