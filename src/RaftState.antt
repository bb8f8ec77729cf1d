-- ===== src/RaftState.antt =====
-- openraft/src/raft_state/mod.rs and log_state_reader.rs: the state of a node that the protocol reads
-- and writes. `N` is the application's node. Debug assertions are no part of the model.
-- Children: proofs.
pub mod Lookup
pub mod Commit
pub mod Whole
pub mod Extended
use async_raft.Base.{
  ℕ, zero, suc, ◌+◌, ◌-◌, Bool, true, false, not, ◌&&◌, ◌||◌, List, [], ◌∷◌, Option, none, some,
  if◌then◌else◌, ltb, leb, ◌==◌, add64, head?, get_last?, length,
}
use async_raft.Base.Order.{◌≤?◌, ◌<?◌, ◌=?◌, option_ord, nat_ord}
use async_raft.Vote.{
  Vote, LeaderId, leader_id_ord, default_vote, as_ref_vote, to_committed, CommittedVote,
}
use async_raft.Vote.AdvOrder.{vote_ord}
use async_raft.LogId.{LogId, log_id_ord, next_index, index_of}
use async_raft.LogIdList.{ref_at, purge, extend}
use async_raft.Membership.{Membership, is_voter, contains, get_node}
use async_raft.Membership.State.{MembershipState, StoredMembership, membership, commit}
use async_raft.IoState.{IoState, IoId, io_id_ord, accept}
use async_raft.Leased.{Leased}

-- `SnapshotMeta`, without the name of the snapshot.
pub record SnapshotMeta (N : Type 0) : Type 0 where
  pub last_log_id : Option LogId
  pub last_membership : StoredMembership N

pub data ServerState : Type 0 where
  learner : ServerState
  follower : ServerState
  candidate : ServerState
  leader : ServerState
  shutdown : ServerState

pub record RaftState (N : Type 0) : Type 0 where
  pub vote : Leased Vote
  pub committed : Option LogId
  pub purged_next : ℕ
  pub log_ids : List LogId
  pub membership_state : MembershipState N
  pub snapshot_meta : SnapshotMeta N
  pub server_state : ServerState
  pub io_state : IoState
  pub purge_upto : Option LogId

-- The log id that `ref_at` answers with: the leader and the index that was asked for.
abbrev pub with_index : Option LeaderId → ℕ → Option LogId
with_index none i = none
with_index (some l) i = some (record { leader_id = l; index = i })

module _ {N : Type 0} where
  abbrev pub last_log_id : RaftState N → Option LogId
  last_log_id s = get_last? s.log_ids

  unfoldable pub get_log_id : RaftState N → ℕ → Option LogId
  get_log_id s index = with_index (ref_at s.log_ids index) index

  unfoldable pub prev_log_id : RaftState N → ℕ → Option LogId
  unfolding get_log_id
  prev_log_id s zero = none
  prev_log_id s (suc index) = get_log_id s index

  unfoldable pub last_purged_log_id : RaftState N → Option LogId
  last_purged_log_id s = if s.purged_next == 0 then none else head? s.log_ids

  unfoldable pub has_log_id : RaftState N → LogId → Bool
  unfolding get_log_id
  has_log_id s l =
      if ltb l.index (next_index s.committed)
      then true
      else elim (get_log_id s l.index) [ none ↦ false | some local ↦ l =? local ]

  -- `first_conflicting_index`, over the log ids of the entries.
  unfoldable pub first_conflicting_index : RaftState N → List LogId → ℕ
  unfolding has_log_id
  first_conflicting_index s [] = 0
  first_conflicting_index s (e ∷ es) =
      let rest = first_conflicting_index s es in if has_log_id s e then suc rest else 0

  unfoldable pub is_initialized : RaftState N → Bool
  is_initialized s = elim (last_log_id s) [
    | some l ↦ true
    | none ↦ not (s.vote.data_of =? default_vote)
  ]

  -- `accept_io`: the answer is the id accepted before.
  unfoldable pub accept_io : RaftState N → IoId → RaftState N × Option IoId
  accept_io s accepted =
      let curr = s.io_state.io_progress.accepted in
      let io_state' = record s.io_state { io_progress = accept s.io_state.io_progress accepted } in
      (if curr <? some accepted then record s { io_state = io_state' } else s, curr)

  -- `update_committed`: the answer is the log id committed before, if it changed.
  unfoldable pub update_committed : RaftState N → Option LogId → RaftState N × Option (Option LogId)
  unfolding commit
  update_committed s c =
      if s.committed <? c
      then (
        record s { committed = c; membership_state = commit s.membership_state c },
        some s.committed,
      )
      else (s, none)

  unfoldable pub purge_log : RaftState N → LogId → RaftState N
  unfolding purge add64
  purge_log s upto = record s { purged_next = add64 upto.index 1; log_ids = purge s.log_ids upto }

  abbrev pub effective_membership : RaftState N → Membership N
  effective_membership s = membership s.membership_state.effective

  unfoldable pub is_leading : RaftState N → ℕ → Bool
  is_leading s id = contains (effective_membership s) id && (s.vote.data_of.leader_id.node_id == id)

  unfoldable pub is_leader : RaftState N → ℕ → Bool
  unfolding is_leading
  is_leader s id = is_leading s id && s.vote.data_of.committed

  unfoldable pub calc_server_state : RaftState N → ℕ → ServerState
  unfolding is_leader
  calc_server_state s id =
      if is_leader s id
      then leader
      else if is_leading s id
      then candidate
      else if is_voter (effective_membership s) id
      then follower
      else learner

  -- `forward_to_leader`: the leader and its node, if they are known.
  unfoldable pub forward_to_leader : RaftState N → Option (ℕ × N)
  forward_to_leader s =
      let id = s.vote.data_of.leader_id.node_id in
      if s.vote.data_of.committed
      then elim (get_node (effective_membership s) id) [ none ↦ none | some n ↦ some (id, n) ]
      else none
