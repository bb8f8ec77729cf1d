-- ===== src/LeaderHandler.antt =====
-- openraft/src/engine/handler/leader_handler: proposing entries, heartbeats, reads and the transfer of
-- the leadership. Debug assertions are no part of the model.
-- Children: proofs.
pub mod Assigned
pub mod Proposed
use async_raft.Base.{List, [], ◌∷◌, Option, none, some, ℕ, Checked, done, ◌>>=◌}
use async_raft.Base.Order.{option_ord, max_of}
use async_raft.Vote.{committed_vote}
use async_raft.LogId.{LogId, log_id_ord}
use async_raft.LogIdList.{extend_from_same_leader}
use async_raft.Membership.{Membership}
use async_raft.Membership.State.{log_id}
use async_raft.IoState.{new_log_io}
use async_raft.Leased.{disable_lease}
use async_raft.RaftState.{accept_io}
use async_raft.Leader.{assign_log_ids, mark_transfer}
use async_raft.Handler.{
  Entry, push, log_ids_of, append_input_entries, broadcast_heartbeat, broadcast_transfer_leader,
}
use async_raft.Replication.{Leading, append_membership, initiate_replication}

module _ {N : Type 0} where
  -- The last entry with a membership.
  unfoldable pub membership_entry : List (Entry N) → Option (LogId × Membership N)
  membership_entry [] = none
  membership_entry (e ∷ es) = elim (membership_entry es) [
    | some found ↦ some found
    | none ↦ elim e.membership [ none ↦ none | some m ↦ some (e.log_id, m) ]
  ]

  -- The node and the leader once the entries have their log ids.
  unfoldable pub propose : Leading N → List (Entry N) → Leading N × List (Entry N)
  propose l es =
      let (lead', es') = assign_log_ids l.lead es in
      let extended = record l.node.state {
        log_ids = extend_from_same_leader l.node.state.log_ids (log_ids_of es');
      } in
      let accepted = (accept_io extended (new_log_io lead'.committed_vote lead'.last_log_id)).0 in
      (
        record {
          node =
              push (record l.node { state = accepted })
                (append_input_entries lead'.committed_vote es');
          lead = lead';
        },
        es',
      )

  -- The end of `leader_append_entries`, by the membership among the entries.
  unfoldable pub replicate_proposed :
      Leading N → Option (LogId × Membership N) → Checked (Leading N)
  replicate_proposed l none = initiate_replication l
  replicate_proposed l (some (id, m)) = do l' ← append_membership l id m; initiate_replication l'

  unfoldable pub leader_append_entries : Leading N → List (Entry N) → Checked (Leading N)
  leader_append_entries l [] = done l
  leader_append_entries l (e ∷ es) =
      let (l', es') = propose l (e ∷ es) in replicate_proposed l' (membership_entry es')

  abbrev pub send_heartbeat : Leading N → Leading N
  send_heartbeat l =
      let s = l.node.state in
      record l {
        node = push l.node (
            broadcast_heartbeat l.lead.committed_vote (log_id s.membership_state.effective)
              s.committed);
      }

  -- `get_read_log_id`.
  unfoldable pub get_read_log_id : Leading N → Option LogId
  get_read_log_id l = max_of l.lead.noop_log_id l.node.state.committed

  unfoldable pub transfer_leader : Leading N → ℕ → Leading N
  transfer_leader l to =
      let state' = record l.node.state { vote = disable_lease l.node.state.vote } in
      let lead' = mark_transfer l.lead to in
      record {
        node =
            push (record l.node { state = state' })
              (broadcast_transfer_leader (committed_vote lead'.committed_vote) to
                lead'.last_log_id);
        lead = lead';
      }
