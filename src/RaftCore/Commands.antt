-- ===== src/RaftCore/Commands.antt =====
-- openraft/src/core/raft_core.rs and engine/command.rs: running the commands of the engine. What goes to
-- the log store, the state machine and other nodes is a list of effects; whether a call of the log
-- store succeeds is an argument.
use async_raft.Base.{
  ℕ, Bool, true, false, not, List, [], ◌∷◌, ◌++◌, Option, none, some, if◌then◌else◌, ◌==◌, Checked,
  done, panicked, ◌>>=◌, unwrap, get_last?,
}
use async_raft.Base.Order.{◌<?◌, option_ord}
use async_raft.Base.Sets.{member, insert}
use async_raft.Vote.{Vote, CommittedVote, VoteStatus, into_vote_status, committed, pending}
use async_raft.LogId.{LogId, log_id_ord, next_index}
use async_raft.Membership.{Membership, get_node}
use async_raft.IoState.{
  IoState, IoId, io_id_ord, last_log_id, new_io, new_log_io, submit, update_purged,
}
use async_raft.ProgressEntry.{Inflight, ProgressEntry}
use async_raft.RaftState.{get_log_id, effective_membership}
use async_raft.Handler.{
  Entry, Condition, io_flushed, log_flushed, applied_to, of_snapshot, SmCommand, install_of,
  Command, update_io_progress, append_input_entries, replicate_committed, broadcast_heartbeat,
  save_committed, apply_of, replicate, broadcast_transfer_leader, rebuild_replication_streams,
  save_vote, send_vote, purge_of, truncate_log, state_machine, respond, log_ids_of,
}
use async_raft.RaftCore.{Core, Notification, local_io, vote_response, map_io, with_engine}

pub data Effect (N : Type 0) : Type 0 where
  notified : Notification N → Effect N
  store_append : List (Entry N) → IoId → Effect N
  store_vote : Vote → Effect N
  store_purge : LogId → Effect N
  store_truncate : LogId → Effect N
  store_committed : LogId → Effect N
  request_vote_of : ℕ → Vote → Option LogId → Effect N
  commit_to : ℕ → Option LogId → Effect N
  heartbeat_to_all : CommittedVote → Option LogId → Option LogId → Effect N
  apply_upto : LogId → LogId → Effect N
  replicate_to : ℕ → Inflight → Effect N
  transfer_to_node : ℕ → Vote → ℕ → Option LogId → Effect N
  streams_rebuilt : List ℕ → Effect N
  sent_to_state_machine : SmCommand N → Effect N
  answered : Option Condition → Effect N

-- The last log id of what is flushed.
abbrev pub flushed_log : Option IoId → Option LogId
flushed_log none = none
flushed_log (some io) = last_log_id io

-- The tests of `run_command`.
unfoldable pub is_met : IoState → Option Condition → Bool
is_met s none = true
is_met s (some (io_flushed io)) = not (s.io_progress.flushed <? some io)
is_met s (some (log_flushed l)) = not (flushed_log s.io_progress.flushed <? l)
is_met s (some (applied_to l)) = not (s.applied <? l)
is_met s (some (of_snapshot l)) = not (s.snapshot <? l)

abbrev pub submit_io : IoId → IoState → IoState
submit_io io s = record s { io_progress = submit s.io_progress io }

module _ {N : Type 0} where
  -- `Command::condition`.
  unfoldable pub condition_of : Command N → Option Condition
  condition_of (update_io_progress when io) = when
  condition_of (respond when) = when
  condition_of (purge_of upto) = some (of_snapshot (some upto))
  condition_of _ = none

  -- `sm::Command::get_submit_io`.
  abbrev pub submitted_by : SmCommand N → IoState → IoState
  submitted_by (install_of meta io) s = submit_io io s
  submitted_by _ s = s

  -- `spawn_parallel_vote_requests`: a voter without a node is a panic.
  unfoldable pub vote_requests :
      ℕ → Membership N → Vote → Option LogId → List ℕ → Checked (List (Effect N))
  vote_requests me m v last [] = done []
  vote_requests me m v last (id ∷ ids) =
      let rest = vote_requests me m v last ids in
      let asked : Checked (List (Effect N)) = (do
        _ ← unwrap (get_node m id)
        es ← rest
        done (request_vote_of id v last ∷ es)) in
      if id == me then rest else asked

  abbrev pub transfer_to : Vote → ℕ → Option LogId → List ℕ → List (Effect N)
  transfer_to v to last [] = []
  transfer_to v to last (id ∷ ids) = transfer_to_node id v to last ∷ transfer_to v to last ids

  -- The targets of `broadcast_transfer_leader`, each of which has to be a node of the membership.
  unfoldable pub transfer_targets : ℕ → Membership N → List ℕ → Checked (List ℕ)
  transfer_targets me m [] = done []
  transfer_targets me m (id ∷ ids) =
      let rest = transfer_targets me m ids in
      let sent : Checked (List ℕ) = (do
        _ ← unwrap (get_node m id)
        targets ← rest
        done (id ∷ targets)) in
      if id == me then rest else sent

  abbrev pub to_all : Option LogId → List ℕ → List (Effect N)
  to_all c [] = []
  to_all c (id ∷ ids) = commit_to id c ∷ to_all c ids

  -- The streams of the targets, each of which has to be a node of the membership.
  unfoldable pub streams : Membership N → List ℕ → List (ℕ × ProgressEntry) → Checked (List ℕ)
  streams m acc [] = done acc
  streams m acc ((id, e) ∷ xs) = do _ ← unwrap (get_node m id); streams m (insert id acc) xs

  -- A vote that is saved and not committed is granted to the candidate of this node itself.
  unfoldable pub own_grant : ℕ → Vote → VoteStatus → List (Effect N)
  own_grant me v (pending p) =
      notified (vote_response me (record { vote = v; last_log_id = none; vote_granted = true }) p)
      ∷ []
  own_grant me v (committed p) = []

  -- `run_command` once its condition is met; the answer is false for a failure of the store.
  unfoldable pub execute : Core N → Bool → Command N → Checked (Core N × Bool × List (Effect N))
  execute c stored (update_io_progress when io) =
      done (with_engine c (map_io c.engine (submit_io io)), true, notified (local_io io) ∷ [])
  execute c stored (append_input_entries v es) = do
    last ← unwrap (get_last? (log_ids_of es))
    let io = new_log_io v (some last)
    done (with_engine c (map_io c.engine (submit_io io)), stored, store_append es io ∷ [])
  execute c stored (save_vote v) =
      let c' = with_engine c (map_io c.engine (submit_io (new_io v))) in
      let granted = own_grant c.engine.node.config.id v (into_vote_status v) in
      if stored
      then done (c', true, store_vote v ∷ notified (local_io (new_io v)) ∷ granted)
      else done (c', false, store_vote v ∷ [])
  execute c stored (purge_of upto) =
      if stored
      then done (
        with_engine c (map_io c.engine (λ s. update_purged s (some upto))),
        true,
        store_purge upto ∷ [],
      )
      else done (c, false, store_purge upto ∷ [])
  execute c stored (truncate_log since) = done (c, stored, store_truncate since ∷ [])
  execute c stored (send_vote v last) = do
    es ←
        vote_requests c.engine.node.config.id (effective_membership c.engine.node.state) v last
          c.engine.node.state.membership_state.effective.voter_ids
    done (c, true, es)
  execute c stored (replicate_committed l) = done (c, true, to_all l c.replications)
  execute c stored (broadcast_heartbeat v m l) = done (c, true, heartbeat_to_all v m l ∷ [])
  execute c stored (save_committed l) = done (c, stored, store_committed l ∷ [])
  execute c stored (apply_of already upto) = do
    first ← unwrap (get_log_id c.engine.node.state (next_index already))
    done (c, true, apply_upto first upto ∷ [])
  execute c stored (replicate target req) =
      if member target c.replications
      then done (c, true, replicate_to target req ∷ [])
      else panicked
  execute c stored (broadcast_transfer_leader v to last) = do
    targets ←
        transfer_targets c.engine.node.config.id (effective_membership c.engine.node.state)
          c.engine.node.state.membership_state.effective.voter_ids
    done (c, true, transfer_to v to last targets)
  execute c stored (rebuild_replication_streams targets) = do
    ids ← streams (effective_membership c.engine.node.state) [] targets
    done (record c { replications = ids }, true, streams_rebuilt ids ∷ [])
  execute c stored (state_machine cmd) =
      done
        (with_engine c (map_io c.engine (submitted_by cmd)), true, sent_to_state_machine cmd ∷ [])
  execute c stored (respond when) = done (c, true, answered when ∷ [])

  -- No result stands for a command that has to wait.
  unfoldable pub run_command :
      Core N → Bool → Command N → Checked (Option (Core N × Bool × List (Effect N)))
  run_command c stored cmd =
      let executed : Checked (Option (Core N × Bool × List (Effect N))) = (do
        r ← execute c stored cmd
        done (some r)) in
      if is_met c.engine.node.state.io_state (condition_of cmd) then executed else done none

  abbrev pub with_output : Core N → List (Command N) → Core N
  with_output c cmds = record c {
    engine = record c.engine { node = record c.engine.node { output = cmds } };
  }

  -- What follows a command that was not postponed, with the rest of the queue.
  unfoldable pub after_command :
      (Core N → Checked (Core N × Bool × List (Effect N)))
      → List (Command N)
      → Core N × Bool × List (Effect N)
      → Checked (Core N × Bool × List (Effect N))
  after_command rest cmds (c, false, es) = done (with_output c cmds, false, es)
  after_command rest cmds (c, true, es) = do r ← rest c; done (r.0, r.1, es ++ r.2)

  unfoldable pub after_attempt :
      (Core N → Checked (Core N × Bool × List (Effect N)))
      → Core N
      → Command N
      → List (Command N)
      → Option (Core N × Bool × List (Effect N))
      → Checked (Core N × Bool × List (Effect N))
  after_attempt rest c cmd cmds none = done (with_output c (cmd ∷ cmds), true, [])
  after_attempt rest c cmd cmds (some r) = after_command rest cmds r

  -- The loop of `run_engine_commands` over the queue; the answer is false for a failure of the store.
  unfoldable pub run_queue :
      (Command N → Bool) → Core N → List (Command N) → Checked (Core N × Bool × List (Effect N))
  run_queue stored c [] = done (with_output c [], true, [])
  run_queue stored c (cmd ∷ cmds) = do
    r ← run_command c (stored cmd) cmd
    after_attempt (λ c'. run_queue stored c' cmds) c cmd cmds r

  unfoldable pub run_engine_commands :
      (Command N → Bool) → Core N → Checked (Core N × Bool × List (Effect N))
  run_engine_commands stored c = run_queue stored c c.engine.node.output
