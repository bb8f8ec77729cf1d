-- ===== src/RaftCore/Conditions.antt =====
-- What running one command keeps, and when its effects are justified (openraft/src/core/raft_core.rs,
-- `run_command`).
use async_raft.Base.{
  ℕ, ◌≡◌, refl, Bool, true, List, [], ◌∷◌, ◌++◌, Option, none, some, ◌==◌, unwrap, get_last?, All,
  Ensures, Ensures-bind, Ensures-any, Ensures-if,
}
use async_raft.Base.Sets.{member}
use async_raft.Vote.{Vote, VoteStatus, into_vote_status, committed, pending}
use async_raft.LogId.{LogId, next_index}
use async_raft.Membership.{Membership, get_node}
use async_raft.IoState.{IoState, IoId, new_io, new_log_io, update_purged}
use async_raft.RaftState.{get_log_id, effective_membership}
use async_raft.Handler.{
  Condition, io_flushed, log_flushed, applied_to, of_snapshot, SmCommand, build_snapshot,
  begin_receiving, install_of, Command, update_io_progress, append_input_entries,
  replicate_committed, broadcast_heartbeat, save_committed, apply_of, replicate,
  broadcast_transfer_leader, rebuild_replication_streams, save_vote, send_vote, purge_of,
  truncate_log, state_machine, respond, log_ids_of,
}
use async_raft.RaftCore.{Core, with_engine, map_io}
use async_raft.RaftCore.Commands.{
  Effect, store_purge, answered, is_met, submit_io, condition_of, submitted_by, vote_requests,
  to_all, streams, own_grant, execute, transfer_targets, transfer_to,
}
use async_raft.Engine.Same.{Same}

-- What decides whether conditions are met.
pub record SameIo (s s' : IoState) : Type 0 where
  pub flushed : s'.io_progress.flushed ≡ s.io_progress.flushed
  pub applied : s'.applied ≡ s.applied
  pub snapshot : s'.snapshot ≡ s.snapshot

pub SameIo-refl : (s : IoState) → SameIo s s
SameIo-refl s = record { flushed = refl; applied = refl; snapshot = refl }

pub is_met-SameIo : (s s' : IoState) (o : Option Condition) → SameIo s s' → is_met s' o ≡ is_met s o
unfolding is_met
is_met-SameIo s s' none h = refl
is_met-SameIo s s' (some (io_flushed io)) h = rw (h.flushed) refl
is_met-SameIo s s' (some (log_flushed l)) h = rw (h.flushed) refl
is_met-SameIo s s' (some (applied_to l)) h = rw (h.applied) refl
is_met-SameIo s s' (some (of_snapshot l)) h = rw (h.snapshot) refl

submitted : (s : IoState) (io : IoId) → SameIo s (submit_io io s)
submitted s io = record { flushed = refl; applied = refl; snapshot = refl }

-- An answer is given, and logs are purged, only if the condition for it is met.
abbrev pub Justified : {N : Type 0} → IoState → Effect N → Type 0
Justified s (answered when) = is_met s when ≡ true
Justified s (store_purge upto) = is_met s (some (of_snapshot (some upto))) ≡ true
Justified s _ = Unit {0}

own_grant-All :
    (N : Type 0) (s : IoState) (me : ℕ) (v : Vote) (p : VoteStatus)
    → All (Justified {N = N} s) (own_grant me v p)
unfolding own_grant
own_grant-All N s me v (pending p) = (tt, tt)
own_grant-All N s me v (committed p) = tt

to_all-All :
    (N : Type 0) (s : IoState) (l : Option LogId) (ids : List ℕ)
    → All (Justified {N = N} s) (to_all l ids)
to_all-All N s l [] = tt
to_all-All N s l (id ∷ ids) = (tt, to_all-All N s l ids)

transfer_to-All :
    (N : Type 0) (s : IoState) (v : Vote) (to : ℕ) (last : Option LogId) (ids : List ℕ)
    → All (Justified {N = N} s) (transfer_to v to last ids)
transfer_to-All N s v to last [] = tt
transfer_to-All N s v to last (id ∷ ids) = (tt, transfer_to-All N s v to last ids)

module _ {N : Type 0} where
  -- Running a command keeps the vote, what is committed, and what conditions are about.
  pub record Quiet (c c' : Core N) : Type 0 where
    pub same : Same c.engine.node.state c'.engine.node.state
    pub io : SameIo c.engine.node.state.io_state c'.engine.node.state.io_state

  pub All-append :
      (P : Effect N → Type 0) (xs ys : List (Effect N)) → All P xs → All P ys → All P (xs ++ ys)
  All-append P [] ys a b = b
  All-append P (x ∷ xs) ys a b = (a.0, All-append P xs ys a.1 b)

  abbrev pub Good : Core N → Core N × Bool × List (Effect N) → Type 0
  Good c r = Quiet c r.0 × All (Justified c.engine.node.state.io_state) r.2

  vote_requests-All :
      (s : IoState) (me : ℕ) (m : Membership N) (v : Vote) (last : Option LogId) (ids : List ℕ)
      → Ensures (vote_requests me m v last ids) (All (Justified s))
  unfolding vote_requests
  vote_requests-All s me m v last [] = tt
  vote_requests-All s me m v last (id ∷ ids) =
      let rest = vote_requests-All s me m v last ids in
      Ensures-if (id == me) _ _ (All (Justified s)) (λ _. rest)
        (λ _. Ensures-any (unwrap (get_node m id)) _ (All (Justified s)) (λ _.
          Ensures-bind (vote_requests me m v last ids) _ (All (Justified s)) (All (Justified s))
            rest (λ es a. (tt, a))))

  pub still : (c : Core N) → Quiet c c
  still c = record { same = (refl, refl); io = SameIo-refl c.engine.node.state.io_state }

  quiet :
      (c : Core N) (f : IoState → IoState)
      → SameIo c.engine.node.state.io_state (f c.engine.node.state.io_state)
      → Quiet c (with_engine c (map_io c.engine f))
  quiet c f h = record { same = (refl, refl); io = h }

  submitted_by-SameIo : (s : IoState) (cmd : SmCommand N) → SameIo s (submitted_by cmd s)
  submitted_by-SameIo s build_snapshot = SameIo-refl s
  submitted_by-SameIo s begin_receiving = SameIo-refl s
  submitted_by-SameIo s (install_of meta io) = submitted s io

  pub execute-Good :
      (c : Core N) (stored : Bool) (cmd : Command N)
      → is_met c.engine.node.state.io_state (condition_of cmd) ≡ true
      → Ensures (execute c stored cmd) (Good c)
  unfolding execute condition_of
  execute-Good c stored (update_io_progress when io) h =
      (quiet c (submit_io io) (submitted _ io), (tt, tt))
  execute-Good c stored (append_input_entries v es) h =
      Ensures-any (unwrap (get_last? (log_ids_of es))) _ (Good c) (λ last.
        let io = new_log_io v (some last) in (quiet c (submit_io io) (submitted _ io), (tt, tt)))
  execute-Good c stored (save_vote v) h =
      let q = quiet c (submit_io (new_io v)) (submitted _ (new_io v)) in
      Ensures-if stored _ _ (Good c)
        (λ _. (q, (tt, (tt, own_grant-All N _ c.engine.node.config.id v (into_vote_status v)))))
        (λ _. (q, (tt, tt)))
  execute-Good c stored (purge_of upto) h =
      Ensures-if stored _ _ (Good c)
        (λ _. (
          quiet c (λ s. update_purged s (some upto))
              (record { flushed = refl; applied = refl; snapshot = refl }),
          (h, tt),
        ))
        (λ _. (still c, (h, tt)))
  execute-Good c stored (truncate_log since) h = (still c, (tt, tt))
  execute-Good c stored (send_vote v last) h =
      let me = c.engine.node.config.id in
      let m = effective_membership c.engine.node.state in
      let ids = c.engine.node.state.membership_state.effective.voter_ids in
      let s = c.engine.node.state.io_state in
      Ensures-bind (vote_requests me m v last ids) _ (All (Justified s)) (Good c)
        (vote_requests-All s me m v last ids) (λ es a. (still c, a))
  execute-Good c stored (replicate_committed l) h = (still c, to_all-All N _ l c.replications)
  execute-Good c stored (broadcast_heartbeat v m l) h = (still c, (tt, tt))
  execute-Good c stored (save_committed l) h = (still c, (tt, tt))
  execute-Good c stored (apply_of already upto) h =
      Ensures-any (unwrap (get_log_id c.engine.node.state (next_index already))) _ (Good c)
        (λ first. (still c, (tt, tt)))
  execute-Good c stored (replicate target req) h =
      Ensures-if (member target c.replications) _ _ (Good c) (λ _. (still c, (tt, tt))) (λ _. tt)
  execute-Good c stored (broadcast_transfer_leader v to last) h =
      let me = c.engine.node.config.id in
      let m = effective_membership c.engine.node.state in
      let ids = c.engine.node.state.membership_state.effective.voter_ids in
      Ensures-any (transfer_targets me m ids) _ (Good c)
        (λ targets. (still c, transfer_to-All N _ v to last targets))
  execute-Good c stored (rebuild_replication_streams targets) h =
      Ensures-any (streams (effective_membership c.engine.node.state) [] targets) _ (Good c)
        (λ ids. (record { same = (refl, refl); io = SameIo-refl _ }, (tt, tt)))
  execute-Good c stored (state_machine cmd) h =
      (quiet c (submitted_by cmd) (submitted_by-SameIo _ cmd), (tt, tt))
  execute-Good c stored (respond when) h = (still c, (h, tt))
