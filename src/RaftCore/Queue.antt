-- ===== src/RaftCore/Queue.antt =====
-- The queue of commands (openraft/src/core/raft_core.rs): they run in order, up to the first one whose
-- condition is not met, and nothing is answered or purged before its condition is met.
use async_raft.Base.{
  ◌≡◌, refl, sym, ◌∙◌, ap, Bool, true, false, List, [], ◌∷◌, ◌++◌, Option, none, some, done, ◌>>=◌,
  All, Ensures, Ensures-bind, Bool-cases, inl, inr,
}
use async_raft.IoState.{IoState}
use async_raft.Handler.{Command}
use async_raft.RaftCore.{Core}
use async_raft.RaftCore.Commands.{
  Effect, notified, store_append, store_vote, store_purge, store_truncate, store_committed,
  request_vote_of, commit_to, heartbeat_to_all, apply_upto, replicate_to, transfer_to_node,
  streams_rebuilt, sent_to_state_machine, answered, is_met, condition_of, execute, run_command,
  after_command, after_attempt, run_queue, run_engine_commands,
}
use async_raft.Engine.Same.{Same-trans}
use async_raft.RaftCore.Conditions.{
  SameIo, SameIo-refl, is_met-SameIo, Justified, Quiet, Good, execute-Good, All-append,
}

module _ {N : Type 0} where
  -- The queue stops at a command that has to wait.
  abbrev pub Blocked : IoState → List (Command N) → Type 0
  Blocked s [] = Unit {0}
  Blocked s (cmd ∷ cmds) = is_met s (condition_of cmd) ≡ false

  -- What is left of the queue is its end, and the store has failed, or it begins with a command that
  -- has to wait.
  abbrev pub Settled : Core N → List (Command N) → Core N × Bool × List (Effect N) → Type 0
  Settled c cmds r =
      Quiet c r.0
      × All (Justified c.engine.node.state.io_state) r.2
      × ((first : List (Command N)) × (cmds ≡ first ++ r.0.engine.node.output))
      × (r.1 ≡ true → Blocked c.engine.node.state.io_state r.0.engine.node.output)

  Quiet-trans : (a b c : Core N) → Quiet a b → Quiet b c → Quiet a c
  Quiet-trans a b c p q = record {
    same = Same-trans a.engine.node.state b.engine.node.state c.engine.node.state p.same q.same;
    io = record {
      flushed = q.io.flushed ∙ p.io.flushed;
      applied = q.io.applied ∙ p.io.applied;
      snapshot = q.io.snapshot ∙ p.io.snapshot;
    };
  }

  Justified-SameIo : (s s' : IoState) (e : Effect N) → SameIo s s' → Justified s' e → Justified s e
  Justified-SameIo s s' (answered when) h j = sym (is_met-SameIo s s' when h) ∙ j
  Justified-SameIo s s' (store_purge upto) h j = sym (is_met-SameIo s s' _ h) ∙ j
  Justified-SameIo s s' (notified n) h j = tt
  Justified-SameIo s s' (store_append es io) h j = tt
  Justified-SameIo s s' (store_vote v) h j = tt
  Justified-SameIo s s' (store_truncate l) h j = tt
  Justified-SameIo s s' (store_committed l) h j = tt
  Justified-SameIo s s' (request_vote_of id v l) h j = tt
  Justified-SameIo s s' (commit_to id l) h j = tt
  Justified-SameIo s s' (heartbeat_to_all v m l) h j = tt
  Justified-SameIo s s' (apply_upto a b) h j = tt
  Justified-SameIo s s' (replicate_to id i) h j = tt
  Justified-SameIo s s' (transfer_to_node id v to l) h j = tt
  Justified-SameIo s s' (streams_rebuilt ids) h j = tt
  Justified-SameIo s s' (sent_to_state_machine cmd) h j = tt

  All-SameIo :
      (s s' : IoState) (es : List (Effect N))
      → SameIo s s'
      → All (Justified s') es
      → All (Justified s) es
  All-SameIo s s' [] h a = tt
  All-SameIo s s' (e ∷ es) h a = (Justified-SameIo s s' e h a.0, All-SameIo s s' es h a.1)

  Blocked-SameIo :
      (s s' : IoState) (cmds : List (Command N)) → SameIo s s' → Blocked s' cmds → Blocked s cmds
  Blocked-SameIo s s' [] h b = tt
  Blocked-SameIo s s' (cmd ∷ cmds) h b = sym (is_met-SameIo s s' (condition_of cmd) h) ∙ b

  after_command-Settled :
      (stored : Command N → Bool) (c : Core N) (cmd : Command N) (cmds : List (Command N))
      (r : Core N × Bool × List (Effect N))
      → Good c r
      → Ensures (run_queue stored r.0 cmds) (Settled r.0 cmds)
      → Ensures (after_command (λ c'. run_queue stored c' cmds) cmds r) (Settled c (cmd ∷ cmds))
  unfolding after_command
  after_command-Settled stored c cmd cmds (c', false, es) (q, a) rest =
      (record { same = q.same; io = q.io }, a, (cmd ∷ [], refl), λ f. absurd cc)
  after_command-Settled stored c cmd cmds (c', true, es) (q, a) rest =
      let s = c.engine.node.state.io_state in
      let s' = c'.engine.node.state.io_state in
      Ensures-bind (run_queue stored c' cmds) _ (Settled c' cmds) (Settled c (cmd ∷ cmds)) rest
        (λ r (q', a', (first, e), b). (
          Quiet-trans c c' r.0 q q',
          All-append (Justified s) es r.2 a (All-SameIo s s' r.2 q.io a'),
          (cmd ∷ first, ap (λ l. cmd ∷ l) e),
          λ t. Blocked-SameIo s s' r.0.engine.node.output q.io (b t),
        ))

  abbrev Executed : Core N → Option (Core N × Bool × List (Effect N)) → Type 0
  Executed c none = ⊥
  Executed c (some r) = Good c r

  after_attempt-Settled :
      (stored : Command N → Bool) (c : Core N) (cmd : Command N) (cmds : List (Command N))
      (o : Option (Core N × Bool × List (Effect N)))
      → Executed c o
      → ((c' : Core N) → Ensures (run_queue stored c' cmds) (Settled c' cmds))
      → Ensures
          (after_attempt (λ c'. run_queue stored c' cmds) c cmd cmds o)
          (Settled c (cmd ∷ cmds))
  unfolding after_attempt
  after_attempt-Settled stored c cmd cmds none g rest = absurd g
  after_attempt-Settled stored c cmd cmds (some r) g rest =
      after_command-Settled stored c cmd cmds r g (rest r.0)

  -- What the queue leaves, by whether the condition of its first command is met.
  run_queue-Settled :
      (stored : Command N → Bool) (c : Core N) (cmds : List (Command N))
      → Ensures (run_queue stored c cmds) (Settled c cmds)
  unfolding run_queue run_command after_attempt
  run_queue-Settled stored c [] =
      (record { same = (refl, refl); io = SameIo-refl _ }, tt, ([], refl), λ _. tt)
  run_queue-Settled stored c (cmd ∷ cmds) =
      elim (Bool-cases (is_met c.engine.node.state.io_state (condition_of cmd))) [
        | inl met ↦ rw met (
            Ensures-bind (execute c (stored cmd) cmd >>= λ r. done (some r)) _ (Executed c)
              (Settled c (cmd ∷ cmds))
              (Ensures-bind (execute c (stored cmd) cmd) (λ r. done (some r)) (Good c) (Executed c)
                (execute-Good c (stored cmd) cmd met) (λ r g. g))
              (λ o g.
                after_attempt-Settled stored c cmd cmds o g
                  (λ c'. run_queue-Settled stored c' cmds)))
        | inr waits ↦
            rw waits
              (record { same = (refl, refl); io = SameIo-refl _ }, tt, ([], refl), λ _. waits)
      ]

  -- A round of the queue of commands, unless one of them panics, keeps the vote, what is committed and
  -- what conditions are about. Every answer that it gives, and every purge, is one whose condition is
  -- met. The commands that are left are the end of the queue, and if no call of the store failed, there
  -- are none left or the first of them has a condition that is not met.
  pub run_engine_commands_lem :
      (stored : Command N → Bool) (c : Core N)
      → Ensures (run_engine_commands stored c) (Settled c c.engine.node.output)
  unfolding run_engine_commands
  run_engine_commands_lem stored c = run_queue-Settled stored c c.engine.node.output
