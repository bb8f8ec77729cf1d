-- ===== src/RaftCore/Runs.antt =====
-- Runs of the core (openraft/src/core/raft_core.rs): any sequence of messages, notifications and rounds
-- of commands, of which `runtime_loop` takes some.
use async_raft.Base.{
  ℕ, ◌≡◌, sym, ap, ◌∙◌, Bool, true, false, List, [], ◌∷◌, Option, none, some, if◌then◌else◌,
  Checked, done, ◌>>=◌, Ensures, Ensures-bind, Ensures-map, Ensures-done, arith,
}
use async_raft.Base.Order.{◌≤?◌, ◌<?◌, option_ord, lt?_flip, lt?_le?_trans}
use async_raft.Vote.{Vote}
use async_raft.Vote.AdvOrder.{vote_ord}
use async_raft.LogId.{log_id_ord}
use async_raft.Membership.State.{Eq}
use async_raft.RaftState.{RaftState}
use async_raft.Handler.{Command}
use async_raft.Engine.{Engine, Times}
use async_raft.Engine.Electing.{VoteRequest, handle_vote_req, respond_vote}
use async_raft.Engine.Ahead.{Ahead, Ahead-refl, Ahead-trans, Same-Ahead}
use async_raft.Engine.Ballots.{may_vote, handle_vote_req_lem}
use async_raft.Engine.Elected.{Onward}
use async_raft.RaftCore.{Core, Moments, RaftMsg, Notification, with_engine}
use async_raft.RaftCore.Dispatch.{answer_ballot, handle_api_msg, handle_notification}
use async_raft.RaftCore.Commands.{run_engine_commands}
use async_raft.RaftCore.Queue.{run_engine_commands_lem, Settled}
use async_raft.RaftCore.Stepped.{Later, handle_notification-Ahead, handle_api_msg-Ahead}

pub data Event (N : Type 0) : Type 0 where
  message : Moments → RaftMsg N → Event N
  notification : Moments → Notification N → Event N
  commands : (Command N → Bool) → Event N

module _ {N : Type 0} ⦃q : Eq N⦄ where
  abbrev pub goes_on : Core N → Option (Engine N) → Option (Core N)
  goes_on c none = none
  goes_on c (some e) = some (with_engine c e)

  abbrev pub unless_failed : Core N × Bool → Option (Core N)
  unless_failed (c, true) = some c
  unless_failed (c, false) = none

  -- One event; none is a fatal error of the storage.
  unfoldable pub step : Core N → Event N → Checked (Option (Core N))
  step c (message m msg) = do e ← handle_api_msg c m msg; done (some (with_engine c e))
  step c (notification m n) = do o ← handle_notification c m n; done (goes_on c o)
  step c (commands stored) = do r ← run_engine_commands stored c; done (unless_failed (r.0, r.1))

  -- The rest of a run; a fatal error ends it.
  abbrev pub continue : (Core N → Checked (Core N)) → Core N → Option (Core N) → Checked (Core N)
  continue rest c none = done c
  continue rest c (some c') = rest c'

  unfoldable pub run : Core N → List (Event N) → Checked (Core N)
  run c [] = done c
  run c (ev ∷ evs) = do o ← step c ev; continue (λ c'. run c' evs) c o

  abbrev pub Advanced : Core N → Core N → Type 0
  Advanced c c' = Ahead c.engine.node.state c'.engine.node.state

  abbrev pub Next : Core N → Option (Core N) → Type 0
  Next c none = Unit
  Next c (some c') = Advanced c c'

  goes_on-Next : (c : Core N) (o : Option (Engine N)) → Later c o → Next c (goes_on c o)
  goes_on-Next c none h = tt
  goes_on-Next c (some e) h = h

  unless_failed-Next : (c c' : Core N) (ok : Bool) → Advanced c c' → Next c (unless_failed (c', ok))
  unless_failed-Next c c' true h = h
  unless_failed-Next c c' false h = tt

  pub step-Ahead : (c : Core N) (ev : Event N) → Ensures (step c ev) (Next c)
  unfolding step
  step-Ahead c (message m msg) =
      Ensures-bind (handle_api_msg c m msg) _ (Onward c.engine) (Next c)
        (handle_api_msg-Ahead c m msg) (λ e a. a)
  step-Ahead c (notification m n) =
      Ensures-bind (handle_notification c m n) _ (Later c) (Next c)
        (handle_notification-Ahead c m n) (λ o a. goes_on-Next c o a)
  step-Ahead c (commands stored) =
      Ensures-bind (run_engine_commands stored c) _ (Settled c c.engine.node.output) (Next c)
        (run_engine_commands_lem stored c)
        (λ r (quiet, _, _, _).
          unless_failed-Next c r.0 r.1
            (Same-Ahead c.engine.node.state r.0.engine.node.state quiet.same))

  continue-Ahead :
      (rest : Core N → Checked (Core N)) (c : Core N) (o : Option (Core N))
      → ((c' : Core N) → Ensures (rest c') (Advanced c'))
      → Next c o
      → Ensures (continue rest c o) (Advanced c)
  continue-Ahead rest c none h a = Ahead-refl c.engine.node.state
  continue-Ahead rest c (some c') h a =
      Ensures-map (rest c') (Advanced c') (Advanced c) (h c')
        (λ x b. Ahead-trans c.engine.node.state c'.engine.node.state x.engine.node.state a b)

  run-Ensures : (c : Core N) (evs : List (Event N)) → Ensures (run c evs) (Advanced c)
  unfolding run
  run-Ensures c [] = Ahead-refl c.engine.node.state
  run-Ensures c (ev ∷ evs) =
      Ensures-bind (step c ev) _ (Next c) (Advanced c) (step-Ahead c ev)
        (λ o. continue-Ahead (λ c'. run c' evs) c o (λ c'. run-Ensures c' evs))

  -- Whatever messages, notifications and rounds of commands a node goes through without a panic, and in
  -- whatever order, its vote and its committed log id are at the end at least what they were.
  pub run-Ahead :
      (c c' : Core N) (evs : List (Event N))
      → run c evs ≡ done c'
      → ((c.engine.node.state.vote.data_of ≤? c'.engine.node.state.vote.data_of) ≡ true)
        × ((c.engine.node.state.committed ≤? c'.engine.node.state.committed) ≡ true)
  run-Ahead c c' evs h = Ensures-done (run c evs) (Advanced c) (run-Ensures c evs) h

  respond_inj :
      (e e' : Engine N) (a b : Bool)
      → done (respond_vote e a) ≡ done (respond_vote e' b)
      → (e ≡ e') × (a ≡ b)
  respond_inj e e' a b h = (cc, cc)

  not_may :
      (s : RaftState N) (now : ℕ) (req : VoteRequest)
      → (s.vote.data_of ≤? req.vote) ≡ false
      → may_vote s now req ≡ false
  not_may s now req h = ground (arith, h)

  -- A node that has granted a vote grants no smaller one later: after any run that follows the answer, a
  -- request with a vote that is not committed and is smaller than the one that was granted is answered,
  -- and not granted.
  pub granted_once :
      (c c' : Core N) (evs : List (Event N)) (now later : ℕ) (t u : Times) (req old : VoteRequest)
      (e : Engine N)
      → handle_vote_req c.engine now t req ≡ done (respond_vote e true)
      → req.vote.committed ≡ false
      → old.vote.committed ≡ false
      → run (with_engine c (answer_ballot e)) evs ≡ done c'
      → (old.vote <? req.vote) ≡ true
      → handle_vote_req c'.engine later u old ≡ done (respond_vote c'.engine false)
  granted_once c c' evs now later t u req old e g f f' r lt =
      let (e1, g1, vote, _, _) = handle_vote_req_lem c.engine now t req f in
      let (same, may) = respond_inj e e1 true (may_vote c.engine.node.state now req) (sym g ∙ g1) in
      let (ahead, _) = run-Ahead (with_engine c (answer_ballot e)) c' evs r in
      let is_req : e.node.state.vote.data_of ≡ req.vote =
        ap (λ (x : Engine N). x.node.state.vote.data_of) same
        ∙ vote
        ∙ ap (λ (b : Bool). if b then req.vote else c.engine.node.state.vote.data_of) (sym may) in
      let greater =
        lt?_le?_trans {A = Vote} old.vote req.vote c'.engine.node.state.vote.data_of lt
          (rw (← is_req) ahead) in
      let (e2, g2, _, _, unchanged) = handle_vote_req_lem c'.engine later u old f' in
      let no =
        not_may c'.engine.node.state later old (
          ground
            (arith, greater, lt?_flip {A = Vote} old.vote c'.engine.node.state.vote.data_of)) in
      g2
      ∙ ap (λ (b : Bool). done (respond_vote e2 b)) no
      ∙ ap (λ (x : Engine N). done (respond_vote x false)) (unchanged no)
