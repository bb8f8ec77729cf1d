-- ===== src/RaftCore/Rounds.antt =====
-- A round of `runtime_loop` of openraft/src/core/raft_core.rs leaves neither channel without a share.
use async_raft.Base.{
  ℕ, zero, suc, ◌+◌, ◌*◌, ◌≤◌, ◌≡◌, refl, ap, sym, subst, Ensures-done, Bool, List, [], ◌∷◌, ◌++◌,
  Option, none, some, if◌then◌else◌, ltb, Checked, done, panicked, Ensures, Ensures-map, arith,
  length,
}
use async_raft.Membership.State.{Eq}
use async_raft.Handler.{Command}
use async_raft.Replication.{Leading, initiate_replication}
use async_raft.Replication.Kept.{Still, initiate_replication-Still}
use async_raft.Leader.{Leader}
use async_raft.Engine.{leading}
use async_raft.Engine.Ahead.{Ahead, Ahead-refl, Ahead-trans}
use async_raft.RaftCore.{Core}
use async_raft.RaftCore.Runs.{Event, commands, step, Advanced, Next, step-Ahead}
use async_raft.RaftCore.Loop.{
  notification_of, ◌>>=◌, Work, Loop, handle, process, keep_replicating, idle, round,
}
use async_raft.RaftCore.Balance.{IsBalanced, rebalance-IsBalanced, shared, rebalance-shared}

-- What holds of the result, if there is no panic and no fatal error.
abbrev Reached : {A : Type 0} → (A → Type 0) → Option A → Type 0
Reached P none = Unit
Reached P (some a) = P a

Reached-bind :
    {A B : Type 0} (m : Checked (Option A)) (f : A → Checked (Option B)) (P : A → Type 0)
    (Q : B → Type 0)
    → Ensures m (Reached P)
    → ((a : A) → P a → Ensures (f a) (Reached Q))
    → Ensures (m >>= f) (Reached Q)
Reached-bind panicked f P Q p h = tt
Reached-bind (done none) f P Q p h = tt
Reached-bind (done (some a)) f P Q p h = h a p

Reached-map :
    {A : Type 0} (m : Checked (Option A)) (P Q : A → Type 0)
    → Ensures m (Reached P)
    → ((a : A) → P a → Q a)
    → Ensures m (Reached Q)
Reached-map panicked P Q p h = tt
Reached-map (done none) P Q p h = tt
Reached-map (done (some a)) P Q p h = h a p

module _ {N : Type 0} ⦃q : Eq N⦄ where
  onward : (a b c : Core N) → Advanced a b → Advanced b c → Advanced a c
  onward a b c = Ahead-trans a.engine.node.state b.engine.node.state c.engine.node.state

  stepped : (c : Core N) (ev : Event N) → Ensures (step c ev) (Reached (Advanced c))
  stepped c ev = Ensures-map (step c ev) (Next c) (Reached (Advanced c)) (step-Ahead c ev) reach
    where
      reach : (o : Option (Core N)) → Next c o → Reached (Advanced c) o
      reach none h = tt
      reach (some c') h = h

  handle-Advanced : (c : Core N) (w : Work N) → Ensures (handle c w) (Reached (Advanced c))
  unfolding handle
  handle-Advanced c (ev, stored) =
      Reached-bind (step c ev) _ (Advanced c) (Advanced c) (stepped c ev) (λ c1 a.
        Reached-map (step c1 (commands stored)) (Advanced c1) (Advanced c)
          (stepped c1 (commands stored)) (λ c2 b. onward c c1 c2 a b))

  -- As many as wait, but no more than allowed.
  abbrev pub least : ℕ → List (Work N) → ℕ
  least left works = if ltb (length works) left then length works else left

  -- What is processed is the first part of what waits, as much as allowed.
  abbrev pub Processed : Core N → ℕ → ℕ → List (Work N) → Core N × List (Work N) × ℕ → Type 0
  Processed c left i works (c', rest, count) =
      Advanced c c'
      × ((taken : List (Work N)) × (works ≡ taken ++ rest) × (length taken ≡ least left works))
      × (count ≡ (if ltb (length works) left then i + length works + 1 else i + left))

  process_lem :
      (left i : ℕ) (works : List (Work N)) (c : Core N)
      → Ensures (process left i works c) (Reached (Processed c left i works))
  unfolding process
  process_lem zero i works c =
      (Ahead-refl c.engine.node.state, ([], refl, ground arith), ground arith)
  process_lem (suc left) i [] c =
      (Ahead-refl c.engine.node.state, ([], refl, ground arith), ground arith)
  process_lem (suc left) i (w ∷ works) c =
      Reached-bind (handle c w) _ (Advanced c) (Processed c (suc left) i (w ∷ works))
        (handle-Advanced c w)
        (λ c1 a.
          Reached-map (process left (i + 1) works c1) (Processed c1 left (i + 1) works)
            (Processed c (suc left) i (w ∷ works)) (process_lem left (i + 1) works c1)
            (λ (c2, rest, count) (b, (taken, e, size), counted). (
              onward c c1 c2 a b,
              (w ∷ taken, ap (λ ws. w ∷ ws) e, ground (arith, size)),
              ground (arith, counted),
            )))

  idle-Advanced :
      (c : Core N) (m : Checked (Leading N))
      → Ensures m (λ l. Still c.engine.node l.node)
      → Ensures (idle c m) (Reached (Advanced c))
  idle-Advanced c panicked h = tt
  idle-Advanced c (done l) h =
      subst (λ st. Ahead c.engine.node.state st) (sym h.1) (Ahead-refl c.engine.node.state)

  keep_as :
      (c : Core N) (o : Option Leader)
      → Ensures
          (elim o as (λ _. Checked (Option (Core N))) [
            | none ↦ done (some c)
            | some l ↦ idle c (initiate_replication (leading c.engine l))
          ])
          (Reached (Advanced c))
  keep_as c none = Ahead-refl c.engine.node.state
  keep_as c (some l) =
      idle-Advanced c (initiate_replication (leading c.engine l))
        (initiate_replication-Still (leading c.engine l))

  keep_replicating-Advanced : (c : Core N) → Ensures (keep_replicating c) (Reached (Advanced c))
  unfolding keep_replicating
  keep_replicating-Advanced c = keep_as c c.engine.leader

  -- What a round leaves.
  abbrev pub Rounded :
      Loop N → List (Work N) → List (Work N) → Loop N × List (Work N) × List (Work N) → Type 0
  Rounded s messages notifications (s', messages', notifications') =
      IsBalanced s'.balancer
      × Advanced s.core s'.core
      × ((taken : List (Work N)) × (messages ≡ taken ++ messages')
          × (length taken ≡ least s.balancer.raft_msg messages))
      × ((taken : List (Work N)) × (notifications ≡ taken ++ notifications')
          × (length taken ≡ least (notification_of s.balancer) notifications))
      × (s'.balancer.total ≡ s.balancer.total)
      × (s'.balancer.raft_msg ≡ shared s.balancer (length messages) (length notifications))

  round-Rounded :
      (s : Loop N) (wake : Work N) (messages notifications : List (Work N))
      (stored : Command N → Bool)
      → IsBalanced s.balancer
      → Ensures
          (round s wake messages notifications stored)
          (Reached (Rounded s messages notifications))
  unfolding round
  round-Rounded s wake messages notifications stored v =
      let goal = Rounded s messages notifications in
      Reached-bind (handle s.core wake) _ (Advanced s.core) goal (handle-Advanced s.core wake)
        (λ c1 p.
          Reached-bind (process s.balancer.raft_msg 0 messages c1) _
            (Processed c1 s.balancer.raft_msg 0 messages) goal
            (process_lem s.balancer.raft_msg 0 messages c1)
            (λ a (pa, ta, na).
              Reached-bind (process (notification_of s.balancer) 0 notifications a.0) _
                (Processed a.0 (notification_of s.balancer) 0 notifications) goal
                (process_lem (notification_of s.balancer) 0 notifications a.0)
                (λ b (pb, tb, nb).
                  Reached-bind (keep_replicating b.0) _ (Advanced b.0) goal
                    (keep_replicating-Advanced b.0)
                    (λ c2 p2.
                      Reached-bind (step c2 (commands stored)) _ (Advanced c2) goal
                        (stepped c2 (commands stored))
                        (λ c3 p3.
                          let shares =
                            rebalance-shared s.balancer (length messages) (length notifications) a.2
                              b.2 na nb in
                          (
                            rebalance-IsBalanced s.balancer a.2 b.2 v,
                            onward s.core c1 c3 p (
                                onward c1 a.0 c3 pa
                                  (onward a.0 b.0 c3 pb (onward b.0 c2 c3 p2 p3))),
                            ta,
                            tb,
                            shares.0,
                            shares.1,
                          ))))))

  -- A round of the loop that does not end in a panic or a fatal error takes, besides the message or the
  -- notification that wakes it up, messages and notifications from the front of their channels: all
  -- that wait there, but no more of each than its share. The vote and the committed log id do not go
  -- back. The share of the messages becomes a sixteenth less, but at least one, if the notifications
  -- that wait are at least all but one of their share; otherwise a sixteenth more, but at most half, if
  -- that holds of the messages. Afterwards messages still get at least one, and notifications at least
  -- half.
  pub round_lem :
      (s s' : Loop N) (wake : Work N)
      (messages notifications messages' notifications' : List (Work N)) (stored : Command N → Bool)
      → IsBalanced s.balancer
      → round s wake messages notifications stored ≡ done (some (s', messages', notifications'))
      → Rounded s messages notifications (s', messages', notifications')
        × (s'.balancer.total ≤ 2 * notification_of s'.balancer)
  round_lem s s' wake messages notifications messages' notifications' stored v h =
      let r =
        Ensures-done (round s wake messages notifications stored)
          (Reached (Rounded s messages notifications))
          (round-Rounded s wake messages notifications stored v) h in
      (r, let half = r.0.half in omega (arith, half))
