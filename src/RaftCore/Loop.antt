-- ===== src/RaftCore/Loop.antt =====
-- `runtime_loop`, `process_raft_msg` and `process_notification` of openraft/src/core/raft_core.rs, and the
-- balance of the two in core/balancer.rs. What waits in a channel is a list; a shutdown ends the runs
-- of this model, and closed channels are not in it. Each message comes with what the log store answers to
-- the commands after it.
use async_raft.Base.{
  ℕ, zero, suc, ◌+◌, ◌-◌, ◌*◌, ◌/◌, Bool, List, [], ◌∷◌, Option, none, some, if◌then◌else◌, ltb,
  ◌==◌, Checked, done, panicked,
}
use async_raft.Membership.State.{Eq}
use async_raft.Handler.{Command}
use async_raft.Replication.{Leading, initiate_replication}
use async_raft.Engine.{leading, with_leading}
use async_raft.RaftCore.{Core, with_engine}
use async_raft.RaftCore.Runs.{Event, commands, step}

pub record Balancer : Type 0 where
  pub total : ℕ
  pub raft_msg : ℕ

abbrev pub new : ℕ → Balancer
new total = record { total = total; raft_msg = total / 10 }

abbrev pub notification_of : Balancer → ℕ
notification_of b = b.total - b.raft_msg

unfoldable pub increase_notification : Balancer → Balancer
increase_notification b =
    let less = b.raft_msg * 15 / 16 in record b { raft_msg = if less == 0 then 1 else less }

unfoldable pub increase_raft_msg : Balancer → Balancer
increase_raft_msg b =
    let more = b.raft_msg * 17 / 16 in
    record b { raft_msg = if ltb (b.total / 2) more then b.total / 2 else more }

-- Which of the two gets a greater share, after so many of each were processed.
unfoldable pub rebalance : Balancer → ℕ → ℕ → Balancer
unfolding increase_notification increase_raft_msg
rebalance b raft_msg_processed notify_processed =
    if notify_processed == notification_of b
    then increase_notification b
    else if raft_msg_processed == b.raft_msg
    then increase_raft_msg b
    else b

-- A panic, a fatal error, or a result.
infixl 5 ◌>>=◌
abbrev pub ◌>>=◌ :
    {A B : Type 0} → Checked (Option A) → (A → Checked (Option B)) → Checked (Option B)
panicked >>= f = panicked
done none >>= f = done none
done (some a) >>= f = f a

abbrev pub Work : Type 0 → Type 0
Work N = Event N × (Command N → Bool)

pub record Loop (N : Type 0) : Type 0 where
  pub core : Core N
  pub balancer : Balancer

module _ {N : Type 0} ⦃q : Eq N⦄ where
  -- A message or a notification, and the commands after it.
  unfoldable pub handle : Core N → Work N → Checked (Option (Core N))
  handle c (ev, stored) = do c' ← step c ev; step c' (commands stored)

  -- `process_raft_msg` and `process_notification`, which has handled `i` of at most `i + left` so far: the
  -- state, what is left in the channel, and what is counted.
  unfoldable pub process :
      ℕ → ℕ → List (Work N) → Core N → Checked (Option (Core N × List (Work N) × ℕ))
  process zero i works c = done (some (c, works, i))
  process (suc left) i [] c = done (some (c, [], i + 1))
  process (suc left) i (w ∷ works) c = do c' ← handle c w; process left (i + 1) works c'

  abbrev pub idle : Core N → Checked (Leading N) → Checked (Option (Core N))
  idle c panicked = panicked
  idle c (done l) = done (some (with_engine c (with_leading c.engine l)))

  -- A leader keeps replicating to the nodes that nothing is on its way to.
  unfoldable pub keep_replicating : Core N → Checked (Option (Core N))
  keep_replicating c = elim c.engine.leader [
    | none ↦ done (some c)
    | some l ↦ idle c (initiate_replication (leading c.engine l))
  ]

  -- One round, woken up by one message or notification.
  unfoldable pub round :
      Loop N
      → Work N
      → List (Work N)
      → List (Work N)
      → (Command N → Bool)
      → Checked (Option (Loop N × List (Work N) × List (Work N)))
  round s wake messages notifications stored = do
    c1 ← handle s.core wake
    a ← process s.balancer.raft_msg 0 messages c1
    b ← process (notification_of s.balancer) 0 notifications a.0
    c2 ← keep_replicating b.0
    c3 ← step c2 (commands stored)
    done (some (record { core = c3; balancer = rebalance s.balancer a.2 b.2 }, a.1, b.1))
