-- ===== src/RaftCore/Balance.antt =====
-- The shares of messages and notifications (openraft/src/core/balancer.rs) in `runtime_loop` of
-- openraft/src/core/raft_core.rs.
use async_raft.Base.{
  ℕ, ◌+◌, ◌*◌, ◌/◌, ◌<◌, ◌≤◌, ◌≡◌, refl, if◌then◌else◌, ltb, leb, ◌==◌, Bool-cases, inl, inr, arith,
}
use async_raft.RaftCore.Loop.{
  Balancer, new, notification_of, increase_notification, increase_raft_msg, rebalance, idle,
}

-- Messages get at least one in a round and at most half of it.
pub record IsBalanced (b : Balancer) : Type 0 where
  pub enough : 2 ≤ b.total
  pub some_messages : 0 < b.raft_msg
  pub half : b.raft_msg ≤ b.total / 2

new-IsBalanced : (total : ℕ) → 10 ≤ total → IsBalanced (new total)
new-IsBalanced total h = record {
  enough = omega arith;
  some_messages = omega arith;
  half = omega arith;
}

pub rebalance-IsBalanced : (b : Balancer) (m n : ℕ) → IsBalanced b → IsBalanced (rebalance b m n)
unfolding rebalance increase_notification increase_raft_msg
rebalance-IsBalanced b m n v = ground arith

-- The share of the messages after a round: a sixteenth less, but at least one, if the notifications that
-- wait are at least all but one of their share; else a sixteenth more, but at most half, if that
-- holds of the messages.
abbrev pub shared : Balancer → ℕ → ℕ → ℕ
shared b messages notifications =
    if leb (notification_of b) (notifications + 1)
    then (if leb 1 (b.raft_msg * 15 / 16) then b.raft_msg * 15 / 16 else 1)
    else if leb b.raft_msg (messages + 1)
    then (if leb (b.raft_msg * 17 / 16) (b.total / 2) then b.raft_msg * 17 / 16 else b.total / 2)
    else b.raft_msg

counted-share :
    (left size count : ℕ)
    → count ≡ (if ltb size left then 0 + size + 1 else 0 + left)
    → (count == left) ≡ leb left (size + 1)
counted-share left size count e = ground (arith, e)

pub rebalance-shared :
    (b : Balancer) (messages notifications m n : ℕ)
    → m ≡ (if ltb messages b.raft_msg then 0 + messages + 1 else 0 + b.raft_msg)
    → n ≡ (
        if ltb notifications (notification_of b)
        then 0 + notifications + 1
        else 0 + notification_of b)
    → ((rebalance b m n).total ≡ b.total)
      × ((rebalance b m n).raft_msg ≡ shared b messages notifications)
unfolding rebalance increase_notification increase_raft_msg
rebalance-shared b messages notifications m n p q =
    let many = counted-share b.raft_msg messages m p in
    let full = counted-share (notification_of b) notifications n q in
    rw (full, many)
      (elim (Bool-cases (leb (notification_of b) (notifications + 1))) [
        | inl busy ↦ rw busy (refl, ground arith)
        | inr free ↦ elim (Bool-cases (leb b.raft_msg (messages + 1))) [
          | inl busy ↦ rw (free, busy) (refl, ground arith)
          | inr idle ↦ rw (free, idle) (refl, refl)
        ]
      ])
