-- ===== src/Scenarios/Leading.antt =====
-- A new leader of term 5, whose last logs are by the leader of term 3.
use async_raft.Base.{
  ℕ, ◌<◌, ◌≡◌, refl, sym, subst, some_inj, ◌⊎◌, get_elem?, true, [], ◌∷◌, Option, none, some,
}
use async_raft.Base.Order.{◌<?◌, ◌≤?◌, option_ord, nat_ord}
use async_raft.Vote.{CommittedVote}
use async_raft.LogId.{LogId, log_id_ord}
use async_raft.Quorum.{is_joint_quorum, joint_ids}
use async_raft.Progress.{VecProgress, update, increase_to, index, try_get}
use async_raft.Progress
use async_raft.Progress.Votes.{votes, HasQuorum}
use async_raft.Progress.Granted.{Inv}
use async_raft.Progress.Updates.{new-Inv, update-Inv}
use async_raft.Leader.{Leader, assign_log_ids, clock_of, last_quorum_acked_time}
use async_raft.Leader.Acked.{last_quorum_acked_time_lem}
use async_raft.Leader

abbrev at : ℕ → ℕ → LogId
at term index = record { leader_id = record { term = term; node_id = 1 }; index = index }

abbrev vote : CommittedVote
vote = record { leader_id = record { term = 5; node_id = 1 } }

abbrev leader : Leader
leader = Leader.new 100 vote ((1 ∷ 2 ∷ 3 ∷ []) ∷ []) (4 ∷ []) (some (at 3 4, at 3 7))

-- Node 2 has acknowledged the time 100; the leader, node 1, has not looked at the clock yet.
abbrev clock : VecProgress (Option ℕ) (Option ℕ)
clock = Progress.new clock_of ((1 ∷ 2 ∷ 3 ∷ []) ∷ []) (4 ∷ []) none

abbrev acked : Leader
acked = record leader { clock_progress = (update clock_of clock 2 (some 100)).0 }

acked-Inv : Inv clock_of none acked.clock_progress
unfolding Progress.new joint_ids try_get
acked-Inv =
    (update-Inv clock_of none clock 2 none (some 100)
      (new-Inv clock_of (1 ∷ 2 ∷ 3 ∷ []) [] (4 ∷ []) none) refl refl (λ i x s d. refl)).0

last_quorum_acked_time_lem_example :
    let r = last_quorum_acked_time acked 120 in
    let p = r.0.clock_progress in
    (q : Inv clock_of none p) × ((none ≤? r.1) ≡ true)
    × ((r.1 ≡ none) ⊎ HasQuorum clock_of p.quorum_set r.1 q.voters)
    × ((t : Option ℕ) → (r.1 <? t) ≡ true → ¬ HasQuorum clock_of p.quorum_set t q.voters)
    × ((i : ℕ)
        → index acked.clock_progress.vector 1 ≡ some i
        → 0 < votes clock_of (1 ∷ []) (some 120) p.vector)
    × (r.0 ≡ record acked { clock_progress = p })
unfolding Progress.new update index joint_ids is_joint_quorum Leader.new
last_quorum_acked_time_lem_example = last_quorum_acked_time_lem acked 120 acked-Inv (λ i x e g h t.
    let second : 1 ≡ i = some_inj e in
    let own : (1, none) ≡ x =
      some_inj (subst (λ j. get_elem? acked.clock_progress.vector j ≡ some x) (sym second) g) in
    subst (λ (y : ℕ × Option ℕ). (y.1 ≤? acked.clock_progress.granted) ≡ true) own refl)

at_last : (last_quorum_acked_time acked 120).1 ≡ some 100
unfolding Progress.new last_quorum_acked_time update increase_to joint_ids is_joint_quorum
    Leader.new
at_last = refl

-- A leader of five nodes, the first. Nodes 2, 3 and 4 acknowledge 5, 7 and 9, and the leader looks at
-- the clock after the first two of them. At 10 the answer is 8, though node 4 is the only other node that has acknowledged as much.
abbrev five : Leader
five = Leader.new 0 vote ((1 ∷ 2 ∷ 3 ∷ 4 ∷ 5 ∷ []) ∷ []) [] none

abbrev acks : Leader → ℕ → ℕ → Leader
acks l id t = record l { clock_progress = (increase_to clock_of l.clock_progress id (some t)).0 }

abbrev looks : Leader → ℕ → Leader
looks l now = (last_quorum_acked_time l now).0

acked_too_late :
    (last_quorum_acked_time (acks (looks (acks (looks (acks five 2 5) 6) 3 7) 8) 4 9) 10).1 ≡ some 8
unfolding Leader.new Progress.new last_quorum_acked_time increase_to joint_ids is_joint_quorum
acked_too_late = refl
