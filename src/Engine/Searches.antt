-- ===== src/Engine/Searches.antt =====
-- What a new leader knows of the other nodes, and when it is established: openraft/src/proposer/leader.rs and
-- openraft/src/engine/handler/establish_handler.
use async_raft.Base.{
  ℕ, ◌+◌, ◌≡◌, refl, true, false, ◌==◌, List, [], ◌∷◌, ◌++◌, Option, none, some, All, arith,
  Bool-cases, inl, inr,
}
use async_raft.Base.Order.{◌<?◌, option_ord}
use async_raft.Vote.{Vote, leader_id_ord, committed_vote, to_committed}
use async_raft.Vote.AdvOrder.{vote_ord, vote_gt_lem}
use async_raft.LogId.{LogId, log_id_ord, next_index}
use async_raft.Progress.{VecProgress, with_default}
use async_raft.Progress
use async_raft.Quorum.{joint_ids}
use async_raft.ProgressEntry.{ProgressEntry, empty}
use async_raft.Candidate.{Candidate}
use async_raft.Leader.{Leader, into_leader, first_own, matching_of}
use async_raft.Leader
use async_raft.Replication.{reset_inflight}
use async_raft.Replication.Sends.{IsSearched}
use async_raft.Engine.Voting.{establish}

-- Forgetting what is inflight keeps the searches.
pub reset_inflight-IsSearched :
    (end me : ℕ) (xs : List (ℕ × ProgressEntry))
    → All (λ x. IsSearched end x.1) xs
    → All (λ x. IsSearched end x.1) (reset_inflight me xs)
unfolding reset_inflight
reset_inflight-IsSearched end me [] a = tt
reset_inflight-IsSearched end me ((id, e) ∷ xs) (s, a) = elim (Bool-cases (id == me)) [
  | inl own ↦ rw own (s, reset_inflight-IsSearched end me xs a)
  | inr other ↦ rw other (s, reset_inflight-IsSearched end me xs a)
]

each-IsSearched :
    (end : ℕ) (v : ProgressEntry) (xs : List ℕ)
    → IsSearched end v
    → All (λ x. IsSearched end x.1) (with_default v xs)
each-IsSearched end v [] s = tt
each-IsSearched end v (x ∷ xs) s = (s, each-IsSearched end v xs s)

default-IsSearched :
    (end : ℕ) (v : ProgressEntry) (xs : List ℕ) (ys : List (ℕ × ProgressEntry))
    → IsSearched end v
    → All (λ x. IsSearched end x.1) ys
    → All (λ x. IsSearched end x.1) (with_default v xs ++ ys)
default-IsSearched end v [] ys s a = a
default-IsSearched end v (x ∷ xs) ys s a = (s, default-IsSearched end v xs ys s a)

-- The search of a new leader ends at the end of its log, for every node.
pub new_leader-IsSearched :
    (now : ℕ) (c : Candidate) (last : LogId)
    → c.last_log_id ≡ some last
    → All (λ x. IsSearched (next_index (some last)) x.1) (into_leader now c).progress.vector
unfolding into_leader Leader.new Progress.new empty
new_leader-IsSearched now c last h =
    let end = next_index (some last) in
    let fresh : IsSearched end (empty end) = (omega arith, omega arith) in
    rw h (
      default-IsSearched end (empty end) (joint_ids c.quorum_set)
        (with_default (empty end) c.learner_ids) fresh
        (each-IsSearched end (empty end) c.learner_ids fresh))

-- A vote is smaller than the same vote once it is committed.
pub commit-greater :
    (v : Vote) → v.committed ≡ false → (v <? committed_vote (to_committed v)) ≡ true
commit-greater v h = ground (arith, h)

pub establish-new :
    (now : ℕ) (o : Option Leader) (c : Candidate)
    → ((l : Leader) → o ≡ some l → (committed_vote l.committed_vote <? c.vote) ≡ true)
    → establish now o c ≡ some (into_leader now c)
unfolding establish
establish-new now none c h = refl
establish-new now (some l) c h =
    rw (vote_gt_lem c.vote (committed_vote l.committed_vote), h l refl) refl

-- The first log of a new leader.
abbrev pub first_of : Vote → LogId → LogId
first_of v last = record { leader_id = v.leader_id; index = last.index + 1 }
