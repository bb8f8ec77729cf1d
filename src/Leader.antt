-- ===== src/Leader.antt =====
-- openraft/src/proposer/leader.rs, and `into_leader` of candidate.rs: a leader's logs and the progress of
-- the nodes. Debug assertions are no part of the model. Children: proofs.
pub mod Acked
pub mod Assign
use async_raft.Base.{
  ℕ, suc, ◌-◌, Bool, true, false, List, [], ◌∷◌, Option, none, some, if◌then◌else◌, add64, sub64,
}
use async_raft.Base.Order.{◌=?◌, option_ord, nat_ord}
use async_raft.Vote.{CommittedVote, LeaderId, leader_id_ord, to_committed}
use async_raft.LogId.{LogId, log_id_ord, next_index}
use async_raft.Progress.{VecProgress, Found, found, not_found, increase_to}
use async_raft.Progress
use async_raft.ProgressEntry.{ProgressEntry, empty}
use async_raft.Handler.{Entry}
use async_raft.Candidate.{Candidate}

pub record Leader : Type 0 where
  pub transfer_to : Option ℕ
  pub committed_vote : CommittedVote
  pub next_heartbeat : ℕ
  pub last_log_id : Option LogId
  pub noop_log_id : Option LogId
  pub progress : VecProgress ProgressEntry (Option LogId)
  pub clock_progress : VecProgress (Option ℕ) (Option ℕ)

-- What is compared of an entry, and of a time.
abbrev pub matching_of : ProgressEntry → Option LogId
matching_of e = e.matching

abbrev pub clock_of : Option ℕ → Option ℕ
clock_of t = t

-- `LeaderLogIds::last`.
abbrev pub last_of_leader : Option (LogId × LogId) → Option LogId
last_of_leader none = none
last_of_leader (some ids) = some ids.1

-- The first log of this leader: one that it proposed before, or the next one.
unfoldable pub first_own : LeaderId → Option (LogId × LogId) → LogId
first_own d none = record { leader_id = d; index = next_index none }
first_own d (some ids) =
    if ids.0.leader_id =? d
    then ids.0
    else record { leader_id = d; index = next_index (some ids.1) }

-- `new`, at the time `now`.
unfoldable pub new : ℕ → CommittedVote → List (List ℕ) → List ℕ → Option (LogId × LogId) → Leader
unfolding first_own Progress.new empty
new now vote qs learners ids = record {
  transfer_to = none;
  committed_vote = vote;
  next_heartbeat = now;
  last_log_id = last_of_leader ids;
  noop_log_id = some (first_own vote.leader_id ids);
  progress = Progress.new matching_of qs learners (empty (next_index (last_of_leader ids)));
  clock_progress = Progress.new clock_of qs learners none;
}

abbrev pub mark_transfer : Leader → ℕ → Leader
mark_transfer l to = record l { transfer_to = some to }

abbrev last_twice : Option LogId → Option (LogId × LogId)
last_twice none = none
last_twice (some l) = some (l, l)

-- `Candidate::into_leader`.
unfoldable pub into_leader : ℕ → Candidate → Leader
unfolding new
into_leader now c =
    new now (to_committed c.vote) c.quorum_set c.learner_ids (last_twice c.last_log_id)

module _ {N : Type 0} where
  -- The loop of `assign_log_ids`: the entries, and the index after the last one.
  unfoldable pub assign : LeaderId → ℕ → List (Entry N) → List (Entry N) × ℕ
  unfolding add64
  assign d index [] = ([], index)
  assign d index (e ∷ es) =
      let (rest, end) = assign d (add64 index 1) es in
      (record e { log_id = record { leader_id = d; index = index } } ∷ rest, end)

  unfoldable pub assign_log_ids : Leader → List (Entry N) → Leader × List (Entry N)
  unfolding assign sub64
  assign_log_ids l [] = (l, [])
  assign_log_ids l (e ∷ es) =
      let d = l.committed_vote.leader_id in
      let (es', end) = assign d (next_index l.last_log_id) (e ∷ es) in
      (record l { last_log_id = some (record { leader_id = d; index = sub64 end 1 }) }, es')

-- `last_quorum_acked_time`: the leader's own time is now.
unfoldable pub last_quorum_acked_time : Leader → ℕ → Leader × Option ℕ
unfolding increase_to
last_quorum_acked_time l now =
    let (progress', result) =
      increase_to clock_of l.clock_progress l.committed_vote.leader_id.node_id (some now) in
    (record l { clock_progress = progress' }, elim result [ found t ↦ t | not_found t ↦ t ])
