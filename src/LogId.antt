-- ===== src/LogId.antt =====
-- openraft/src/log_id: the id of a log entry is the id of the leader that proposed it and its index.
-- The default leader id is its own committed leader id. The order is the derived one, leader first.
use async_raft.Base.{
  ℕ, ◌+◌, ◌<◌, ◌≡◌, Option, none, some, add64, add64_lem, u64_mod, Bool, ◌&&◌, ◌==◌, arith,
}
use async_raft.Base.Order.{Ord, by_fields, nat_ord}
use async_raft.Vote.{LeaderId, leader_id_ord, Vote, CommittedVote}

pub record LogId : Type 0 where
  pub leader_id : LeaderId
  pub index : ℕ

pub LogId-fields_eq : (a b : LogId) → a.leader_id ≡ b.leader_id → a.index ≡ b.index → a ≡ b
LogId-fields_eq a b p q = cc

instance abbrev pub log_id_ord : Ord LogId
log_id_ord = by_fields (λ a. a.leader_id) (λ a. a.index) LogId-fields_eq

-- `LogIdOptionExt` and `OptionRaftLogIdExt`.
abbrev pub index_of : Option LogId → Option ℕ
index_of none = none
index_of (some l) = some l.index

abbrev pub leader_of : Option LogId → Option LeaderId
leader_of none = none
leader_of (some l) = some l.leader_id

abbrev pub next_index : Option LogId → ℕ
next_index none = 0
next_index (some l) = add64 l.index 1

-- `LogIndexOptionExt::next_index` of an optional index.
abbrev pub index_next : Option ℕ → ℕ
index_next none = 0
index_next (some i) = add64 i 1

pub next_index_of : (o : Option LogId) → next_index o ≡ index_next (index_of o)
next_index_of none = async_raft.Base.refl
next_index_of (some l) = async_raft.Base.refl

-- `RaftVoteExt::is_same_leader`: the leader of the vote proposed the log.
abbrev pub is_same_leader : Vote → LeaderId → Bool
is_same_leader v l = (v.leader_id.term == l.term) && (v.leader_id.node_id == l.node_id)

-- `CommittedVote::committed_leader_id`.
abbrev pub committed_leader_id : CommittedVote → LeaderId
committed_leader_id v = v.leader_id
