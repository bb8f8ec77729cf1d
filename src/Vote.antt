-- ===== src/Vote.antt =====
-- openraft/src/vote: leader ids with their two orders (leader_id/leader_id_cmp.rs,
-- leader_id_adv.rs, leader_id_std.rs), votes (vote.rs, raft_vote.rs, committed.rs,
-- non_committed.rs) and their order (ref_vote.rs). Children: proofs about each order.
pub mod StdOrder
pub mod AdvOrder
use async_raft.Base.{
  ℕ, compare, Ordering, Option, none, some, Bool, true, false, ◌==◌, if◌then◌else◌, Checked, done,
  panicked, add64, ◌≡◌, arith,
}
use async_raft.Base.Order.{Ord, by_fields, lex, cmp_option, nat_ord}

-- What `RefVote` and `LeaderIdCompare` read of a leader id.
pub record RaftLeaderId (L : Type 0) : Type 0 where
  pub term : L → ℕ
  pub node_id : L → Option ℕ

-- `leader_id_adv::LeaderId`: many leaders may be granted in one term.
pub record LeaderId : Type 0 where
  pub term : ℕ
  pub node_id : ℕ

-- `leader_id_std::LeaderId`: at most one leader in a term.
pub record StdLeaderId : Type 0 where
  pub term : ℕ
  pub voted_for : Option ℕ

instance abbrev pub adv_leader_id : RaftLeaderId LeaderId
adv_leader_id = record { term = λ a. a.term; node_id = λ a. some a.node_id }

instance abbrev pub std_leader_id : RaftLeaderId StdLeaderId
std_leader_id = record { term = λ a. a.term; node_id = λ a. a.voted_for }

abbrev std_node_cmp : Option ℕ → Option ℕ → Option Ordering
std_node_cmp none none = some Ordering.eq
std_node_cmp (some a) none = some Ordering.gt
std_node_cmp none (some b) = some Ordering.lt
std_node_cmp (some a) (some b) = if a == b then some Ordering.eq else none

-- `LeaderIdCompare::std` and `LeaderIdCompare::adv`.
unfoldable pub std_cmp : {L : Type 0} ⦃l : RaftLeaderId L⦄ → L → L → Option Ordering
std_cmp ⦃l⦄ a b = elim (compare (l.term a) (l.term b)) [
  | Ordering.eq ↦ std_node_cmp (l.node_id a) (l.node_id b)
  | Ordering.lt ↦ some Ordering.lt
  | Ordering.gt ↦ some Ordering.gt
]

unfoldable pub adv_cmp : {L : Type 0} ⦃l : RaftLeaderId L⦄ → L → L → Option Ordering
adv_cmp ⦃l⦄ a b =
    some (lex (compare (l.term a) (l.term b)) (cmp_option (l.node_id a) (l.node_id b)))

pub record RefVote (L : Type 0) : Type 0 where
  pub leader_id : Option L
  pub committed : Bool

-- The derived `PartialOrd` of `bool` and of `Option`.
abbrev pub bool_cmp : Bool → Bool → Ordering
bool_cmp false false = Ordering.eq
bool_cmp false true = Ordering.lt
bool_cmp true false = Ordering.gt
bool_cmp true true = Ordering.eq

abbrev pub option_partial_cmp :
    {L : Type 0} → (L → L → Option Ordering) → Option L → Option L → Option Ordering
option_partial_cmp c none none = some Ordering.eq
option_partial_cmp c none (some b) = some Ordering.lt
option_partial_cmp c (some a) none = some Ordering.gt
option_partial_cmp c (some a) (some b) = c a b

-- Incomparable leader ids: the committed vote is the greater; two committed ones are a panic.
abbrev pub incomparable_cmp : Bool → Bool → Checked (Option Ordering)
incomparable_cmp false false = done none
incomparable_cmp true false = done (some Ordering.gt)
incomparable_cmp false true = done (some Ordering.lt)
incomparable_cmp true true = panicked

-- `RefVote::partial_cmp`, over the order of the leader ids.
unfoldable pub ref_vote_cmp :
    {L : Type 0} → (L → L → Option Ordering) → RefVote L → RefVote L → Checked (Option Ordering)
ref_vote_cmp c a b = elim (option_partial_cmp c a.leader_id b.leader_id) [
  | none ↦ incomparable_cmp a.committed b.committed
  | some Ordering.eq ↦ done (some (bool_cmp a.committed b.committed))
  | some Ordering.lt ↦ done (some Ordering.lt)
  | some Ordering.gt ↦ done (some Ordering.gt)
]

-- The operators `>=` and `>` that Rust derives from `partial_cmp`.
abbrev pub is_ge : Checked (Option Ordering) → Bool
is_ge (done (some Ordering.gt)) = true
is_ge (done (some Ordering.eq)) = true
is_ge _ = false

abbrev pub is_gt : Checked (Option Ordering) → Bool
is_gt (done (some Ordering.gt)) = true
is_gt _ = false

-- `Vote` over the default leader id.
pub record Vote : Type 0 where
  pub leader_id : LeaderId
  pub committed : Bool

-- `CommittedVote` and `NonCommittedVote` hold a leader id only.
pub record CommittedVote : Type 0 where
  pub leader_id : LeaderId

pub record NonCommittedVote : Type 0 where
  pub leader_id : LeaderId

abbrev pub as_ref_vote : Vote → RefVote LeaderId
as_ref_vote v = record { leader_id = some v.leader_id; committed = v.committed }

unfoldable pub vote_ge : Vote → Vote → Bool
unfolding ref_vote_cmp adv_cmp
vote_ge a b = is_ge (ref_vote_cmp adv_cmp (as_ref_vote a) (as_ref_vote b))

unfoldable pub vote_gt : Vote → Vote → Bool
unfolding ref_vote_cmp adv_cmp
vote_gt a b = is_gt (ref_vote_cmp adv_cmp (as_ref_vote a) (as_ref_vote b))

abbrev pub to_committed : Vote → CommittedVote
to_committed v = record { leader_id = v.leader_id }

abbrev pub to_non_committed : Vote → NonCommittedVote
to_non_committed v = record { leader_id = v.leader_id }

-- `CommittedVote::into_vote` and `NonCommittedVote::into_vote`.
abbrev pub committed_vote : CommittedVote → Vote
committed_vote v = record { leader_id = v.leader_id; committed = true }

abbrev pub non_committed_vote : NonCommittedVote → Vote
non_committed_vote v = record { leader_id = v.leader_id; committed = false }

-- `VoteStatus`.
pub data VoteStatus : Type 0 where
  committed : CommittedVote → VoteStatus
  pending : NonCommittedVote → VoteStatus

unfoldable pub into_vote_status : Vote → VoteStatus
into_vote_status v =
    if v.committed
    then VoteStatus.committed (to_committed v)
    else VoteStatus.pending (to_non_committed v)

-- `RaftTerm::next` of `u64`.
unfoldable pub next_term : ℕ → ℕ
next_term t = add64 t 1

-- `Default` of a vote: term 0, node 0, not committed.
abbrev pub default_vote : Vote
default_vote = record { leader_id = record { term = 0; node_id = 0 }; committed = false }

-- The order that `#[derive(PartialOrd, Ord)]` gives `leader_id_adv::LeaderId`.
pub LeaderId-fields_eq : (a b : LeaderId) → a.term ≡ b.term → a.node_id ≡ b.node_id → a ≡ b
LeaderId-fields_eq a b p q = ground arith

instance abbrev pub leader_id_ord : Ord LeaderId
leader_id_ord = by_fields (λ a. a.term) (λ a. a.node_id) LeaderId-fields_eq
