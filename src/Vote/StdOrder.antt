-- ===== src/Vote/StdOrder.antt =====
-- The vote order when a term has at most one leader (leader_id_std.rs, leader_id_cmp.rs,
-- ref_vote.rs).
use async_raft.Base.{
  ◌≤◌, ◌≡◌, ◌≢◌, ◌↔◌, ◌⊎◌, Option, none, some, Bool, true, false, Ordering, Checked, panicked,
  arith,
}
use async_raft.Vote.{StdLeaderId, std_leader_id, std_cmp, RefVote, ref_vote_cmp, is_ge, is_gt}

-- The order of standard votes.
abbrev pub cmp : RefVote StdLeaderId → RefVote StdLeaderId → Checked (Option Ordering)
cmp = ref_vote_cmp std_cmp

-- The vote of a leader id.
abbrev pub vote_of : StdLeaderId → Bool → RefVote StdLeaderId
vote_of l c = record { leader_id = some l; committed = c }

-- The relation by which a vote is granted, `>=`, is transitive, and so is `>`: along a chain of
-- granted votes the last is `>=` the first, and `>` it if the first step was strict.
pub ge_trans :
    (a b c : StdLeaderId) (p q r : Bool)
    → is_ge (cmp (vote_of a p) (vote_of b q)) ≡ true
    → is_ge (cmp (vote_of b q) (vote_of c r)) ≡ true
    → (is_ge (cmp (vote_of a p) (vote_of c r)) ≡ true)
      × (is_gt (cmp (vote_of b q) (vote_of c r)) ≡ true
          → is_gt (cmp (vote_of a p) (vote_of c r)) ≡ true)
unfolding ref_vote_cmp std_cmp
ge_trans a b c p q r h k = (ground arith, λ g. ground arith)

-- Comparing two votes panics exactly if both are committed and their leaders are two nodes of one
-- term.
pub panics_iff :
    (a b : StdLeaderId) (p q : Bool)
    → (cmp (vote_of a p) (vote_of b q) ≡ panicked) ↔ (
        (p ≡ true)
        × (q ≡ true)
        × (a.term ≡ b.term)
        × (a.voted_for ≢ none)
        × (b.voted_for ≢ none)
        × (a.voted_for ≢ b.voted_for))
unfolding ref_vote_cmp std_cmp
panics_iff a b p q = (λ h. ground arith, λ h. ground arith)

-- Of a committed and a pending vote one is greater than the other, also where their leader ids are
-- incomparable; and the committed one is the greater if its term is not the smaller and it names a
-- node.
pub committed_decides :
    (a b : StdLeaderId)
    → ((is_gt (cmp (vote_of a true) (vote_of b false)) ≡ true)
        ⊎ (is_gt (cmp (vote_of b false) (vote_of a true)) ≡ true))
      × (b.term ≤ a.term
          → a.voted_for ≢ none
          → is_gt (cmp (vote_of a true) (vote_of b false)) ≡ true)
unfolding ref_vote_cmp std_cmp
committed_decides a b = (ground arith, λ h k. ground arith)
