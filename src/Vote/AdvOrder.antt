-- ===== src/Vote/AdvOrder.antt =====
-- The vote order of the default leader id (leader_id_adv.rs, ref_vote.rs).
use async_raft.Base.{compare, ◌≡◌, Bool, Ordering, some, done, arith}
use async_raft.Base.Order.{Ord, by_fields, nat_ord, flip, lex, ◌≤?◌, ◌<?◌}
use async_raft.Vote.{
  leader_id_ord, Vote, as_ref_vote, adv_leader_id, adv_cmp, bool_cmp, ref_vote_cmp, vote_ge,
  vote_gt,
}

pub bool_cmp_eq : (a b : Bool) → bool_cmp a b ≡ Ordering.eq → a ≡ b
bool_cmp_eq a b h = ground arith

pub bool_cmp_self : (a : Bool) → bool_cmp a a ≡ Ordering.eq
bool_cmp_self a = ground arith

pub bool_cmp-flip : (a b : Bool) → bool_cmp b a ≡ flip (bool_cmp a b)
bool_cmp-flip a b = ground arith

pub bool_cmp_trans :
    (a b c : Bool)
    → bool_cmp a b ≡ Ordering.lt
    → bool_cmp b c ≡ Ordering.lt
    → bool_cmp a c ≡ Ordering.lt
bool_cmp_trans a b c p q = ground arith

instance abbrev pub bool_ord : Ord Bool
bool_ord = record {
  cmp = bool_cmp;
  cmp_eq = bool_cmp_eq;
  cmp_self = bool_cmp_self;
  cmp_flip = bool_cmp-flip;
  cmp_trans = bool_cmp_trans;
}

pub Vote-fields_eq : (a b : Vote) → a.leader_id ≡ b.leader_id → a.committed ≡ b.committed → a ≡ b
Vote-fields_eq a b p q = cc

-- Votes in the order of their terms, then nodes, then whether they are committed.
instance abbrev pub vote_ord : Ord Vote
vote_ord = by_fields (λ a. a.leader_id) (λ a. a.committed) Vote-fields_eq

-- With the default leader id no comparison of votes panics or is left undecided: it is the total
-- order by term, then node, then commitment.
pub ref_vote_cmp-total :
    (a b : Vote)
    → ref_vote_cmp adv_cmp (as_ref_vote a) (as_ref_vote b)
      ≡ done (
          some (
            lex
              (lex
                (compare a.leader_id.term b.leader_id.term)
                (compare a.leader_id.node_id b.leader_id.node_id))
              (bool_cmp a.committed b.committed)))
unfolding ref_vote_cmp adv_cmp
ref_vote_cmp-total a b = ground arith

-- The engine's tests are those of the total order.
pub vote_ge_lem : (a b : Vote) → vote_ge a b ≡ (b ≤? a)
unfolding vote_ge
vote_ge_lem a b = ground arith

pub vote_gt_lem : (a b : Vote) → vote_gt a b ≡ (b <? a)
unfolding vote_gt
vote_gt_lem a b = ground arith
