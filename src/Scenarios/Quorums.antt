-- ===== src/Scenarios/Quorums.antt =====
-- Quorums, memberships and the membership state of a cluster of nodes 1 to 4.
use async_raft.Base.{ℕ, ◌*◌, ◌<◌, ◌≡◌, refl, ◌↔◌, true, false, List, [], ◌∷◌, some, ◌==◌}
use async_raft.Base.Sets.{member}
use async_raft.Base.Order.{◌≤?◌, option_ord, nat_ord}
use async_raft.Quorum.{is_quorum, is_joint_quorum}
use async_raft.Quorum.Majority.{overlap, is_quorum-overlap}
use async_raft.LogId.{LogId, log_id_ord, index_of}
use async_raft.Vote.{leader_id_ord}
use async_raft.Membership.{Membership, replace_all_voters, change}
use async_raft.Membership.Change.{change-quorums_meet}
use async_raft.Membership.State.{MembershipState, EffectiveMembership, Eq, log_id, update_committed}
use async_raft.Membership.State.Invariant.{Inv, update_committed-Inv, agrees}

is_quorum-overlap_example :
    (is_quorum (1 ∷ 2 ∷ 3 ∷ []) (2 ∷ 3 ∷ []) ≡ true)
    ↔ (3 < 2 * overlap (1 ∷ 2 ∷ 3 ∷ []) (2 ∷ 3 ∷ []))
is_quorum-overlap_example =
    is_quorum-overlap (1 ∷ 2 ∷ 3 ∷ []) (2 ∷ 3 ∷ []) (refl, (refl, (refl, tt))) (refl, (refl, tt))

abbrev old_configs : List (List ℕ)
old_configs = (1 ∷ 2 ∷ 3 ∷ []) ∷ []

abbrev joint : List (List ℕ)
joint = (1 ∷ 2 ∷ 3 ∷ []) ∷ (3 ∷ 4 ∷ []) ∷ []

abbrev four_nodes : List (ℕ × ℕ)
four_nodes = (1, 10) ∷ (2, 20) ∷ (3, 30) ∷ (4, 40) ∷ []

abbrev three : Membership ℕ
three = record { configs = old_configs; nodes = four_nodes }

abbrev moving : Membership ℕ
moving = record { configs = joint; nodes = four_nodes }

change-quorums_meet_example :
    (id : ℕ) × (member id (1 ∷ 2 ∷ []) ≡ true) × (member id (2 ∷ 3 ∷ 4 ∷ []) ≡ true)
unfolding change is_joint_quorum
change-quorums_meet_example =
    change-quorums_meet three moving (replace_all_voters (3 ∷ 4 ∷ [])) false (1 ∷ 2 ∷ [])
      (2 ∷ 3 ∷ 4 ∷ []) (λ e. cc) refl (refl, (refl, tt)) (refl, (refl, (refl, tt))) refl refl

abbrev at : ℕ → ℕ → LogId
at term index = record { leader_id = record { term = term; node_id = 1 }; index = index }

abbrev first_membership : EffectiveMembership ℕ
first_membership = record {
  stored = record { log_id = some (at 1 1); membership = three };
  quorum_set = old_configs;
  voter_ids = 1 ∷ 2 ∷ 3 ∷ [];
}

abbrev second_membership : EffectiveMembership ℕ
second_membership = record {
  stored = record { log_id = some (at 1 5); membership = moving };
  quorum_set = joint;
  voter_ids = 1 ∷ 2 ∷ 3 ∷ 4 ∷ [];
}

abbrev both : MembershipState ℕ
both = record { committed = first_membership; effective = second_membership }

both-Inv : Inv both
both-Inv = record { by_id = refl; by_index = refl }

-- The equality of numbers, as nodes.
instance abbrev pub ℕ_eq : Eq ℕ
ℕ_eq = record { beq = λ a b. a == b }

-- The snapshot's membership, of a later leader and a smaller index than the effective one.
abbrev stale : EffectiveMembership ℕ
stale = record {
  stored = record { log_id = some (at 2 3); membership = three };
  quorum_set = old_configs;
  voter_ids = 1 ∷ 2 ∷ 3 ∷ [];
}

update_committed-Inv_example : Inv (update_committed both stale).0 ↔ (
    agrees both stale both-Inv (index_of (log_id both.effective) ≤? index_of (log_id stale)) ≡ true)
update_committed-Inv_example = update_committed-Inv both stale both-Inv
