-- ===== src/Membership/Change.antt =====
-- The result of `Membership::change` and `next_coherent` (membership.rs).
use async_raft.Base.{
  ℕ, ◌≡◌, ◌≢◌, refl, ◌∙◌, ◌⊎◌, inl, inr, Bool, true, false, List, [], ◌∷◌, arith, All, none, ==_iff,
}
use async_raft.Base.Sets.{member, member-union, contains_key, Distinct}
use async_raft.Quorum.{joint_ids, find_coherent, is_coherent_with, is_joint_quorum}
use async_raft.Quorum.Coherent.{coherent_of_child, has_child_self, find_coherent_lem, coherent_meet}
use async_raft.Membership.{
  Membership, ChangeMembers, ok, in_configs, missing_node, has_empty, ensure_valid, change, changed,
  is_voter, contains, add_voter_ids, add_voters, remove_voters, replace_all_voters, add_nodes,
  set_nodes, remove_nodes, replace_all_nodes,
}

-- The voters are the ids of the joint.
pub member-joint_ids : (id : ℕ) (cs : List (List ℕ)) → member id (joint_ids cs) ≡ in_configs id cs
unfolding joint_ids in_configs
member-joint_ids id [] = refl
member-joint_ids id (c ∷ cs) =
    ground (arith, member-union id c (joint_ids cs), member-joint_ids id cs)

has_empty-All : (cs : List (List ℕ)) → has_empty cs ≡ false → All (λ c. c ≢ []) cs
unfolding has_empty
has_empty-All [] h = tt
has_empty-All ([] ∷ cs) h = cc
has_empty-All ((x ∷ c) ∷ cs) h = (λ e. cc, has_empty-All cs h)

coherent_self : (cs : List (List ℕ)) → cs ≢ [] → is_coherent_with cs cs ≡ true
coherent_self [] h = absurd (h refl)
coherent_self (c ∷ cs) h =
    coherent_of_child (c ∷ cs) (c ∷ cs) c (has_child_self c cs) (has_child_self c cs)

module _ {N : Type 0} where
  missing_node-none :
      (id : ℕ) (ids : List ℕ) (nodes : List (ℕ × N))
      → missing_node ids nodes ≡ none
      → member id ids ≡ true
      → contains_key id nodes ≡ true
  unfolding missing_node
  missing_node-none id [] nodes h m = cc
  missing_node-none id (j ∷ ids) nodes h m =
      ground (arith, missing_node-none id ids nodes, ==_iff id j)

  -- No config is without voters, and each voter has a node.
  pub record IsValid (m : Membership N) : Type 0 where
    pub non_empty : All (λ c. c ≢ []) m.configs
    pub voters_have_nodes : (id : ℕ) → is_voter m id ≡ true → contains m id ≡ true

  ensure_valid-IsValid : (m : Membership N) → ensure_valid m ≡ ok tt → IsValid m
  unfolding ensure_valid is_voter contains
  ensure_valid-IsValid m h = record {
    non_empty = has_empty-All m.configs (ground arith);
    voters_have_nodes = λ id v.
        missing_node-none id (joint_ids m.configs) m.nodes (ground arith)
          (member-joint_ids id m.configs ∙ v);
  }

  change-ok :
      (m m' : Membership N) (c : ChangeMembers N) (retain : Bool)
      → change m c retain ≡ ok m'
      → (ensure_valid (changed m c retain) ≡ ok tt) × (changed m c retain ≡ m')
  unfolding change
  change-ok m m' c retain h = ground arith

  -- A change that is accepted gives a valid membership.
  pub change-IsValid :
      (m m' : Membership N) (c : ChangeMembers N) (retain : Bool)
      → change m c retain ≡ ok m'
      → IsValid m'
  change-IsValid m m' c retain h =
      let (v, e) = change-ok m m' c retain h in
      rw e at (ensure_valid-IsValid (changed m c retain) v)

  -- A change keeps the configs, or steps to the coherent ones on the way to its goal.
  changed-configs :
      (m : Membership N) (c : ChangeMembers N) (retain : Bool)
      → ((changed m c retain).configs ≡ m.configs)
        ⊎ ((goal : List ℕ) × ((changed m c retain).configs ≡ find_coherent m.configs goal))
  unfolding changed
  changed-configs m (add_voter_ids ids) retain = inr (_, refl)
  changed-configs m (add_voters voters) retain = inr (_, refl)
  changed-configs m (remove_voters ids) retain = inr (_, refl)
  changed-configs m (replace_all_voters ids) retain = inr (_, refl)
  changed-configs m (add_nodes nodes) retain = inl refl
  changed-configs m (set_nodes nodes) retain = inl refl
  changed-configs m (remove_nodes ids) retain = inl refl
  changed-configs m (replace_all_nodes nodes) retain = inl refl

  change-coherent :
      (m m' : Membership N) (c : ChangeMembers N) (retain : Bool)
      → m.configs ≢ []
      → change m c retain ≡ ok m'
      → is_coherent_with m.configs m'.configs ≡ true
  change-coherent m m' c retain h e = elim (changed-configs m c retain) [
    | inl same ↦ rw (← (change-ok m m' c retain e).1, same) (coherent_self m.configs h)
    | inr (goal, next) ↦
        rw (← (change-ok m m' c retain e).1, next) ((find_coherent_lem m.configs goal h).0)
  ]

  -- If a membership with at least one config accepts a change, every quorum of the old membership and
  -- every quorum of the new one, neither of which lists a node twice, have a node in common.
  pub change-quorums_meet :
      (m m' : Membership N) (c : ChangeMembers N) (retain : Bool) (xs ys : List ℕ)
      → m.configs ≢ []
      → change m c retain ≡ ok m'
      → Distinct xs
      → Distinct ys
      → is_joint_quorum m.configs xs ≡ true
      → is_joint_quorum m'.configs ys ≡ true
      → (id : ℕ) × (member id xs ≡ true) × (member id ys ≡ true)
  change-quorums_meet m m' c retain xs ys h e dx dy qx qy =
      coherent_meet m.configs m'.configs xs ys dx dy (change-coherent m m' c retain h e) qx qy
