-- ===== src/Quorum/Coherent.antt =====
-- Coherent joints and their quorums (coherent.rs, coherent_impl.rs).
use async_raft.Base.{ℕ, ◌≡◌, ◌≢◌, refl, inl, inr, true, List, [], ◌∷◌, arith, Bool-cases, last_of}
use async_raft.Base.Sets.{member, Distinct, list_eq→eq, list_eq_refl}
use async_raft.Quorum.{is_quorum, is_joint_quorum, has_child, is_coherent_with, find_coherent}
use async_raft.Quorum.Majority.{majorities_meet}

has_child-quorum :
    (cs : List (List ℕ)) (a ids : List ℕ)
    → has_child cs a ≡ true
    → is_joint_quorum cs ids ≡ true
    → is_quorum a ids ≡ true
unfolding has_child is_joint_quorum
has_child-quorum [] a ids h q = cc
has_child-quorum (c ∷ cs) a ids h q = ground (arith, list_eq→eq c a, has_child-quorum cs a ids)

-- Two coherent joints have a child in common.
common_child :
    (as' bs : List (List ℕ))
    → is_coherent_with as' bs ≡ true
    → (a : List ℕ) × (has_child as' a ≡ true) × (has_child bs a ≡ true)
unfolding is_coherent_with has_child
common_child [] bs h = cc
common_child (a ∷ as') bs h = elim (Bool-cases (has_child bs a)) [
  | inl e ↦ (a, ground (arith, list_eq_refl a), e)
  | inr e ↦ let (b, p, q) = common_child as' bs (ground arith) in (b, ground arith, q)
]

-- Any quorum of one joint and any quorum of a coherent one, neither of which lists a node twice, have a
-- node in common.
pub coherent_meet :
    (as' bs : List (List ℕ)) (xs ys : List ℕ)
    → Distinct xs
    → Distinct ys
    → is_coherent_with as' bs ≡ true
    → is_joint_quorum as' xs ≡ true
    → is_joint_quorum bs ys ≡ true
    → (z : ℕ) × (member z xs ≡ true) × (member z ys ≡ true)
coherent_meet as' bs xs ys dx dy c qx qy =
    let (a, p, q) = common_child as' bs c in
    let (z, _, in_xs, in_ys) =
      majorities_meet a xs ys dx dy (has_child-quorum as' a xs p qx)
        (has_child-quorum bs a ys q qy) in
    (z, in_xs, in_ys)

has_child-last : (c : List ℕ) (cs : List (List ℕ)) → has_child (c ∷ cs) (last_of c cs) ≡ true
unfolding has_child
has_child-last c [] = ground (arith, list_eq_refl c)
has_child-last c (d ∷ cs) = ground (arith, has_child-last d cs)

pub coherent_of_child :
    (as' bs : List (List ℕ)) (a : List ℕ)
    → has_child as' a ≡ true
    → has_child bs a ≡ true
    → is_coherent_with as' bs ≡ true
unfolding is_coherent_with has_child
coherent_of_child [] bs a p q = cc
coherent_of_child (c ∷ as') bs a p q = ground (arith, list_eq→eq c a, coherent_of_child as' bs a)

pub has_child_self : (a : List ℕ) (cs : List (List ℕ)) → has_child (a ∷ cs) a ≡ true
unfolding has_child
has_child_self a cs = ground (arith, list_eq_refl a)

has_child_second : (b a : List ℕ) → has_child (b ∷ a ∷ []) a ≡ true
unfolding has_child
has_child_second b a = ground (arith, list_eq_refl a)

-- The intermediate configuration is coherent with the one before it, unless that has no child at
-- all, and with the goal.
pub find_coherent_lem :
    (self : List (List ℕ)) (goal : List ℕ)
    → self ≢ []
    → (is_coherent_with self (find_coherent self goal) ≡ true)
      × (is_coherent_with (find_coherent self goal) (goal ∷ []) ≡ true)
unfolding find_coherent
find_coherent_lem [] goal h = absurd (h refl)
find_coherent_lem (c ∷ cs) goal h = elim (Bool-cases (has_child (c ∷ cs) goal)) [
  | inl e ↦ rw e (
    coherent_of_child (c ∷ cs) _ goal e (has_child_self goal []),
    coherent_of_child (goal ∷ []) _ goal (has_child_self goal []) (has_child_self goal []),
  )
  | inr e ↦ rw e (
    coherent_of_child (c ∷ cs) _ (last_of c cs) (has_child-last c cs)
        (has_child_self (last_of c cs) (goal ∷ [])),
    coherent_of_child _ (goal ∷ []) goal (has_child_second _ goal) (has_child_self goal []),
  )
]

has_child-find_coherent :
    (self : List (List ℕ)) (goal : List ℕ) → has_child (find_coherent self goal) goal ≡ true
unfolding find_coherent
has_child-find_coherent [] goal = ground (arith, has_child_self goal [])
has_child-find_coherent (c ∷ cs) goal =
    ground (arith, has_child_self goal [], has_child_second (last_of c cs) goal)

-- Two steps towards a goal reach it, whatever the first configuration is.
pub find_coherent_twice :
    (self : List (List ℕ)) (goal : List ℕ)
    → find_coherent (find_coherent self goal) goal ≡ goal ∷ []
find_coherent_twice self goal =
    unfold find_coherent in (rw (has_child-find_coherent self goal) refl)
