-- ===== src/Progress/Votes.antt =====
-- The specification of `VecProgress`, over any order of the elements: how many nodes of a set have
-- reached a value, and whether a quorum has.
use async_raft.Base.{
  ℕ, suc, ◌+◌, ◌*◌, ◌≤◌, ◌<◌, ◌≡◌, refl, ◌↔◌, true, false, ◌&&◌, List, [], ◌∷◌, ◌++◌, arith,
  if◌then◌else◌, length, All, rev_append,
}
use async_raft.Base.Order.{Ord, ◌≤?◌, ◌<?◌}
use async_raft.Base.Sets.{member}
use async_raft.Quorum.{is_joint_quorum}
use async_raft.Quorum.Majority.{count_in, is_quorum_iff}
use async_raft.Progress.{ids}

-- Each set of a joint has more than half of its nodes among the ids.
abbrev pub AllMajority : List (List ℕ) → List ℕ → Type 0
AllMajority qs xs = All (λ c. length c < 2 * count_in c xs) qs

pub is_joint_quorum_iff :
    (qs : List (List ℕ)) (xs : List ℕ) → (is_joint_quorum qs xs ≡ true) ↔ AllMajority qs xs
unfolding is_joint_quorum
is_joint_quorum_iff [] xs = (λ _. tt, λ _. refl)
is_joint_quorum_iff (c ∷ cs) xs = (
  λ e. ground (arith, is_quorum_iff c xs, is_joint_quorum_iff cs xs),
  λ a. ground (arith, is_quorum_iff c xs, is_joint_quorum_iff cs xs),
)

module _ {V P : Type 0} ⦃o : Ord P⦄ (borrow : V → P) where
  -- How many of the nodes in `c` have reached `p`.
  abbrev pub votes : List ℕ → P → List (ℕ × V) → ℕ
  votes c p [] = 0
  votes c p ((id, v) ∷ xs) =
      let rest = votes c p xs in if member id c && (p ≤? borrow v) then suc rest else rest

  -- In each set of the joint more than half of the nodes have reached `p`.
  abbrev pub HasQuorum : List (List ℕ) → P → List (ℕ × V) → Type 0
  HasQuorum qs p xs = All (λ c. length c < 2 * votes c p xs) qs

  -- The elements above `g` come first, in descending order.
  abbrev pub Within : P → ℕ × V → List (ℕ × V) → Type 0
  Within g x ys = All (λ y. (g <? borrow y.1) ≡ true → (borrow y.1 ≤? borrow x.1) ≡ true) ys

  abbrev pub Sorted : P → List (ℕ × V) → Type 0
  Sorted g [] = Unit {0}
  Sorted g (x ∷ xs) = Within g x xs × Sorted g xs

  pub votes-append :
      (c : List ℕ) (p : P) (xs ys : List (ℕ × V))
      → votes c p (xs ++ ys) ≡ votes c p xs + votes c p ys
  votes-append c p [] ys = omega arith
  votes-append c p ((id, v) ∷ xs) ys = ground (arith, votes-append c p xs ys)

  pub votes-rev_append :
      (c : List ℕ) (p : P) (rp ys : List (ℕ × V))
      → votes c p (rev_append rp ys) ≡ votes c p rp + votes c p ys
  votes-rev_append c p [] ys = omega arith
  votes-rev_append c p ((id, v) ∷ rp) ys = ground (arith, votes-rev_append c p rp ((id, v) ∷ ys))

  pub votes-le-count_in :
      (c : List ℕ) (p : P) (xs : List (ℕ × V)) → votes c p xs ≤ count_in c (ids xs)
  votes-le-count_in c p [] = omega arith
  votes-le-count_in c p ((id, v) ∷ xs) = ground (arith, votes-le-count_in c p xs)

  pub count_in-le-votes :
      (c : List ℕ) (p : P) (xs : List (ℕ × V))
      → All (λ x. (p ≤? borrow x.1) ≡ true) xs
      → count_in c (ids xs) ≤ votes c p xs
  count_in-le-votes c p [] a = omega arith
  count_in-le-votes c p ((id, v) ∷ xs) a = ground (arith, count_in-le-votes c p xs a.1)

  pub votes_zero :
      (c : List ℕ) (p : P) (xs : List (ℕ × V))
      → All (λ x. (p ≤? borrow x.1) ≡ false) xs
      → votes c p xs ≡ 0
  votes_zero c p [] a = refl
  votes_zero c p ((id, v) ∷ xs) a = ground (arith, votes_zero c p xs a.1)

  pub HasQuorum-mono :
      (qs : List (List ℕ)) (p q : P) (xs ys : List (ℕ × V))
      → ((c : List ℕ) → votes c p xs ≤ votes c q ys)
      → HasQuorum qs p xs
      → HasQuorum qs q ys
  HasQuorum-mono [] p q xs ys h a = tt
  HasQuorum-mono (c ∷ cs) p q xs ys h a = (omega (arith, h c), HasQuorum-mono cs p q xs ys h a.1)

  pub AllMajority-HasQuorum :
      (qs : List (List ℕ)) (p : P) (xs : List ℕ) (ys : List (ℕ × V))
      → ((c : List ℕ) → count_in c xs ≤ votes c p ys)
      → AllMajority qs xs
      → HasQuorum qs p ys
  AllMajority-HasQuorum [] p xs ys h a = tt
  AllMajority-HasQuorum (c ∷ cs) p xs ys h a =
      (omega (arith, h c), AllMajority-HasQuorum cs p xs ys h a.1)

  pub HasQuorum-AllMajority :
      (qs : List (List ℕ)) (p : P) (xs : List ℕ) (ys : List (ℕ × V))
      → ((c : List ℕ) → votes c p ys ≤ count_in c xs)
      → HasQuorum qs p ys
      → AllMajority qs xs
  HasQuorum-AllMajority [] p xs ys h a = tt
  HasQuorum-AllMajority (c ∷ cs) p xs ys h a =
      (omega (arith, h c), HasQuorum-AllMajority cs p xs ys h a.1)
