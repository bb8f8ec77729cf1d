-- ===== src/Candidate/Election.antt =====
-- The election of a candidate (proposer/candidate.rs).
use async_raft.Base.{
  ℕ, zero, suc, ◌≡◌, refl, ap, subst, ◌↔◌, ◌⊎◌, inl, inr, Bool, true, false, List, [], ◌∷◌, none,
  some, done, panicked, arith, Option-cases, get_elem?,
}
use async_raft.Base.Order.{◌≤?◌, ◌=?◌}
use async_raft.Base.Sets.{member, Distinct}
use async_raft.Vote.AdvOrder.{bool_ord}
use async_raft.Quorum.{is_joint_quorum, is_coherent_with}
use async_raft.Quorum.Majority.{count_in}
use async_raft.Quorum.Coherent.{coherent_meet}
use async_raft.Progress.{VecProgress, update, update_with, index, found}
use async_raft.Progress.Votes.{
  HasQuorum, votes, is_joint_quorum_iff, HasQuorum-AllMajority, votes-append,
}
use async_raft.Progress.Granted.{Inv}
use async_raft.Progress.Updates.{update_with-Inv}
use async_raft.Candidate.{Candidate, self, grant_by, granters, granted_by}

granted-quorum :
    (p : VecProgress Bool Bool)
    → (q : Inv self false p) → (p.granted ≡ true) ↔ HasQuorum self p.quorum_set true q.voters
granted-quorum p q = (
  λ e. elim q.reached [
    | inl f ↦ absurd cc
    | inr h ↦ subst (λ g. HasQuorum self p.quorum_set g q.voters) e h
  ],
  λ h. by_value p.granted refl h,
)
  where
    by_value :
        (g : Bool) → p.granted ≡ g → HasQuorum self p.quorum_set true q.voters → p.granted ≡ true
    by_value true e h = e
    by_value false e h = absurd (q.greatest true (ground (arith, e)) h)

index-get_elem? :
    (v : List (ℕ × Bool)) (target i : ℕ) → index v target ≡ some i → get_elem? v i ≡ none → ⊥
unfolding index
index-get_elem? [] target i e g = cc
index-get_elem? (x ∷ v) target zero e g = cc
index-get_elem? (x ∷ v) target (suc i) e g = index-get_elem? v target i (ground (arith, e)) g

update-found :
    (p : VecProgress Bool Bool) (target i : ℕ) (x : ℕ × Bool)
    → index p.vector target ≡ some i
    → get_elem? p.vector i ≡ some x
    → (update self p target true).1 ≡ found (update self p target true).0.granted
unfolding update update_with
update-found p target i x e g = rw (update_with, e, g) refl

above : (a b : Bool) → (a =? true) ≡ false → (a ≤? b) ≡ true
above a b h = ground arith

not_found-panicked :
    (c : Candidate) (target : ℕ)
    → index c.progress.vector target ≡ none
    → grant_by c target ≡ panicked
unfolding grant_by update update_with
not_found-panicked c target e = rw (grant_by, e) refl

-- In a candidate that satisfies the invariant of the progress, a grant of a node either panics, as the
-- node is not a voter or learner of it, or keeps the invariant and the vote; it answers true exactly if
-- in each set of the quorum set it leaves more than half of the nodes have granted.
pub grant_by-quorum :
    (c : Candidate) (target : ℕ)
    → Inv self false c.progress
    → ((grant_by c target ≡ panicked) × (index c.progress.vector target ≡ none))
      ⊎ ((c' : Candidate) × (elected : Bool) × (q : Inv self false c'.progress) × (grant_by c target
            ≡ done (c', elected))
          × (c'.vote ≡ c.vote)
          × ((elected ≡ true) ↔ HasQuorum self c'.progress.quorum_set true q.voters))
unfolding grant_by
grant_by-quorum c target q =
    let p' = (update self c.progress target true).0 in
    let (q', le) =
      update_with-Inv self false c.progress target (λ _. true) q (λ v. ground arith)
        (λ i x e g h d. above x.1 c.progress.granted d) in
    elim (Option-cases (index c.progress.vector target)) [
      | inl e ↦ inl (not_found-panicked c target e, e)
      | inr (i, e) ↦ elim (Option-cases (get_elem? c.progress.vector i)) [
        | inl g ↦ absurd (index-get_elem? c.progress.vector target i e g)
        | inr (x, g) ↦ inr (
          record c { progress = p' },
          p'.granted,
          q',
          rw (grant_by, update-found c.progress target i x e g) refl,
          refl,
          granted-quorum p' q',
        )
      ]
    ]

votes-granters :
    (c : List ℕ) (xs : List (ℕ × Bool)) → votes self c true xs ≡ count_in c (granted_by xs)
unfolding granted_by
votes-granters c [] = refl
votes-granters c ((id, b) ∷ xs) = ground (arith, votes-granters c xs)

elected-quorum :
    (c : Candidate)
    → Inv self false c.progress
    → c.progress.granted ≡ true
    → is_joint_quorum c.progress.quorum_set (granters c) ≡ true
unfolding granters
elected-quorum c q e =
    let qs = c.progress.quorum_set in
    (is_joint_quorum_iff qs (granted_by c.progress.vector)).1 (
      HasQuorum-AllMajority self qs true (granted_by c.progress.vector) q.voters
        (λ k. omega (
          arith,
          votes-granters k c.progress.vector,
          ap (votes self k true) q.parts,
          votes-append self k true q.voters q.learners,
        ))
        ((granted-quorum c.progress q).0 e))

-- Two elected candidates whose quorum sets are coherent, and whose progress lists no node twice among
-- those that granted, were both granted by one node.
pub elected_meet :
    (a b : Candidate)
    → Inv self false a.progress
    → Inv self false b.progress
    → a.progress.granted ≡ true
    → b.progress.granted ≡ true
    → is_coherent_with a.progress.quorum_set b.progress.quorum_set ≡ true
    → Distinct (granters a)
    → Distinct (granters b)
    → (id : ℕ) × (member id (granters a) ≡ true) × (member id (granters b) ≡ true)
elected_meet a b p q e f c da db =
    coherent_meet a.progress.quorum_set b.progress.quorum_set (granters a) (granters b) da db c
      (elected-quorum a p e) (elected-quorum b q f)
