-- ===== src/Leader/Acked.antt =====
-- `last_quorum_acked_time` of openraft/src/proposer/leader.rs: the time that a quorum has acknowledged.
use async_raft.Base.{
  ℕ, zero, suc, ◌<◌, ◌≡◌, refl, ap, ◌∙◌, ◌⊎◌, inl, inr, true, false, List, [], ◌∷◌, Option, none,
  some, some_inj, subst, arith, if◌then◌else◌, get_elem?, Option-cases, Bool-cases, ◌==◌, ==_iff,
}
use async_raft.Base.Order.{
  Ord, ◌≤?◌, ◌<?◌, ◌=?◌, option_ord, nat_ord, le?_refl, not_lt?→le?, lt?→le?, =?_refl,
}
use async_raft.Progress.{
  VecProgress, index, put, swap, found, not_found, rises, move_up, settle, update_at, update_with,
  increase_to,
}
use async_raft.Progress.Votes.{votes, HasQuorum}
use async_raft.Progress.Granted.{Inv}
use async_raft.Progress.Updates.{update_with-Inv}
use async_raft.Leader.{Leader, clock_of, last_quorum_acked_time}

-- The element at an index has the id.
index-get :
    {V : Type 0} (xs : List (ℕ × V)) (id i : ℕ)
    → index xs id ≡ some i
    → (v : V) × (get_elem? xs i ≡ some (id, v))
unfolding index
index-get [] id i h = absurd cc
index-get ((j, v) ∷ xs) id i h = elim (Bool-cases (j == id)) [
  | inl e ↦ (
    v,
    subst (λ k. get_elem? ((j, v) ∷ xs) k ≡ some (id, v)) (some_inj (rw e at h))
        (ap (λ n. some (n, v)) ((==_iff j id).0 e)),
  )
  | inr n ↦ elim (Option-cases (index xs id)) [
    | inl none_there ↦ absurd (let k = rw (n, none_there) at h in cc)
    | inr (k, there) ↦
        let next : suc k ≡ i = some_inj (rw (n, there) at h) in
        let (u, g) = index-get xs id k there in
        (u, subst (λ m. get_elem? ((j, v) ∷ xs) m ≡ some (id, u)) next g)
  ]
]

module _ {V P : Type 0} ⦃o : Ord P⦄ (borrow : V → P) where
  votes-swap :
      (c : List ℕ) (p : P) (xs : List (ℕ × V)) (i : ℕ)
      → votes borrow c p (swap xs i) ≡ votes borrow c p xs
  unfolding swap
  votes-swap c p [] zero = refl
  votes-swap c p [] (suc i) = refl
  votes-swap c p (x ∷ []) zero = refl
  votes-swap c p (x ∷ y ∷ xs) zero = ground arith
  votes-swap c p (x ∷ xs) (suc i) = ground (arith, votes-swap c p xs i)

  votes-move_up :
      (c : List ℕ) (p : P) (i : ℕ) (xs : List (ℕ × V))
      → votes borrow c p (move_up borrow i xs).0 ≡ votes borrow c p xs
  unfolding move_up
  votes-move_up c p zero xs = refl
  votes-move_up c p (suc i) xs = elim (Bool-cases (rises borrow xs i)) [
    | inl r ↦ rw r (votes-move_up c p i (swap xs i) ∙ votes-swap c p xs i)
    | inr r ↦ rw r refl
  ]

  votes-put :
      (p : P) (xs : List (ℕ × V)) (i id : ℕ) (v w : V)
      → get_elem? xs i ≡ some (id, v)
      → (p ≤? borrow w) ≡ true
      → 0 < votes borrow (id ∷ []) p (put xs i w)
  unfolding put
  votes-put p [] i id v w e h = absurd cc
  votes-put p ((j, u) ∷ xs) zero id v w e h =
      let same : j ≡ id = ap (λ x. x.0) (some_inj e) in ground (arith, same, h)
  votes-put p (x ∷ xs) (suc i) id v w e h = ground (arith, votes-put p xs i id v w e h)

  votes-update_at :
      (c : List ℕ) (p : P) (s : VecProgress V P) (i : ℕ) (v w : V)
      → votes borrow c p (update_at borrow s i v w).vector ≡ votes borrow c p (put s.vector i w)
  unfolding update_at settle
  votes-update_at c p s i v w = ground (arith, votes-move_up c p i (put s.vector i w))

-- What `increase_to` writes.
abbrev later_of : ℕ → Option ℕ → Option ℕ
later_of now t = if t <? some now then some now else t

later_of-grows : (now : ℕ) (t : Option ℕ) → (t ≤? later_of now t) ≡ true
later_of-grows now t = elim (Bool-cases (t <? some now)) [
  | inl y ↦ rw y (lt?→le? {A = Option ℕ} t (some now) y)
  | inr n ↦ rw n (le?_refl {A = Option ℕ} t)
]

later_of-now : (now : ℕ) (t : Option ℕ) → (some now ≤? later_of now t) ≡ true
later_of-now now t = elim (Bool-cases (t <? some now)) [
  | inl y ↦ rw y (le?_refl {A = Option ℕ} (some now))
  | inr n ↦ rw n (not_lt?→le? {A = Option ℕ} t (some now) n)
]

later_of-same : (now : ℕ) (t : Option ℕ) → (t =? later_of now t) ≡ false → (t <? some now) ≡ true
later_of-same now t d = elim (Bool-cases (t <? some now)) [
  | inl y ↦ y
  | inr n ↦ absurd (let same = =?_refl {A = Option ℕ} t in let other = rw n at d in cc)
]

own_acked :
    (s : VecProgress (Option ℕ) (Option ℕ)) (id now i : ℕ)
    → index s.vector id ≡ some i
    → 0 < votes clock_of (id ∷ []) (some now) (update_with clock_of s id (later_of now)).0.vector
unfolding update_with
own_acked s id now i e =
    let (t, g) = index-get s.vector id i e in
    rw (update_with, e, g)
      (rw (votes-update_at clock_of (id ∷ []) (some now) s i t (later_of now t))
        (votes-put clock_of (some now) s.vector i id t (later_of now t) g (later_of-now now t)))

-- Found or not, the result is what is granted.
granted_result :
    (s : VecProgress (Option ℕ) (Option ℕ)) (id : ℕ) (f : Option ℕ → Option ℕ)
    → (elim (update_with clock_of s id f).1 as (λ _. Option ℕ) [ found t ↦ t | not_found t ↦ t ])
      ≡ (update_with clock_of s id f).0.granted
unfolding update_with
granted_result s id f = elim (Option-cases (index s.vector id)) [
  | inl e ↦ rw (update_with, e) refl
  | inr (i, e) ↦ elim (Option-cases (get_elem? s.vector i)) [
    | inl g ↦ rw (update_with, e, g) refl
    | inr (x, g) ↦ rw (update_with, e, g) refl
  ]
]

-- A leader is asked for the time that a quorum has acknowledged. If its clock progress satisfies the
-- invariant, and the time of the leader itself is not above the granted one, or it is no voter, or its
-- clock has not moved, then the invariant is kept and the answer does not go back. The answer is the
-- greatest time that a quorum has acknowledged, if there is one; the leader's own time counts as now
-- wherever it is listed, and nothing else of the leader changes.
pub last_quorum_acked_time_lem :
    (l : Leader) (now : ℕ)
    → Inv clock_of none l.clock_progress
    → ((i : ℕ) (x : ℕ × Option ℕ)
        → index l.clock_progress.vector l.committed_vote.leader_id.node_id ≡ some i
        → get_elem? l.clock_progress.vector i ≡ some x
        → i < l.clock_progress.voter_count
        → (x.1 <? some now) ≡ true
        → (x.1 ≤? l.clock_progress.granted) ≡ true)
    → let r = last_quorum_acked_time l now in
      let p = r.0.clock_progress in
      (q : Inv clock_of none p) × ((l.clock_progress.granted ≤? r.1) ≡ true)
      × ((r.1 ≡ none) ⊎ HasQuorum clock_of p.quorum_set r.1 q.voters)
      × ((t : Option ℕ) → (r.1 <? t) ≡ true → ¬ HasQuorum clock_of p.quorum_set t q.voters)
      × ((i : ℕ)
          → index l.clock_progress.vector l.committed_vote.leader_id.node_id ≡ some i
          → 0 < votes clock_of (l.committed_vote.leader_id.node_id ∷ []) (some now) p.vector)
      × (r.0 ≡ record l { clock_progress = p })
unfolding last_quorum_acked_time increase_to
last_quorum_acked_time_lem l now q below =
    let id = l.committed_vote.leader_id.node_id in
    let (q', le) =
      update_with-Inv clock_of none l.clock_progress id (later_of now) q (later_of-grows now)
        (λ i x e g h d. below i x e g h (later_of-same now x.1 d)) in
    let same = granted_result l.clock_progress id (later_of now) in
    (
      q',
      rw same le,
      rw same (q'.reached),
      rw same (q'.greatest),
      own_acked l.clock_progress id now,
      refl,
    )
