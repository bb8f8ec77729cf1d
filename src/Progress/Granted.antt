-- ===== src/Progress/Granted.antt =====
-- The invariant of `VecProgress` (progress/mod.rs), and changes of a value in place.
use async_raft.Base.{
  ℕ, zero, suc, ◌≤◌, ◌≡◌, refl, ap, ◌⊎◌, inl, inr, true, List, [], ◌∷◌, ◌++◌, arith, length,
  rev_append, length-rev_append,
}
use async_raft.Base.Order.{Ord, ◌≤?◌, ◌<?◌, le?_trans, lt?_le?_trans, le?_refl}
use async_raft.Progress.{VecProgress, put}
use async_raft.Progress.Votes.{HasQuorum, Sorted, votes, votes-rev_append, HasQuorum-mono}
use async_raft.Progress.MoveUp.{
  front, back, votes-front-back, rev_append_nil, length-rev_append_nil,
}
use async_raft.Progress.InOrder.{All-map, Sorted-tail, Sorted-replace}

put-append :
    {V : Type 0} (pre : List (ℕ × V)) (x : ℕ × V) (ys : List (ℕ × V)) (w : V)
    → put (pre ++ x ∷ ys) (length pre) w ≡ pre ++ (x.0, w) ∷ ys
unfolding put
put-append [] x ys w = refl
put-append (p ∷ pre) x ys w = ap (λ l. p ∷ l) (put-append pre x ys w)

pub put-rev_append :
    {V : Type 0} (rp : List (ℕ × V)) (x : ℕ × V) (ys : List (ℕ × V)) (w : V)
    → put (rev_append rp (x ∷ ys)) (length rp) w ≡ rev_append rp ((x.0, w) ∷ ys)
put-rev_append rp x ys w =
    rw (rev_append_nil rp (x ∷ ys), rev_append_nil rp ((x.0, w) ∷ ys), ← length-rev_append_nil rp)
      (put-append (rev_append rp []) x ys w)

pub put-right :
    {V : Type 0} (pre ys : List (ℕ × V)) (i : ℕ) (w : V)
    → length pre ≤ i
    → (ys' : List (ℕ × V)) × (put (pre ++ ys) i w ≡ pre ++ ys')
unfolding put
put-right [] ys i w h = (put ys i w, refl)
put-right (p ∷ pre) ys zero w h = absurd (omega arith)
put-right (p ∷ pre) ys (suc i) w h =
    let (ys', e) = put-right pre ys i w (omega arith) in (ys', ap (λ l. p ∷ l) e)

module _ {V P : Type 0} ⦃o : Ord P⦄ (borrow : V → P) where
  -- The voters come first; those above `granted` are in descending order; no value above `granted`
  -- has a quorum, and `granted` has one, unless it is still the value `low`.
  pub record Inv (low : P) (s : VecProgress V P) : Type 0 where
    pub voters : List (ℕ × V)
    pub learners : List (ℕ × V)
    pub parts : s.vector ≡ voters ++ learners
    pub size : length voters ≡ s.voter_count
    pub sorted : Sorted borrow s.granted voters
    pub reached : (s.granted ≡ low) ⊎ HasQuorum borrow s.quorum_set s.granted voters
    pub greatest : (p : P) → (s.granted <? p) ≡ true → ¬ HasQuorum borrow s.quorum_set p voters

  -- One voter's value grows, in place.
  pub votes_grow :
      (c : List ℕ) (p : P) (rp : List (ℕ × V)) (id : ℕ) (v w : V) (ys : List (ℕ × V))
      → ((p ≤? borrow v) ≡ true → (p ≤? borrow w) ≡ true)
      → votes borrow c p (rev_append rp ((id, v) ∷ ys))
        ≤ votes borrow c p (rev_append rp ((id, w) ∷ ys))
  votes_grow c p rp id v w ys h = ground (
    arith,
    votes-rev_append borrow c p rp ((id, v) ∷ ys),
    votes-rev_append borrow c p rp ((id, w) ∷ ys),
  )

  pub votes_moved :
      (c : List ℕ) (p : P) (rp : List (ℕ × V)) (x : ℕ × V) (ys : List (ℕ × V))
      → votes borrow c p (rev_append (front borrow rp x) (x ∷ back borrow rp x ys))
        ≡ votes borrow c p (rev_append rp (x ∷ ys))
  votes_moved c p rp (id, v) ys = ground (
    arith,
    votes-rev_append borrow c p rp ((id, v) ∷ ys),
    votes-rev_append borrow c p (front borrow rp (id, v)) ((id, v) ∷ back borrow rp (id, v) ys),
    votes-front-back borrow c p rp (id, v) ys,
  )

  -- A voter whose value stays on the same side of `granted`.
  pub in_place-Inv :
      (low : P) (s : VecProgress V P) (rp : List (ℕ × V)) (id : ℕ) (v w : V) (ys ls : List (ℕ × V))
      → (q : Inv low s) → q.voters ≡ rev_append rp ((id, v) ∷ ys)
      → ((p : P) → (p ≤? borrow v) ≡ true → (p ≤? borrow w) ≡ true)
      → ((p : P) → (s.granted <? p) ≡ true → (p ≤? borrow w) ≡ true → (p ≤? borrow v) ≡ true)
      → Inv low (record s { vector = rev_append rp ((id, w) ∷ ys) ++ ls })
  in_place-Inv low s rp id v w ys ls q e up down = record {
    voters = rev_append rp ((id, w) ∷ ys);
    learners = ls;
    parts = refl;
    size = omega (
      arith,
      q.size,
      ap length e,
      length-rev_append rp ((id, v) ∷ ys),
      length-rev_append rp ((id, w) ∷ ys),
    );
    sorted =
        Sorted-replace borrow s.granted rp ((id, v) ∷ ys) ((id, w) ∷ ys) (rw e at q.sorted)
          (
            All-map ys (λ y k t. up (borrow y.1) (k t))
                (Sorted-tail borrow s.granted rp ((id, v) ∷ ys) (rw e at q.sorted)).0,
            (Sorted-tail borrow s.granted rp ((id, v) ∷ ys) (rw e at q.sorted)).1,
          )
          (λ d k. (λ t. before d t (down (borrow w) t (le?_refl {A = P} (borrow w))) k.0, k.1));
    reached = elim q.reached [
      | inl r ↦ inl r
      | inr r ↦ inr (
          HasQuorum-mono borrow s.quorum_set s.granted s.granted (rev_append rp ((id, v) ∷ ys))
            (rev_append rp ((id, w) ∷ ys)) (λ c. votes_grow c s.granted rp id v w ys (up s.granted))
            (rw e at r))
    ];
    greatest = λ p l r. q.greatest p l (
        rw e (
          HasQuorum-mono borrow s.quorum_set p p (rev_append rp ((id, w) ∷ ys))
            (rev_append rp ((id, v) ∷ ys)) (λ c. votes_grow c p rp id w v ys (down p l)) r));
  }
    where
      before :
          (d : ℕ × V)
          → (s.granted <? borrow w) ≡ true
          → (borrow w ≤? borrow v) ≡ true
          → ((s.granted <? borrow v) ≡ true → (borrow v ≤? borrow d.1) ≡ true)
          → (borrow w ≤? borrow d.1) ≡ true
      before d t l k =
          le?_trans {A = P} (borrow w) (borrow v) (borrow d.1) l
            (k (lt?_le?_trans {A = P} s.granted (borrow w) (borrow v) t l))
