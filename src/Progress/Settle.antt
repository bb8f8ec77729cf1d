-- ===== src/Progress/Settle.antt =====
-- A voter that rises above `granted` (progress/mod.rs): it is moved up, and the greatest granted value is
-- looked for.
use async_raft.Base.{
  ℕ, suc, ◌+◌, ◌-◌, ◌≤◌, ◌≡◌, refl, sym, ap, ◌∙◌, ◌⊎◌, subst, inl, inr, true, List, [], ◌∷◌, ◌++◌,
  arith, length, rev_append, rev_append-append, length-rev_append,
}
use async_raft.Base.Order.{Ord, ◌≤?◌, ◌<?◌, lt?→le?, le?_lt?_trans}
use async_raft.Progress.{VecProgress, ids, settle, scan}
use async_raft.Progress.Votes.{
  AllMajority, HasQuorum, Sorted, votes, votes-rev_append, HasQuorum-mono, AllMajority-HasQuorum,
  count_in-le-votes,
}
use async_raft.Quorum.Majority.{count_in}
use async_raft.Progress.MoveUp.{
  front, back, move_up-rev_append, votes-front-back, length-front-back, back-append,
}
use async_raft.Progress.InOrder.{
  All-map, Sorted-tail, Sorted-replace, Sorted-insert, front_ge, Within-le, Within-none,
}
use async_raft.Progress.Scan.{scan-Greatest}
use async_raft.Progress.Granted.{Inv, votes_grow, votes_moved}

module _ {V P : Type 0} ⦃o : Ord P⦄ (borrow : V → P) where
  Sorted-mono :
      (g g' : P) (xs : List (ℕ × V)) → (g ≤? g') ≡ true → Sorted borrow g xs → Sorted borrow g' xs
  Sorted-mono g g' [] h s = tt
  Sorted-mono g g' (x ∷ xs) h s = (
    All-map xs (λ y k t. k (le?_lt?_trans {A = P} g g' (borrow y.1) h t)) s.0,
    Sorted-mono g g' xs h s.1,
  )

  -- What `settle` computes at a voter that rises above `granted`.
  settle_lem :
      (s : VecProgress V P) (rp : List (ℕ × V)) (x : ℕ × V) (ys ls : List (ℕ × V))
      → length rp + suc (length ys) ≡ s.voter_count
      → let f = front borrow rp x in
        let b = back borrow rp x ys in
        settle borrow s (rev_append rp (x ∷ ys ++ ls)) (length rp) ≡ record s {
          vector = rev_append f (x ∷ b ++ ls);
          granted =
              scan borrow s.quorum_set
                (rev_append f (x ∷ b ++ ls))
                s.granted
                (length (x ∷ b))
                (length f);
        }
  unfolding settle
  settle_lem s rp x ys ls h =
      let n : s.voter_count - length (front borrow rp x) ≡ length (x ∷ back borrow rp x ys) =
        omega (arith, length-front-back borrow rp x ys) in
      rw (move_up-rev_append borrow rp x (ys ++ ls), back-append borrow rp x ys ls, n) refl

  -- A quorum before the raised element would have granted its value earlier.
  front-few :
      (s : VecProgress V P) (rp : List (ℕ × V)) (id : ℕ) (v w : V) (ys : List (ℕ × V))
      → Sorted borrow s.granted (rev_append rp ys)
      → (s.granted <? borrow w) ≡ true
      → ((p : P)
          → (s.granted <? p) ≡ true
          → ¬ HasQuorum borrow s.quorum_set p (rev_append rp ((id, v) ∷ ys)))
      → ¬ AllMajority s.quorum_set (ids (front borrow rp (id, w)))
  front-few s rp id v w ys st h k m = k (borrow w) h (
      AllMajority-HasQuorum borrow s.quorum_set (borrow w) (ids (front borrow rp (id, w)))
        (rev_append rp ((id, v) ∷ ys)) (λ c. few c) m)
    where
      few :
          (c : List ℕ)
          → count_in c (ids (front borrow rp (id, w)))
            ≤ votes borrow c (borrow w) (rev_append rp ((id, v) ∷ ys))
      few c = omega (
        arith,
        count_in-le-votes borrow c (borrow w) (front borrow rp (id, w))
            (front_ge borrow s.granted rp (id, w) ys st h),
        votes-front-back borrow c (borrow w) rp (id, w) [],
        votes-rev_append borrow c (borrow w) rp ((id, v) ∷ ys),
      )

  removed-Sorted :
      (g : P) (rp : List (ℕ × V)) (x : ℕ × V) (ys : List (ℕ × V))
      → Sorted borrow g (rev_append rp (x ∷ ys))
      → Sorted borrow g (rev_append rp ys)
  removed-Sorted g rp x ys s =
      Sorted-replace borrow g rp (x ∷ ys) ys s (Sorted-tail borrow g rp (x ∷ ys) s).1 (λ d k. k.1)

  -- Moving a grown element keeps every quorum.
  moved-HasQuorum :
      (qs : List (List ℕ)) (p : P) (rp : List (ℕ × V)) (id : ℕ) (v w : V) (ys : List (ℕ × V))
      → ((p ≤? borrow v) ≡ true → (p ≤? borrow w) ≡ true)
      → HasQuorum borrow qs p (rev_append rp ((id, v) ∷ ys))
      → HasQuorum borrow qs p
          (rev_append (front borrow rp (id, w)) ((id, w) ∷ back borrow rp (id, w) ys))
  moved-HasQuorum qs p rp id v w ys h q =
      HasQuorum-mono borrow qs p p _ _
        (λ c.
          omega (arith, votes_grow borrow c p rp id v w ys h, votes_moved borrow c p rp (id, w) ys))
        q

  -- The new granted value has a quorum, or it is the old one.
  moved-reached :
      (low : P) (s : VecProgress V P) (rp : List (ℕ × V)) (id : ℕ) (v w : V) (ys : List (ℕ × V))
      → (q : Inv borrow low s) → q.voters ≡ rev_append rp ((id, v) ∷ ys)
      → (s.granted <? borrow w) ≡ true
      → (g' : P)
      → let xs = rev_append (front borrow rp (id, w)) ((id, w) ∷ back borrow rp (id, w) ys) in
        (g' ≡ s.granted) ⊎ HasQuorum borrow s.quorum_set g' xs
        → (g' ≡ low) ⊎ HasQuorum borrow s.quorum_set g' xs
  moved-reached low s rp id v w ys q e hw g' (inr k) = inr k
  moved-reached low s rp id v w ys q e hw g' (inl eq) = elim q.reached [
    | inl k ↦ inl (eq ∙ k)
    | inr k ↦
        let le = lt?→le? {A = P} s.granted (borrow w) hw in
        let old = moved-HasQuorum s.quorum_set s.granted rp id v w ys (λ l. le) (rw e at k) in
        let xs = rev_append (front borrow rp (id, w)) ((id, w) ∷ back borrow rp (id, w) ys) in
        inr (subst (λ p. HasQuorum borrow s.quorum_set p xs) (sym eq) old)
  ]

  pub moved-Inv :
      (low : P) (s : VecProgress V P) (rp : List (ℕ × V)) (id : ℕ) (v w : V) (ys ls : List (ℕ × V))
      → (q : Inv borrow low s) → q.voters ≡ rev_append rp ((id, v) ∷ ys)
      → (borrow v ≤? s.granted) ≡ true
      → (s.granted <? borrow w) ≡ true
      → let s' = settle borrow s (rev_append rp ((id, w) ∷ ys ++ ls)) (length rp) in
        Inv borrow low s' × ((s.granted ≤? s'.granted) ≡ true)
  moved-Inv low s rp id v w ys ls q e hv hw =
      let x : ℕ × V = (id, w) in
      let f = front borrow rp x in
      let b = back borrow rp x ys in
      let st : Sorted borrow s.granted (rev_append rp ((id, v) ∷ ys)) = rw e at q.sorted in
      let removed = removed-Sorted s.granted rp (id, v) ys st in
      let within = Within-none borrow s.granted x ys (
        Within-le borrow s.granted (id, v) ys hv
          (Sorted-tail borrow s.granted rp ((id, v) ∷ ys) st).0) in
      let st' = Sorted-insert borrow s.granted rp x ys removed hw within in
      let (le, r, gr) =
        scan-Greatest borrow s.quorum_set s.granted f (x ∷ b) ls st'
          (front-few s rp id v w ys removed hw (rw e at q.greatest)) in
      subst (λ s'. Inv borrow low s' × ((s.granted ≤? s'.granted) ≡ true))
        (sym (
          settle_lem s rp x ys ls
            (omega (arith, q.size, ap length e, length-rev_append rp ((id, v) ∷ ys)))))
        (
          record {
            voters = rev_append f (x ∷ b);
            learners = ls;
            parts = sym (rev_append-append f (x ∷ b) ls);
            size = omega (
              arith,
              q.size,
              ap length e,
              length-rev_append rp ((id, v) ∷ ys),
              length-rev_append f (x ∷ b),
              length-front-back borrow rp x ys,
            );
            sorted = Sorted-mono s.granted _ (rev_append f (x ∷ b)) le st';
            reached = moved-reached low s rp id v w ys q e hw _ r;
            greatest = gr;
          },
          le,
        )
