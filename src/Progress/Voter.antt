-- ===== src/Progress/Voter.antt =====
-- `update_with` of progress/mod.rs at a voter.
use async_raft.Base.{
  three_tests, ℕ, ◌≡◌, sym, ap, ◌∙◌, subst, true, false, List, ◌∷◌, ◌++◌, arith, length, rev_append,
  rev_append-append, length-rev_append,
}
use async_raft.Base.Order.{
  Ord, ◌=?◌, ◌≤?◌, ◌<?◌, le?_trans, le?_lt?_trans, lt?_flip, le?_refl, =?→eq,
}
use async_raft.Progress.{VecProgress, put, settle, update_at}
use async_raft.Progress.Granted.{Inv, in_place-Inv, put-rev_append}
use async_raft.Progress.Settle.{moved-Inv}

module _ {V P : Type 0} ⦃o : Ord P⦄ (borrow : V → P) where
  -- The element written back, with the learners after it.
  pub put-voter :
      (low : P) (s : VecProgress V P) (rp : List (ℕ × V)) (id : ℕ) (v w : V) (ys : List (ℕ × V))
      → (q : Inv borrow low s) → q.voters ≡ rev_append rp ((id, v) ∷ ys)
      → put s.vector (length rp) w ≡ rev_append rp ((id, w) ∷ ys ++ q.learners)
  put-voter low s rp id v w ys q e =
      rw (q.parts, e, rev_append-append rp ((id, v) ∷ ys) q.learners)
        (put-rev_append rp (id, v) (ys ++ q.learners) w)

  stay-Inv :
      (low : P) (s : VecProgress V P) (rp : List (ℕ × V)) (id : ℕ) (v w : V) (ys : List (ℕ × V))
      → (q : Inv borrow low s) → q.voters ≡ rev_append rp ((id, v) ∷ ys)
      → ((p : P) → (p ≤? borrow v) ≡ true → (p ≤? borrow w) ≡ true)
      → ((p : P) → (s.granted <? p) ≡ true → (p ≤? borrow w) ≡ true → (p ≤? borrow v) ≡ true)
      → Inv borrow low (record s { vector = put s.vector (length rp) w })
  stay-Inv low s rp id v w ys q e up down =
      subst (λ l. Inv borrow low (record s { vector = l }))
        (rev_append-append rp ((id, w) ∷ ys) q.learners ∙ sym (put-voter low s rp id v w ys q e))
        (in_place-Inv borrow low s rp id v w ys q.learners q e up down)

  pub voter-Inv :
      (low : P) (s : VecProgress V P) (rp : List (ℕ × V)) (id : ℕ) (v w : V) (ys : List (ℕ × V))
      → (q : Inv borrow low s) → q.voters ≡ rev_append rp ((id, v) ∷ ys)
      → ((borrow v =? borrow w) ≡ false → (borrow v ≤? s.granted) ≡ true)
      → (borrow v ≤? borrow w) ≡ true
      → let s' = update_at borrow s (length rp) v w in
        Inv borrow low s' × ((s.granted ≤? s'.granted) ≡ true)
  unfolding update_at
  voter-Inv low s rp id v w ys q e hv hw =
      three_tests (λ s'. Inv borrow low s' × ((s.granted ≤? s'.granted) ≡ true)) _ _ _
        (λ t.
          let eq = =?→eq {A = P} (borrow v) (borrow w) t in
          (stay-Inv low s rp id v w ys q e (λ p k. rw eq at k) (λ p l k. rw (← eq) at k), same))
        (λ t. absurd (ground (arith, q.size, ap length e, length-rev_append rp ((id, v) ∷ ys))))
        (λ d n t.
          subst
            (λ l.
              let s' = settle borrow s l (length rp) in
              Inv borrow low s' × ((s.granted ≤? s'.granted) ≡ true))
            (sym (put-voter low s rp id v w ys q e))
            (moved-Inv borrow low s rp id v w ys q.learners q e (hv d) (ground arith)))
        (λ d n k.
          let low_v = hv d in
          (
            stay-Inv low s rp id v w ys q e (λ p l. le?_trans {A = P} p (borrow v) (borrow w) l hw)
                (λ p l m. absurd (
                  ground (
                    arith,
                    le?_lt?_trans {A = P} (borrow w) s.granted p,
                    lt?_flip {A = P} s.granted (borrow w),
                    lt?_flip {A = P} (borrow w) p,
                  ))),
            same,
          ))
    where
      same : (s.granted ≤? s.granted) ≡ true
      same = le?_refl {A = P} s.granted
