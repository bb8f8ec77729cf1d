-- ===== src/Progress/Disorder.antt =====
-- `update_with` of progress/mod.rs at a voter whose value is already above the granted one.
use async_raft.Base.{
  ℕ, ◌≡◌, refl, ◌↔◌, true, List, [], ◌∷◌, ◌++◌, arith, rev_append, length, sym, ◌∙◌, All, subst,
  rev_append-append,
}
use async_raft.Base.Order.{Ord, ◌≤?◌, ◌<?◌, lt?_flip, lt?_le?_trans, lt?→le?, le?_trans}
use async_raft.Progress.{VecProgress, update_at, put}
use async_raft.Progress.Votes.{Sorted, Within}
use async_raft.Progress.InOrder.{Sorted-before, Sorted-tail, All-map}
use async_raft.Progress.Granted.{Inv}
use async_raft.Progress.Voter.{put-voter}

module _ {V P : Type 0} ⦃o : Ord P⦄ (borrow : V → P) where
  raised :
      (s : VecProgress V P) (i : ℕ) (v w : V)
      → (s.granted <? borrow v) ≡ true
      → update_at borrow s i v w ≡ record s { vector = put s.vector i w }
  unfolding update_at
  raised s i v w h = ground (arith, lt?_flip {A = P} s.granted (borrow v))

  Sorted-put :
      (g : P) (rp ys zs : List (ℕ × V))
      → Sorted borrow g (rev_append rp ys)
      → Sorted borrow g zs
      → All (λ e. Within borrow g e ys → Within borrow g e zs) rp
      → Sorted borrow g (rev_append rp zs)
  Sorted-put g [] ys zs s t a = t
  Sorted-put g (r ∷ rp) ys zs s t a =
      Sorted-put g rp (r ∷ ys) (r ∷ zs) s (a.0 (Sorted-tail borrow g rp (r ∷ ys) s).0, t)
        (All-map rp (λ e f w. (w.0, f w.1)) a.1)

  grown-Sorted :
      (g : P) (rp : List (ℕ × V)) (id : ℕ) (v w : V) (ys : List (ℕ × V))
      → Sorted borrow g (rev_append rp ((id, v) ∷ ys))
      → (borrow v ≤? borrow w) ≡ true
      → All (λ e. (borrow w ≤? borrow e.1) ≡ true) rp
      → Sorted borrow g (rev_append rp ((id, w) ∷ ys))
  grown-Sorted g rp id v w ys s h a =
      let (k, t) = Sorted-tail borrow g rp ((id, v) ∷ ys) s in
      Sorted-put g rp ((id, v) ∷ ys) ((id, w) ∷ ys) s
        (All-map ys (λ y l m. le?_trans {A = P} (borrow y.1) (borrow v) (borrow w) (l m) h) k, t)
        (All-map rp (λ e l n. ((λ _. l), n.1)) a)

  -- A voter whose value is above the granted one and rises keeps its position. The voters above the
  -- granted value are in descending order afterwards exactly if all those before it have at least the
  -- new value; they need not have.
  pub raised-Sorted :
      (low : P) (s : VecProgress V P) (rp : List (ℕ × V)) (id : ℕ) (v w : V) (ys : List (ℕ × V))
      → (q : Inv borrow low s) → q.voters ≡ rev_append rp ((id, v) ∷ ys)
      → (s.granted <? borrow v) ≡ true
      → (borrow v <? borrow w) ≡ true
      → let s' = update_at borrow s (length rp) v w in
        (s'.granted ≡ s.granted)
        × (s'.vector ≡ rev_append rp ((id, w) ∷ ys) ++ q.learners)
        × (Sorted borrow s'.granted (rev_append rp ((id, w) ∷ ys))
            ↔ All (λ e. (borrow w ≤? borrow e.1) ≡ true) rp)
  raised-Sorted low s rp id v w ys q e h k =
      let le = lt?→le? {A = P} (borrow v) (borrow w) k in
      subst
        (λ s'.
          (s'.granted ≡ s.granted)
          × (s'.vector ≡ rev_append rp ((id, w) ∷ ys) ++ q.learners)
          × (Sorted borrow s'.granted (rev_append rp ((id, w) ∷ ys))
              ↔ All (λ e. (borrow w ≤? borrow e.1) ≡ true) rp))
        (sym (raised s (length rp) v w h))
        (
          refl,
          put-voter borrow low s rp id v w ys q e
              ∙ sym (rev_append-append rp ((id, w) ∷ ys) q.learners),
          (
            λ st.
                Sorted-before borrow s.granted rp (id, w) ys st
                  (lt?_le?_trans {A = P} s.granted (borrow v) (borrow w) h le),
            grown-Sorted s.granted rp id v w ys (rw e at q.sorted) le,
          ),
        )
