-- ===== src/Progress/Scan.antt =====
-- The loop of `update_with` (progress/mod.rs) that looks for the greatest granted value.
use async_raft.Base.{
  true-false, two_tests, ℕ, suc, ◌+◌, ◌≡◌, refl, sym, ◌⊎◌, ◌↔◌, subst, inl, inr, true, false, List,
  [], ◌∷◌, ◌++◌, arith, if◌then◌else◌, length, All, rev_append, get_elem?, take, some,
  get_elem?-append, take-append,
}
use async_raft.Base.Order.{Ord, ◌≤?◌, ◌<?◌, le?_trans, lt?_le?_trans, lt?→le?, lt?_flip, le?_refl}
use async_raft.Quorum.{is_joint_quorum}
use async_raft.Quorum.Majority.{count_in}
use async_raft.Progress.{scan, ids}
use async_raft.Progress.Votes.{
  AllMajority, HasQuorum, Sorted, votes-rev_append, votes_zero, votes-le-count_in,
  count_in-le-votes, AllMajority-HasQuorum, HasQuorum-AllMajority, is_joint_quorum_iff,
}
use async_raft.Progress.MoveUp.{rev_append_nil, length-rev_append_nil}
use async_raft.Progress.InOrder.{All-map, Sorted-before, Sorted-tail, Within-le}

AllMajority-mono :
    (qs : List (List ℕ)) (xs ys : List ℕ)
    → ((c : List ℕ) → count_in c xs ≡ count_in c ys)
    → AllMajority qs xs
    → AllMajority qs ys
AllMajority-mono [] xs ys h a = tt
AllMajority-mono (c ∷ cs) xs ys h a = (omega (arith, h c), AllMajority-mono cs xs ys h a.1)

module _ {V : Type 0} where
  count_in-rev_append :
      (c : List ℕ) (rp ys : List (ℕ × V))
      → count_in c (ids (rev_append rp ys)) ≡ count_in c (ids rp) + count_in c (ids ys)
  count_in-rev_append c [] ys = omega arith
  count_in-rev_append c ((id, v) ∷ rp) ys = ground (arith, count_in-rev_append c rp ((id, v) ∷ ys))

  count_in-rev :
      (c : List ℕ) (rp : List (ℕ × V)) (x : ℕ × V)
      → count_in c (ids (rev_append rp (x ∷ []))) ≡ count_in c (ids (x ∷ rp))
  count_in-rev c rp (id, v) = ground (arith, count_in-rev_append c rp ((id, v) ∷ []))

  pub get_elem?-rev_append :
      (rp : List (ℕ × V)) (x : ℕ × V) (ys : List (ℕ × V))
      → get_elem? (rev_append rp (x ∷ ys)) (length rp) ≡ some x
  get_elem?-rev_append rp x ys =
      rw (rev_append_nil rp (x ∷ ys), ← length-rev_append_nil rp)
        (get_elem?-append (rev_append rp []) ys x)

  take-rev_append :
      (rp : List (ℕ × V)) (x : ℕ × V) (ys : List (ℕ × V))
      → take (suc (length rp)) (rev_append rp (x ∷ ys)) ≡ rev_append rp (x ∷ [])
  take-rev_append rp x ys =
      rw (rev_append_nil rp (x ∷ ys), rev_append_nil rp (x ∷ []), ← length-rev_append_nil rp)
        (take-append (rev_append rp []) ys x)

module _ {V P : Type 0} ⦃o : Ord P⦄ (borrow : V → P) (qs : List (List ℕ)) where
  -- A quorum for `p` is one of the elements before `ys`, if no element of `ys` has reached `p`.
  pub HasQuorum-before :
      (p : P) (rp ys : List (ℕ × V))
      → All (λ y. (p ≤? borrow y.1) ≡ false) ys
      → HasQuorum borrow qs p (rev_append rp ys)
      → AllMajority qs (ids rp)
  HasQuorum-before p rp ys a h =
      HasQuorum-AllMajority borrow qs p (ids rp) (rev_append rp ys)
        (λ c. omega (
          arith,
          votes-rev_append borrow c p rp ys,
          votes_zero borrow c p ys a,
          votes-le-count_in borrow c p rp,
        ))
        h

  -- Elements that have all reached `p` are enough for it.
  pub HasQuorum-reached :
      (p : P) (rp ys : List (ℕ × V))
      → All (λ y. (p ≤? borrow y.1) ≡ true) rp
      → AllMajority qs (ids rp)
      → HasQuorum borrow qs p (rev_append rp ys)
  HasQuorum-reached p rp ys a m =
      AllMajority-HasQuorum borrow qs p (ids rp) (rev_append rp ys)
        (λ c. omega (arith, votes-rev_append borrow c p rp ys, count_in-le-votes borrow c p rp a)) m

  -- The result of the loop: not below the old granted value, that value or one a quorum has reached,
  -- and no quorum has reached more.
  abbrev pub Greatest : P → List (ℕ × V) → P → Type 0
  Greatest g xs g' =
      ((g ≤? g') ≡ true)
      × ((g' ≡ g) ⊎ HasQuorum borrow qs g' xs)
      × ((p : P) → (g' <? p) ≡ true → ¬ HasQuorum borrow qs p xs)

  Greatest-stop :
      (g : P) (rp ys : List (ℕ × V))
      → All (λ y. (g <? borrow y.1) ≡ false) ys
      → ¬ AllMajority qs (ids rp)
      → Greatest g (rev_append rp ys) g
  Greatest-stop g rp ys a n = (
    le?_refl {A = P} g,
    inl refl,
    λ p l q. n (
        HasQuorum-before p rp ys
          (All-map ys (λ y k. ground (arith, lt?_le?_trans {A = P} g p (borrow y.1) l)) a) q),
  )

  Greatest-here :
      (g : P) (rp : List (ℕ × V)) (x : ℕ × V) (ys : List (ℕ × V))
      → Sorted borrow g (rev_append rp (x ∷ ys))
      → (g <? borrow x.1) ≡ true
      → ¬ AllMajority qs (ids rp)
      → AllMajority qs (ids (x ∷ rp))
      → Greatest g (rev_append rp (x ∷ ys)) (borrow x.1)
  Greatest-here g rp x ys s h n m = (
    lt?→le? {A = P} g (borrow x.1) h,
    inr (
        HasQuorum-reached (borrow x.1) (x ∷ rp) ys
          (le?_refl {A = P} (borrow x.1), Sorted-before borrow g rp x ys s h) m),
    λ p l q. n (
        HasQuorum-before p rp (x ∷ ys)
          (
            ground (arith, lt?_flip {A = P} (borrow x.1) p),
            All-map ys
                (λ y k. ground (
                  arith,
                  lt?_flip {A = P} (borrow x.1) p,
                  lt?_flip {A = P} g (borrow y.1),
                  le?_trans {A = P} p (borrow y.1) (borrow x.1),
                  le?_trans {A = P} p (borrow y.1) g,
                  lt?_flip {A = P} g p,
                  lt?_le?_trans {A = P} g (borrow x.1) p,
                  lt?→le? {A = P} (borrow x.1) p,
                ))
                (Sorted-tail borrow g rp (x ∷ ys) s).0,
          )
          q),
  )

  joint_iff :
      (rp : List (ℕ × V)) (x : ℕ × V)
      → (is_joint_quorum qs (ids (rev_append rp (x ∷ []))) ≡ true) ↔ AllMajority qs (ids (x ∷ rp))
  joint_iff rp x =
      let l = ids (rev_append rp (x ∷ [])) in
      (
        λ q.
            AllMajority-mono qs l (ids (x ∷ rp)) (λ c. count_in-rev c rp x)
              ((is_joint_quorum_iff qs l).0 q),
        λ m.
            (is_joint_quorum_iff qs l).1
              (AllMajority-mono qs (ids (x ∷ rp)) l (λ c. sym (count_in-rev c rp x)) m),
      )

  scan-suc :
      (g : P) (v w : List (ℕ × V)) (x : ℕ × V) (n i : ℕ)
      → get_elem? v i ≡ some x
      → take (suc i) v ≡ w
      → scan borrow qs v g (suc n) i ≡ (
          if borrow x.1 ≤? g
          then g
          else if is_joint_quorum qs (ids w)
          then borrow x.1
          else scan borrow qs v g n (suc i))
  unfolding scan
  scan-suc g v w x n i h k =
      subst
        (λ w'. scan borrow qs v g (suc n) i ≡ (
          if borrow x.1 ≤? g
          then g
          else if is_joint_quorum qs (ids w')
          then borrow x.1
          else scan borrow qs v g n (suc i)))
        k (rw (scan, h))

  pub scan-Greatest :
      (g : P) (rp ys ls : List (ℕ × V))
      → Sorted borrow g (rev_append rp ys)
      → ¬ AllMajority qs (ids rp)
      → Greatest g
          (rev_append rp ys)
          (scan borrow qs (rev_append rp (ys ++ ls)) g (length ys) (length rp))
  unfolding scan
  scan-Greatest g rp [] ls s n = Greatest-stop g rp [] tt n
  scan-Greatest g rp (x ∷ ys) ls s n =
      subst (Greatest g (rev_append rp (x ∷ ys)))
        (sym (
          scan-suc g (rev_append rp (x ∷ ys ++ ls)) (rev_append rp (x ∷ [])) x (length ys)
            (length rp) (get_elem?-rev_append rp x (ys ++ ls)) (take-rev_append rp x (ys ++ ls))))
        (two_tests (Greatest g (rev_append rp (x ∷ ys))) _ _
          (λ e.
            Greatest-stop g rp (x ∷ ys)
              (
                ground (arith, lt?_flip {A = P} g (borrow x.1)),
                Within-le borrow g x ys e (Sorted-tail borrow g rp (x ∷ ys) s).0,
              )
              n)
          (λ e q.
            Greatest-here g rp x ys s (ground (arith, lt?_flip {A = P} g (borrow x.1))) n
              ((joint_iff rp x).0 q))
          (λ e q. scan-Greatest g (x ∷ rp) ys ls s (λ m. true-false ((joint_iff rp x).1 m) q)))
