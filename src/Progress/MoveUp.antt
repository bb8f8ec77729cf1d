-- ===== src/Progress/MoveUp.antt =====
-- `move_up` of progress/mod.rs as two parts of the list: what stays before the element, and what comes
-- after it.
use async_raft.Base.{
  ℕ, ◌+◌, ◌≡◌, refl, ap, sym, List, [], ◌∷◌, ◌++◌, arith, if◌then◌else◌, length, inl, inr,
  rev_append, Bool-cases, rev_append-append, length-rev_append,
}
use async_raft.Base.Order.{Ord, ◌<?◌}
use async_raft.Progress.{rises, swap, move_up}
use async_raft.Progress.Votes.{votes}

module _ {A : Type 0} where
  pub rev_append_nil : (rp ys : List A) → rev_append rp ys ≡ rev_append rp [] ++ ys
  rev_append_nil rp ys = sym (rev_append-append rp [] ys)

  pub length-rev_append_nil : (rp : List A) → length (rev_append rp []) ≡ length rp
  length-rev_append_nil rp = omega (arith, length-rev_append rp [])

swap-append :
    {V : Type 0} (pre : List (ℕ × V)) (x y : ℕ × V) (ys : List (ℕ × V))
    → swap (pre ++ x ∷ y ∷ ys) (length pre) ≡ pre ++ y ∷ x ∷ ys
unfolding swap
swap-append [] x y ys = refl
swap-append (p ∷ []) x y ys = refl
swap-append (p ∷ q ∷ pre) x y ys = ap (λ l. p ∷ l) (swap-append (q ∷ pre) x y ys)

module _ {V P : Type 0} ⦃o : Ord P⦄ (borrow : V → P) where
  -- Where the element goes: what stays before it, in reverse order, and what comes after it.
  abbrev pub front : List (ℕ × V) → ℕ × V → List (ℕ × V)
  front [] x = []
  front (r ∷ rp) x = let rest = front rp x in if borrow r.1 <? borrow x.1 then rest else r ∷ rp

  abbrev pub back : List (ℕ × V) → ℕ × V → List (ℕ × V) → List (ℕ × V)
  back [] x ys = ys
  back (r ∷ rp) x ys =
      let rest = back rp x (r ∷ ys) in if borrow r.1 <? borrow x.1 then rest else ys

  rises-append :
      (pre : List (ℕ × V)) (x y : ℕ × V) (ys : List (ℕ × V))
      → rises borrow (pre ++ x ∷ y ∷ ys) (length pre) ≡ (borrow x.1 <? borrow y.1)
  unfolding rises
  rises-append [] x y ys = refl
  rises-append (p ∷ []) x y ys = refl
  rises-append (p ∷ q ∷ pre) x y ys = rises-append (q ∷ pre) x y ys

  rises-rev_append :
      (rp : List (ℕ × V)) (x y : ℕ × V) (ys : List (ℕ × V))
      → rises borrow (rev_append rp (x ∷ y ∷ ys)) (length rp) ≡ (borrow x.1 <? borrow y.1)
  rises-rev_append rp x y ys =
      rw (rev_append_nil rp (x ∷ y ∷ ys), ← length-rev_append_nil rp)
        (rises-append (rev_append rp []) x y ys)

  swap-rev_append :
      (rp : List (ℕ × V)) (x y : ℕ × V) (ys : List (ℕ × V))
      → swap (rev_append rp (x ∷ y ∷ ys)) (length rp) ≡ rev_append rp (y ∷ x ∷ ys)
  swap-rev_append rp x y ys =
      rw
        (rev_append_nil rp (x ∷ y ∷ ys), rev_append_nil rp (y ∷ x ∷ ys), ← length-rev_append_nil rp)
        (swap-append (rev_append rp []) x y ys)

  -- The loop computes the two parts.
  pub move_up-rev_append :
      (rp : List (ℕ × V)) (x : ℕ × V) (ys : List (ℕ × V))
      → move_up borrow (length rp) (rev_append rp (x ∷ ys))
        ≡ (rev_append (front rp x) (x ∷ back rp x ys), length (front rp x))
  unfolding move_up
  move_up-rev_append [] x ys = refl
  move_up-rev_append (r ∷ rp) x ys =
      rw (rises-rev_append rp r x ys, swap-rev_append rp r x ys)
        (elim (Bool-cases (borrow r.1 <? borrow x.1)) [
          | inl e ↦ rw e (move_up-rev_append rp x (r ∷ ys))
          | inr e ↦ rw e
        ])

  pub votes-front-back :
      (c : List ℕ) (p : P) (rp : List (ℕ × V)) (x : ℕ × V) (ys : List (ℕ × V))
      → votes borrow c p (front rp x) + votes borrow c p (back rp x ys)
        ≡ votes borrow c p rp + votes borrow c p ys
  votes-front-back c p [] x ys = refl
  votes-front-back c p (r ∷ rp) x ys = ground (arith, votes-front-back c p rp x (r ∷ ys))

  pub length-front-back :
      (rp : List (ℕ × V)) (x : ℕ × V) (ys : List (ℕ × V))
      → length (front rp x) + length (back rp x ys) ≡ length rp + length ys
  length-front-back [] x ys = refl
  length-front-back (r ∷ rp) x ys = ground (arith, length-front-back rp x (r ∷ ys))

  pub back-append :
      (rp : List (ℕ × V)) (x : ℕ × V) (ys zs : List (ℕ × V))
      → back rp x (ys ++ zs) ≡ back rp x ys ++ zs
  back-append [] x ys zs = refl
  back-append (r ∷ rp) x ys zs = ground (arith, back-append rp x (r ∷ ys) zs)
