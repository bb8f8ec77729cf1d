-- ===== src/Progress/InOrder.antt =====
-- The order of the elements above the granted value, under changes of the list (progress/mod.rs).
use async_raft.Base.{
  ℕ, ◌≡◌, true, false, List, [], ◌∷◌, arith, inl, inr, All, rev_append, Bool-cases,
}
use async_raft.Base.Order.{
  Ord, ◌≤?◌, ◌<?◌, le?_trans, lt?_le?_trans, not_lt?→le?, lt?→le?, lt?_flip,
}
use async_raft.Progress.Votes.{Within, Sorted}
use async_raft.Progress.MoveUp.{front, back}

module _ {ℓ} {A : Type ℓ} where
  pub All-map : {P Q : A → Type 0} (xs : List A) → ((x : A) → P x → Q x) → All P xs → All Q xs
  All-map [] f a = tt
  All-map (x ∷ xs) f a = (f x a.0, All-map xs f a.1)

module _ {V P : Type 0} ⦃o : Ord P⦄ (borrow : V → P) where
  pub Sorted-tail :
      (g : P) (rp ys : List (ℕ × V)) → Sorted borrow g (rev_append rp ys) → Sorted borrow g ys
  Sorted-tail g [] ys s = s
  Sorted-tail g (r ∷ rp) ys s = (Sorted-tail g rp (r ∷ ys) s).1

  -- What comes before an element above `g` is at least that element.
  pub Sorted-before :
      (g : P) (rp : List (ℕ × V)) (x : ℕ × V) (ys : List (ℕ × V))
      → Sorted borrow g (rev_append rp (x ∷ ys))
      → (g <? borrow x.1) ≡ true
      → All (λ e. (borrow x.1 ≤? borrow e.1) ≡ true) rp
  Sorted-before g [] x ys s h = tt
  Sorted-before g (r ∷ rp) x ys s h =
      let w = (Sorted-tail g rp (r ∷ x ∷ ys) s).0.0 h in
      let above = lt?_le?_trans {A = P} g (borrow x.1) (borrow r.1) h w in
      (
        w,
        All-map rp (λ e k. le?_trans {A = P} (borrow x.1) (borrow r.1) (borrow e.1) w k)
            (Sorted-before g rp r (x ∷ ys) s above),
      )

  pub Sorted-replace :
      (g : P) (rp ys zs : List (ℕ × V))
      → Sorted borrow g (rev_append rp ys)
      → Sorted borrow g zs
      → ((e : ℕ × V) → Within borrow g e ys → Within borrow g e zs)
      → Sorted borrow g (rev_append rp zs)
  Sorted-replace g [] ys zs s t f = t
  Sorted-replace g (r ∷ rp) ys zs s t f =
      Sorted-replace g rp (r ∷ ys) (r ∷ zs) s (f r (Sorted-tail g rp (r ∷ ys) s).0, t)
        (λ e w. (w.0, f e w.1))

  -- Nothing after an element up to `g` is above `g`.
  pub Within-le :
      (g : P) (x : ℕ × V) (ys : List (ℕ × V))
      → (borrow x.1 ≤? g) ≡ true
      → Within borrow g x ys
      → All (λ y. (g <? borrow y.1) ≡ false) ys
  Within-le g x [] h w = tt
  Within-le g x (y ∷ ys) h w = (
    ground (arith, le?_trans {A = P} (borrow y.1) (borrow x.1) g, lt?_flip {A = P} g (borrow y.1)),
    Within-le g x ys h w.1,
  )

  pub Within-none :
      (g : P) (x : ℕ × V) (ys : List (ℕ × V))
      → All (λ y. (g <? borrow y.1) ≡ false) ys
      → Within borrow g x ys
  Within-none g x ys a = All-map ys (λ y n t. cc) a

  pub Sorted-insert :
      (g : P) (rp : List (ℕ × V)) (x : ℕ × V) (ys : List (ℕ × V))
      → Sorted borrow g (rev_append rp ys)
      → (g <? borrow x.1) ≡ true
      → Within borrow g x ys
      → Sorted borrow g (rev_append (front borrow rp x) (x ∷ back borrow rp x ys))
  Sorted-insert g [] x ys s h w = (w, s)
  Sorted-insert g (r ∷ rp) x ys s h w = elim (Bool-cases (borrow r.1 <? borrow x.1)) [
    | inl e ↦
        rw e
          (Sorted-insert g rp x (r ∷ ys) s h (λ _. lt?→le? {A = P} (borrow r.1) (borrow x.1) e, w))
    | inr e ↦
        let le = not_lt?→le? {A = P} (borrow r.1) (borrow x.1) e in
        let above = lt?_le?_trans {A = P} g (borrow x.1) (borrow r.1) h le in
        let (wr, sy) = Sorted-tail g rp (r ∷ ys) s in
        rw e (
          Sorted-replace g rp (r ∷ ys) (r ∷ x ∷ ys) s ((λ _. le, wr), (w, sy))
            (λ d k. (
              k.0,
              ((λ _. le?_trans {A = P} (borrow x.1) (borrow r.1) (borrow d.1) le (k.0 above)), k.1),
            )))
  ]

  pub front_ge :
      (g : P) (rp : List (ℕ × V)) (x : ℕ × V) (ys : List (ℕ × V))
      → Sorted borrow g (rev_append rp ys)
      → (g <? borrow x.1) ≡ true
      → All (λ e. (borrow x.1 ≤? borrow e.1) ≡ true) (front borrow rp x)
  front_ge g [] x ys s h = tt
  front_ge g (r ∷ rp) x ys s h = elim (Bool-cases (borrow r.1 <? borrow x.1)) [
    | inl e ↦ rw e (front_ge g rp x (r ∷ ys) s h)
    | inr e ↦
        let le = not_lt?→le? {A = P} (borrow r.1) (borrow x.1) e in
        let above = lt?_le?_trans {A = P} g (borrow x.1) (borrow r.1) h le in
        rw e (
          le,
          All-map rp (λ d k. le?_trans {A = P} (borrow x.1) (borrow r.1) (borrow d.1) le k)
              (Sorted-before g rp r ys s above),
        )
  ]
