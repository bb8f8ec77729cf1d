-- ===== src/LogIdList/Rounds.antt =====
-- `get_key_log_ids` of openraft/src/engine/log_id_list.rs ends, with a list that stands for the leaders
-- of the stored logs.
use async_raft.Base.{
  ℕ, zero, suc, ◌+◌, ◌-◌, ◌*◌, ◌/◌, ◌<◌, ◌≤◌, ◌≡◌, inl, inr, refl, ◌∙◌, subst, true, false, List,
  [], ◌∷◌, ◌++◌, Option, some, ◌==◌, ==_iff, arith, add64, add64_lem, u64_mod, Bool-cases, dec_lt,
}
use async_raft.Base.Order.{◌=?◌, option_ord, =?→eq}
use async_raft.Vote.{LeaderId, leader_id_ord}
use async_raft.LogId.{LogId, log_id_ord}
use async_raft.LogIdList.Loading.{push_new, split, visit, next, bisect}
use async_raft.LogIdList.Bisection.{
  stored, Stores, Ready, Good-run, Good-add, push_new-Good, Through, middle,
}

module _ (get : ℕ → Option LogId) (log : ℕ → LeaderId) (a b : ℕ) (s : Stores get log a b)
    (small : b + b < u64_mod) where
  one_run :
      (rounds x y : ℕ) (stack : List (LogId × LogId)) (res : List LogId)
      → a ≤ x
      → x < y
      → y ≤ b
      → Ready get log a b res x
      → (log x =? log y) ≡ true
      → Through get log a b (suc rounds) x y stack res
  unfolding bisect visit
  one_run rounds x y stack res h l m g same =
      let pushed = push_new-Good get log a b res x h g in
      (
        rounds,
        push_new res (stored log x),
        rw same refl,
        Good-run get log a b s (push_new res (stored log x)) x y pushed h (omega arith) m
            (=?→eq {A = LeaderId} (log x) (log y) same),
        omega arith,
      )

  adjacent :
      (rounds x : ℕ) (stack : List (LogId × LogId)) (res : List LogId)
      → a ≤ x
      → suc x ≤ b
      → Ready get log a b res x
      → (log x =? log (suc x)) ≡ false
      → Through get log a b (suc rounds) x (suc x) stack res
  unfolding bisect visit
  adjacent rounds x stack res h m g differs =
      let one : (add64 x 1 == suc x) ≡ true =
        (==_iff (add64 x 1) (suc x)).1 (add64_lem x 1 (omega (arith, small, m)) ∙ omega arith) in
      (
        rounds,
        push_new res (stored log x) ++ stored log (suc x) ∷ [],
        rw (differs, one) refl,
        Good-add get log a b (push_new res (stored log x)) x (push_new-Good get log a b res x h g),
        omega arith,
      )

  -- A span with a log in the middle.
  visit-split :
      (rounds x y mid : ℕ) (stack : List (LogId × LogId)) (res : List LogId)
      → a ≤ x
      → x < mid
      → mid < y
      → y ≤ b
      → (log x =? log y) ≡ false
      → add64 x y / 2 ≡ mid
      → bisect get (suc rounds) ((stored log x, stored log y) ∷ stack) res
        ≡ next
            (λ stack' res'. bisect get rounds stack' res')
            (split (stored log x) (stored log y) stack res (some (stored log mid)))
  unfolding bisect visit
  visit-split rounds x y mid stack res h l m n differs q =
      let sum = add64_lem x 1 (omega (arith, small, n, m)) in
      let far : (add64 x 1 == y) ≡ false = ground (arith, sum, l, m) in
      rw (differs, far, q, s.answers mid (omega arith) (omega arith)) refl

  -- A span of different ends is worked through.
  pub through :
      (n rounds x y : ℕ) (stack : List (LogId × LogId)) (res : List LogId)
      → a ≤ x
      → x < y
      → y ≤ b
      → y ≤ x + n
      → 2 * (y - x) ≤ rounds + 1
      → Ready get log a b res x
      → Through get log a b rounds x y stack res
  unfolding split
  through zero rounds x y stack res h l m n e g = absurd (omega arith)
  through (suc k) zero x y stack res h l m n e g = absurd (omega arith)
  through (suc k) (suc rounds) x y stack res h l m n e g = elim (Bool-cases (log x =? log y)) [
    | inl same ↦ one_run rounds x y stack res h l m g same
    | inr differs ↦ elim (dec_lt (suc x) y) [
      | no near ↦
          let q : suc x ≡ y = omega arith in
          subst (λ z. Through get log a b (suc rounds) x z stack res) q
            (adjacent rounds x stack res h (omega arith) g (rw q differs))
      | yes far ↦
          let (mid, q, l', m') = middle get log a b x y (omega arith) (omega (arith, small)) in
          let first = visit-split rounds x y mid stack res h l' m' m differs q in
          elim (Bool-cases (log x =? log mid)) [
            | inl left ↦
                let pushed = push_new-Good get log a b res x h g in
                let kept =
                  Good-run get log a b s (push_new res (stored log x)) x mid pushed h (omega arith)
                    (omega arith) (=?→eq {A = LeaderId} (log x) (log mid) left) in
                let (f, res', r, good, cost) =
                  through k rounds mid y stack (push_new res (stored log x)) (omega arith) m' m
                    (omega arith) (omega arith) (inr kept) in
                (f, res', first ∙ rw left r, good, omega (arith, cost))
            | inr moves ↦ elim (Bool-cases (log mid =? log y)) [
              | inl right ↦
                  let (f, res', r, good, cost) =
                    through k rounds x mid stack res h l' (omega arith) (omega arith) (omega arith)
                      g in
                  (
                    f,
                    res',
                    first ∙ rw (moves, right) r,
                    Good-run get log a b s res' mid y good (omega arith) (omega arith) m
                        (=?→eq {A = LeaderId} (log mid) (log y) right),
                    omega (arith, cost),
                  )
              | inr three ↦
                  let (f, res', r, good, cost) =
                    through k rounds x mid ((stored log mid, stored log y) ∷ stack) res h l'
                      (omega arith) (omega arith) (omega arith) g in
                  let (f', res'', r', good', cost') =
                    through k f mid y stack res' (omega arith) m' m (omega arith)
                      (omega (arith, cost)) (inr good) in
                  (f', res'', first ∙ rw (moves, three) r ∙ r', good', omega (arith, cost, cost'))
            ]
          ]
    ]
  ]
