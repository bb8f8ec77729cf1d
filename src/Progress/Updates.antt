-- ===== src/Progress/Updates.antt =====
-- `VecProgress::new` and `update_with` (progress/mod.rs).
use async_raft.Base.{
  three_tests, true-false, some_inj, ℕ, suc, ◌≤◌, ◌<◌, ◌≡◌, refl, sym, ap, ◌∙◌, subst, inl, inr,
  true, false, List, [], ◌∷◌, ◌++◌, arith, length, All, rev_append, get_elem?, Option-cases, some,
  leb, ◌&&◌, split_at, rev_append-append, dec_lt, Bool-cases, ◌==◌,
}
use async_raft.Base.Order.{Ord, ◌≤?◌, ◌<?◌, ◌=?◌, le?_refl, lt?_flip}
use async_raft.Quorum.{joint_ids}
use async_raft.Progress.{
  VecProgress, ids, put, update_at, update_with, index, new, with_default, found, not_found,
  try_get, update,
}
use async_raft.Progress.Votes.{Sorted, votes_zero}
use async_raft.Progress.Scan.{get_elem?-rev_append}
use async_raft.Progress.Granted.{Inv, put-right}
use async_raft.Progress.Voter.{voter-Inv}
use async_raft.Progress

late : (i n : ℕ) → n ≤ i → leb n i ≡ true
late i n h = ground arith

-- The value that is found is that of the element at the index.
pub try_get-index :
    {V : Type 0} (xs : List (ℕ × V)) (id : ℕ) (v : V)
    → try_get xs id ≡ some v
    → (i : ℕ) × (x : ℕ × V) × (index xs id ≡ some i) × (get_elem? xs i ≡ some x) × (x.1 ≡ v)
unfolding try_get index
try_get-index [] id v h = absurd cc
try_get-index ((j, w) ∷ xs) id v h = elim (Bool-cases (j == id)) [
  | inl e ↦ (0, (j, w), rw e refl, refl, some_inj (rw e at h))
  | inr n ↦
      let (i, x, a, b, c) = try_get-index xs id v (rw n at h) in (suc i, x, rw (n, a) refl, b, c)
]

module _ {V P : Type 0} ⦃o : Ord P⦄ (borrow : V → P) where
  All-default : (R : V → Type 0) (v : V) (xs : List ℕ) → R v → All (λ y. R y.1) (with_default v xs)
  All-default R v [] r = tt
  All-default R v (x ∷ xs) r = (r, All-default R v xs r)

  default-Sorted : (g : P) (v : V) (xs : List ℕ) → Sorted borrow g (with_default v xs)
  default-Sorted g v [] = tt
  default-Sorted g v (x ∷ xs) = (
    All-default (λ y. (g <? borrow y) ≡ true → (borrow y ≤? borrow v) ≡ true) v xs
        (λ _. le?_refl {A = P} (borrow v)),
    default-Sorted g v xs,
  )

  length-default : (v : V) (xs : List ℕ) → length (with_default v xs) ≡ length xs
  length-default v [] = refl
  length-default v (x ∷ xs) = ap suc (length-default v xs)

  -- The progress of a new leader over at least one set of voters satisfies the invariant, and its
  -- granted value is that of the default entry.
  pub new-Inv :
      (c : List ℕ) (cs : List (List ℕ)) (learners : List ℕ) (v : V)
      → Inv borrow (borrow v) (Progress.new borrow (c ∷ cs) learners v)
  unfolding Progress.new
  new-Inv c cs learners v =
      let xs = with_default v (joint_ids (c ∷ cs)) in
      record {
        voters = xs;
        learners = with_default v learners;
        parts = refl;
        size = length-default v (joint_ids (c ∷ cs));
        sorted = default-Sorted (borrow v) v (joint_ids (c ∷ cs));
        reached = inl refl;
        greatest = λ p l q. absurd (
            omega (
              arith,
              q.0,
              votes_zero borrow c p xs (
                  All-default (λ y. (p ≤? borrow y) ≡ false) v (joint_ids (c ∷ cs))
                    (ground (arith, lt?_flip {A = P} (borrow v) p))),
            ));
      }

  learner-Inv :
      (low : P) (s : VecProgress V P) (i : ℕ) (v w : V)
      → Inv borrow low s
      → s.voter_count ≤ i
      → let s' = update_at borrow s i v w in Inv borrow low s' × ((s.granted ≤? s'.granted) ≡ true)
  unfolding update_at
  learner-Inv low s i v w q h =
      let (ls, e) = put-right q.voters q.learners i w (omega (arith, q.size)) in
      let r : Inv borrow low (record s { vector = put s.vector i w }) = record {
        voters = q.voters;
        learners = ls;
        parts = rw (q.parts) e;
        size = q.size;
        sorted = q.sorted;
        reached = q.reached;
        greatest = q.greatest;
      } in
      let both : Inv borrow low (record s { vector = put s.vector i w })
          × ((s.granted ≤? s.granted) ≡ true) =
        (r, le?_refl {A = P} s.granted) in
      three_tests (λ s'. Inv borrow low s' × ((s.granted ≤? s'.granted) ≡ true))
        (borrow v =? borrow w) (leb s.voter_count i)
        ((borrow v ≤? s.granted) && (s.granted <? borrow w)) (λ _. both) (λ _. both)
        (λ _ n _. absurd (true-false (late i s.voter_count h) n))
        (λ _ n _. absurd (true-false (late i s.voter_count h) n))

  at-Inv :
      (low : P) (s : VecProgress V P) (i : ℕ) (x : ℕ × V) (w : V)
      → Inv borrow low s
      → get_elem? s.vector i ≡ some x
      → (i < s.voter_count → (borrow x.1 =? borrow w) ≡ false → (borrow x.1 ≤? s.granted) ≡ true)
      → (borrow x.1 ≤? borrow w) ≡ true
      → let s' = update_at borrow s i x.1 w in
        Inv borrow low s' × ((s.granted ≤? s'.granted) ≡ true)
  at-Inv low s i x w q g h k = elim (dec_lt i s.voter_count) [
    | no n ↦ learner-Inv low s i x.1 w q (omega arith)
    | yes l ↦
        let (rp, y, ys, e, n) = split_at q.voters i (omega (arith, q.size)) in
        let here : get_elem? s.vector (length rp) ≡ some y =
          rw (q.parts, e, rev_append-append rp (y ∷ ys) q.learners)
            (get_elem?-rev_append rp y (ys ++ q.learners)) in
        let same : y ≡ x = some_inj (sym here ∙ ap (get_elem? s.vector) n ∙ g) in
        subst
          (λ j.
            let s' = update_at borrow s j x.1 w in
            Inv borrow low s' × ((s.granted ≤? s'.granted) ≡ true))
          n
          (voter-Inv borrow low s rp x.0 x.1 w ys q (e ∙ ap (λ z. rev_append rp (z ∷ ys)) same)
            (h l) k)
  ]

  -- In a progress that satisfies the invariant, an update of a known or unknown id by a function that
  -- never lowers a value keeps the invariant, and the granted value does not go back, provided that the
  -- id is a learner's, its value does not change, or its value was not above the granted one.
  pub update_with-Inv :
      (low : P) (s : VecProgress V P) (id : ℕ) (f : V → V)
      → Inv borrow low s
      → ((v : V) → (borrow v ≤? borrow (f v)) ≡ true)
      → ((i : ℕ) (x : ℕ × V)
          → index s.vector id ≡ some i
          → get_elem? s.vector i ≡ some x
          → i < s.voter_count
          → (borrow x.1 =? borrow (f x.1)) ≡ false
          → (borrow x.1 ≤? s.granted) ≡ true)
      → let s' = (update_with borrow s id f).0 in
        Inv borrow low s' × ((s.granted ≤? s'.granted) ≡ true)
  unfolding update_with
  update_with-Inv low s id f q grow below = elim (Option-cases (index s.vector id)) [
    | inl e ↦ rw (update_with, e) (q, le?_refl {A = P} s.granted)
    | inr (i, e) ↦ elim (Option-cases (get_elem? s.vector i)) [
      | inl g ↦ rw (update_with, e, g) (q, le?_refl {A = P} s.granted)
      | inr (x, g) ↦
          rw (update_with, e, g) (at-Inv low s i x (f x.1) q g (below i x e g) (grow x.1))
    ]
  ]

  -- In a progress that satisfies the invariant, an update of a known id by a greater value keeps the
  -- invariant, and the granted value does not go back, provided that the id is a learner's, its value
  -- does not change, or its value was not above the granted one.
  pub update-Inv :
      (low : P) (s : VecProgress V P) (id : ℕ) (v w : V)
      → Inv borrow low s
      → try_get s.vector id ≡ some v
      → (borrow v ≤? borrow w) ≡ true
      → ((i : ℕ)
          → index s.vector id ≡ some i
          → i < s.voter_count
          → (borrow v =? borrow w) ≡ false
          → (borrow v ≤? s.granted) ≡ true)
      → let s' = (update borrow s id w).0 in Inv borrow low s' × ((s.granted ≤? s'.granted) ≡ true)
  unfolding update update_with
  update-Inv low s id v w q t grow below =
      let (i, x, e, g, same) = try_get-index s.vector id v t in
      rw (update, update_with, e, g)
        (at-Inv low s i x w q g (λ l d. rw same (below i e l (rw (← same) d))) (rw same grow))
