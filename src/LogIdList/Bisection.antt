-- ===== src/LogIdList/Bisection.antt =====
-- What the rounds of `get_key_log_ids` (openraft/src/engine/log_id_list.rs) collect, and how many are
-- enough.
use async_raft.Base.{
  ℕ, suc, ◌+◌, ◌-◌, ◌*◌, ◌/◌, ◌<◌, ◌≤◌, ◌≡◌, ◌⊎◌, inl, inr, refl, sym, ap, ◌∙◌, subst, true, false,
  List, [], ◌∷◌, ◌++◌, Option, none, some, ltb, arith, get_last?, add64, add64_lem, u64_mod,
  Bool-cases, dec_lt,
}
use async_raft.Base.Order.{◌≤?◌, option_ord, le?_antisymm, lt?_irrefl}
use async_raft.Vote.{LeaderId, leader_id_ord}
use async_raft.LogId.{LogId, log_id_ord, leader_of}
use async_raft.LogIdList.Lookup.{Ascending}
use async_raft.LogIdList.Loading.{push_new, bisect}
use async_raft.LogIdList.InEffect.{
  in_effect, Below, Below-weaken, Below-add, Ascending-add, in_effect-add, in_effect-last,
}

-- The log id that is stored at an index.
abbrev pub stored : (ℕ → LeaderId) → ℕ → LogId
stored log i = record { leader_id = log i; index = i }

-- The storage has logs from `a` to `b`, by the leaders of `log`, which do not decrease.
pub record Stores (get : ℕ → Option LogId) (log : ℕ → LeaderId) (a b : ℕ) : Type 0 where
  pub answers : (i : ℕ) → a ≤ i → i ≤ b → get i ≡ some (stored log i)
  pub grows : (i j : ℕ) → a ≤ i → i ≤ j → j ≤ b → (log i ≤? log j) ≡ true

module _ (get : ℕ → Option LogId) (log : ℕ → LeaderId) (a b : ℕ) where
  -- What is collected up to an index.
  pub record Good (res : List LogId) (x : ℕ) : Type 0 where
    pub first : LogId
    pub others : List LogId
    pub shape : res ≡ first ∷ others
    pub ascending : Ascending res
    pub below : Below (suc x) res
    pub covers : (i : ℕ) → a ≤ i → i ≤ x → in_effect none res i ≡ some (log i)

  -- What a span starts from.
  abbrev pub Ready : List LogId → ℕ → Type 0
  Ready res x = ((res ≡ []) × (x ≡ a)) ⊎ Good res x

  same_run :
      (s : Stores get log a b) (x i y : ℕ)
      → a ≤ x
      → x ≤ i
      → i ≤ y
      → y ≤ b
      → log x ≡ log y
      → log i ≡ log x
  same_run s x i y h l m n e =
      le?_antisymm {A = LeaderId} (log i) (log x) (rw e (s.grows i y (omega (arith, h, l)) m n))
        (s.grows x i h l (omega (arith, m, n)))

  last_effect :
      (res : List LogId) (x i : ℕ)
      → Good res x
      → x ≤ i
      → in_effect none res i ≡ leader_of (get_last? res)
  last_effect res x i g le =
      let below : Below (suc x) (g.first ∷ g.others) = subst (Below (suc x)) (g.shape) (g.below) in
      rw (g.shape) (
        in_effect-last none g.first g.others i
          (Below-weaken (suc x) (suc i) (g.first ∷ g.others) (omega arith) below))

  pub last_leader :
      (res : List LogId) (x : ℕ) → a ≤ x → Good res x → leader_of (get_last? res) ≡ some (log x)
  last_leader res x h g = sym (last_effect res x x g (omega arith)) ∙ g.covers x h (omega arith)

  pub Good-run :
      (s : Stores get log a b) (res : List LogId) (x y : ℕ)
      → Good res x
      → a ≤ x
      → x ≤ y
      → y ≤ b
      → log x ≡ log y
      → Good res y
  Good-run s res x y g h l m e = record {
    first = g.first;
    others = g.others;
    shape = g.shape;
    ascending = g.ascending;
    below = Below-weaken (suc x) (suc y) res (omega arith) g.below;
    covers = λ i p q. elim (dec_lt x i) [
      | yes after ↦
          last_effect res x i g (omega arith)
          ∙ last_leader res x h g
          ∙ ap some (sym (same_run s x i y h (omega arith) q m e))
      | no before ↦ g.covers i p (omega arith)
    ];
  }

  pub Good-add :
      (res : List LogId) (x : ℕ) → Good res x → Good (res ++ stored log (suc x) ∷ []) (suc x)
  Good-add res x g = record {
    first = g.first;
    others = g.others ++ stored log (suc x) ∷ [];
    shape = ap (λ l. l ++ stored log (suc x) ∷ []) g.shape;
    ascending = Ascending-add res (stored log (suc x)) g.ascending g.below;
    below =
        Below-add (suc (suc x)) res (stored log (suc x))
          (Below-weaken (suc x) (suc (suc x)) res (omega arith) g.below) (omega arith);
    covers = λ i p q.
        in_effect-add none res (stored log (suc x)) i g.below ∙ elim (Bool-cases (ltb i (suc x))) [
          | inl before ↦ rw before (g.covers i p (ground (arith, before)))
          | inr here ↦
              let same : suc x ≡ i = ground (arith, here, q) in
              rw here (ap (λ j. some (log j)) same)
        ];
  }

  push_new-first : Good (push_new [] (stored log a)) a
  unfolding push_new
  push_new-first = record {
    first = stored log a;
    others = [];
    shape = refl;
    ascending = tt;
    below = (omega arith, tt);
    covers = λ i p q.
        let same : a ≡ i = omega (arith, p, q) in
        let after : ltb i a ≡ false = ground (arith, p) in rw after (ap (λ j. some (log j)) same);
  }

  pub push_new-Good :
      (res : List LogId) (x : ℕ) → a ≤ x → Ready res x → Good (push_new res (stored log x)) x
  unfolding push_new
  push_new-Good res x h (inl (e, q)) = rw (e, q) push_new-first
  push_new-Good res x h (inr g) =
      rw (last_leader res x h g, lt?_irrefl {A = Option LeaderId} (some (log x))) g

  -- What a span leaves: the rest of the stack, with what is collected up to its end, after fewer rounds
  -- than twice its length.
  abbrev pub Through : ℕ → ℕ → ℕ → List (LogId × LogId) → List LogId → Type 0
  Through rounds x y stack res =
      (left : ℕ) × (res' : List LogId) × (bisect get rounds ((stored log x, stored log y) ∷ stack)
          res
        ≡ bisect get left stack res')
      × Good res' y
      × (rounds + 1 ≤ left + 2 * (y - x))

  pub middle :
      (x y : ℕ)
      → x + 1 < y
      → x + y < u64_mod
      → (mid : ℕ) × (add64 x y / 2 ≡ mid) × (x < mid) × (mid < y)
  middle x y h m =
      let sum = add64_lem x y m in (add64 x y / 2, refl, omega (arith, sum), omega (arith, sum))
