-- ===== src/Progress.antt =====
-- openraft/src/progress/mod.rs: `VecProgress`, the values that the nodes have reached and the greatest
-- one that a quorum has. `V` is an entry, `borrow` its value. The counters of `Stat` are left out.
-- Children: proofs.
pub mod Votes
pub mod MoveUp
pub mod InOrder
pub mod Scan
pub mod Granted
pub mod Settle
pub mod Voter
pub mod Updates
pub mod Disorder
use async_raft.Base.{
  ℕ, zero, suc, ◌+◌, ◌-◌, Bool, true, false, ◌&&◌, List, [], ◌∷◌, ◌++◌, map, Option, none, some,
  if◌then◌else◌, ltb, leb, ◌==◌, length, get_elem?, take,
}
use async_raft.Base.Order.{Ord, ◌≤?◌, ◌<?◌, ◌=?◌}
use async_raft.Quorum.{is_joint_quorum, joint_ids}

pub record VecProgress (V P : Type 0) : Type 0 where
  pub quorum_set : List (List ℕ)
  pub granted : P
  pub voter_count : ℕ
  pub vector : List (ℕ × V)

-- The two results of `update_with`: `Err` where the id is not found.
pub data Found (P : Type 0) : Type 0 where
  found : P → Found P
  not_found : P → Found P

module _ {V : Type 0} where
  abbrev pub ids : List (ℕ × V) → List ℕ
  ids [] = []
  ids ((id, _) ∷ xs) = id ∷ ids xs

  abbrev pub with_default : V → List ℕ → List (ℕ × V)
  with_default v [] = []
  with_default v (id ∷ xs) = (id, v) ∷ with_default v xs

  -- `index`: the first element with the id.
  unfoldable pub index : List (ℕ × V) → ℕ → Option ℕ
  index [] target = none
  index ((id, _) ∷ xs) target =
      let rest = index xs target in
      if id == target then some 0 else elim rest [ none ↦ none | some i ↦ some (suc i) ]

  -- `try_get`.
  unfoldable pub try_get : List (ℕ × V) → ℕ → Option V
  try_get [] target = none
  try_get ((id, v) ∷ xs) target = if id == target then some v else try_get xs target

  -- What a caller writes through `get_mut`: the first element with the id is replaced.
  unfoldable pub write_mut : List (ℕ × V) → ℕ → V → List (ℕ × V)
  write_mut [] target w = []
  write_mut ((id, v) ∷ xs) target w =
      if id == target then (id, w) ∷ xs else (id, v) ∷ write_mut xs target w

  -- The element at an index is replaced; `swap(i, i + 1)`.
  unfoldable pub put : List (ℕ × V) → ℕ → V → List (ℕ × V)
  put [] i w = []
  put ((id, v) ∷ xs) zero w = (id, w) ∷ xs
  put (x ∷ xs) (suc i) w = x ∷ put xs i w

  unfoldable pub swap : List (ℕ × V) → ℕ → List (ℕ × V)
  swap (x ∷ y ∷ xs) zero = y ∷ x ∷ xs
  swap (x ∷ xs) (suc i) = x ∷ swap xs i
  swap xs zero = xs
  swap [] (suc i) = []

module _ {V P : Type 0} ⦃o : Ord P⦄ (borrow : V → P) where
  -- The test of `move_up`: element `i` is less than element `i + 1`.
  unfoldable pub rises : List (ℕ × V) → ℕ → Bool
  rises (x ∷ y ∷ xs) zero = borrow x.1 <? borrow y.1
  rises (x ∷ xs) (suc i) = rises xs i
  rises _ _ = false

  -- The loop of `move_up` for `i` from `index - 1` down to 0.
  unfoldable pub move_up : ℕ → List (ℕ × V) → List (ℕ × V) × ℕ
  unfolding rises swap
  move_up zero v = (v, 0)
  move_up (suc i) v = let moved = move_up i (swap v i) in if rises v i then moved else (v, suc i)

  -- The loop that looks for the greatest value granted by a quorum: `n` rounds from `i`.
  unfoldable pub scan : List (List ℕ) → List (ℕ × V) → P → ℕ → ℕ → P
  scan qs v granted zero i = granted
  scan qs v granted (suc n) i =
      let rest = scan qs v granted n (suc i) in
      elim (get_elem? v i) [
        | none ↦ granted
        | some x ↦
            if borrow x.1 ≤? granted
            then granted
            else if is_joint_quorum qs (ids (take (suc i) v))
            then borrow x.1
            else rest
      ]

  unfoldable pub new : List (List ℕ) → List ℕ → V → VecProgress V P
  new qs learners v = record {
    quorum_set = qs;
    granted = borrow v;
    voter_count = length (joint_ids qs);
    vector = with_default v (joint_ids qs) ++ with_default v learners;
  }

  -- The element at `i` is moved up, and the greatest granted value is looked for.
  unfoldable pub settle : VecProgress V P → List (ℕ × V) → ℕ → VecProgress V P
  unfolding move_up scan
  settle s v i =
      let (vector', new_index) = move_up i v in
      record s {
        vector = vector';
        granted = scan s.quorum_set vector' s.granted (s.voter_count - new_index) new_index;
      }

  -- `update_with` once the element is found at `i` with the value `v`, which becomes `w`.
  unfoldable pub update_at : VecProgress V P → ℕ → V → V → VecProgress V P
  unfolding settle put
  update_at s i v w =
      let s' = record s { vector = put s.vector i w } in
      if borrow v =? borrow w
      then s'
      else if leb s.voter_count i
      then s'
      else if (borrow v ≤? s.granted) && (s.granted <? borrow w)
      then settle s (put s.vector i w) i
      else s'

  unfoldable pub update_with : VecProgress V P → ℕ → (V → V) → VecProgress V P × Found P
  unfolding update_at index
  update_with s id f = elim (index s.vector id) [
    | none ↦ (s, not_found s.granted)
    | some i ↦ elim (get_elem? s.vector i) [
      | none ↦ (s, not_found s.granted)
      | some x ↦ let s' = update_at s i x.1 (f x.1) in (s', found s'.granted)
    ]
  ]

  -- `update`.
  unfoldable pub update : VecProgress V P → ℕ → V → VecProgress V P × Found P
  unfolding update_with
  update s id v = update_with s id (λ _. v)

  -- `increase_to`.
  unfoldable pub increase_to : ⦃q : Ord V⦄ → VecProgress V P → ℕ → V → VecProgress V P × Found P
  unfolding update_with
  increase_to s id v = update_with s id (λ x. if x <? v then v else x)

  -- The values of `self` are put into the progress over the new quorum set, one by one.
  unfoldable pub inherit : VecProgress V P → List (ℕ × V) → VecProgress V P
  unfolding update
  inherit s [] = s
  inherit s ((id, v) ∷ xs) = inherit (update s id v).0 xs

  unfoldable pub upgrade_quorum_set : VecProgress V P → List (List ℕ) → List ℕ → V → VecProgress V P
  unfolding inherit new
  upgrade_quorum_set s qs learners v = inherit (new qs learners v) s.vector
