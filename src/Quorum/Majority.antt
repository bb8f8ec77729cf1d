-- ===== src/Quorum/Majority.antt =====
-- `is_quorum` as a majority of one set (quorum_set_impl.rs).
use async_raft.Base.{
  ℕ, suc, ◌+◌, ◌*◌, ◌≤◌, ◌<◌, ◌≡◌, refl, subst, ◌==◌, ◌↔◌, ◌⊎◌, inl, inr, true, false, ◌&&◌, List,
  [], ◌∷◌, ==_iff, ==_refl, if◌then◌else◌, length, arith, Bool-cases,
}
use async_raft.Base.Sets.{member, Distinct}
use async_raft.Quorum.{count_quorum, is_quorum}

-- How many of `ids` are in the set.
abbrev pub count_in : List ℕ → List ℕ → ℕ
count_in config [] = 0
count_in config (id ∷ ids) =
    let rest = count_in config ids in if member id config then suc rest else rest

count_quorum_iff :
    (config : List ℕ) (count : ℕ) (ids : List ℕ)
    → count ≤ length config
    → (count_quorum config count ids ≡ true) ↔ (length config < count + 2 * count_in config ids)
unfolding count_quorum
count_quorum_iff config count [] h = (λ e. cc, λ l. absurd (omega arith))
count_quorum_iff config count (id ∷ ids) h = (
  λ e. ground (arith, count_quorum_iff config (count + 2) ids, count_quorum_iff config count ids),
  λ l. ground (arith, count_quorum_iff config (count + 2) ids, count_quorum_iff config count ids),
)

-- The ids are counted as often as they occur.
pub is_quorum_iff :
    (config ids : List ℕ)
    → (is_quorum config ids ≡ true) ↔ (length config < 2 * count_in config ids)
unfolding is_quorum
is_quorum_iff config ids = (
  λ e. ground (arith, count_quorum_iff config 0 ids),
  λ l. ground (arith, count_quorum_iff config 0 ids),
)

-- How many elements of the set are among `ids`.
abbrev pub overlap : List ℕ → List ℕ → ℕ
overlap [] ids = 0
overlap (c ∷ cs) ids = let rest = overlap cs ids in if member c ids then suc rest else rest

overlap-cons :
    (cs : List ℕ) (id : ℕ) (ids : List ℕ)
    → member id ids ≡ false
    → overlap cs (id ∷ ids) ≡ overlap cs ids + overlap cs (id ∷ [])
overlap-cons [] id ids h = refl
overlap-cons (c ∷ cs) id ids h = ground (arith, overlap-cons cs id ids h, ==_iff c id)

overlap-member : (cs : List ℕ) (id : ℕ) → member id cs ≡ true → 0 < overlap cs (id ∷ [])
overlap-member [] id h = cc
overlap-member (c ∷ cs) id h = ground (arith, overlap-member cs id)

count_in-le-overlap : (cs ids : List ℕ) → Distinct ids → count_in cs ids ≤ overlap cs ids
count_in-le-overlap cs [] d = omega arith
count_in-le-overlap cs (id ∷ ids) d =
    ground (arith, overlap-cons cs id ids d.0, overlap-member cs id, count_in-le-overlap cs ids d.1)

overlap-other : (cs : List ℕ) (id : ℕ) → member id cs ≡ false → overlap cs (id ∷ []) ≡ 0
overlap-other [] id h = refl
overlap-other (c ∷ cs) id h = ground (arith, overlap-other cs id, ==_iff c id, ==_iff id c)

overlap-once :
    (cs : List ℕ) (id : ℕ) → Distinct cs → overlap cs (id ∷ []) ≡ (if member id cs then 1 else 0)
overlap-once [] id d = refl
overlap-once (c ∷ cs) id d = elim (Bool-cases (c == id)) [
  | inl same ↦
      let here : c ≡ id = (==_iff c id).0 same in
      let none_left = overlap-other cs id (subst (λ x. member x cs ≡ false) here d.0) in
      ground (arith, none_left, ==_iff id c)
  | inr apart ↦ ground (arith, overlap-once cs id d.1, ==_iff id c)
]

count_in-overlap : (cs ids : List ℕ) → Distinct cs → Distinct ids → count_in cs ids ≡ overlap cs ids
count_in-overlap cs [] d e = none_among cs
  where
    none_among : (ks : List ℕ) → 0 ≡ overlap ks []
    none_among [] = refl
    none_among (k ∷ ks) = none_among ks
count_in-overlap cs (id ∷ ids) d e =
    ground (arith, overlap-cons cs id ids e.0, overlap-once cs id d, count_in-overlap cs ids d e.1)

-- For a set and ids that do not list a node twice, the loop with its early return decides whether more
-- than half of the elements of the set are among the ids.
pub is_quorum-overlap :
    (config ids : List ℕ)
    → Distinct config
    → Distinct ids
    → (is_quorum config ids ≡ true) ↔ (length config < 2 * overlap config ids)
is_quorum-overlap config ids d e =
    subst (λ n. (is_quorum config ids ≡ true) ↔ (length config < 2 * n))
      (count_in-overlap config ids d e) (is_quorum_iff config ids)

-- Either some element of the set is among both, or the overlaps fit into the set together.
overlap_cases :
    (cs xs ys : List ℕ)
    → ((z : ℕ) × (member z cs ≡ true) × (member z xs ≡ true) × (member z ys ≡ true))
      ⊎ (overlap cs xs + overlap cs ys ≤ length cs)
overlap_cases [] xs ys = inr (omega arith)
overlap_cases (c ∷ cs) xs ys = elim (Bool-cases (member c xs && member c ys)) [
  | inl both ↦ inl (c, ground (arith, ==_refl c), ground arith, ground arith)
  | inr apart ↦ elim (overlap_cases cs xs ys) [
    | inl (z, in_cs, in_xs, in_ys) ↦ inl (z, ground arith, in_xs, in_ys)
    | inr small ↦ inr (ground arith)
  ]
]

-- Two majorities of one set have a member of the set in common, if neither lists a node twice.
pub majorities_meet :
    (config xs ys : List ℕ)
    → Distinct xs
    → Distinct ys
    → is_quorum config xs ≡ true
    → is_quorum config ys ≡ true
    → (z : ℕ) × (member z config ≡ true) × (member z xs ≡ true) × (member z ys ≡ true)
majorities_meet config xs ys dx dy qx qy = elim (overlap_cases config xs ys) [
  | inl common ↦ common
  | inr small ↦ absurd (
      omega (
        arith,
        (is_quorum_iff config xs).0 qx,
        (is_quorum_iff config ys).0 qy,
        count_in-le-overlap config xs dx,
        count_in-le-overlap config ys dy,
      ))
]
