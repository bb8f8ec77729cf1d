-- ===== src/Quorum.antt =====
-- openraft/src/quorum: majority quorums of one set (quorum_set_impl.rs), joint quorums (joint.rs) and
-- coherent quorum sets (coherent_impl.rs). A joint is the list of its children. Children: proofs.
pub mod Majority
pub mod Coherent
use async_raft.Base.{
  ℕ, ◌+◌, Bool, true, false, ◌&&◌, ◌||◌, List, [], ◌∷◌, ltb, if◌then◌else◌, length, Option, none,
  some, get_last?,
}
use async_raft.Base.Sets.{member, union, list_eq}

-- The loop of `is_quorum`: `count` grows by 2 for each id in the set, until it exceeds `limit`.
unfoldable pub count_quorum : List ℕ → ℕ → List ℕ → Bool
count_quorum config count [] = false
count_quorum config count (id ∷ ids) =
    let count' = if member id config then count + 2 else count in
    let rest = count_quorum config count' ids in
    if member id config then (if ltb (length config) count' then true else rest) else rest

-- `QuorumSet::is_quorum` of a `BTreeSet`, a `Vec` and a slice.
unfoldable pub is_quorum : List ℕ → List ℕ → Bool
unfolding count_quorum
is_quorum config ids = count_quorum config 0 ids

-- `QuorumSet::is_quorum` and `ids` of a `Joint`.
unfoldable pub is_joint_quorum : List (List ℕ) → List ℕ → Bool
unfolding is_quorum
is_joint_quorum [] ids = true
is_joint_quorum (c ∷ cs) ids =
    let rest = is_joint_quorum cs ids in if is_quorum c ids then rest else false

unfoldable pub joint_ids : List (List ℕ) → List ℕ
unfolding union
joint_ids [] = []
joint_ids (c ∷ cs) = union c (joint_ids cs)

-- `Joint::is_coherent_with` one quorum set, and with another joint.
unfoldable pub has_child : List (List ℕ) → List ℕ → Bool
has_child [] other = false
has_child (a ∷ as') other = list_eq a other || has_child as' other

unfoldable pub is_coherent_with : List (List ℕ) → List (List ℕ) → Bool
unfolding has_child
is_coherent_with [] other = false
is_coherent_with (a ∷ as') other = has_child other a || is_coherent_with as' other

-- `FindCoherent::find_coherent`.
unfoldable pub find_coherent : List (List ℕ) → List ℕ → List (List ℕ)
unfolding has_child
find_coherent self other =
    if has_child self other
    then other ∷ []
    else elim (get_last? self) [ some last ↦ last ∷ other ∷ [] | none ↦ other ∷ [] ]
