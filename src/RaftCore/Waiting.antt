-- ===== src/RaftCore/Waiting.antt =====
-- What `handle_check_is_leader_request` of openraft/src/core/raft_core.rs waits for.
use async_raft.Base.{
  ℕ, ◌≤◌, ◌≡◌, refl, inl, inr, Bool, true, false, List, [], ◌∷◌, none, if◌then◌else◌, ◌==◌, ◌||◌,
  arith, Bool-cases, true-false,
}
use async_raft.Base.Order.{option_ord}
use async_raft.Base.Sets.{insert, member, member-insert, From, insert-From}
use async_raft.LogId.{log_id_ord}
use async_raft.Quorum.{is_quorum, is_joint_quorum}
use async_raft.Quorum.Majority.{count_in, is_quorum_iff}
use async_raft.RaftCore.Reads.{
  Reply, confirmed, outvoted, lost, ReadAnswer, forward, quorum_not_enough, wait_for,
}

-- The nodes that have confirmed, with those in a set.
abbrev pub with_confirmed : List ℕ → List Reply → List ℕ
with_confirmed granted [] = granted
with_confirmed granted (lost t ∷ replies) = with_confirmed granted replies
with_confirmed granted (outvoted t v ∷ replies) = with_confirmed granted replies
with_confirmed granted (confirmed t ∷ replies) = with_confirmed (insert t granted) replies

abbrev pub has_confirmed : ℕ → List Reply → Bool
has_confirmed x [] = false
has_confirmed x (lost t ∷ replies) = has_confirmed x replies
has_confirmed x (outvoted t v ∷ replies) = has_confirmed x replies
has_confirmed x (confirmed t ∷ replies) = (x == t) || has_confirmed x replies

-- Some reply has a greater vote.
abbrev pub is_outvoted : List Reply → Bool
is_outvoted [] = false
is_outvoted (lost t ∷ replies) = is_outvoted replies
is_outvoted (outvoted t v ∷ replies) = true
is_outvoted (confirmed t ∷ replies) = is_outvoted replies

count_in-insert :
    (config : List ℕ) (x : ℕ) (ids : List ℕ) → count_in config ids ≤ count_in config (insert x ids)
unfolding insert
count_in-insert config x [] = omega arith
count_in-insert config x (y ∷ ys) = ground (arith, count_in-insert config x ys)

-- A quorum stays one when a node is added.
is_joint_quorum-insert :
    (qs : List (List ℕ)) (x : ℕ) (ids : List ℕ)
    → is_joint_quorum qs ids ≡ true
    → is_joint_quorum qs (insert x ids) ≡ true
unfolding is_joint_quorum
is_joint_quorum-insert [] x ids h = refl
is_joint_quorum-insert (c ∷ cs) x ids h = elim (Bool-cases (is_quorum c ids)) [
  | inl one ↦
      let more = count_in-insert c x ids in
      let rest : is_joint_quorum cs ids ≡ true = rw one at h in
      let still : is_quorum c (insert x ids) ≡ true =
        (is_quorum_iff c (insert x ids)).1 (omega (arith, (is_quorum_iff c ids).0 one, more)) in
      rw still (is_joint_quorum-insert cs x ids rest)
  | inr none_yet ↦ absurd (true-false (rw none_yet at h) refl)
]

pub is_joint_quorum-with_confirmed :
    (qs : List (List ℕ)) (replies : List Reply) (ids : List ℕ)
    → is_joint_quorum qs ids ≡ true
    → is_joint_quorum qs (with_confirmed ids replies) ≡ true
is_joint_quorum-with_confirmed qs [] ids h = h
is_joint_quorum-with_confirmed qs (lost t ∷ replies) ids h =
    is_joint_quorum-with_confirmed qs replies ids h
is_joint_quorum-with_confirmed qs (outvoted t v ∷ replies) ids h =
    is_joint_quorum-with_confirmed qs replies ids h
is_joint_quorum-with_confirmed qs (confirmed t ∷ replies) ids h =
    is_joint_quorum-with_confirmed qs replies (insert t ids) (is_joint_quorum-insert qs t ids h)

-- The replies before the first one that has a greater vote.
abbrev pub heard : List Reply → List Reply
heard [] = []
heard (lost t ∷ replies) = lost t ∷ heard replies
heard (outvoted t v ∷ replies) = []
heard (confirmed t ∷ replies) = confirmed t ∷ heard replies

pub with_confirmed-member :
    (x : ℕ) (replies : List Reply) (ids : List ℕ)
    → member x (with_confirmed ids replies) ≡ true
    → (member x ids || has_confirmed x replies) ≡ true
with_confirmed-member x [] ids m = ground (arith, m)
with_confirmed-member x (lost t ∷ replies) ids m = with_confirmed-member x replies ids m
with_confirmed-member x (outvoted t v ∷ replies) ids m = with_confirmed-member x replies ids m
with_confirmed-member x (confirmed t ∷ replies) ids m =
    ground (arith, with_confirmed-member x replies (insert t ids) m, member-insert x t ids)

pub with_confirmed-From :
    (replies : List Reply) (ids : List ℕ) → From 0 ids → From 0 (with_confirmed ids replies)
with_confirmed-From [] ids f = f
with_confirmed-From (lost t ∷ replies) ids f = with_confirmed-From replies ids f
with_confirmed-From (outvoted t v ∷ replies) ids f = with_confirmed-From replies ids f
with_confirmed-From (confirmed t ∷ replies) ids f =
    with_confirmed-From replies (insert t ids) (insert-From 0 t ids (omega arith) f)

module _ {N : Type 0} (qs : List (List ℕ)) (resp : ReadAnswer N) where
  -- What the replies lead to: those that confirm before a greater vote is met decide.
  abbrev pub decided : List ℕ → List Reply → ReadAnswer N
  decided ids replies =
      if is_joint_quorum qs (with_confirmed ids (heard replies))
      then resp
      else if is_outvoted replies
      then forward none
      else quorum_not_enough (with_confirmed ids (heard replies))

  pub wait_for-decided :
      (replies : List Reply) (ids : List ℕ)
      → is_joint_quorum qs ids ≡ false
      → (wait_for qs resp ids replies).0 ≡ decided ids replies
  unfolding wait_for
  wait_for-decided [] ids q = rw q refl
  wait_for-decided (lost t ∷ replies) ids q = wait_for-decided replies ids q
  wait_for-decided (outvoted t w ∷ replies) ids q = rw q refl
  wait_for-decided (confirmed t ∷ replies) ids q =
      elim (Bool-cases (is_joint_quorum qs (insert t ids))) [
        | inl now ↦
            let later = is_joint_quorum-with_confirmed qs (heard replies) (insert t ids) now in
            rw (now, later) refl
        | inr more ↦ rw more (wait_for-decided replies (insert t ids) more)
      ]
