-- ===== src/RaftState/Lookup.antt =====
-- Which log ids a node has, and where the entries of a leader begin to differ (log_state_reader.rs,
-- raft_state/mod.rs).
use async_raft.Base.{
  ℕ, suc, ◌≤◌, ◌<◌, ◌≡◌, sym, ap, subst, ◌↔◌, true, false, List, [], ◌∷◌, Option, none, some, zero,
  refl, ◌⊎◌, true-false, if◌then◌else◌, ltb, arith, Bool-cases, inl, inr,
}
use async_raft.Base.Order.{◌=?◌, =?→eq, eq→=?}
use async_raft.Vote.{LeaderId}
use async_raft.LogId.{LogId, log_id_ord, next_index}
use async_raft.LogIdList.{ref_at}
use async_raft.RaftState.{RaftState, has_log_id, get_log_id, first_conflicting_index, with_index}

with_index_lem :
    (o : Option LeaderId) (l : LogId)
    → (elim (with_index o l.index) [ none ↦ false | some local ↦ l =? local ] ≡ true)
      ↔ (o ≡ some l.leader_id)
with_index_lem none l = (λ e. absurd cc, λ e. absurd cc)
with_index_lem (some d) l = (
  λ e.
      ap (λ (x : LogId). some x.leader_id)
        (sym (=?→eq {A = LogId} l (record { leader_id = d; index = l.index }) e)),
  λ e. eq→=? {A = LogId} l (record { leader_id = d; index = l.index }) (ground (arith, e)),
)

module _ {N : Type 0} (s : RaftState N) where
  -- A node has every log id below its committed index, and any other one exactly if its own log at the
  -- index is by the same leader.
  pub has_log_id_lem :
      (l : LogId)
      → (l.index < next_index s.committed → has_log_id s l ≡ true)
        × (next_index s.committed ≤ l.index
            → (has_log_id s l ≡ true) ↔ (ref_at s.log_ids l.index ≡ some l.leader_id))
  unfolding has_log_id get_log_id
  has_log_id_lem l = (
    λ h. ground arith,
    λ h.
        let f : ltb l.index (next_index s.committed) ≡ false = ground arith in
        rw f (with_index_lem (ref_at s.log_ids l.index) l),
  )

  -- The node has a log id: it is committed, or the log at its index is by the same leader.
  abbrev pub IsHad : LogId → Type 0
  IsHad l = (l.index < next_index s.committed) ⊎ (ref_at s.log_ids l.index ≡ some l.leader_id)

  -- The position of the first log id that the node does not have, the number of them if it has all.
  abbrev pub FirstMissing : List LogId → ℕ → Type 0
  FirstMissing [] since = since ≡ 0
  FirstMissing (e ∷ es) zero = ¬ IsHad e
  FirstMissing (e ∷ es) (suc since) = IsHad e × FirstMissing es since

  has-IsHad : (l : LogId) → has_log_id s l ≡ true → IsHad l
  has-IsHad l h = elim (Bool-cases (ltb l.index (next_index s.committed))) [
    | inl t ↦ inl (ground arith)
    | inr f ↦ inr (((has_log_id_lem l).1 (ground arith)).0 h)
  ]

  IsHad-has : (l : LogId) → IsHad l → has_log_id s l ≡ true
  IsHad-has l (inl below) = (has_log_id_lem l).0 below
  IsHad-has l (inr same) = elim (Bool-cases (ltb l.index (next_index s.committed))) [
    | inl t ↦ (has_log_id_lem l).0 (ground arith)
    | inr f ↦ ((has_log_id_lem l).1 (ground arith)).1 same
  ]

  pub first_conflicting_index-FirstMissing :
      (es : List LogId) → FirstMissing es (first_conflicting_index s es)
  unfolding first_conflicting_index
  first_conflicting_index-FirstMissing [] = refl
  first_conflicting_index-FirstMissing (e ∷ es) = elim (Bool-cases (has_log_id s e)) [
    | inl t ↦
        subst (FirstMissing (e ∷ es)) (sym (step t))
          (has-IsHad e t, first_conflicting_index-FirstMissing es)
    | inr f ↦ subst (FirstMissing (e ∷ es)) (sym (stop f)) (λ had. true-false (IsHad-has e had) f)
  ]
    where
      step :
          has_log_id s e ≡ true
          → (if has_log_id s e then suc (first_conflicting_index s es) else 0)
            ≡ suc (first_conflicting_index s es)
      step t = rw t

      stop :
          has_log_id s e ≡ false
          → (if has_log_id s e then suc (first_conflicting_index s es) else 0) ≡ 0
      stop f = rw f
