-- ===== src/Leader/Assign.antt =====
-- The log ids that a leader assigns, and its first own log.
use async_raft.Base.{
  ℕ, suc, ◌+◌, ◌<◌, ◌^◌, ◌≡◌, refl, sym, ap, ◌∙◌, List, [], ◌∷◌, some, arith, length, get_last?,
  All, add64, add64_lem, sub64, sub64_lem,
}
use async_raft.Base.Order.{option_ord}
use async_raft.Vote.{LeaderId, leader_id_ord}
use async_raft.LogId.{log_id_ord, next_index}
use async_raft.LogIdList.Extend.{Consecutive}
use async_raft.Handler.{Entry, log_ids_of}
use async_raft.Leader.{Leader, assign, assign_log_ids}

module _ {N : Type 0} where
  assign_lem :
      (d : LeaderId) (m : ℕ) (es : List (Entry N))
      → m + length es < 2 ^ 64
      → let (es', end) = assign d m es in
        Consecutive m (log_ids_of es')
        × All (λ l. l.leader_id ≡ d) (log_ids_of es')
        × (end ≡ m + length es)
  unfolding assign
  assign_lem d m [] h = (tt, tt, omega arith)
  assign_lem d m (e ∷ es) h =
      let next : add64 m 1 ≡ suc m = add64_lem m 1 (omega arith) ∙ omega arith in
      let (c, a, k) = assign_lem d (suc m) es (omega arith) in
      rw next ((refl, c), (refl, a), omega (arith, k))

  last-assign :
      (d : LeaderId) (m : ℕ) (e : Entry N) (es : List (Entry N))
      → m + length (e ∷ es) < 2 ^ 64
      → get_last? (log_ids_of (assign d m (e ∷ es)).0)
        ≡ some (record { leader_id = d; index = m + length es })
  unfolding assign
  last-assign d m e [] h = ap (λ i. some (record { leader_id = d; index = i })) (omega arith)
  last-assign d m e (e2 ∷ es) h =
      let next : add64 m 1 ≡ suc m = add64_lem m 1 (omega arith) ∙ omega arith in
      rw next (
        last-assign d (suc m) e2 es (omega arith)
        ∙ ap (λ i. some (record { leader_id = d; index = i })) (omega arith))

  -- Unless the index overflows, the entries that a leader is given get consecutive log ids of its own
  -- right after its last log, and the last of them becomes the leader's last log id.
  pub assign_log_ids_lem :
      (l : Leader) (e : Entry N) (es : List (Entry N))
      → next_index l.last_log_id + length (e ∷ es) < 2 ^ 64
      → let (l', es') = assign_log_ids l (e ∷ es) in
        Consecutive (next_index l.last_log_id) (log_ids_of es')
        × All (λ i. i.leader_id ≡ l.committed_vote.leader_id) (log_ids_of es')
        × (l'.last_log_id ≡ get_last? (log_ids_of es'))
  unfolding assign_log_ids
  assign_log_ids_lem l e es h =
      let d = l.committed_vote.leader_id in
      let m = next_index l.last_log_id in
      let (c, a, k) = assign_lem d m (e ∷ es) h in
      (
        c,
        a,
        ap (λ i. some (record { leader_id = d; index = sub64 i 1 })) k
            ∙ ap (λ i. some (record { leader_id = d; index = i }))
                (sub64_lem (m + length (e ∷ es)) 1 h (omega arith) ∙ omega arith)
            ∙ sym (last-assign d m e es h),
      )
