-- ===== src/RaftState/Extended.antt =====
-- `extend_from_same_leader` of log_id_list.rs with the logs that a leader appends to its own.
use async_raft.Base.{
  ℕ, suc, ◌+◌, ◌<◌, ◌≡◌, refl, sym, ap, subst, ◌∙◌, false, ◌&&◌, List, [], ◌∷◌, Option, none, some,
  last_of, if◌then◌else◌, ltb, leb, arith, length, All,
}
use async_raft.Base.Order.{◌=?◌, option_ord}
use async_raft.Vote.{LeaderId, leader_id_ord}
use async_raft.LogId.{LogId, log_id_ord}
use async_raft.LogIdList.{append, extend_from_same_leader}
use async_raft.LogIdList.Lookup.{leader_at}
use async_raft.LogIdList.Edits.{with_new, append-leader_from}
use async_raft.LogIdList.Extend.{Consecutive}
use async_raft.RaftState.{RaftState}
use async_raft.RaftState.Whole.{IsWhole, NotAfter, append-IsWhole, append-NotAfter}

pub Consecutive-last :
    (m : ℕ) (n : LogId) (ns : List LogId)
    → Consecutive m (n ∷ ns)
    → (last_of n ns).index ≡ m + length ns
Consecutive-last m n [] c = omega (arith, c.0)
Consecutive-last m n (x ∷ ns) c = Consecutive-last (suc m) x ns c.1 ∙ omega arith

pub All-last :
    (d : LeaderId) (n : LogId) (ns : List LogId)
    → All (λ l. l.leader_id ≡ d) (n ∷ ns)
    → (last_of n ns).leader_id ≡ d
All-last d n [] a = a.0
All-last d n (x ∷ ns) a = All-last d x ns a.1

-- The leaders once the logs of one leader up to `end` are added after the last one.
abbrev pub with_logs : Option LeaderId → LogId → LogId → ℕ → Option LeaderId
with_logs old last end i = if ltb last.index i && leb i end.index then some end.leader_id else old

-- Two log ids added by one leader, the first one right after the last log.
two_added :
    (old : Option LeaderId) (l n z : LogId) (i : ℕ)
    → n.index ≡ suc l.index
    → n.index < z.index
    → n.leader_id ≡ z.leader_id
    → with_new (with_new old l n i) n z i ≡ with_logs old l z i
two_added old l n z i e h s = ground (arith, e, h, s)

later-differs : (n z : LogId) → n.index < z.index → (z =? n) ≡ false
later-differs n z h = ground (arith, h)

module _ {N : Type 0} where
  -- What a log is after an extension.
  abbrev pub IsExtended : RaftState N → LogId → List LogId → LogId → Type 0
  IsExtended s' a ks end =
      (ks' : List LogId) × IsWhole s' a ks'
      × (last_of a ks' ≡ end)
      × ((i : ℕ) → leader_at (a ∷ ks') i ≡ with_logs (leader_at (a ∷ ks) i) (last_of a ks) end i)

  one-IsExtended :
      (s s' : RaftState N) (a : LogId) (ks : List LogId) (n : LogId)
      → IsWhole s a ks
      → s'.log_ids ≡ append (a ∷ ks) n
      → s'.purge_upto ≡ s.purge_upto
      → n.index ≡ suc (last_of a ks).index
      → NotAfter n.leader_id (a ∷ ks)
      → IsExtended s' a ks n
  one-IsExtended s s' a ks n w e p i top =
      let (ks', w', last) = append-IsWhole s s' a ks n w e p (omega (arith, i)) top in
      let same : append (a ∷ ks) n ≡ a ∷ ks' = sym e ∙ w'.parts in
      (
        ks',
        w',
        last,
        λ j.
            ap (λ t. leader_at t j) (sym same)
            ∙ append-leader_from none a ks n j w.ascending (omega (arith, i))
            ∙ ground (arith, i),
      )

  -- The logs that a leader appends to a whole log make it a whole log, by the leaders that it had and
  -- that leader.
  pub extend-IsExtended :
      (s s' : RaftState N) (a : LogId) (ks : List LogId) (n : LogId) (ns : List LogId)
      → IsWhole s a ks
      → s'.log_ids ≡ extend_from_same_leader (a ∷ ks) (n ∷ ns)
      → s'.purge_upto ≡ s.purge_upto
      → Consecutive (suc (last_of a ks).index) (n ∷ ns)
      → All (λ l. l.leader_id ≡ n.leader_id) (n ∷ ns)
      → NotAfter n.leader_id (a ∷ ks)
      → IsExtended s' a ks (last_of n ns)
  unfolding extend_from_same_leader
  extend-IsExtended s s' a ks n [] w e p c all top = one-IsExtended s s' a ks n w e p c.0 top
  extend-IsExtended s s' a ks n (m ∷ ms) w e p c all top =
      let z = last_of m ms in
      let lead : z.leader_id ≡ n.leader_id = All-last n.leader_id n (m ∷ ms) all in
      let size = Consecutive-last (suc (suc (last_of a ks).index)) m ms c.1 in
      let after : n.index < z.index = omega (arith, size, c.0) in
      let mid : RaftState N = record s { log_ids = append (a ∷ ks) n } in
      let (k1, w1, last1) = append-IsWhole s mid a ks n w refl refl (omega (arith, c.0)) top in
      let top1 : NotAfter z.leader_id (a ∷ k1) = subst (NotAfter z.leader_id) (w1.parts) (
        subst (λ d. NotAfter d (append (a ∷ ks) n)) (sym lead)
          (append-NotAfter a ks n w.ascending (omega (arith, c.0)) top)) in
      let added : s'.log_ids ≡ append (a ∷ k1) z =
        e ∙ rw (later-differs n z after, w1.parts) refl in
      let (ks', w', last) = append-IsWhole mid s' a k1 z w1 added p (rw last1 after) top1 in
      (
        ks',
        w',
        last,
        λ j.
            ap (λ t. leader_at t j) (sym (sym added ∙ w'.parts))
            ∙ append-leader_from none a k1 z j w1.ascending (rw last1 after)
            ∙ ap (λ l. with_new (leader_at (a ∷ k1) j) l z j) last1
            ∙ ap (λ t. with_new (leader_at t j) n z j) (sym (w1.parts))
            ∙ ap (λ o. with_new o n z j)
                (append-leader_from none a ks n j w.ascending (omega (arith, c.0)))
            ∙ two_added (leader_at (a ∷ ks) j) (last_of a ks) n z j c.0 after (sym lead),
      )
