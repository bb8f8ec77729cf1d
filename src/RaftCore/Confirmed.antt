-- ===== src/RaftCore/Confirmed.antt =====
-- When `handle_check_is_leader_request` of openraft/src/core/raft_core.rs lets a reader read.
use async_raft.Base.{
  ℕ, ◌≡◌, refl, sym, ap, ◌∙◌, subst, inl, inr, true, List, [], ◌∷◌, Option, none, some, ◌==◌, ◌||◌,
  done, arith, Bool-cases, All, not, >>=-eq-done,
}
use async_raft.Base.Order.{◌≤?◌, option_ord, max_of, le?_refl, le?_total}
use async_raft.Base.Sets.{member, Distinct, From-Distinct}
use async_raft.LogId.{LogId, log_id_ord}
use async_raft.Quorum.{is_joint_quorum}
use async_raft.ProgressEntry.{ProgressEntry}
use async_raft.Membership.{get_node}
use async_raft.RaftState.{effective_membership}
use async_raft.Leader.{Leader}
use async_raft.LeaderHandler.{get_read_log_id}
use async_raft.Engine.{leading}
use async_raft.RaftCore.{Core}
use async_raft.RaftCore.Reads.{
  Reply, Asked, ReadAnswer, read_at, Read, ask_voters, is_voter, wait_for, waited, read_of,
  check_leader, handle_check_is_leader_request,
}
use async_raft.RaftCore.Waiting.{
  with_confirmed, has_confirmed, is_outvoted, is_joint_quorum-with_confirmed, heard,
  with_confirmed-member, with_confirmed-From, decided, wait_for-decided,
}

max-le : (a b : Option LogId) → ((a ≤? max_of a b) ≡ true) × ((b ≤? max_of a b) ≡ true)
max-le a b = elim (Bool-cases (a ≤? b)) [
  | inl t ↦ rw t (t, le?_refl {A = Option LogId} b)
  | inr f ↦ rw f (le?_refl {A = Option LogId} a, le?_total {A = Option LogId} a b f)
]

module _ {N : Type 0} (c : Core N) (l : Leader) where
  abbrev quorum_set : List (List ℕ)
  quorum_set = c.engine.node.state.membership_state.effective.quorum_set

  abbrev me : List ℕ
  me = c.engine.node.config.id ∷ []

  -- Who lets a reader read, and what a reader is answered.
  abbrev pub IsConfirmed : List Reply → ReadAnswer N → Type 0
  IsConfirmed replies answer =
      (answer ≡ read_of c l
        → (g : List ℕ) × Distinct g
          × (is_joint_quorum quorum_set g ≡ true)
          × ((x : ℕ) → member x g ≡ true → (member x me || has_confirmed x (heard replies)) ≡ true))
      × (answer ≡ decided quorum_set (read_of c l) me replies)

  decided-IsConfirmed :
      (replies : List Reply) (answer : ReadAnswer N)
      → answer ≡ decided quorum_set (read_of c l) me replies
      → IsConfirmed replies answer
  decided-IsConfirmed replies answer d = (
    λ e.
        let g = with_confirmed me (heard replies) in
        elim (Bool-cases (is_joint_quorum quorum_set g)) [
          | inl enough ↦ (
            g,
            From-Distinct 0 g (with_confirmed-From (heard replies) me (omega arith, tt)),
            enough,
            λ x m. with_confirmed-member x (heard replies) me m,
          )
          | inr few ↦
              let back : read_of c l ≡ answer = sym e in
              let other : read_of c l ≡ decided quorum_set (read_of c l) me replies = back ∙ d in
              let other = rw few at other in
              elim (Bool-cases (is_outvoted replies)) [
                | inl out ↦ let r = rw out at other in cc
                | inr not_out ↦ let r = rw not_out at other in cc
              ]
        ],
    d,
  )

  with_leader :
      (replies : List Reply)
      → c.engine.leader ≡ some l
      → handle_check_is_leader_request c replies ≡ check_leader c replies l
  unfolding handle_check_is_leader_request
  with_leader replies e = rw (e, handle_check_is_leader_request) refl

  at_once-IsConfirmed :
      (replies : List Reply)
      → is_joint_quorum quorum_set me ≡ true
      → IsConfirmed replies (read_of c l)
  at_once-IsConfirmed replies q =
      let still = is_joint_quorum-with_confirmed quorum_set (heard replies) me q in
      decided-IsConfirmed replies (read_of c l) (rw still refl)

  done_inj : {x y : Read N} → done x ≡ done y → x ≡ y
  done_inj e = cc

  answer-IsConfirmed :
      (replies : List Reply) (r : Read N)
      → check_leader c replies l ≡ done r
      → IsConfirmed replies r.answer
  answer-IsConfirmed replies r h = elim (Bool-cases (is_joint_quorum quorum_set me)) [
    | inl enough ↦
        let same : read_of c l ≡ r.answer = ap (λ x. x.answer) (done_inj (rw enough at h)) in
        subst (IsConfirmed replies) same (at_once-IsConfirmed replies enough)
    | inr few ↦
        let (asked, _, e) =
          >>=-eq-done (ask_voters c l l.progress.vector)
            (λ asked. done (waited c asked (wait_for quorum_set (read_of c l) me replies)))
            (rw few at h) in
        let same : (wait_for quorum_set (read_of c l) me replies).0 ≡ r.answer =
          ap (λ x. x.answer) (done_inj e) in
        subst (IsConfirmed replies) same
          (decided-IsConfirmed replies _ (wait_for-decided quorum_set (read_of c l) replies me few))
  ]

  -- The nodes of the progress are in the membership in effect.
  abbrev pub AreKnown : List (ℕ × ProgressEntry) → Type 0
  AreKnown =
      All
        (λ (id, entry). (n : N) × (get_node (effective_membership c.engine.node.state) id ≡ some n))

  ask_voters_total :
      (nodes : List (ℕ × ProgressEntry))
      → AreKnown nodes
      → (asked : List Asked) × (ask_voters c l nodes ≡ done asked)
  unfolding ask_voters
  ask_voters_total [] k = ([], refl)
  ask_voters_total ((id, entry) ∷ rest) ((n, known), k) =
      let (asked, e) = ask_voters_total rest k in
      elim (Bool-cases (not (is_voter l.progress id) || id == c.engine.node.config.id)) [
        | inl skipped ↦ (asked, rw skipped e)
        | inr voter ↦
            let s = c.engine.node.state in
            (
              record {
                target = id;
                vote = s.vote.data_of;
                prev_log_id = entry.matching;
                leader_commit = s.committed;
              }
                  ∷ asked,
              rw (voter, known, e) refl,
            )
      ]

  check_leader_total :
      (replies : List Reply)
      → AreKnown l.progress.vector
      → (r : Read N) × (check_leader c replies l ≡ done r)
  check_leader_total replies k =
      let (asked, e) = ask_voters_total l.progress.vector k in
      elim (Bool-cases (is_joint_quorum quorum_set me)) [
        | inl enough ↦
            (record { answer = read_of c l; asked = []; notified = none }, rw enough refl)
        | inr few ↦
            (waited c asked (wait_for quorum_set (read_of c l) me replies), rw (few, e) refl)
      ]

  -- A leader all of whose nodes are in the membership in effect answers a reader. It lets the reader
  -- read only if distinct nodes that have confirmed that it leads, itself counted, and that did so before
  -- a reply with a greater vote is met, are a quorum of that membership; and then it does. Otherwise the
  -- reader is told that there is another leader if some reply has a greater vote, and who has confirmed
  -- if none has. What it may read from is at least what is committed and the leader's first log.
  pub handle_check_is_leader_request_lem :
      (replies : List Reply)
      → c.engine.leader ≡ some l
      → AreKnown l.progress.vector
      → (r : Read N) × (handle_check_is_leader_request c replies ≡ done r)
        × IsConfirmed replies r.answer
        × (log : Option LogId) × (read_of c l ≡ read_at log c.engine.node.state.io_state.applied)
        × ((c.engine.node.state.committed ≤? log) ≡ true)
        × ((l.noop_log_id ≤? log) ≡ true)
  unfolding get_read_log_id
  handle_check_is_leader_request_lem replies e k =
      let (r, h) = check_leader_total replies k in
      (
        r,
        with_leader replies e ∙ h,
        answer-IsConfirmed replies r h,
        get_read_log_id (leading c.engine l),
        refl,
        (max-le l.noop_log_id c.engine.node.state.committed).1,
        (max-le l.noop_log_id c.engine.node.state.committed).0,
      )
