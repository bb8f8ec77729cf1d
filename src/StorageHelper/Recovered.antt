-- ===== src/StorageHelper/Recovered.antt =====
-- `get_initial_state` of openraft/src/storage/helper.rs over a storage whose parts belong to one log: the
-- stages of it.
use async_raft.Base.{
  ℕ, ◌+◌, ◌-◌, ◌<◌, ◌≤◌, ◌≡◌, refl, sym, ap, ◌∙◌, true, false, List, Option, some, arith,
  if◌then◌else◌, ltb, u64_mod, dec_lt, ◌⊎◌, inl, inr,
}
use async_raft.Base.Order.{◌<?◌, option_ord, max_of, nat_ord}
use async_raft.Vote.{Vote}
use async_raft.LogId.{log_id_ord, next_index}
use async_raft.Membership.State.{StoredMembership}
use async_raft.RaftState.{SnapshotMeta}
use async_raft.Handler.{Entry}
use async_raft.Following.{last_two_memberships}
use async_raft.StorageHelper.{finished, StoredLogs, get_membership, membership_of, chunk_size}
use async_raft.StorageHelper.InitialState.{Storage, apply_again}
use async_raft.StorageHelper.Slices.{Reads, slice}
use async_raft.StorageHelper.Points.{upto, Proposed, upto-lt, next_index-upto}
use async_raft.StorageHelper.Memberships.{last_membership_in_log_lem}
use async_raft.StorageHelper.Reapplied.{reapply_committed_lem}

-- A storage with the logs from `low` to before `high`, of which those before `applied` are applied and
-- those before `saved` were saved as committed. `members n` is the membership of the state machine
-- when the logs before `n` are applied.
pub record Holds {N : Type 0} (st : Storage N) (log : ℕ → Entry N)
    (members : ℕ → StoredMembership N) (vote : Option Vote) (snapshot : Option (SnapshotMeta N))
    (low high top applied saved : ℕ) : Type 0 where
  pub proposed : Proposed log top
  pub entries : Reads st.read log low high
  pub vote_read : st.read_vote ≡ some vote
  pub saved_read : st.read_committed ≡ some (upto log saved)
  pub logs_read :
      st.log_state
      ≡ some (record { last_purged_log_id = upto log low; last_log_id = upto log high })
  pub works : (es : List (Entry N)) → st.apply es ≡ true
  pub applies :
      (n : ℕ)
      → applied + n ≤ top
      → st.applied_state (slice log applied n)
        ≡ some (upto log (applied + n), members (applied + n))
  pub membered :
      (n : ℕ) → applied ≤ n → n ≤ top → (k : ℕ) × (k ≤ n) × ((members n).log_id ≡ upto log k)
  pub purges :
      (i : ℕ)
      → high ≤ i
      → i < top
      → (read : ℕ → ℕ → Option (List (Entry N))) × (st.purge_to (log i).log_id ≡ some read)
  pub snapshot_read : st.current_snapshot ≡ some snapshot
  pub builds :
      (n : ℕ)
      → applied + n ≤ top
      → (meta : SnapshotMeta N) × (st.build_snapshot (slice log applied n) ≡ some meta)
        × (meta.last_log_id ≡ upto log (applied + n))
  -- A snapshot has all that is purged and nothing that is not applied; all that is applied, if the log
  -- ends before it.
  pub snapped :
      (meta : SnapshotMeta N)
      → snapshot ≡ some meta
      → (s : ℕ) × (meta.last_log_id ≡ upto log s)
        × (low ≤ s)
        × (s ≤ applied)
        × (high < applied → s ≡ applied)
  pub purged_before : low ≤ applied
  pub kept : low ≤ high
  pub saved_in : applied < saved → saved ≤ high
  pub applied_in : applied ≤ top
  pub high_in : high ≤ top
  pub small : top + top + chunk_size < u64_mod

-- What is committed after a start.
abbrev pub end_of : ℕ → ℕ → ℕ
end_of applied saved = if ltb applied saved then saved else applied

module _ {N : Type 0} (st : Storage N) (log : ℕ → Entry N) (members : ℕ → StoredMembership N)
    (vote : Option Vote) (snapshot : Option (SnapshotMeta N)) (low high top applied saved : ℕ)
    (h : Holds st log members vote snapshot low high top applied saved) where
  abbrev pub e : ℕ
  e = end_of applied saved

  e_cases : ((applied < saved) × (e ≡ saved) × (saved ≤ high)) ⊎ ((saved ≤ applied) × (e ≡ applied))
  e_cases = elim (dec_lt applied saved) [
    | yes p ↦ inl (p, ground (arith, p), h.saved_in p)
    | no p ↦ inr (omega (arith, p), ground (arith, p))
  ]

  pub e_in : (e ≤ top) × (applied ≤ e) × (high < e → e ≡ applied)
  e_in = elim e_cases [
    | inl (p, q, r) ↦
        (omega (arith, q, r, h.high_in), omega (arith, p, q), λ x. absurd (omega (arith, x, q, r)))
    | inr (p, q) ↦ (omega (arith, q, h.applied_in), omega (arith, q), λ x. q)
  ]

  saved_top : saved ≤ top
  saved_top = elim e_cases [
    | inl (p, q, r) ↦ omega (arith, r, h.high_in)
    | inr (p, q) ↦ omega (arith, p, h.applied_in)
  ]

  pub committed_lem :
      (if upto log saved <? upto log applied then upto log applied else upto log saved) ≡ upto log e
  committed_lem =
      let test = upto-lt log top h.proposed saved applied saved_top h.applied_in in
      rw test (elim e_cases [
        | inl (p, q, r) ↦
            let t : ltb saved applied ≡ false = ground (arith, p) in rw t (ap (upto log) (sym q))
        | inr (p, q) ↦ elim (dec_lt saved applied) [
          | yes x ↦
              let t : ltb saved applied ≡ true = ground (arith, x) in rw t (ap (upto log) (sym q))
          | no x ↦
              let t : ltb saved applied ≡ false = ground (arith, x) in
              let same : saved ≡ applied = omega (arith, p, x) in
              rw t (ap (upto log) (same ∙ sym q))
        ]
      ])

  pub last_applied_lem :
      (if upto log applied <? upto log e then upto log e else upto log applied) ≡ upto log e
  last_applied_lem =
      let test = upto-lt log top h.proposed applied e h.applied_in e_in.0 in
      elim (dec_lt applied e) [
        | yes x ↦ let t : ltb applied e ≡ true = ground (arith, x) in rw (test, t) refl
        | no x ↦
            let t : ltb applied e ≡ false = ground (arith, x) in
            let same : applied ≡ e = omega (arith, x, e_in.1) in rw (test, t) (ap (upto log) same)
      ]

  pub apply_again_lem :
      (rounds : ℕ)
      → top ≤ rounds
      → apply_again rounds st (upto log applied) (upto log e)
        ≡ finished (slice log applied (e - applied))
  unfolding apply_again
  apply_again_lem rounds enough =
      let test = upto-lt log top h.proposed applied e h.applied_in e_in.0 in
      let bound : top < u64_mod = omega (arith, h.small) in
      let start = next_index-upto log top h.proposed applied h.applied_in bound in
      let stop = next_index-upto log top h.proposed e e_in.0 bound in
      elim e_cases [
        | inl (p, q, r) ↦
            let t : ltb applied e ≡ true = ground (arith, p, q) in
            let again =
              reapply_committed_lem st.read st.apply log low high h.entries h.works
                (omega (arith, h.small, h.high_in)) rounds applied e h.purged_before
                (omega (arith, p, q)) (omega (arith, q, r))
                (omega (arith, q, r, enough, h.high_in)) in
            rw (test, t, start, stop) again
        | inr (p, q) ↦
            let t : ltb applied e ≡ false = ground (arith, q) in
            let empty : e - applied ≡ 0 = omega (arith, q) in rw (test, t, empty) refl
      ]

  pub get_membership_lem :
      (rounds : ℕ) (logs : StoredLogs)
      → logs ≡ record { last_purged_log_id = upto log low; last_log_id = upto log high }
      → top ≤ rounds
      → get_membership st.read rounds logs (upto log e) (members e)
        ≡ finished (membership_of (members e) (last_two_memberships (slice log e (high - e))))
  unfolding get_membership
  get_membership_lem rounds logs q enough =
      let bound : top < u64_mod = omega (arith, h.small) in
      let start = next_index-upto log top h.proposed e e_in.0 bound in
      let low_top : low ≤ top = omega (arith, h.kept, h.high_in) in
      let first = next_index-upto log top h.proposed low low_top bound in
      let end = next_index-upto log top h.proposed high h.high_in bound in
      let found =
        last_membership_in_log_lem st.read log low high h.entries rounds logs e
          (sym first ∙ ap (λ l. next_index l.last_purged_log_id) (sym q))
          (sym end ∙ ap (λ l. next_index l.last_log_id) (sym q))
          (omega (arith, enough, h.high_in)) in
      let from : max_of low e ≡ e = ground (arith, h.purged_before, e_in.1) in
      rw (start, found, from) refl
