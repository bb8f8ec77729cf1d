-- ===== src/StorageHelper/Started.antt =====
-- `get_initial_state` of openraft/src/storage/helper.rs: the state that a node starts with.
use async_raft.Base.{
  ℕ, zero, suc, ◌+◌, ◌-◌, ◌*◌, ◌<◌, ◌≤◌, ◌≡◌, refl, sym, ap, ◌∙◌, subst, true, false, List, [],
  Option, none, some, arith, if◌then◌else◌, ltb, u64_mod, dec_lt, ◌==◌,
}
use async_raft.Base.Order.{option_ord, nat_ord, le?_refl}
use async_raft.Vote.{Vote, default_vote}
use async_raft.LogId.{LogId, log_id_ord, next_index}
use async_raft.LogIdList.{ref_at}
use async_raft.IoState.{IoId, new as new_io_state, new_io, io_id_ord}
use async_raft.Membership.State.{StoredMembership, MembershipState}
use async_raft.Membership.State.Invariant.{Inv}
use async_raft.RaftState.{RaftState, SnapshotMeta, last_log_id, last_purged_log_id}
use async_raft.RaftState.Commit.{IsValid, IoIsValid, PurgeIsSafe}
use async_raft.Handler.{Entry}
use async_raft.Following.{last_two_memberships}
use async_raft.StorageHelper.{finished, StoredLogs, membership_of}
use async_raft.StorageHelper.InitialState.{Storage, Started, initial_state, get_initial_state}
use async_raft.StorageHelper.Slices.{slice}
use async_raft.StorageHelper.Points.{upto, Proposed, upto-le, next_index-upto}
use async_raft.StorageHelper.IdEnds.{Ends}
use async_raft.StorageHelper.LoadedMemberships.{membership_of-Inv}
use async_raft.StorageHelper.Recovered.{
  Holds, e_in, end_of, committed_lem, last_applied_lem, apply_again_lem, get_membership_lem,
}
use async_raft.StorageHelper.Cleaned.{clean_up-IsClean, load_snapshot_lem}

module _ {N : Type 0} (log : ℕ → Entry N) (top : ℕ) (p : Proposed log top) (small : top < u64_mod)
    (now : ℕ) (vote : Option Vote) (first last snapshot end : ℕ) (ms : MembershipState N)
    (ids : List LogId) (meta : SnapshotMeta N) where
  abbrev s : RaftState N
  s = initial_state now vote (upto log end) (upto log first) ms ids meta

  PurgeIsSafe-upto :
      (n : ℕ)
      → first ≤ n
      → n ≤ end
      → end ≤ top
      → PurgeIsSafe (upto log n) (upto log first) (upto log end)
  PurgeIsSafe-upto zero a b c = upto-le log top p first end (omega arith) c
  PurgeIsSafe-upto (suc n) a b c = upto-le log top p first (suc n) a (omega arith)

  new-IoIsValid :
      (v : Vote)
      → first ≤ snapshot
      → snapshot ≤ end
      → end ≤ top
      → IoIsValid (new_io_state v (upto log end) (upto log snapshot) (upto log first))
  unfolding new_io_state
  new-IoIsValid v a b c = record {
    flushed = le?_refl {A = Option IoId} (some (new_io v));
    submitted = le?_refl {A = Option IoId} (some (new_io v));
    applied = upto-le log top p snapshot end b c;
    purged = upto-le log top p first snapshot a (omega (arith, b, c));
  }

  purged_at_start : Ends log ids first last → first ≤ top → last_purged_log_id s ≡ upto log first
  unfolding last_purged_log_id
  purged_at_start ends b =
      let n = next_index-upto log top p first b small in
      elim (dec_lt 0 first) [
        | yes x ↦ let t : (first == 0) ≡ false = ground (arith, x) in rw (n, t) (ends.from_purged x)
        | no x ↦
            let t : (first == 0) ≡ true = ground (arith, x) in
            let z : 0 ≡ first = omega (arith, x) in rw (n, t) (ap (upto log) z)
      ]

  initial_state-IsValid :
      Ends log ids first last
      → Inv ms
      → meta.last_log_id ≡ upto log snapshot
      → first ≤ snapshot
      → snapshot ≤ end
      → end ≤ last
      → last ≤ top
      → IsValid s
  initial_state-IsValid ends inv q a b c d =
      let f : first ≤ top = omega (arith, a, b, c, d) in
      let n = next_index-upto log top p first f small in
      record {
        from_zero = λ z. ends.from_zero (sym n ∙ z);
        from_purged = λ g. ap next_index (sym (ends.from_purged (subst (λ k. 0 < k) n g)));
        purged = rw (purged_at_start ends f) (le?_refl {A = Option LogId} (upto log first));
        purge = rw q (PurgeIsSafe-upto snapshot a b (omega (arith, c, d)));
        snapshot = rw q (upto-le log top p snapshot end b (omega (arith, c, d)));
        committed = rw (ends.last) (upto-le log top p end last c d);
        membership = inv;
        io =
            subst
              (λ o. IoIsValid (
                new_io_state (elim vote [ some w ↦ w | none ↦ default_vote ]) (upto log end) o
                  (upto log first)))
              (sym q)
              (new-IoIsValid (elim vote [ some w ↦ w | none ↦ default_vote ]) a b
                (omega (arith, c, d)));
      }

module _ {N : Type 0} (st : Storage N) (log : ℕ → Entry N) (members : ℕ → StoredMembership N)
    (vote : Option Vote) (snapshot : Option (SnapshotMeta N)) (low high top applied saved : ℕ)
    (h : Holds st log members vote snapshot low high top applied saved) where
  -- What a start recovers, if `end` is what is committed.
  pub record IsRecovered (end : ℕ) (s : Started N) : Type 0 where
    pub valid : IsValid s.state
    pub vote_kept :
        s.state.vote.data_of ≡ elim vote as (λ _. Vote) [ some v ↦ v | none ↦ default_vote ]
    pub committed : s.state.committed ≡ upto log end
    pub applied_again : s.applied ≡ slice log applied (end - applied)
    pub log_end : last_log_id s.state ≡ upto log (if ltb high end then end else high)
    pub leaders :
        end ≤ high
        → (i : ℕ) → low ≤ i
        → i < high
        → ref_at s.state.log_ids i ≡ some (log i).log_id.leader_id
    pub memberships :
        s.state.membership_state
        ≡ membership_of (members end) (last_two_memberships (slice log end (high - end)))
    pub hole_purged : s.purged_to ≡ (if ltb high end then upto log end else none)

  -- A node starts from a storage whose parts belong to one log, by enough rounds. Its state is valid; the
  -- vote is the stored one; what is committed is the later of what was saved and what was applied, and
  -- exactly the logs between the two are applied again. The log ends at the last stored log and has its
  -- leaders, or at what is committed if that is later, and then all before is purged. The memberships are
  -- the last two of the logs after what is committed, and that of the state machine.
  pub get_initial_state-IsRecovered :
      (rounds now : ℕ)
      → 2 * top + 1 ≤ rounds
      → (s : Started N) × (get_initial_state rounds now st ≡ finished s)
        × IsRecovered (end_of applied saved) s
  unfolding get_initial_state
  get_initial_state-IsRecovered rounds now enough =
      let e = end_of applied saved in
      let (in_top, after_applied, only) =
        e_in st log members vote snapshot low high top applied saved h in
      let logs : StoredLogs = record {
        last_purged_log_id = upto log low;
        last_log_id = upto log high;
      } in
      let few : top ≤ rounds = omega (arith, enough) in
      let none_again : applied + 0 ≡ applied = omega arith in
      let sum : applied + (e - applied) ≡ e = omega (arith, after_applied) in
      let before : st.applied_state [] ≡ some (upto log applied, members applied) =
        h.applies 0 (omega (arith, h.applied_in))
        ∙ ap (λ n. some (upto log n, members n)) none_again in
      let after : st.applied_state (slice log applied (e - applied))
          ≡ some (upto log e, members e) =
        h.applies (e - applied) (omega (arith, sum, in_top))
        ∙ ap (λ n. some (upto log n, members n)) sum in
      let again =
        apply_again_lem st log members vote snapshot low high top applied saved h rounds few in
      let found =
        get_membership_lem st log members vote snapshot low high top applied saved h rounds logs
          refl few in
      let (cl, ids, cleaned, c) =
        clean_up-IsClean st log members vote snapshot low high top applied saved h rounds enough in
      let (meta, loads, at, meta_at, first_at, at_end) =
        load_snapshot_lem st log members vote snapshot low high top applied saved h c.first
          c.first_in c.snapped in
      let ms : MembershipState N =
        membership_of (members e) (last_two_memberships (slice log e (high - e))) in
      let small : top < u64_mod = omega (arith, h.small) in
      let (sm_at, sm_in, sm_is) = h.membered e after_applied in_top in
      let inv : Inv ms =
        membership_of-Inv log top h.proposed (members e) sm_at e (high - e) sm_is sm_in
          (omega (arith, in_top, h.high_in)) in
      (
        record {
          state = initial_state now vote (upto log e) (upto log c.first) ms ids meta;
          applied = slice log applied (e - applied);
          purged_to = cl.purged_to;
        },
        simp (h.vote_read, h.saved_read, h.logs_read, before)
            (rw
              (
                committed_lem st log members vote snapshot low high top applied saved h,
                last_applied_lem st log members vote snapshot low high top applied saved h,
                again,
              )
              (simp (after, found, cleaned, c.purged_is, c.last_is, c.loads, loads))),
        record {
          valid =
              initial_state-IsValid log top h.proposed small now vote c.first c.last at e ms ids
                meta c.ends inv meta_at first_at at_end c.covers_end c.last_in;
          vote_kept = refl;
          committed = refl;
          applied_again = refl;
          log_end = c.ends.last ∙ ap (upto log) c.is_max;
          leaders = c.leaders;
          memberships = refl;
          hole_purged = c.purged_to_is;
        },
      )
