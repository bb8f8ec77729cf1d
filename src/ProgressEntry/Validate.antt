-- ===== src/ProgressEntry/Validate.antt =====
-- `ProgressEntry::validate`, with `next_send` and the responses of the follower (progress/entry).
use async_raft.Base.{
  three_branches, ℕ, zero, suc, ◌+◌, ◌≤◌, ◌<◌, ◌^◌, ◌≡◌, refl, Bool, true, false, not, ◌&&◌, ◌||◌,
  Option, none, some, if◌then◌else◌, ltb, leb, done, arith, Bool-cases, ◌⊎◌, inl, inr, ◌-◌, ◌*◌,
  ◌/◌, add64, sub64, sub64_lem, add64_lem, ◌∙◌,
}
use async_raft.Base.Order.{◌<?◌, ◌≤?◌, option_ord, le?_refl, lt?→le?, lt?_le?_trans}
use async_raft.LogId.{LogId, log_id_ord, next_index}
use async_raft.ProgressEntry.{
  ProgressEntry, LogState, Inflight, nothing, logs_of, snapshot_of, is_none, next_send,
  sending_from, calc_mid, update_matching, update_conflicting, prev_log_id, logs, ack, conflict,
  LogIdRange,
}

-- What is inflight starts at or after the matching log and before the end of the search.
abbrev pub InflightIsValid : Option LogId → ℕ → Inflight → Type 0
InflightIsValid m end nothing = Unit {0}
InflightIsValid m end (logs_of r) =
    ((r.prev ≤? r.last) ≡ true) × ((m ≤? r.prev) ≡ true) × (next_index r.prev ≤ end)
InflightIsValid m end (snapshot_of l) = (m <? l) ≡ true

pub record IsValid (e : ProgressEntry) : Type 0 where
  pub searched : next_index e.matching ≤ e.searching_end
  pub sending : InflightIsValid e.matching e.searching_end e.inflight

-- The log of the leader contains the matching log, what it has purged is after a matching log with a
-- smaller index, and its snapshot covers what it has purged.
pub record Extends (s : LogState) (m : Option LogId) : Type 0 where
  pub bounded : (l : LogId) → m ≡ some l → l.index + 1 < 2 ^ 64
  pub indexed : (i : ℕ) (l : LogId) → s.get_log_id i ≡ some l → l.index ≡ i
  pub present :
      (i : ℕ)
      → next_index s.purge_upto ≤ i + 1
      → i < next_index s.last_log_id
      → next_index m ≤ i + 1
      → (l : LogId) × (s.get_log_id i ≡ some l) × ((m ≤? some l) ≡ true)
  pub purged : next_index m < next_index s.purge_upto → (m <? s.purge_upto) ≡ true
  pub covered : (s.purge_upto ≤? s.snapshot_last_log_id) ≡ true

calc_mid-bounds : (a b : ℕ) → a ≤ b → b < 2 ^ 64 → (a ≤ calc_mid a b) × (calc_mid a b ≤ b)
unfolding calc_mid
calc_mid-bounds a b h k =
    let d : sub64 b a ≡ b - a = sub64_lem b a k h in
    let sum : add64 a ((b - a) / 16 * 8) ≡ a + (b - a) / 16 * 8 = add64_lem a _ (omega arith) in
    rw (d, sum) (omega arith, omega arith)

pub sending_from-bounds :
    (e : ProgressEntry) (s : LogState)
    → next_index e.matching ≤ e.searching_end
    → next_index s.purge_upto ≤ e.searching_end
    → e.searching_end < 2 ^ 64
    → (next_index e.matching ≤ sending_from e s)
      × (next_index s.purge_upto ≤ sending_from e s)
      × (sending_from e s ≤ e.searching_end)
unfolding sending_from
sending_from-bounds e s h k b =
    ground (arith, calc_mid-bounds (next_index e.matching) e.searching_end h b)

next_index-some : (l : LogId) (i : ℕ) → l.index ≡ i → i + 1 < 2 ^ 64 → next_index (some l) ≡ i + 1
next_index-some l i e h = ground (arith, add64_lem l.index 1)

next_index-none :
    (m : Option LogId)
    → ((l : LogId) → m ≡ some l → l.index + 1 < 2 ^ 64)
    → next_index m ≤ 0
    → m ≡ none
next_index-none none b h = refl
next_index-none (some l) b h = absurd (ground (arith, add64_lem l.index 1 (b l refl)))

-- The log before the first one that is sent.
prev-IsValid :
    (s : LogState) (m : Option LogId) (start : ℕ)
    → Extends s m
    → next_index m ≤ start
    → next_index s.purge_upto ≤ start
    → start ≤ next_index s.last_log_id
    → start < 2 ^ 64
    → ((m ≤? prev_log_id s start) ≡ true) × (next_index (prev_log_id s start) ≡ start)
unfolding prev_log_id
prev-IsValid s m zero x h k l b = rw (next_index-none m x.bounded h) (refl, refl)
prev-IsValid s m (suc i) x h k l b =
    let (log, e, le) = x.present i (omega arith) (omega arith) (omega arith) in
    rw e (le, next_index-some log i (x.indexed i log e) (omega arith) ∙ omega arith)

logs-IsValid :
    (m prev last : Option LogId) (end : ℕ)
    → (m ≤? prev) ≡ true
    → next_index prev ≤ end
    → InflightIsValid m end (logs prev last)
unfolding logs
logs-IsValid m prev last end h k = elim (Bool-cases (prev <? last)) [
  | inl e ↦ rw e (lt?→le? {A = Option LogId} prev last e, h, k)
  | inr e ↦ rw e tt
]

-- What is sent starts after what is purged.
abbrev pub AfterPurged : LogState → Inflight → Type 0
AfterPurged s nothing = Unit {0}
AfterPurged s (logs_of r) = next_index s.purge_upto ≤ next_index r.prev
AfterPurged s (snapshot_of l) = (s.purge_upto ≤? l) ≡ true

logs-AfterPurged :
    (s : LogState) (prev last : Option LogId)
    → next_index s.purge_upto ≤ next_index prev
    → AfterPurged s (logs prev last)
unfolding logs
logs-AfterPurged s prev last h = elim (Bool-cases (prev <? last)) [
  | inl e ↦ rw e h
  | inr e ↦ rw e tt
]

-- Suppose that what is known of the follower is valid and its search ends inside the leader's log; that
-- the log contains the matching log, and what is purged is after a matching log with a smaller index
-- and covered by the snapshot; and that the indexes do not overflow. Then what is known of the follower
-- is valid after `next_send`: what is inflight is what was, or else it is nothing, logs that start at or
-- after the matching one and after what is purged, or a snapshot past the matching log that covers what
-- is purged.
pub next_send-IsValid :
    (e : ProgressEntry) (s : LogState) (max_entries : ℕ)
    → IsValid e
    → Extends s e.matching
    → e.searching_end ≤ next_index s.last_log_id
    → next_index s.last_log_id + max_entries < 2 ^ 64
    → let e' = (next_send e s max_entries).0 in
      IsValid e' × ((e'.inflight ≡ e.inflight) ⊎ AfterPurged s e'.inflight)
unfolding next_send
next_send-IsValid e s max_entries v x h b =
    three_branches
      (λ (r : ProgressEntry × Bool).
        IsValid r.0 × ((r.0.inflight ≡ e.inflight) ⊎ AfterPurged s r.0.inflight))
      (not (is_none e.inflight)) (ltb e.searching_end (next_index s.purge_upto)) _
      (λ _. (v, inl refl))
      (λ f l. (
        record {
          searched = v.searched;
          sending =
              lt?_le?_trans {A = Option LogId} e.matching s.purge_upto s.snapshot_last_log_id
                (x.purged (ground (arith, v.searched))) x.covered;
        },
        inr x.covered,
      ))
      (λ f n. (record { searched = v.searched; sending = tt }, inr tt))
      (λ f n c.
        let (p, q, r) = sending_from-bounds e s v.searched (ground arith) (omega (arith, h, b)) in
        let (le, next) =
          prev-IsValid s e.matching (sending_from e s) x p q (omega (arith, h))
            (omega (arith, h, b)) in
        (
          record {
            searched = v.searched;
            sending =
                logs-IsValid e.matching (prev_log_id s (sending_from e s)) _ e.searching_end le
                  (omega (arith, next, r));
          },
          inr (logs-AfterPurged s (prev_log_id s (sending_from e s)) _ (omega (arith, next, q))),
        ))

-- A follower's acknowledgement of a log at or after the matching one keeps what is known of it valid,
-- if it is inside the range that is being sent and something is being sent.
pub update_matching-IsValid :
    (e : ProgressEntry) (m : Option LogId) (r : LogIdRange)
    → IsValid e
    → e.inflight ≡ logs_of r
    → (m ≤? r.last) ≡ true
    → (e' : ProgressEntry) × (update_matching e m ≡ done e') × IsValid e' × (e'.matching ≡ m)
unfolding update_matching ack
update_matching-IsValid e m r v i h = (
  record {
    matching = m;
    inflight = logs m r.last;
    searching_end = if leb e.searching_end (next_index m) then next_index m else e.searching_end;
    allow_log_reversion = e.allow_log_reversion;
  },
  rw i refl,
  record {
    searched = ground arith;
    sending = logs-IsValid m m r.last _ (le?_refl {A = Option LogId} m) (ground arith);
  },
  refl,
)

-- A conflict at the log before the first one that is sent ends the search there, and what is known of the
-- follower stays valid: the conflict is not before the matching log, or the reversion of the follower's
-- log is allowed and the matching log is forgotten.
pub update_conflicting-IsValid :
    (allowed : Bool) (e : ProgressEntry) (r : LogIdRange) (at : ℕ)
    → e.inflight ≡ logs_of r
    → ((e.allow_log_reversion || allowed) ≡ false → next_index e.matching ≤ at)
    → (e' : ProgressEntry) × (update_conflicting allowed e at ≡ done e')
      × IsValid e'
      × (e'.searching_end ≡ at)
unfolding update_conflicting conflict
update_conflicting-IsValid allowed e r at i h =
    elim (Bool-cases ((e.allow_log_reversion || allowed) && ltb at (next_index e.matching))) [
      | inl t ↦ (
        record {
          matching = none;
          inflight = nothing;
          searching_end = at;
          allow_log_reversion = false;
        },
        rw (i, t) refl,
        record { searched = omega arith; sending = tt },
        refl,
      )
      | inr f ↦ (
        record e { inflight = nothing; searching_end = at },
        rw (i, f) refl,
        record { searched = ground arith; sending = tt },
        refl,
      )
    ]
