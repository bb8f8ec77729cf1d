-- ===== src/ProgressEntry/Sends.antt =====
-- When `next_send` of openraft/src/progress/entry answers `Ok`, something is inflight.
use async_raft.Base.{
  ℕ, zero, suc, ◌+◌, ◌≤◌, ◌<◌, ◌^◌, ◌≡◌, refl, true, false, not, Option, some, if◌then◌else◌, ltb,
  leb, ◌==◌, arith, Bool-cases, true-false, inl, inr, add64, add64_lem,
}
use async_raft.Base.Order.{◌<?◌, option_ord}
use async_raft.LogId.{LogId, log_id_ord, next_index}
use async_raft.ProgressEntry.{
  ProgressEntry, LogState, is_none, next_send, sending_from, prev_log_id, logs,
}
use async_raft.ProgressEntry.Validate.{sending_from-bounds}

-- The log has all log ids after what is purged, and its log ids ascend.
pub record Served (s : LogState) : Type 0 where
  pub present :
      (i : ℕ)
      → next_index s.purge_upto ≤ i + 1
      → i < next_index s.last_log_id
      → (l : LogId) × (s.get_log_id i ≡ some l)
  pub ascending :
      (i j : ℕ) (a b : LogId)
      → i < j
      → s.get_log_id i ≡ some a
      → s.get_log_id j ≡ some b
      → (some a <? some b) ≡ true

-- The log before an index is before the log before a later index.
prev_log_id-ascends :
    (s : LogState) (start end : ℕ)
    → Served s
    → next_index s.purge_upto ≤ start
    → start < end
    → end ≤ next_index s.last_log_id
    → (prev_log_id s start <? prev_log_id s end) ≡ true
unfolding prev_log_id
prev_log_id-ascends s start zero v p l h = absurd (omega (arith, l))
prev_log_id-ascends s zero (suc j) v p l h =
    let (b, e) = v.present j (omega arith) (omega arith) in rw e refl
prev_log_id-ascends s (suc i) (suc j) v p l h =
    let (a, d) = v.present i (omega (arith, p)) (omega arith) in
    let (b, e) = v.present j (omega arith) (omega arith) in
    rw (d, e) (v.ascending i j a b (omega arith) d e)

some_logs : (prev last : Option LogId) → (prev <? last) ≡ true → is_none (logs prev last) ≡ false
unfolding logs
some_logs prev last h = rw h refl

pub next_send-sends :
    (e : ProgressEntry) (s : LogState) (max_entries : ℕ)
    → Served s
    → next_index e.matching ≤ e.searching_end
    → e.searching_end ≤ next_index s.last_log_id
    → next_index s.last_log_id + max_entries < 2 ^ 64
    → (next_send e s max_entries).1 ≡ true
    → is_none (next_send e s max_entries).0.inflight ≡ false
unfolding next_send
next_send-sends e s max_entries v m h b = elim (Bool-cases (not (is_none e.inflight))) [
  | inl busy ↦ rw busy (λ no. absurd (true-false no refl))
  | inr idle ↦ elim (Bool-cases (ltb e.searching_end (next_index s.purge_upto))) [
    | inl purged ↦ rw (idle, purged) (λ _. refl)
    | inr there ↦
        let start = sending_from e s in
        let last_next = next_index s.last_log_id in
        let (_, p, r) = sending_from-bounds e s m (ground arith) (omega (arith, h, b)) in
        let sum : add64 start max_entries ≡ start + max_entries =
          add64_lem start max_entries (omega (arith, r, h, b)) in
        let end =
          if leb (add64 start max_entries) last_next then add64 start max_entries else last_next in
        elim (Bool-cases (start == end)) [
          | inl same ↦ rw (idle, there, same) (λ no. absurd (true-false no refl))
          | inr differ ↦
              rw (idle, there, differ)
                (λ _. some_logs (prev_log_id s start) (prev_log_id s end) (
                  prev_log_id-ascends s start end v p (ground (arith, differ, sum, r, h))
                    (ground arith)))
        ]
  ]
]
