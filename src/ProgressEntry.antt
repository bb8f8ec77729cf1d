-- ===== src/ProgressEntry.antt =====
-- openraft/src/progress/entry, progress/inflight and log_id_range.rs: what a leader knows of the log of
-- one follower, the search for the last matching log, and what is being sent. Debug assertions are no
-- part of the model; `unreachable!` is a panic. Children: proofs.
pub mod Validate
pub mod Sends
use async_raft.Base.{
  ℕ, zero, suc, ◌+◌, ◌-◌, ◌*◌, ◌/◌, Bool, true, false, not, ◌&&◌, ◌||◌, Option, none, some,
  if◌then◌else◌, ltb, leb, ◌==◌, add64, sub64, Checked, done, panicked,
}
use async_raft.Base.Order.{◌<?◌, ◌≤?◌, option_ord}
use async_raft.LogId.{LogId, log_id_ord, next_index}

-- The range of logs `(prev, last]`.
pub record LogIdRange : Type 0 where
  pub prev : Option LogId
  pub last : Option LogId

-- `len`.
unfoldable pub range_len : LogIdRange → ℕ
unfolding sub64
range_len r = sub64 (next_index r.last) (next_index r.prev)

pub data Inflight : Type 0 where
  nothing : Inflight
  logs_of : LogIdRange → Inflight
  snapshot_of : Option LogId → Inflight

-- `Inflight::logs` and `Inflight::is_none`.
unfoldable pub logs : Option LogId → Option LogId → Inflight
logs prev last = if prev <? last then logs_of (record { prev = prev; last = last }) else nothing

abbrev pub is_none : Inflight → Bool
is_none nothing = true
is_none (logs_of r) = false
is_none (snapshot_of l) = false

unfoldable pub ack : Inflight → Option LogId → Checked Inflight
unfolding logs
ack nothing upto = panicked
ack (logs_of r) upto = done (logs upto r.last)
ack (snapshot_of l) upto = done nothing

unfoldable pub conflict : Inflight → ℕ → Checked Inflight
conflict nothing at = panicked
conflict (logs_of r) at = done nothing
conflict (snapshot_of l) at = panicked

pub record ProgressEntry : Type 0 where
  pub matching : Option LogId
  pub inflight : Inflight
  pub searching_end : ℕ
  pub allow_log_reversion : Bool

unfoldable pub empty : ℕ → ProgressEntry
empty end = record {
  matching = none;
  inflight = nothing;
  searching_end = end;
  allow_log_reversion = false;
}

-- What `next_send` reads of the log: `LogStateReader`.
pub record LogState : Type 0 where
  pub last_log_id : Option LogId
  pub purge_upto : Option LogId
  pub snapshot_last_log_id : Option LogId
  pub get_log_id : ℕ → Option LogId

unfoldable pub prev_log_id : LogState → ℕ → Option LogId
prev_log_id s zero = none
prev_log_id s (suc index) = s.get_log_id index

unfoldable pub is_log_range_inflight : ProgressEntry → LogId → Bool
is_log_range_inflight e upto = elim e.inflight [
  | nothing ↦ false
  | logs_of r ↦ r.prev <? some upto
  | snapshot_of l ↦ false
]

unfoldable pub calc_mid : ℕ → ℕ → ℕ
unfolding sub64 add64
calc_mid matching_next end = add64 matching_next (sub64 end matching_next / 16 * 8)

-- The first log to send: not before what is purged.
unfoldable pub sending_from : ProgressEntry → LogState → ℕ
unfolding calc_mid
sending_from e s =
    let start = calc_mid (next_index e.matching) e.searching_end in
    if ltb start (next_index s.purge_upto) then next_index s.purge_upto else start

-- `next_send`: the result is `Ok`, or `Err` with what is inflight.
unfoldable pub next_send : ProgressEntry → LogState → ℕ → ProgressEntry × Bool
unfolding sending_from prev_log_id logs add64
next_send e s max_entries =
    let start = sending_from e s in
    let sum = add64 start max_entries in
    let last_next = next_index s.last_log_id in
    let end = if leb sum last_next then sum else last_next in
    if not (is_none e.inflight)
    then (e, false)
    else if ltb e.searching_end (next_index s.purge_upto)
    then (record e { inflight = snapshot_of s.snapshot_last_log_id }, true)
    else if start == end
    then (record e { inflight = nothing }, false)
    else (record e { inflight = logs (prev_log_id s start) (prev_log_id s end) }, true)

-- `Updater::update_conflicting`; `allowed` is the setting of the engine.
unfoldable pub update_conflicting : Bool → ProgressEntry → ℕ → Checked ProgressEntry
unfolding conflict
update_conflicting allowed e at = elim (conflict e.inflight at) [
  | panicked ↦ panicked
  | done inflight ↦
      if (e.allow_log_reversion || allowed) && ltb at (next_index e.matching)
      then done (record {
        matching = none;
        inflight = inflight;
        searching_end = at;
        allow_log_reversion = false;
      })
      else done (record e { inflight = inflight; searching_end = at })
]

-- `Updater::update_matching`.
unfoldable pub update_matching : ProgressEntry → Option LogId → Checked ProgressEntry
unfolding ack
update_matching e matching = elim (ack e.inflight matching) [
  | panicked ↦ panicked
  | done inflight ↦
      let next = next_index matching in
      done (record e {
        matching = matching;
        inflight = inflight;
        searching_end = if leb e.searching_end next then next else e.searching_end;
      })
]
