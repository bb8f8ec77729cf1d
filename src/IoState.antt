-- ===== src/IoState.antt =====
-- openraft/src/raft_state/io_state.rs and its io_id.rs, log_io_id.rs, io_progress.rs: which writes were
-- accepted, submitted and flushed. Debug assertions are no part of the model.
use async_raft.Base.{Bool, false, Option, none, some, ◌≡◌, if◌then◌else◌}
use async_raft.Base.Order.{Ord, by_fields, option_ord}
use async_raft.Vote.{
  Vote, CommittedVote, NonCommittedVote, committed_vote, non_committed_vote, to_committed,
  to_non_committed,
}
use async_raft.Vote.AdvOrder.{vote_ord}
use async_raft.LogId.{LogId, log_id_ord}

pub record LogIoId : Type 0 where
  pub committed_vote : CommittedVote
  pub log_id : Option LogId

pub data IoId : Type 0 where
  vote_io : NonCommittedVote → IoId
  log_io : LogIoId → IoId

-- `new_log_io` and `IOId::new`.
abbrev pub new_log_io : CommittedVote → Option LogId → IoId
new_log_io v l = log_io (record { committed_vote = v; log_id = l })

unfoldable pub new_io : Vote → IoId
new_io v = if v.committed then new_log_io (to_committed v) none else vote_io (to_non_committed v)

abbrev pub to_vote : IoId → Vote
to_vote (vote_io v) = non_committed_vote v
to_vote (log_io l) = committed_vote l.committed_vote

abbrev pub last_log_id : IoId → Option LogId
last_log_id (vote_io v) = none
last_log_id (log_io l) = l.log_id

pub io_fields_eq : (a b : IoId) → to_vote a ≡ to_vote b → last_log_id a ≡ last_log_id b → a ≡ b
io_fields_eq (vote_io a) (vote_io b) p q = cc
io_fields_eq (vote_io a) (log_io b) p q = absurd cc
io_fields_eq (log_io a) (vote_io b) p q = absurd cc
io_fields_eq (log_io a) (log_io b) p q = cc

-- `IOId::partial_cmp`: by the vote, then by the last log id.
instance abbrev pub io_id_ord : Ord IoId
io_id_ord = by_fields to_vote last_log_id io_fields_eq

pub record IoProgress (T : Type 0) : Type 0 where
  pub accepted : Option T
  pub submitted : Option T
  pub flushed : Option T

module _ {T : Type 0} where
  abbrev pub no_progress : IoProgress T
  no_progress = record { accepted = none; submitted = none; flushed = none }

  abbrev pub accept : IoProgress T → T → IoProgress T
  accept p x = record p { accepted = some x }

  abbrev pub submit : IoProgress T → T → IoProgress T
  submit p x = record p { submitted = some x }

  abbrev pub flush : IoProgress T → T → IoProgress T
  flush p x = record p { flushed = some x }

pub record IoState : Type 0 where
  pub building_snapshot : Bool
  pub io_progress : IoProgress IoId
  pub applied : Option LogId
  pub snapshot : Option LogId
  pub purged : Option LogId

-- `IOState::new`: the vote is accepted, submitted and flushed.
unfoldable pub new : Vote → Option LogId → Option LogId → Option LogId → IoState
unfolding new_io
new v applied snapshot purged = record {
  building_snapshot = false;
  io_progress = flush (submit (accept no_progress (new_io v)) (new_io v)) (new_io v);
  applied = applied;
  snapshot = snapshot;
  purged = purged;
}

abbrev pub update_applied : IoState → Option LogId → IoState
update_applied s l = record s { applied = l }

abbrev pub update_snapshot : IoState → Option LogId → IoState
update_snapshot s l = record s { snapshot = l }

abbrev pub update_purged : IoState → Option LogId → IoState
update_purged s l = record s { purged = l }

abbrev pub set_building_snapshot : IoState → Bool → IoState
set_building_snapshot s b = record s { building_snapshot = b }
