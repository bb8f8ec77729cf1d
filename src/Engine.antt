-- ===== src/Engine.antt =====
-- openraft/src/engine/engine_impl.rs: the engine, a node with its roles as a leader and as a candidate.
-- Children: the vote handler, elections, requests, and proofs.
pub mod Voting
pub mod Electing
pub mod Requests
pub mod Same
pub mod Ahead
pub mod Ballots
pub mod Followed
pub mod Led
pub mod Elected
pub mod Requested
pub mod Appending
pub mod Searches
pub mod NewLeader
pub mod Established
use async_raft.Base.{ℕ, Bool, false, Option, none, some, [], ◌∷◌}
use async_raft.Vote.{Vote}
use async_raft.Membership.{learner_ids}
use async_raft.Candidate.{Candidate}
use async_raft.Candidate
use async_raft.Leader.{Leader}
use async_raft.RaftState.{RaftState, last_log_id, effective_membership}
use async_raft.Handler.{Node, Config, Command, push, Entry}
use async_raft.Replication.{Leading}

pub record Engine (N : Type 0) : Type 0 where
  pub node : Node N
  pub seen_greater_log : Bool
  pub leader : Option Leader
  pub candidate : Option Candidate

-- What `C::now()` answers when the vote is updated, and when a leader is created.
pub record Times : Type 0 where
  pub voted : ℕ
  pub led : ℕ

module _ {N : Type 0} where
  abbrev pub new : RaftState N → Config → Engine N
  new s c = record {
    node = record { config = c; state = s; output = [] };
    seen_greater_log = false;
    leader = none;
    candidate = none;
  }

  abbrev pub with_state : Engine N → RaftState N → Engine N
  with_state e s = record e { node = record e.node { state = s } }

  abbrev pub emit : Engine N → Command N → Engine N
  emit e c = record e { node = push e.node c }

  -- A handler of the leader works on these, and leaves these.
  abbrev pub leading : Engine N → Leader → Leading N
  leading e l = record { node = e.node; lead = l }

  abbrev pub with_leading : Engine N → Leading N → Engine N
  with_leading e l = record e { node = l.node; leader = some l.lead }

  -- `new_candidate`, at the time `now`.
  unfoldable pub new_candidate : Engine N → ℕ → Vote → Engine N
  unfolding Candidate.new learner_ids
  new_candidate e now vote =
      let m = effective_membership e.node.state in
      record e {
        candidate =
            some (Candidate.new now vote (last_log_id e.node.state) m.configs (learner_ids m));
      }

  -- `Entry::new_blank`, with the default log id.
  abbrev pub blank : Entry N
  blank = record {
    log_id = record { leader_id = record { term = 0; node_id = 0 }; index = 0 };
    membership = none;
  }
