-- ===== src/Scenarios/Nodes.antt =====
-- A follower whose log conflicts with what its new leader sends.
use async_raft.Base.{
  ℕ, ◌≡◌, refl, true, false, List, [], ◌∷◌, none, some, arith, if◌then◌else◌, add64, get_elem?,
}
use async_raft.Base.Order.{◌<?◌, option_ord, nat_ord, max_of, min_of}
use async_raft.Vote.{CommittedVote}
use async_raft.Vote.AdvOrder.{vote_ord}
use async_raft.LogId.{LogId, log_id_ord, next_index}
use async_raft.LogIdList.{ref_at}
use async_raft.Membership.State.{EffectiveMembership}
use async_raft.IoState.{io_id_ord, new_log_io}
use async_raft.Leased
use async_raft.RaftState.{RaftState, follower, update_committed, last_purged_log_id}
use async_raft.RaftState.Commit.{IsValid, update_committed-IsValid}
use async_raft.Handler.{Node, Entry}
use async_raft.RaftState.Lookup.{FirstMissing}
use async_raft.Following.{append_entries, commit_entries}
use async_raft.Following.CommitBound.{commit_entries-IsValid}
use async_raft.Following.LogMatching.{replaced, append_entries-ref_at}

abbrev pub at : ℕ → ℕ → LogId
at term index = record { leader_id = record { term = term; node_id = 1 }; index = index }

abbrev members : EffectiveMembership ℕ
members = record {
  stored = record {
    log_id = some (at 1 0);
    membership = record { configs = (1 ∷ 2 ∷ 3 ∷ []) ∷ []; nodes = (1, 1) ∷ (2, 2) ∷ (3, 3) ∷ [] };
  };
  quorum_set = (1 ∷ 2 ∷ 3 ∷ []) ∷ [];
  voter_ids = 1 ∷ 2 ∷ 3 ∷ [];
}

abbrev pub leader_vote : CommittedVote
leader_vote = record { leader_id = record { term = 4; node_id = 1 } }

-- Logs 0 to 2 by the first leader, 3 to 5 by the second; those up to 1 are committed.
abbrev state : RaftState ℕ
state = record {
  vote =
      Leased.without_last_update (record { leader_id = leader_vote.leader_id; committed = true });
  committed = some (at 1 1);
  purged_next = 0;
  log_ids = at 1 0 ∷ at 2 3 ∷ at 2 5 ∷ [];
  membership_state = record { committed = members; effective = members };
  snapshot_meta = record { last_log_id = none; last_membership = members.stored };
  server_state = follower;
  io_state = record {
    building_snapshot = false;
    io_progress = record {
      accepted = some (new_log_io leader_vote (some (at 2 4)));
      submitted = none;
      flushed = none;
    };
    applied = none;
    snapshot = none;
    purged = none;
  };
  purge_upto = none;
}

state-IsValid : IsValid state
unfolding last_purged_log_id
state-IsValid = record {
  from_zero = λ e. refl;
  from_purged = λ h. absurd (omega arith);
  purged = refl;
  purge = refl;
  snapshot = refl;
  committed = refl;
  membership = record { by_id = refl; by_index = refl };
  io = record { flushed = refl; submitted = refl; applied = refl; purged = refl };
}

abbrev sent : List LogId
sent = at 1 2 ∷ at 4 3 ∷ []

update_committed-IsValid_example :
    let r = update_committed state (some (at 2 3)) in
    IsValid r.0
    × (r.0.committed ≡ max_of (some (at 1 1)) (some (at 2 3)))
    × (r.1 ≡ (if state.committed <? some (at 2 3) then some (some (at 1 1)) else none))
update_committed-IsValid_example = update_committed-IsValid state (some (at 2 3)) state-IsValid refl

abbrev pub node : Node ℕ
node = record {
  config = record {
    id = 2;
    logs_since_last = none;
    max_in_snapshot_log_to_keep = 10;
    purge_batch_size = 1;
    max_payload_entries = 300;
    allow_log_reversion = false;
    leader_lease = 500;
  };
  state = state;
  output = [];
}

commit_entries-IsValid_example :
    IsValid (commit_entries node (some (at 2 5))).state
    × ((commit_entries node (some (at 2 5))).state.committed
        ≡ max_of (some (at 1 1)) (min_of (some (at 2 4)) (some (at 2 5))))
commit_entries-IsValid_example = commit_entries-IsValid node (some (at 2 5)) state-IsValid refl

abbrev entries : List (Entry ℕ)
entries =
    record { log_id = at 1 2; membership = none }
    ∷ record { log_id = at 4 3; membership = none }
    ∷ []

two : next_index (some (at 1 1)) ≡ 2
unfolding add64
two = refl

append_entries-ref_at_example :
    (since : ℕ) × FirstMissing state sent since
    × ((i : ℕ)
        → ref_at (append_entries leader_vote node (some (at 1 1)) entries).state.log_ids i
          ≡ replaced (ref_at state.log_ids) entries since (get_elem? entries since) i)
append_entries-ref_at_example =
    append_entries-ref_at leader_vote node (some (at 1 1)) (at 1 0) (at 2 3 ∷ at 2 5 ∷ []) 2 entries
      refl (omega arith, (omega arith, tt)) (omega (arith, two)) (omega arith) (omega arith)
      (refl, (refl, tt))
