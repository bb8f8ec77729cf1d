-- ===== src/Scenarios/Transferring.antt =====
-- A snapshot of five bytes is sent in chunks of two, to a node that was receiving another snapshot.
use async_raft.Base.{ℕ, ◌≡◌, refl, add64, List, [], ◌∷◌, some, arith}
use async_raft.Vote.{vote_gt, vote_ge, ref_vote_cmp}
use async_raft.SnapshotTransport.{
  blank, Snapshot, Visit, Sender, Round, lost, unanswered, answered, late, Transfer, send_snapshot,
  Outcome, going, stopped, returned, round, react, request, install_snapshot, receive_snapshot,
  receive_chunk, receive, restart, begin, write_all, written, overwrite, lay,
}
use async_raft.SnapshotTransport.Sending.{Sound, Ended, send_snapshot-Ended}
use async_raft.SnapshotTransport.Delivery.{Delivered, send_snapshot-Delivered}
use async_raft.Scenarios.Nodes.{node}

abbrev snapshot : Snapshot ℕ
snapshot = record {
  snapshot_id = 7;
  meta = node.state.snapshot_meta;
  bytes = 11 ∷ 12 ∷ 13 ∷ 14 ∷ 15 ∷ [];
}

abbrev sender : Sender ℕ
sender = record { vote = node.state.vote.data_of; snapshot = snapshot; chunk_size = 2 }

abbrev before : Transfer ℕ
before = record {
  offset = 0;
  receiver = record {
    streaming = some (record {
      offset = 3;
      snapshot_id = 6;
      snapshot_data = record { bytes = 1 ∷ 2 ∷ 3 ∷ []; at = 3 };
    });
    installed = [];
  };
}

before-Sound : Sound sender before
before-Sound = record {
  inside = omega arith;
  fits = λ e. absurd (omega (arith, e));
  installed = tt;
}

abbrev one_visit : Visit
one_visit = record {
  my_vote = node.state.vote.data_of;
  after = node.state.vote.data_of;
  opened = some blank;
}

-- A request is lost, an answer is lost, also the one to the last chunk.
abbrev unreliable : List Round
unreliable =
    answered one_visit
    ∷ lost
    ∷ unanswered one_visit
    ∷ answered one_visit
    ∷ unanswered one_visit
    ∷ answered one_visit
    ∷ []

send_snapshot-Ended_example : Ended sender (send_snapshot sender before unreliable)
send_snapshot-Ended_example =
    send_snapshot-Ended sender before unreliable before-Sound (omega arith)
      (refl, (tt, (refl, (refl, (refl, (refl, tt))))))

-- The first request times out and is sent again. Once the last chunk has been installed and its answer
-- has been lost, the first request arrives late, and the last one is sent again.
abbrev out_of_order : List Round
out_of_order =
    answered one_visit
    ∷ answered one_visit
    ∷ unanswered one_visit
    ∷ late 0 one_visit
    ∷ answered one_visit
    ∷ []

abbrev bytes_of : List (Snapshot ℕ) → List (List ℕ)
bytes_of [] = []
bytes_of (s ∷ ss) = s.bytes ∷ bytes_of ss

abbrev installed_by : Outcome ℕ → List (List ℕ)
installed_by (going t) = bytes_of t.receiver.installed
installed_by (stopped t) = bytes_of t.receiver.installed
installed_by (returned v t) = bytes_of t.receiver.installed

-- The second snapshot that is installed is not the one that is sent.
late_installs :
    installed_by (send_snapshot sender before out_of_order)
    ≡ (11 ∷ 12 ∷ 0 ∷ 0 ∷ 15 ∷ []) ∷ (11 ∷ 12 ∷ 13 ∷ 14 ∷ 15 ∷ []) ∷ []
unfolding send_snapshot round react request install_snapshot receive_snapshot receive_chunk receive
    restart begin write_all written overwrite lay vote_ge vote_gt ref_vote_cmp add64
late_installs = refl

abbrev reliable : List Round
reliable =
    answered one_visit
    ∷ answered one_visit
    ∷ answered one_visit
    ∷ answered one_visit
    ∷ answered one_visit
    ∷ answered one_visit
    ∷ answered one_visit
    ∷ []

send_snapshot-Delivered_example : Delivered sender before (send_snapshot sender before reliable)
unfolding vote_gt
send_snapshot-Delivered_example =
    send_snapshot-Delivered sender before reliable before-Sound (omega arith) (omega arith)
      (
        (refl, refl),
        (
          (refl, refl),
          ((refl, refl), ((refl, refl), ((refl, refl), ((refl, refl), ((refl, refl), tt))))),
        ),
      )
      (omega arith)
