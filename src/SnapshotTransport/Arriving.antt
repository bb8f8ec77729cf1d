-- ===== src/SnapshotTransport/Arriving.antt =====
-- What a request that arrives at a node does (`install_snapshot` of openraft/src/raft/mod.rs).
use async_raft.Base.{
  ℕ, ◌+◌, ◌<◌, ◌≤◌, ◌≡◌, ◌≢◌, refl, sym, ap, ◌∙◌, inl, inr, true, false, not, ◌∷◌, none, some,
  length, u64_mod, Bool-cases,
}
use async_raft.Base.Order.{lt?_flip}
use async_raft.Vote.{Vote, vote_ge, vote_gt}
use async_raft.Vote.AdvOrder.{vote_ord, vote_ge_lem, vote_gt_lem}
use async_raft.SnapshotTransport.{
  Streaming, receive, Visit, Answer, replied, mismatched, failed, Receiver, install_snapshot,
  Sender, request,
}
use async_raft.SnapshotTransport.Receiving.{
  Opens, Partial, Fits, Foreign, receive-Partial, receive_chunk_lem, written, rejected, not_opened,
  receive_snapshot-Streamed,
}

vote_gt-vote_ge : (a b : Vote) → vote_gt b a ≡ not (vote_ge a b)
vote_gt-vote_ge a b = vote_gt_lem b a ∙ lt?_flip {A = Vote} a b ∙ ap not (sym (vote_ge_lem a b))

module _ {N : Type 0} where
  -- The five things that may come of it: the vote is refused, the snapshot is finished, a chunk more is
  -- there, the chunk does not fit, or no snapshot can be opened.
  pub data Arrived (snd : Sender N) (offset : ℕ) (v : Visit) (r : Receiver N)
      (out : Receiver N × Answer) : Type 0 where
    refused :
        out ≡ (r, replied v.my_vote)
        → vote_gt v.my_vote snd.vote ≡ true
        → Arrived snd offset v r out
    finished :
        out ≡ (record { streaming = none; installed = snd.snapshot ∷ r.installed }, replied v.after)
        → (request snd offset).last ≡ true
        → Arrived snd offset v r out
    more :
        (s : Streaming)
        → Partial snd.snapshot (offset + length (request snd offset).chunk) s
        → out ≡ (record { streaming = some s; installed = r.installed }, replied v.my_vote)
        → (request snd offset).last ≡ false
        → vote_gt v.my_vote snd.vote ≡ false
        → Arrived snd offset v r out
    foreign :
        out ≡ (r, mismatched)
        → Foreign snd.snapshot r.streaming
        → offset ≢ 0
        → Arrived snd offset v r out
    unopened : out ≡ (r, failed) → v.opened ≡ none → Arrived snd offset v r out

  pub install_snapshot-Arrived :
      (snd : Sender N) (offset : ℕ) (v : Visit) (r : Receiver N)
      → Opens v.opened
      → Fits snd.snapshot offset r.streaming
      → offset ≤ length snd.snapshot.bytes
      → length snd.snapshot.bytes < u64_mod
      → Arrived snd offset v r (install_snapshot v r (request snd offset))
  unfolding install_snapshot request
  install_snapshot-Arrived snd offset v r o f le b =
      let req = request snd offset in
      elim (Bool-cases (vote_ge snd.vote v.my_vote)) [
        | inr lt ↦ refused (rw lt refl) (vote_gt-vote_ge snd.vote v.my_vote ∙ ap not lt)
        | inl ge ↦
            let kept = vote_gt-vote_ge snd.vote v.my_vote ∙ ap not ge in
            elim (receive_snapshot-Streamed snd offset r.streaming v.opened o f) [
              | written s p e ↦ elim (Bool-cases req.last) [
                | inl last ↦
                    finished (rw (ge, e, receive_chunk_lem snd offset s p le b, last) refl) last
                | inr not_last ↦
                    more (receive s req) (receive-Partial snd offset s p)
                      (rw (ge, e, receive_chunk_lem snd offset s p le b, not_last) refl) not_last
                      kept
              ]
              | rejected e g n ↦ foreign (rw (ge, e) refl) g n
              | not_opened e n ↦ unopened (rw (ge, e) refl) n
            ]
      ]
