-- ===== src/Raft/RetryTests.antt =====
-- A round of heartbeats of raft/raft.go that is refused once, and the theorem on its loop there.
use m2i8t.Prelude.{refl, ok, some, arith, ◌≡◌, ℕ}
use m2i8t.Raft.Types.{Raft}
use m2i8t.Raft.Heartbeat.{Round, append_request, handle_append_reply}
use m2i8t.Raft.AppendEntries.{append_entries}
use m2i8t.Raft.Retry.{retry_loop}
use m2i8t.Raft.Sending.{start_round-Fits}
use m2i8t.Raft.Retried.{InRound, Delivered, retry_loop-Delivered}
use m2i8t.Raft.Tests.{
  leader_log, the_leader, behind, behind-Follows, behind-IsOrdered, leader_log-IsOrdered,
}
use m2i8t.Raft.ElectionTests.{round, start_round_runs}

-- The peer's entry of term 1 conflicts; the second request starts one entry earlier.
retries_run :
    (round' : Round) × (rf peer : Raft ℕ) × (retry_loop 2 (λ _. 9) 1 round the_leader behind
      ≡ some (ok (round', rf, peer)))
    × (peer.log ≡ leader_log)
unfolding retry_loop append_request append_entries handle_append_reply
retries_run = (_, _, _, refl, refl)

the_round : InRound 1 1 round the_leader behind
the_round = record {
  alive = refl;
  leads = refl;
  same_term = refl;
  fits = start_round-Fits the_leader (omega arith) start_round_runs;
  next = refl;
  in_log = omega arith;
  ordered = leader_log-IsOrdered;
  not_newer = omega arith;
  peer_ordered = behind-IsOrdered;
  follows = behind-Follows;
}

retry_loop-Delivered_example :
    Delivered round the_leader (retry_loop 10 (λ _. 9) 1 round the_leader behind)
retry_loop-Delivered_example =
    retry_loop-Delivered 10 (λ _. 9) 1 1 round the_leader behind the_round (omega arith)
