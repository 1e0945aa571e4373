-- ===== src/Raft/Election.antt =====
-- raft/raft.go, `checkElection`: the timeout test, the vote requests, and the handling of a reply.
-- Each definition is one critical section of the goroutines, under `rf.mu`.
use m2i8t.Prelude.{
  ℕ, ◌+◌, ◌-◌, ◌*◌, Bool, true, false, pos, minus_one, int_eq, Outcome, ok, ◌>>=◌, ltb, leb, ◌==◌,
  if◌then◌else◌, length, ◌&&◌, not, none, some, Option,
}
use m2i8t.Raft.Types.{Raft, leader, follower, candidate, RequestVoteArgs, RequestVoteReply}
use m2i8t.Raft.Persist.{persist}
use m2i8t.Raft.RequestVote.{last_entry}
use m2i8t.Raft.Node.{millisecond, reset_indices}

module _ {C : Type 0} where
  -- `time.Since(rf.lastHeartbeat) >= rf.electionTimeout` is `lastHeartbeat + electionTimeout <= now`.
  unfoldable pub election_due : ℕ → Raft C → Bool
  election_due now rf =
      not (int_eq rf.state leader) && leb (rf.last_heartbeat + rf.election_timeout) now

  unfoldable pub start_election : ℕ → ℕ → Raft C → Raft C
  unfolding persist
  start_election now r rf = persist (record rf {
    state = candidate;
    current_term = rf.current_term + 1;
    voted_for = pos rf.me;
    last_heartbeat = now;
    election_timeout = (300 + r) * millisecond;
  })

  -- One round of the loop. `r` is what rand.Intn(200) returns. The flag says that an election has
  -- started, with grantedCnt = 1 and a goroutine for each other peer.
  unfoldable pub check_election : ℕ → ℕ → Raft C → Raft C × Bool
  unfolding election_due start_election
  check_election now r rf =
      if election_due now rf then (start_election now r rf, true) else (rf, false)

  -- What a goroutine sends, from the peer's state when it gets the lock.
  unfoldable pub vote_request : Raft C → Outcome RequestVoteArgs
  vote_request rf = do
    last ← last_entry rf.log
    ok (record {
      term = rf.current_term;
      candidate_id = rf.me;
      last_log_index = length rf.log - 1;
      last_log_term = last.term;
    })

  unfoldable pub become_leader : Raft C → Raft C
  unfolding persist reset_indices
  become_leader rf = reset_indices (persist (record rf { state = leader }))

  -- The count, and what follows it.
  unfoldable pub count_vote : Bool → ℕ → Raft C → ℕ × Raft C
  unfolding become_leader
  count_vote granted cnt rf =
      let cnt' = if int_eq rf.state candidate && granted then cnt + 1 else cnt in
      (cnt', if ltb rf.peers (2 * cnt') && int_eq rf.state candidate then become_leader rf else rf)

  unfoldable pub step_down : ℕ → Raft C → Raft C
  unfolding persist
  step_down term rf = persist (record rf { current_term = term; state = follower })

  -- A reply of a lower term: the code stores FOLLOWER, and then -1.
  unfoldable pub refused : ℕ → Raft C → Raft C
  unfolding persist
  refused now rf = persist (record rf { state = minus_one; last_heartbeat = now })

  -- From the return of the RPC on; `none` is a failed RPC. `cnt` is the election's grantedCnt.
  unfoldable pub handle_vote_reply :
      ℕ → RequestVoteArgs → Option RequestVoteReply → ℕ → Raft C → ℕ × Raft C
  unfolding count_vote step_down refused
  handle_vote_reply now args none cnt rf = (cnt, rf)
  handle_vote_reply now args (some reply) cnt rf =
      if ltb reply.term args.term
      then (cnt, refused now rf)
      else if not (args.term == rf.current_term)
      then (cnt, rf)
      else if ltb rf.current_term reply.term
      then (cnt, step_down reply.term rf)
      else count_vote reply.vote_granted cnt rf
