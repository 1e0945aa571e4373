-- ===== src/Raft/RequestVote.antt =====
-- The RequestVote handler of raft/raft.go.
use m2i8t.Prelude.{
  ℕ, ◌+◌, ◌-◌, ◌*◌, List, [], ◌∷◌, Bool, true, pos, minus_one, int_eq, Outcome, ok, panic, ◌>>=◌,
  index, ltb, leb, ◌==◌, if◌then◌else◌, length, ◌&&◌, ◌||◌, not,
}
use m2i8t.Raft.Types.{LogEntry, Raft, follower, RequestVoteArgs, RequestVoteReply, new_vote_reply}
use m2i8t.Raft.Persist.{persist}

-- The candidate's log is up to date: its last term is greater, or equal and its log is as long.
-- `args.LastLogIndex >= len(rf.log) - 1` is `len(rf.log) <= args.LastLogIndex + 1`.
unfoldable pub up_to_date : RequestVoteArgs → ℕ → ℕ → Bool
up_to_date args last_term len =
    ltb last_term args.last_log_term
    || (args.last_log_term == last_term && leb len (args.last_log_index + 1))

module _ {C : Type 0} where
  unfoldable pub already_voted : RequestVoteArgs → Raft C → Bool
  already_voted args rf =
      rf.current_term == args.term
      && not (int_eq rf.voted_for minus_one)
      && not (int_eq rf.voted_for (pos args.candidate_id))

  unfoldable pub grant : ℕ → RequestVoteArgs → Raft C → Raft C × RequestVoteReply
  unfolding persist
  grant now args rf = (
    persist (record rf {
      current_term = args.term;
      voted_for = pos args.candidate_id;
      last_heartbeat = now;
      state = follower;
    }),
    record { term = args.term; vote_granted = true },
  )

  -- `rf.log[len(rf.log) - 1]` panics on an empty log.
  abbrev pub last_entry : List (LogEntry C) → Outcome (LogEntry C)
  last_entry [] = panic
  last_entry (e ∷ l) = index (e ∷ l) (length (e ∷ l) - 1)

  unfoldable pub request_vote : ℕ → RequestVoteArgs → Raft C → Outcome (Raft C × RequestVoteReply)
  unfolding already_voted grant up_to_date
  request_vote now args rf =
      if ltb args.term rf.current_term
      then ok (rf, record new_vote_reply { term = rf.current_term })
      else do
        last ← last_entry rf.log
        let fresh = up_to_date args last.term (length rf.log)
        let refuse = record new_vote_reply { term = rf.current_term }
        ok (
            if already_voted args rf
            then (
              (if fresh then record rf { election_timeout = rf.election_timeout * 2 } else rf),
              refuse,
            )
            else if fresh
            then grant now args rf
            else (rf, refuse))
