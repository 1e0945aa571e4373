-- ===== src/Raft/ElectionTests.antt =====
-- Votes, elections and rounds of heartbeats of raft/raft.go on small inputs, and the theorems there.
use m2i8t.Prelude.{
  ℕ, ◌+◌, ◌-◌, ◌*◌, ◌≤◌, ◌<◌, ◌≡◌, refl, sym, ◌≢◌, ◌↔◌, ◌⊎◌, Bool, true, false, some, [], ◌∷◌,
  arith, length, ok, eq_nat, eq_string, pos, minus_one,
}
use m2i8t.Raft.Types.{
  Raft, AppendEntriesArgs, AppendEntriesReply, RequestVoteArgs, RequestVoteReply, leader, follower,
  candidate, term_at,
}
use m2i8t.Raft.Persist.{persist}
use m2i8t.Raft.RequestVote.{request_vote}
use m2i8t.Raft.Election.{check_election, handle_vote_reply}
use m2i8t.Raft.Heartbeat.{Round, start_round, append_request, handle_append_reply, return}
use m2i8t.Raft.Steps.{here}
use m2i8t.Raft.Matching.{FromLog}
use m2i8t.Raft.Sending.{append_request-FromLog, start_round-Fits}
use m2i8t.Raft.Elected
use m2i8t.Raft.Elected.{
  vote_granted_iff, one_vote_per_term, candidate_votes_for_itself, leader_needs_majority,
  handle_all, refusal_ends_election,
}
use m2i8t.Raft.Commit
use m2i8t.Raft.Commit.{leader_commits}
use m2i8t.Raft.Tests.{entry, leader_log, the_leader, behind, request_after}

abbrev ask : ℕ → RequestVoteArgs
ask c = record { term = 3; candidate_id = c; last_log_index = 2; last_log_term = 2 }

abbrev voted : Raft ℕ
voted =
    persist
      (record behind { current_term = 3; voted_for = pos 2; last_heartbeat = 5; state = follower })

votes : request_vote 5 (ask 2) behind ≡ ok (voted, record { term = 3; vote_granted = true })
unfolding request_vote
votes = refl

votes_again :
    (rf : Raft ℕ) × (request_vote 6 (ask 2) voted
      ≡ ok (rf, record { term = 3; vote_granted = true }))
unfolding request_vote
votes_again = (_, refl)

one_vote_per_term_example : (ask 2).candidate_id ≡ (ask 2).candidate_id
one_vote_per_term_example =
    one_vote_per_term 5 6 (ask 2) (ask 2) behind voted votes refl here votes_again.1 refl refl

vote_granted_iff_example : ◌≡◌ {A = Bool} true true ↔ (
    (behind.current_term ≤ 3)
    × (behind.current_term ≡ 3 → (behind.voted_for ≡ minus_one) ⊎ (behind.voted_for ≡ pos 2))
    × ((1 < 2) ⊎ (◌≡◌ {A = ℕ} 1 2 × (2 ≤ 3))))
vote_granted_iff_example = vote_granted_iff 5 (ask 2) behind (entry 5 1) refl votes

-- A candidate of term 3, with its own vote.
abbrev running : Raft ℕ
running = (check_election 600_000_000 0 behind).0

candidate_runs :
    ((check_election 600_000_000 0 behind).1 ≡ true)
    × (running.state ≡ candidate)
    × (running.current_term ≡ 2)
unfolding check_election
candidate_runs = (refl, refl, refl)

abbrev ask_own : RequestVoteArgs
ask_own = record { term = 2; candidate_id = 1; last_log_index = 1; last_log_term = 1 }

votes_own :
    (rf : Raft ℕ) × (request_vote 6 ask_own running
      ≡ ok (rf, record { term = 2; vote_granted = true }))
unfolding request_vote check_election
votes_own = (_, refl)

candidate_votes_for_itself_example : ask_own.candidate_id ≡ behind.me
candidate_votes_for_itself_example =
    candidate_votes_for_itself 600_000_000 6 0 ask_own behind running candidate_runs.0 here
      votes_own.1 refl (sym candidate_runs.2)

abbrev granted : RequestVoteReply
granted = record { term = 2; vote_granted = true }

abbrev elected : Raft ℕ
elected = (handle_vote_reply 7 ask_own (some granted) 1 running).1

running_not_leader : running.state ≢ leader
running_not_leader e = cc (candidate_runs.1, e)

elected_runs : (elected.state ≡ leader) × (elected.next_index ≡ 2 ∷ 2 ∷ 2 ∷ [])
unfolding handle_vote_reply check_election
elected_runs = (refl, refl)

-- The peer itself and one other, of three.
leader_needs_majority_example :
    (running.state ≡ candidate)
    × (ask_own.term ≡ running.current_term)
    × (running.peers < 2 * (1 + 0 + 1))
    × (elected.current_term ≡ running.current_term)
leader_needs_majority_example =
    leader_needs_majority 0 1 7 ask_own (some granted) running Elected.starts running_not_leader
      elected_runs.0

running_sizes :
    (2 < running.peers)
    × (length running.next_index ≡ running.peers)
    × (length running.match_index ≡ running.peers)
unfolding check_election
running_sizes = (omega arith, refl, refl)

-- Of five peers, one refuses with its lower term; then three grant their votes.
abbrev refusal : RequestVoteReply
refusal = record { term = 1; vote_granted = false }

refusal_ends_election_example :
    ((handle_vote_reply 7 ask_own (some refusal) 1 (record running { peers = 5 })).1.state
      ≡ minus_one)
    × ((handle_all
          ((7, ask_own, some refusal)
            ∷ (8, ask_own, some granted)
            ∷ (9, ask_own, some granted)
            ∷ (9, ask_own, some granted)
            ∷ [])
          1
          (record running { peers = 5 })).1.state
        ≢ leader)
refusal_ends_election_example =
    refusal_ends_election 7 ask_own refusal 1 (record running { peers = 5 })
      ((8, ask_own, some granted) ∷ (9, ask_own, some granted) ∷ (9, ask_own, some granted) ∷ [])
      (omega arith)

abbrev pub round : Round
round = record {
  current_term = 2;
  current_log_len = 3;
  change_commit = true;
  current_commit_index = 0;
  repl_count = 1;
}

pub start_round_runs : start_round the_leader ≡ ok (some round)
unfolding start_round
start_round_runs = refl

append_request-FromLog_example :
    (args : AppendEntriesArgs ℕ) × (append_request 1 round the_leader ≡ ok (some args))
    × FromLog args leader_log
append_request-FromLog_example =
    append_request-FromLog 1 1 round the_leader
      (start_round-Fits the_leader (omega arith) start_round_runs) refl refl refl (omega arith)

abbrev success : AppendEntriesReply
success = record { term = 2; success = true; xlen = minus_one; xterm = 0; xindex = 0 }

abbrev after_success : Raft ℕ
after_success = record the_leader {
  commit_index = 2;
  next_index = 3 ∷ 3 ∷ 1 ∷ [];
  match_index = 0 ∷ 2 ∷ 0 ∷ [];
}

commits :
    handle_append_reply 1 request_after (some success) round the_leader
    ≡ ok (record round { repl_count = 2 }, after_success, return)
unfolding handle_append_reply
commits = refl

leader_commits_example :
    (0 < 2)
    × (after_success.commit_index ≡ 3 - 1)
    × (term_at leader_log 2 ≡ 2)
    × (3 < 2 * (1 + 0 + 1))
    × (success.success ≡ true)
    × (the_leader.state ≡ leader)
    × (the_leader.current_term ≡ 2)
leader_commits_example =
    leader_commits 1 0 request_after success round the_leader the_leader
      (Commit.starts start_round_runs) commits (λ e. absurd (omega (arith, e)))
