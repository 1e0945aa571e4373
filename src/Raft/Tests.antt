-- ===== src/Raft/Tests.antt =====
-- Runs of raft/raft.go on small inputs, and the theorems at inputs that meet their hypotheses.
use m2i8t.Prelude.{
  ℕ, zero, suc, ◌+◌, ◌≤◌, ◌<◌, ◌≡◌, refl, inr, true, false, some, List, [], ◌∷◌, arith, take, drop,
  ok, eq_nat, eq_string, pos, minus_one,
}
use m2i8t.Raft.Types.{
  LogEntry, Raft, Persister, AppendEntriesArgs, sentinel, leader, follower, term_at,
}
use m2i8t.Raft.AppendEntries.{append_entries}
use m2i8t.Raft.Node.{make, start, kill}
use m2i8t.Raft.Heartbeat.{backtrack}
use m2i8t.Raft.Apply.{check_apply}
use m2i8t.Raft.Applied.{number_from, check_apply-number_from}
use m2i8t.Raft.Steps.{on_start, on_kill, Reach, here, next}
use m2i8t.Raft.Durable.{IsDurable, restart_recovers}
use m2i8t.Raft.Matching.{FromLog}
use m2i8t.Raft.Follows.{Follows}
use m2i8t.Raft.Appended.{Answered, append_entries-Answered}
use m2i8t.Raft.Backtrack.{IsOrdered}

abbrev pub entry : ℕ → ℕ → LogEntry ℕ
entry c t = record { command = some c; term = t }

abbrev fresh_persister : Persister ℕ
fresh_persister = record { raftstate = []; snapshot = [] }

-- Peer 1 of three, as Make builds it.
abbrev peer : Raft ℕ
peer = record {
  peers = 3;
  persister = fresh_persister;
  me = 1;
  dead = false;
  election_timeout = 500_000_000;
  last_heartbeat = 0;
  state = follower;
  current_term = 0;
  voted_for = minus_one;
  log = sentinel ∷ [];
  commit_index = 0;
  last_applied = 0;
  next_index = 1 ∷ 1 ∷ 1 ∷ [];
  match_index = 0 ∷ 0 ∷ 0 ∷ [];
}

make-peer : make 3 1 fresh_persister 0 0 ≡ ok peer
unfolding make
make-peer = refl

-- A leader's log of two commands of term 2, and a follower that has another of term 1.
abbrev pub leader_log : List (LogEntry ℕ)
leader_log = sentinel ∷ entry 7 2 ∷ entry 8 2 ∷ []

abbrev pub the_leader : Raft ℕ
the_leader = record peer {
  me = 0;
  state = leader;
  current_term = 2;
  voted_for = pos 0;
  log = leader_log;
  next_index = 3 ∷ 2 ∷ 1 ∷ [];
}

abbrev pub behind : Raft ℕ
behind = record peer { current_term = 1; log = sentinel ∷ entry 5 1 ∷ [] }

abbrev request : AppendEntriesArgs ℕ
request = record {
  term = 2;
  leader_id = 0;
  prev_log_index = 0;
  prev_log_term = 0;
  entries = some (entry 7 2 ∷ entry 8 2 ∷ []);
  leader_commit = 1;
}

abbrev pub request_after : AppendEntriesArgs ℕ
request_after = record request {
  prev_log_index = 1;
  prev_log_term = 2;
  entries = some (entry 8 2 ∷ []);
}

pub request-FromLog : FromLog request leader_log
request-FromLog = record {
  covered = omega arith;
  prev_term = refl;
  segment = refl;
  commit_covered = omega arith;
}

pub behind-Follows : Follows behind.log 0 leader_log
behind-Follows = record { matching = m; committed = omega arith; agrees = refl }
  where
    m :
        (i : ℕ)
        → i < 2
        → i < 3
        → term_at behind.log i ≡ term_at leader_log i
        → take (i + 1) behind.log ≡ take (i + 1) leader_log
    m zero h h' e = refl
    m (suc zero) h h' e = absurd (omega (arith, e))
    m (suc (suc i)) h h' e = absurd (omega arith)

append_entries-Answered_example :
    Answered request leader_log 1 0 behind.log (append_entries 9 request behind)
append_entries-Answered_example =
    append_entries-Answered 9 request behind leader_log request-FromLog behind-Follows

append_entries_runs :
    (rf : Raft ℕ) × (append_entries 9 request behind
      ≡ ok (rf, record { term = 2; success = true; xlen = minus_one; xterm = 0; xindex = 0 }))
    × (rf.log ≡ leader_log)
    × (rf.commit_index ≡ 1)
unfolding append_entries
append_entries_runs = (_, refl, refl, refl)

pub behind-IsOrdered : IsOrdered behind.log
behind-IsOrdered = record { nonempty = omega arith; starts = refl; positive = p; sorted = s }
  where
    p : (i : ℕ) → 0 < i → i < 2 → 0 < term_at behind.log i
    p zero h h' = absurd (omega arith)
    p (suc zero) h h' = omega arith
    p (suc (suc i)) h h' = absurd (omega arith)

    s : (i j : ℕ) → i ≤ j → j < 2 → term_at behind.log i ≤ term_at behind.log j
    s zero j h h' = omega arith
    s (suc zero) zero h h' = absurd (omega arith)
    s (suc zero) (suc zero) h h' = omega arith
    s (suc zero) (suc (suc j)) h h' = absurd (omega arith)
    s (suc (suc i)) j h h' = absurd (omega arith)

pub leader_log-IsOrdered : IsOrdered leader_log
leader_log-IsOrdered = record { nonempty = omega arith; starts = refl; positive = p; sorted = s }
  where
    p : (i : ℕ) → 0 < i → i < 3 → 0 < term_at leader_log i
    p zero h h' = absurd (omega arith)
    p (suc zero) h h' = omega arith
    p (suc (suc zero)) h h' = omega arith
    p (suc (suc (suc i))) h h' = absurd (omega arith)

    s : (i j : ℕ) → i ≤ j → j < 3 → term_at leader_log i ≤ term_at leader_log j
    s zero j h h' = omega arith
    s (suc zero) zero h h' = absurd (omega arith)
    s (suc zero) (suc zero) h h' = omega arith
    s (suc zero) (suc (suc zero)) h h' = omega arith
    s (suc zero) (suc (suc (suc j))) h h' = absurd (omega arith)
    s (suc (suc i)) zero h h' = absurd (omega arith)
    s (suc (suc i)) (suc zero) h h' = absurd (omega arith)
    s (suc (suc zero)) (suc (suc zero)) h h' = omega arith
    s (suc (suc (suc i))) (suc (suc j)) h h' = absurd (omega arith)
    s (suc (suc i)) (suc (suc (suc j))) h h' = absurd (omega arith)

-- The conflicting entry is dropped, and the leader goes back to index 1.
append_entries_conflict :
    (rf : Raft ℕ) × (append_entries 9 request_after behind
      ≡ ok (rf, record { term = 2; success = false; xlen = minus_one; xterm = 1; xindex = 1 }))
    × (rf.log ≡ sentinel ∷ [])
unfolding append_entries
append_entries_conflict = (_, refl, refl)

backtrack_runs :
    backtrack leader_log
      (record { term = 2; success = false; xlen = minus_one; xterm = 1; xindex = 1 })
    ≡ 1
unfolding backtrack
backtrack_runs = refl

the_start : Reach peer (kill (start 4 peer).0)
the_start = next (next here (on_start 4)) on_kill

restart_recovers_example :
    (rf' : Raft ℕ) × (make 3 1 (kill (start 4 peer).0).persister 0 0 ≡ ok rf')
    × ((rf'.state ≡ (kill (start 4 peer).0).state)
        × (rf'.current_term ≡ (kill (start 4 peer).0).current_term)
        × (rf'.voted_for ≡ (kill (start 4 peer).0).voted_for)
        × (rf'.log ≡ (kill (start 4 peer).0).log))
    × ((rf'.commit_index ≡ 0) × (rf'.last_applied ≡ 0))
    × IsDurable rf'
restart_recovers_example = restart_recovers 3 1 0 0 (inr (refl, refl, refl, refl, refl)) the_start

abbrev committed : Raft ℕ
committed = record the_leader { commit_index = 2; last_applied = 0 }

check_apply-number_from_example :
    check_apply committed
    ≡ ok (record committed { last_applied = 2 }, number_from 1 (take 2 (drop 1 leader_log)))
check_apply-number_from_example = check_apply-number_from committed (omega arith) (omega arith)
