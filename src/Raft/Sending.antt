-- ===== src/Raft/Sending.antt =====
-- raft/raft.go, `sendHeartbeat`: a request is built from the leader's log, without a panic.
use m2i8t.Prelude.{
  false, ℕ, suc, ◌+◌, ◌-◌, ◌≤◌, ◌<◌, ◌≡◌, refl, inl, inr, none, some, List, arith, ltb, tests,
  Bool-cases, length, get_elem?, take, drop, length-take, length-drop, drop-take, ok, index-eq,
  index_in_range, eq_nat, eq_string,
}
use m2i8t.Raft.Types.{LogEntry, leader, Raft, AppendEntriesArgs, term_at}
use m2i8t.Raft.Heartbeat.{Round, start_round, entries_from, append_args, append_request}
use m2i8t.Raft.Matching.{FromLog}

-- The round's snapshot lies within the log, and its commit index within the snapshot.
pub record Fits {C : Type 0} (round : Round) (rf : Raft C) : Type 0 where
  pub in_log : round.current_log_len ≤ length rf.log
  pub commit_in : round.current_commit_index < round.current_log_len

module _ {C : Type 0} where
  -- The entries that a request carries when `nextIndex[i]` lies below the snapshot.
  segment :
      (next k m : ℕ) (l : List (LogEntry C))
      → next + k ≡ m
      → m ≤ length l
      → (drop next (take m l) ≡ take k (drop next l)) × (length (drop next (take m l)) ≡ k)
  segment next k m l e h =
      (drop-take next k m l e, omega (arith, length-drop next (take m l), length-take m l))

  append_args-FromLog :
      (prev : ℕ) (round : Round) (rf : Raft C)
      → Fits round rf
      → prev < length rf.log
      → (args : AppendEntriesArgs C) × (append_args round (suc prev) rf ≡ ok args)
        × FromLog args rf.log
  unfolding append_args entries_from
  append_args-FromLog prev round rf f h =
      let (e, found, got) = index_in_range rf.log prev h in
      let inside : ltb (length rf.log) round.current_log_len ≡ false = ground (arith, f.in_log) in
      let there : term_at rf.log prev ≡ e.term = rw (got, term_at) in
      elim (Bool-cases (ltb (suc prev) round.current_log_len)) [
        | inl more ↦
            let k = round.current_log_len - suc prev in
            let (seg, len) =
              segment (suc prev) k round.current_log_len rf.log (omega (tests, more)) f.in_log in
            let es = drop (suc prev) (take round.current_log_len rf.log) in
            (
              record {
                term = round.current_term;
                leader_id = rf.me;
                prev_log_index = prev;
                prev_log_term = e.term;
                entries = some es;
                leader_commit = round.current_commit_index;
              },
              rw (found, more, inside),
              record {
                covered = omega (tests, more, len, f.in_log);
                prev_term = there;
                segment = rw len (let one : prev + 1 ≡ suc prev = omega arith in rw one seg);
                commit_covered = omega (tests, more, len, f.commit_in);
              },
            )
        | inr all ↦ (
          record {
            term = round.current_term;
            leader_id = rf.me;
            prev_log_index = prev;
            prev_log_term = e.term;
            entries = none;
            leader_commit = round.current_commit_index;
          },
          rw (found, all),
          record {
            covered = omega arith;
            prev_term = there;
            segment = refl;
            commit_covered = omega (tests, all, f.commit_in);
          },
        )
      ]

  -- A round that fits the log, in a leader of the round's term: with `nextIndex[i]` between 1 and
  -- the length of the log, the goroutine for peer i does not panic, and what it sends is built
  -- from the leader's log.
  pub append_request-FromLog :
      (i prev : ℕ) (round : Round) (rf : Raft C)
      → Fits round rf
      → rf.state ≡ leader
      → round.current_term ≡ rf.current_term
      → get_elem? rf.next_index i ≡ some (suc prev)
      → prev < length rf.log
      → (args : AppendEntriesArgs C) × (append_request i round rf ≡ ok (some args))
        × FromLog args rf.log
  unfolding append_request
  append_request-FromLog i prev round rf f is_leader same next h =
      let (args, built, from) = append_args-FromLog prev round rf f h in
      (args, ground (arith, index-eq rf.next_index i next), from)

  -- The snapshot that a leader takes fits its log, if what it has committed does.
  pub start_round-Fits :
      (rf : Raft C) {round : Round}
      → rf.commit_index < length rf.log
      → start_round rf ≡ ok (some round)
      → Fits round rf
  unfolding start_round
  start_round-Fits rf c h = ground arith
