-- ===== src/Raft/Heartbeat.antt =====
-- raft/raft.go, `sendHeartbeat`: a round's snapshot, a request to a peer, and its reply.
use m2i8t.Prelude.{
  ℕ, zero, suc, ◌+◌, ◌-◌, ◌*◌, Bool, pos, negsuc, int_eq, Outcome, ok, panic, ◌>>=◌, ltb, ◌==◌,
  if◌then◌else◌, length, take, drop, set, index, ◌&&◌, ◌||◌, not, none, some, Option, List,
}
use m2i8t.Raft.Types.{LogEntry, Raft, leader, AppendEntriesArgs, AppendEntriesReply, term_at}
use m2i8t.Raft.RequestVote.{last_entry}
use m2i8t.Raft.Election.{step_down}

-- The variables that a round's goroutines share.
pub record Round : Type 0 where
  pub current_term : ℕ
  pub current_log_len : ℕ
  pub change_commit : Bool
  pub current_commit_index : ℕ
  pub repl_count : ℕ

-- What a goroutine does after a reply: it returns, or it goes round its loop again.
pub data Next : Type 0 where
  return retry : Next

abbrev pub entry_count {ℓ} : {A : Type ℓ} → Option (List A) → ℕ
entry_count none = 0
entry_count (some es) = length es

module _ {C : Type 0} where
  unfoldable pub start_round : Raft C → Outcome (Option Round)
  start_round rf =
      if int_eq rf.state leader
      then (do
        last ← last_entry rf.log
        ok (
            some (record {
              current_term = rf.current_term;
              current_log_len = length rf.log;
              change_commit = last.term == rf.current_term;
              current_commit_index = rf.commit_index;
              repl_count = 1;
            })))
      else ok none

  unfoldable pub outdated : Round → Raft C → Bool
  outdated round rf = not (int_eq rf.state leader) || not (round.current_term == rf.current_term)

  -- A request's entries, `rf.log[next:currentLogLen]`. A snapshot beyond the log, where Go panics beyond
  -- the capacity and shows what the array still holds below it, is a panic.
  unfoldable pub entries_from : ℕ → ℕ → List (LogEntry C) → Outcome (Option (List (LogEntry C)))
  entries_from next log_len log =
      if ltb next log_len
      then (if ltb (length log) log_len then panic else ok (some (drop next (take log_len log))))
      else ok none

  -- The arguments, once `nextIndex[i]` is read; `rf.log[nextIndex[i] - 1]` panics at 0.
  unfoldable pub append_args : Round → ℕ → Raft C → Outcome (AppendEntriesArgs C)
  unfolding entries_from
  append_args round zero rf = panic
  append_args round (suc prev) rf = do
    e ← index rf.log prev
    es ← entries_from (suc prev) round.current_log_len rf.log
    ok (record {
      term = round.current_term;
      leader_id = rf.me;
      prev_log_index = prev;
      prev_log_term = e.term;
      entries = es;
      leader_commit = round.current_commit_index;
    })

  -- The first critical section of a goroutine's loop; `none` is its return.
  unfoldable pub append_request : ℕ → Round → Raft C → Outcome (Option (AppendEntriesArgs C))
  unfolding append_args outdated
  append_request i round rf =
      if outdated round rf
      then ok none
      else do next ← index rf.next_index i; args ← append_args round next rf; ok (some args)

  -- The last of the first `n` entries whose term is `xterm`, or `d`.
  unfoldable pub last_of_term : List (LogEntry C) → ℕ → ℕ → ℕ → ℕ
  last_of_term log xterm d zero = d
  last_of_term log xterm d (suc j) =
      if term_at log j == xterm then j else last_of_term log xterm d j

  -- The new `nextIndex[i]` after a refusal. XLen is a length, or the -1 that marks a conflict.
  unfoldable pub backtrack : List (LogEntry C) → AppendEntriesReply → ℕ
  unfolding last_of_term
  backtrack log reply = elim reply.xlen [
    | pos n ↦ n
    | negsuc _ ↦ last_of_term log reply.xterm reply.xindex (length log)
  ]

  unfoldable pub handle_refusal : ℕ → AppendEntriesReply → Raft C → Raft C × Next
  unfolding step_down backtrack
  handle_refusal i reply rf =
      if ltb rf.current_term reply.term
      then (step_down reply.term rf, return)
      else (record rf { next_index = set rf.next_index i (backtrack rf.log reply) }, retry)

  -- A quorum is reached by the round's count, and only an entry of the leader's term commits.
  unfoldable pub advance_leader : ℕ → Round → Raft C → Raft C
  advance_leader count round rf =
      let next = round.current_log_len - 1 in
      if round.change_commit && (ltb rf.peers (2 * count) && ltb rf.commit_index next)
      then record rf { commit_index = next }
      else rf

  unfoldable pub handle_success : ℕ → AppendEntriesArgs C → Round → Raft C → Round × Raft C
  unfolding advance_leader
  handle_success i args round rf =
      let matched = args.prev_log_index + entry_count args.entries in
      let count = round.repl_count + 1 in
      (
        record round { repl_count = count },
        advance_leader count round (record rf {
          match_index = set rf.match_index i matched;
          next_index = set rf.next_index i (matched + 1);
        }),
      )

  -- The second critical section; `none` is a failed RPC.
  unfoldable pub handle_append_reply :
      ℕ
      → AppendEntriesArgs C
      → Option AppendEntriesReply
      → Round
      → Raft C
      → Outcome (Round × Raft C × Next)
  unfolding outdated handle_refusal handle_success
  handle_append_reply i args reply round rf =
      if outdated round rf then ok (round, rf, return) else do
        next ← index rf.next_index i
        ok (
            if not (next == args.prev_log_index + 1) then (round, rf, return) else elim reply [
              | none ↦ (round, rf, retry)
              | some r ↦
                  if r.success
                  then (let (round', rf') = handle_success i args round rf in (round', rf', return))
                  else (let (rf', next') = handle_refusal i r rf in (round, rf', next'))
            ])
