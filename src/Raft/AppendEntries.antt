-- ===== src/Raft/AppendEntries.antt =====
-- The AppendEntries handler of raft/raft.go, one definition for each stage between its returns.
use m2i8t.Prelude.{
  ℕ, zero, suc, ◌+◌, ◌-◌, List, [], ◌∷◌, ◌++◌, Option, none, some, Bool, true, false, pos,
  minus_one, Outcome, ok, ◌>>=◌, index, ltb, ◌==◌, if◌then◌else◌, length, take, not,
}
use m2i8t.Raft.Types.{
  LogEntry, Raft, follower, AppendEntriesArgs, AppendEntriesReply, new_reply, term_at,
}
use m2i8t.Raft.Persist.{persist}

module _ {C : Type 0} where
  -- `for i := len(rf.log) - 1; i >= 0; i--`, over the `n` indices below `n`; XIndex is 0 already.
  unfoldable pub conflict_index : List (LogEntry C) → ℕ → ℕ → ℕ
  conflict_index log xterm zero = 0
  conflict_index log xterm (suc i) =
      if ltb (term_at log i) xterm then i + 1 else conflict_index log xterm i

  -- The loop that looks for an entry whose term differs from the log's, from index `i` on.
  unfoldable pub rpc_stale : List (LogEntry C) → ℕ → List (LogEntry C) → Bool
  rpc_stale log i [] = false
  rpc_stale log i (v ∷ vs) =
      if not (term_at log i == v.term) then true else rpc_stale log (i + 1) vs

  -- `append(rf.log[:prev + 1], entries...)`, where the two branches that replace the tail meet.
  unfoldable pub append_entries_log :
      List (LogEntry C) → ℕ → Option (List (LogEntry C)) → List (LogEntry C)
  unfolding rpc_stale
  append_entries_log log prev none = log
  append_entries_log log prev (some es) =
      if ltb (prev + 1 + length es) (length log)
      then (if rpc_stale log (prev + 1) es then take (prev + 1) log ++ es else log)
      else take (prev + 1) log ++ es

  -- `len(rf.log) - 1` is exact: the log is not empty here.
  unfoldable pub advance_commit : ℕ → Raft C → Raft C
  advance_commit leader_commit rf =
      if ltb rf.commit_index leader_commit
      then record rf {
        commit_index =
            if ltb (length rf.log - 1) leader_commit then length rf.log - 1 else leader_commit;
      }
      else rf

  unfoldable pub accept :
      AppendEntriesArgs C → Raft C → AppendEntriesReply → Raft C × AppendEntriesReply
  unfolding persist append_entries_log advance_commit
  accept args rf reply =
      let appended = record rf {
        log = append_entries_log rf.log args.prev_log_index args.entries;
      } in
      (advance_commit args.leader_commit (persist appended), record reply { success = true })

  unfoldable pub reject_conflict :
      AppendEntriesArgs C → ℕ → Raft C → AppendEntriesReply → Raft C × AppendEntriesReply
  unfolding persist conflict_index
  reject_conflict args xterm rf reply = (
    persist (record rf { log = take args.prev_log_index rf.log }),
    record reply { xterm = xterm; xindex = conflict_index rf.log xterm (length rf.log) },
  )

  -- From the length test on. `len(rf.log) - 1 < prev` is `len(rf.log) < prev + 1`.
  unfoldable pub check_log :
      AppendEntriesArgs C → Raft C → AppendEntriesReply → Outcome (Raft C × AppendEntriesReply)
  unfolding accept reject_conflict
  check_log args rf reply =
      if ltb (length rf.log) (args.prev_log_index + 1)
      then ok (rf, record reply { xlen = pos (length rf.log) })
      else do
        let unset = record reply { xlen = minus_one }
        prev ← index rf.log args.prev_log_index
        ok (
            if not (prev.term == args.prev_log_term)
            then reject_conflict args prev.term rf unset
            else accept args rf unset)

  -- `now` is what time.Now() returns. (Storing FOLLOWER unless it is there stores FOLLOWER.)
  unfoldable pub append_entries :
      ℕ → AppendEntriesArgs C → Raft C → Outcome (Raft C × AppendEntriesReply)
  unfolding check_log persist
  append_entries now args rf =
      if ltb args.term rf.current_term
      then ok (rf, record new_reply { term = rf.current_term })
      else check_log args
          (persist (record rf { last_heartbeat = now; current_term = args.term; state = follower }))
          (record new_reply { term = args.term })
