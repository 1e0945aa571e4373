-- ===== src/Raft/Apply.antt =====
-- raft/raft.go, `checkApply`: the commands sent on applyCh, in order.
use m2i8t.Prelude.{
  ℕ, zero, suc, ◌+◌, ◌-◌, true, Outcome, ok, ◌>>=◌, ltb, if◌then◌else◌, List, [], ◌∷◌, index,
}
use m2i8t.Raft.Types.{LogEntry, Raft, ApplyMsg}

module _ {C : Type 0} where
  abbrev pub message : LogEntry C → ℕ → ApplyMsg C
  message e i = record { command_valid = true; command = e.command; command_index = i }

  -- The inner loop, with the rounds left as fuel; the messages are those sent.
  unfoldable pub apply_loop : ℕ → Raft C → Outcome (Raft C × List (ApplyMsg C))
  apply_loop zero rf = ok (rf, [])
  apply_loop (suc fuel) rf =
      let round = do
        e ← index rf.log (rf.last_applied + 1)
        (rf', sent) ← apply_loop fuel (record rf { last_applied = rf.last_applied + 1 })
        ok (rf', message e (rf.last_applied + 1) ∷ sent)
      in if ltb rf.last_applied rf.commit_index then round else ok (rf, [])

  unfoldable pub check_apply : Raft C → Outcome (Raft C × List (ApplyMsg C))
  unfolding apply_loop
  check_apply rf = apply_loop (rf.commit_index - rf.last_applied) rf
