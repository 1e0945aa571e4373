-- ===== src/Raft/Applied.antt =====
-- raft/raft.go, `checkApply`: which commands a round sends, and what it leaves alone.
use m2i8t.Prelude.{
  drop, take, drop_step, ℕ, zero, suc, ◌+◌, ◌-◌, ◌≤◌, ◌<◌, ◌≡◌, refl, List, [], ◌∷◌, arith, length,
  Outcome, ok, panic, index_in_range, eq_nat, eq_string,
}
use m2i8t.Raft.Types.{LogEntry, Raft, ApplyMsg}
use m2i8t.Raft.Apply.{message, apply_loop, check_apply}

module _ {C : Type 0} where
  -- The result differs from `rf` at most in `lastApplied`.
  abbrev pub Keeps : Raft C → Outcome (Raft C × List (ApplyMsg C)) → Type 0
  Keeps rf panic = Unit
  Keeps rf (ok (rf', _)) = record rf' { last_applied = rf.last_applied } ≡ rf

  apply_loop-Keeps : (fuel : ℕ) (rf : Raft C) → Keeps rf (apply_loop fuel rf)
  unfolding apply_loop
  apply_loop-Keeps zero rf = refl
  apply_loop-Keeps (suc fuel) rf =
      ground (arith, apply_loop-Keeps fuel (record rf { last_applied = rf.last_applied + 1 }))

  pub check_apply-Keeps : (rf : Raft C) → Keeps rf (check_apply rf)
  unfolding check_apply
  check_apply-Keeps rf = apply_loop-Keeps (rf.commit_index - rf.last_applied) rf

  -- The messages for consecutive entries, the first at index `i`.
  unfoldable pub number_from : ℕ → List (LogEntry C) → List (ApplyMsg C)
  number_from i [] = []
  number_from i (e ∷ es) = message e i ∷ number_from (i + 1) es

  apply_loop-number_from :
      (fuel : ℕ) (rf : Raft C)
      → rf.last_applied + fuel ≡ rf.commit_index
      → rf.commit_index < length rf.log
      → apply_loop fuel rf
        ≡ ok (
          record rf { last_applied = rf.commit_index },
          number_from (rf.last_applied + 1) (take fuel (drop (rf.last_applied + 1) rf.log)),
        )
  unfolding apply_loop number_from
  apply_loop-number_from zero rf e h = ground arith
  apply_loop-number_from (suc fuel) rf e h =
      let (x, found, got) = index_in_range rf.log (rf.last_applied + 1) (omega arith) in
      ground (
        arith,
        drop_step rf.log (rf.last_applied + 1) got,
        apply_loop-number_from fuel (record rf { last_applied = rf.last_applied + 1 }),
      )

  -- With `lastApplied <= commitIndex < len(log)` a round of checkApply does not panic: it sends
  -- exactly the entries above lastApplied up to commitIndex, each once, in log order, under its own
  -- index, and it changes nothing else than setting lastApplied to commitIndex.
  pub check_apply-number_from :
      (rf : Raft C)
      → rf.last_applied ≤ rf.commit_index
      → rf.commit_index < length rf.log
      → check_apply rf
        ≡ ok (
          record rf { last_applied = rf.commit_index },
          number_from
              (rf.last_applied + 1)
              (take (rf.commit_index - rf.last_applied) (drop (rf.last_applied + 1) rf.log)),
        )
  unfolding check_apply
  check_apply-number_from rf le h =
      apply_loop-number_from (rf.commit_index - rf.last_applied) rf (omega arith) h
