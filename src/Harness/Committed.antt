-- ===== src/Harness/Committed.antt =====
-- raft/config.go: the goroutine that reads a server's applyCh, and how many have committed an entry.
use m2i8t.Prelude.{
  ℕ, zero, suc, ◌+◌, Bool, true, false, ◌&&◌, ◌||◌, not, Option, none, some, List, [], ◌∷◌, ltb,
  if◌then◌else◌, Outcome, ok, panic, ◌>>=◌, index, store, Eq, eq_nat, eq_string, Dict, update,
}
use m2i8t.Raft.Types.{ApplyMsg}
use m2i8t.Harness.Peers.{RaftConfig}

module _ {C : Type 0} ⦃e : Eq C⦄ where
  -- The comparison of two commands; none is nil.
  unfoldable pub same_command : Option C → Option C → Bool
  same_command none none = true
  same_command none (some b) = false
  same_command (some a) none = false
  same_command (some a) (some b) = e.beq a b

  -- Some server's copy has another command at the index.
  unfoldable pub conflicts : List (Dict ℕ (Option C)) → ℕ → Option C → Bool
  unfolding same_command
  conflicts [] i v = false
  conflicts (log ∷ logs) i v =
      let here : Bool = elim (log i) [ none ↦ false | some old ↦ not (same_command old v) ] in
      here || conflicts logs i v

  -- The previous index is known; that of the index 0 is no key.
  unfoldable pub has_previous : Dict ℕ (Option C) → ℕ → Bool
  has_previous log zero = false
  has_previous log (suc i) = elim (log i) [ none ↦ false | some _ ↦ true ]

  module _ {Args Reply State : Type 0} where
    -- A round of the goroutine of server `i`; an error is fatal.
    unfoldable pub read_message :
        ℕ → ApplyMsg C → RaftConfig C Args Reply State → Outcome (RaftConfig C Args Reply State)
    unfolding conflicts has_previous store
    read_message i m cfg = if not m.command_valid then ok cfg else (do
      log ← index cfg.logs i
      logs ← store cfg.logs i (update log m.command_index m.command)
      let cfg' = record cfg {
        logs = logs;
        max_index = if ltb cfg.max_index m.command_index then m.command_index else cfg.max_index;
      }
      let out_of_order = ltb 1 m.command_index && not (has_previous log m.command_index)
      (if conflicts cfg.logs m.command_index m.command || out_of_order then panic else ok cfg'))

    unfoldable pub read_messages :
        ℕ
        → List (ApplyMsg C)
        → RaftConfig C Args Reply State
        → Outcome (RaftConfig C Args Reply State)
    unfolding read_message
    read_messages i [] cfg = ok cfg
    read_messages i (m ∷ ms) cfg = do cfg' ← read_message i m cfg; read_messages i ms cfg'

  -- The loop of nCommitted over the copies; an applyErr and a mismatch are fatal.
  unfoldable pub count_committed :
      List (Bool × Dict ℕ (Option C)) → ℕ → ℕ → Option C → Outcome (ℕ × Option C)
  unfolding same_command
  count_committed [] i count cmd = ok (count, cmd)
  count_committed ((failed, log) ∷ rest) i count cmd = if failed then panic else elim (log i) [
    | none ↦ count_committed rest i count cmd
    | some cmd1 ↦
        if ltb 0 count && not (same_command cmd cmd1)
        then panic
        else count_committed rest i (count + 1) cmd1
  ]

  -- `failed` tells for each server that its applyErr is set.
  unfoldable pub n_committed : List (Bool × Dict ℕ (Option C)) → ℕ → Outcome (ℕ × Option C)
  unfolding count_committed
  n_committed copies i = count_committed copies i 0 none
