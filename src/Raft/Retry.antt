-- ===== src/Raft/Retry.antt =====
-- raft/raft.go, `sendHeartbeat`: the loop of the goroutine that sends a round's log to one peer, where
-- each request arrives at the peer and its reply comes back before anything else happens to the two.
use m2i8t.Prelude.{
  ℕ, zero, suc, true, false, Option, none, some, Outcome, ok, panic, eq_nat, eq_string,
}
use m2i8t.Raft.Types.{Raft}
use m2i8t.Raft.Node.{killed}
use m2i8t.Raft.AppendEntries.{append_entries}
use m2i8t.Raft.Heartbeat.{Round, return, retry, append_request, handle_append_reply}

module _ {C : Type 0} where
  -- `clock` is what the peer's clock shows at each request. With no fuel left the result is none.
  unfoldable pub retry_loop :
      ℕ → (ℕ → ℕ) → ℕ → Round → Raft C → Raft C → Option (Outcome (Round × Raft C × Raft C))
  unfolding killed
  retry_loop zero clock i round rf peer = none
  retry_loop (suc fuel) clock i round rf peer = elim (killed rf) [
    | true ↦ some (ok (round, rf, peer))
    | false ↦ elim (append_request i round rf) [
      | panic ↦ some panic
      | ok none ↦ some (ok (round, rf, peer))
      | ok (some args) ↦ elim (append_entries (clock fuel) args peer) [
        | panic ↦ some panic
        | ok (peer', reply) ↦ elim (handle_append_reply i args (some reply) round rf) [
          | panic ↦ some panic
          | ok (round', rf', return) ↦ some (ok (round', rf', peer'))
          | ok (round', rf', retry) ↦ retry_loop fuel clock i round' rf' peer'
        ]
      ]
    ]
  ]
