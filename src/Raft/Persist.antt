-- ===== src/Raft/Persist.antt =====
-- raft/persister.go, and `persist` and `readPersist` of raft/raft.go.
use m2i8t.Prelude.{ℕ, List, [], ◌∷◌, ◌++◌, ℤ, pos, negsuc, Outcome, ok, panic, ◌>>=◌}
use m2i8t.Raft.Types.{LogEntry, GobValue, int, entries, Buffer, Persister, Raft}

abbrev nat_of : ℤ → Outcome ℕ
nat_of (pos n) = ok n
nat_of (negsuc n) = panic

module _ {C : Type 0} where
  pub make_persister : Persister C
  make_persister = record { raftstate = []; snapshot = [] }

  unfoldable pub copy : Persister C → Persister C
  unfolding make_persister
  copy ps = record make_persister { raftstate = ps.raftstate; snapshot = ps.snapshot }

  unfoldable pub save_raft_state : Buffer C → Persister C → Persister C
  save_raft_state state ps = record ps { raftstate = state }

  unfoldable pub read_raft_state : Persister C → Buffer C
  read_raft_state ps = ps.raftstate

  -- `bytes` is the number of bytes of a buffer, which the encoding decides.
  unfoldable pub raft_state_size : (bytes : Buffer C → ℕ) → Persister C → ℕ
  raft_state_size bytes ps = bytes ps.raftstate

  unfoldable pub save_state_and_snapshot : Buffer C → Buffer C → Persister C → Persister C
  save_state_and_snapshot state snapshot ps = record ps { raftstate = state; snapshot = snapshot }

  unfoldable pub read_snapshot : Persister C → Buffer C
  read_snapshot ps = ps.snapshot

  unfoldable pub snapshot_size : (bytes : Buffer C → ℕ) → Persister C → ℕ
  snapshot_size bytes ps = bytes ps.snapshot

  -- `Encode` appends to the buffer.
  abbrev encode : GobValue C → Buffer C → Buffer C
  encode v w = w ++ v ∷ []

  -- `Decode` takes the next value, and fails on another type or at the end.
  abbrev decode_int : Buffer C → Outcome (ℤ × Buffer C)
  decode_int (int n ∷ r) = ok (n, r)
  decode_int _ = panic

  abbrev decode_entries : Buffer C → Outcome (List (LogEntry C) × Buffer C)
  decode_entries (entries l ∷ r) = ok (l, r)
  decode_entries _ = panic

  unfoldable pub persistent : Raft C → Buffer C
  persistent rf =
      encode (entries rf.log)
        (encode (int rf.voted_for) (encode (int (pos rf.current_term)) (encode (int rf.state) [])))

  unfoldable pub persist : Raft C → Raft C
  unfolding persistent save_raft_state
  persist rf = record rf { persister = save_raft_state (persistent rf) rf.persister }

  read_values : Buffer C → Raft C → Outcome (Raft C)
  read_values r rf = do
    (state, r) ← decode_int r
    (current_term, r) ← decode_int r
    (voted_for, r) ← decode_int r
    (log, r) ← decode_entries r
    term ← nat_of current_term
    ok (record rf { state = state; current_term = term; voted_for = voted_for; log = log })

  -- A negative term counts as a decode error: no buffer that `persist` writes holds one.
  unfoldable pub read_persist : Buffer C → Raft C → Outcome (Raft C)
  unfolding read_values
  read_persist [] rf = ok rf
  read_persist (v ∷ r) rf = read_values (v ∷ r) rf
