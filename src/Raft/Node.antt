-- ===== src/Raft/Node.antt =====
-- raft/raft.go: GetState, Start, Kill, killed and Make.
use m2i8t.Prelude.{
  ℕ, zero, suc, ◌+◌, ◌*◌, List, [], ◌∷◌, ◌++◌, some, Bool, true, false, ℤ, pos, minus_one, int_eq,
  Outcome, ok, ◌>>=◌, if◌then◌else◌, length, set, replicate,
}
use m2i8t.Raft.Types.{sentinel, Raft, Persister, leader, follower}
use m2i8t.Raft.Persist.{persist, read_persist, read_raft_state}

-- time.Millisecond, in nanoseconds
abbrev pub millisecond : ℕ
millisecond = 1_000_000

module _ {C : Type 0} where
  unfoldable pub get_state : Raft C → ℕ × Bool
  get_state rf = (rf.current_term, int_eq rf.state leader)

  -- (index, term, isLeader); the index is -1 on a peer that does not lead.
  unfoldable pub start : C → Raft C → Raft C × ℤ × ℕ × Bool
  unfolding persist
  start command rf =
      if int_eq rf.state leader
      then (
        persist (record rf {
          log = rf.log ++ record { command = some command; term = rf.current_term } ∷ [];
        }),
        pos (length rf.log),
        rf.current_term,
        true,
      )
      else (rf, minus_one, rf.current_term, false)

  unfoldable pub kill : Raft C → Raft C
  kill rf = record rf { dead = true }

  unfoldable pub killed : Raft C → Bool
  killed rf = rf.dead

-- The loop `for j := len(peers) - 1; j >= 0; j-- { xs[j] = v }`, which Make and a new leader run on
-- `nextIndex` and `matchIndex`; both are made with `len(peers)` elements.
unfoldable pub fill : ℕ → ℕ → List ℕ → List ℕ
fill zero v xs = xs
fill (suc j) v xs = fill j v (set xs j v)

module _ {C : Type 0} where
  unfoldable pub reset_indices : Raft C → Raft C
  unfolding fill
  reset_indices rf = record rf {
    next_index = fill rf.peers (length rf.log) rf.next_index;
    match_index = fill rf.peers 0 rf.match_index;
  }

  -- `r` is what rand.Intn(1000) returns, `now` what time.Now() returns.
  unfoldable pub initial : ℕ → ℕ → Persister C → ℕ → ℕ → Raft C
  initial peers me persister r now = record {
    peers = peers;
    persister = persister;
    me = me;
    dead = false;
    election_timeout = (500 + r) * millisecond;
    last_heartbeat = now;
    state = follower;
    current_term = 0;
    voted_for = minus_one;
    log = sentinel ∷ [];
    commit_index = 0;
    last_applied = 0;
    next_index = replicate peers 0;
    match_index = replicate peers 0;
  }

  unfoldable pub make : ℕ → ℕ → Persister C → ℕ → ℕ → Outcome (Raft C)
  unfolding initial read_persist reset_indices read_raft_state
  make peers me persister r now = do
    rf ← read_persist (read_raft_state persister) (initial peers me persister r now)
    ok (reset_indices rf)
