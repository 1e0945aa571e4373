-- ===== src/Raft/Types.antt =====
-- The data of raft/raft.go and raft/persister.go: log entries, the persister, a peer, RPC records.
-- A command is a value of the service's type `C`; the log's first entry has none (Go's nil).
use m2i8t.Prelude.{ℕ, Option, none, some, List, ℤ, pos, Bool, false, get_elem?}

-- `state int` holds one of the three constants, or the -1 that a refused vote stores.
abbrev pub leader : ℤ
leader = pos 0

abbrev pub follower : ℤ
follower = pos 1

abbrev pub candidate : ℤ
candidate = pos 2

pub record LogEntry (C : Type 0) : Type 0 where
  pub command : Option C
  pub term : ℕ

-- The entry that every log starts with: `LogEntry{Term: 0}`.
abbrev pub sentinel : {C : Type 0} → LogEntry C
sentinel = record { command = none; term = 0 }

pub record ApplyMsg (C : Type 0) : Type 0 where
  pub command_valid : Bool
  pub command : Option C
  pub command_index : ℕ

-- What an encoder writes: a buffer is the sequence of the values encoded into it.
pub data GobValue (C : Type 0) : Type 0 where
  int : ℤ → GobValue C
  entries : List (LogEntry C) → GobValue C

abbrev pub Buffer : Type 0 → Type 0
Buffer C = List (GobValue C)

pub record Persister (C : Type 0) : Type 0 where
  pub raftstate : Buffer C
  pub snapshot : Buffer C

-- `peers` is the number of end points; `dead` is the flag that Kill sets.
pub record Raft (C : Type 0) : Type 0 where
  pub peers : ℕ
  pub persister : Persister C
  pub me : ℕ
  pub dead : Bool
  pub election_timeout : ℕ
  pub last_heartbeat : ℕ
  pub state : ℤ
  pub current_term : ℕ
  pub voted_for : ℤ
  pub log : List (LogEntry C)
  pub commit_index : ℕ
  pub last_applied : ℕ
  pub next_index : List ℕ
  pub match_index : List ℕ

-- `prev_log_index` is a natural number: the sender reads its log there before it sends.
pub record AppendEntriesArgs (C : Type 0) : Type 0 where
  pub term : ℕ
  pub leader_id : ℕ
  pub prev_log_index : ℕ
  pub prev_log_term : ℕ
  pub entries : Option (List (LogEntry C))  -- none is Go's nil slice
  pub leader_commit : ℕ

pub record AppendEntriesReply : Type 0 where
  pub term : ℕ
  pub success : Bool
  pub xlen : ℤ
  pub xterm : ℕ
  pub xindex : ℕ

-- The reply that a handler is given: every field is zero.
abbrev pub new_reply : AppendEntriesReply
new_reply = record { term = 0; success = false; xlen = pos 0; xterm = 0; xindex = 0 }

pub record RequestVoteArgs : Type 0 where
  pub term : ℕ
  pub candidate_id : ℕ
  pub last_log_index : ℕ
  pub last_log_term : ℕ

pub record RequestVoteReply : Type 0 where
  pub term : ℕ
  pub vote_granted : Bool

abbrev pub new_vote_reply : RequestVoteReply
new_vote_reply = record { term = 0; vote_granted = false }

-- `log[i].Term` at an index that the caller keeps in range.
abbrev pub term_at : {C : Type 0} → List (LogEntry C) → ℕ → ℕ
term_at log i = elim (get_elem? log i) [ some e ↦ e.term | none ↦ 0 ]
