-- ===== src/Raft/Steps.antt =====
-- raft/raft.go: what one critical section of a peer may do to its state, and what any run of them
-- reaches. The scheduler, the clock and the network choose the arguments.
use m2i8t.Prelude.{ℕ, Option, ◌≡◌, ok, List}
use m2i8t.Raft.Types.{
  Raft, ApplyMsg, AppendEntriesArgs, AppendEntriesReply, RequestVoteArgs, RequestVoteReply,
}
use m2i8t.Raft.AppendEntries.{append_entries}
use m2i8t.Raft.RequestVote.{request_vote}
use m2i8t.Raft.Node.{start, kill}
use m2i8t.Raft.Election.{check_election, handle_vote_reply}
use m2i8t.Raft.Heartbeat.{Round, Next, handle_append_reply}
use m2i8t.Raft.Apply.{check_apply}

pub data Step {C : Type 0} (rf : Raft C) : Raft C → Type 0 where
  on_append_entries :
      (now : ℕ) (args : AppendEntriesArgs C) {rf' : Raft C} {reply : AppendEntriesReply}
      → append_entries now args rf ≡ ok (rf', reply)
      → Step rf rf'
  on_request_vote :
      (now : ℕ) (args : RequestVoteArgs) {rf' : Raft C} {reply : RequestVoteReply}
      → request_vote now args rf ≡ ok (rf', reply)
      → Step rf rf'
  on_start : (command : C) → Step rf (start command rf).0
  on_kill : Step rf (kill rf)
  on_check_election : (now r : ℕ) → Step rf (check_election now r rf).0
  on_vote_reply :
      (now : ℕ) (args : RequestVoteArgs) (reply : Option RequestVoteReply) (cnt : ℕ)
      → Step rf (handle_vote_reply now args reply cnt rf).1
  on_append_reply :
      (i : ℕ) (args : AppendEntriesArgs C) (reply : Option AppendEntriesReply) (round : Round)
      {round' : Round} {rf' : Raft C} {next : Next}
      → handle_append_reply i args reply round rf ≡ ok (round', rf', next)
      → Step rf rf'
  on_check_apply :
      {rf' : Raft C} {sent : List (ApplyMsg C)} → check_apply rf ≡ ok (rf', sent) → Step rf rf'

pub data Reach {C : Type 0} (rf : Raft C) : Raft C → Type 0 where
  here : Reach rf rf
  next : {rf' rf'' : Raft C} → Reach rf rf' → Step rf' rf'' → Reach rf rf''
