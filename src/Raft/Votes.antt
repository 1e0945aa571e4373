-- ===== src/Raft/Votes.antt =====
-- raft/raft.go: terms never fall, and a peer votes for at most one candidate in a term.
use m2i8t.Prelude.{
  ℕ, ◌<◌, ◌≡◌, ◌⊎◌, true, Option, none, some, List, arith, ok, eq_nat, eq_string, pos,
}
use m2i8t.Raft.Types.{
  Raft, AppendEntriesArgs, AppendEntriesReply, RequestVoteArgs, RequestVoteReply, ApplyMsg,
}
use m2i8t.Raft.AppendEntries.{append_entries}
use m2i8t.Raft.RequestVote.{request_vote}
use m2i8t.Raft.Node.{start, kill}
use m2i8t.Raft.Election.{check_election, handle_vote_reply}
use m2i8t.Raft.Heartbeat.{Round, Next, handle_append_reply}
use m2i8t.Raft.Apply.{check_apply}
use m2i8t.Raft.Applied.{check_apply-Keeps}
use m2i8t.Raft.Steps.{
  Step, on_append_entries, on_request_vote, on_start, on_kill, on_check_election, on_vote_reply,
  on_append_reply, on_check_apply, Reach, here, next,
}

-- The vote of term `t` is spent on candidate `c`: the peer is past the term, or it is in the term
-- and its vote is recorded.
abbrev pub HasVoted : {C : Type 0} → ℕ → ℕ → Raft C → Type 0
HasVoted t c rf = (t < rf.current_term) ⊎ ((t ≡ rf.current_term) × (rf.voted_for ≡ pos c))

module _ {C : Type 0} (t c : ℕ) where
  append_entries-HasVoted :
      (now : ℕ) (args : AppendEntriesArgs C) (rf : Raft C) {rf' : Raft C}
      {reply : AppendEntriesReply}
      → append_entries now args rf ≡ ok (rf', reply)
      → HasVoted t c rf
      → HasVoted t c rf'
  unfolding append_entries
  append_entries-HasVoted now args rf h d = ground arith

  request_vote-HasVoted :
      (now : ℕ) (args : RequestVoteArgs) (rf : Raft C) {rf' : Raft C} {reply : RequestVoteReply}
      → request_vote now args rf ≡ ok (rf', reply)
      → HasVoted t c rf
      → HasVoted t c rf'
  unfolding request_vote
  request_vote-HasVoted now args rf h d = ground arith

  handle_vote_reply-HasVoted :
      (now : ℕ) (args : RequestVoteArgs) (reply : Option RequestVoteReply) (cnt : ℕ) (rf : Raft C)
      → HasVoted t c rf
      → HasVoted t c (handle_vote_reply now args reply cnt rf).1
  unfolding handle_vote_reply
  handle_vote_reply-HasVoted now args none cnt rf d = d
  handle_vote_reply-HasVoted now args (some reply) cnt rf d = ground arith

  handle_append_reply-HasVoted :
      (i : ℕ) (args : AppendEntriesArgs C) (reply : Option AppendEntriesReply) (round : Round)
      (rf : Raft C) {round' : Round} {rf' : Raft C} {nxt : Next}
      → handle_append_reply i args reply round rf ≡ ok (round', rf', nxt)
      → HasVoted t c rf
      → HasVoted t c rf'
  unfolding handle_append_reply
  handle_append_reply-HasVoted i args reply round rf h d = ground arith

  check_apply-HasVoted :
      (rf : Raft C) {rf' : Raft C} {sent : List (ApplyMsg C)}
      → check_apply rf ≡ ok (rf', sent)
      → HasVoted t c rf
      → HasVoted t c rf'
  check_apply-HasVoted rf h d = ground (arith, check_apply-Keeps rf)

  Step-HasVoted : {rf rf' : Raft C} → Step rf rf' → HasVoted t c rf → HasVoted t c rf'
  unfolding kill start check_election
  Step-HasVoted {rf} (on_append_entries now args h) d = append_entries-HasVoted now args rf h d
  Step-HasVoted {rf} (on_request_vote now args h) d = request_vote-HasVoted now args rf h d
  Step-HasVoted {rf} (on_start command) d = ground arith
  Step-HasVoted (on_kill) d = d
  Step-HasVoted {rf} (on_check_election now r) d = ground arith
  Step-HasVoted {rf} (on_vote_reply now args reply cnt) d =
      handle_vote_reply-HasVoted now args reply cnt rf d
  Step-HasVoted {rf} (on_append_reply i args reply round h) d =
      handle_append_reply-HasVoted i args reply round rf h d
  Step-HasVoted {rf} (on_check_apply h) d = check_apply-HasVoted rf h d

  pub Reach-HasVoted : {rf rf' : Raft C} → HasVoted t c rf → Reach rf rf' → HasVoted t c rf'
  Reach-HasVoted d here = d
  Reach-HasVoted d (next r s) = Step-HasVoted s (Reach-HasVoted d r)

  pub HasVoted-granted :
      (now : ℕ) (args : RequestVoteArgs) (rf : Raft C) {rf' : Raft C} {reply : RequestVoteReply}
      → HasVoted t c rf
      → request_vote now args rf ≡ ok (rf', reply)
      → reply.vote_granted ≡ true
      → args.term ≡ t
      → args.candidate_id ≡ c
  unfolding request_vote
  HasVoted-granted now args rf v h g e = ground arith

module _ {C : Type 0} where
  pub granted-HasVoted :
      (now : ℕ) (args : RequestVoteArgs) (rf : Raft C) {rf' : Raft C} {reply : RequestVoteReply}
      → request_vote now args rf ≡ ok (rf', reply)
      → reply.vote_granted ≡ true
      → HasVoted args.term args.candidate_id rf'
  unfolding request_vote
  granted-HasVoted now args rf h g = ground arith
