-- ===== src/Raft/Durable.antt =====
-- raft/raft.go: the persisted state after each critical section, and what a restart recovers.
use m2i8t.Prelude.{
  ℕ, ◌≡◌, refl, ◌⊎◌, Option, none, some, List, [], ◌∷◌, arith, ok, eq_nat, eq_string, minus_one,
}
use m2i8t.Raft.Types.{
  Raft, follower, sentinel, ApplyMsg, AppendEntriesArgs, AppendEntriesReply, RequestVoteArgs,
  RequestVoteReply,
}
use m2i8t.Raft.Persist.{persistent}
use m2i8t.Raft.AppendEntries.{append_entries, check_log}
use m2i8t.Raft.RequestVote.{request_vote}
use m2i8t.Raft.Node.{start, kill, make, initial, reset_indices}
use m2i8t.Raft.Election.{check_election, handle_vote_reply}
use m2i8t.Raft.Heartbeat.{Round, Next, handle_append_reply}
use m2i8t.Raft.Apply.{check_apply}
use m2i8t.Raft.Applied.{check_apply-Keeps}
use m2i8t.Raft.Steps.{
  Step, on_append_entries, on_request_vote, on_start, on_kill, on_check_election, on_vote_reply,
  on_append_reply, on_check_apply, Reach, here, next,
}

-- The persister holds what `persist` would write now, or nothing was ever written and the fields
-- that are persisted have the values that Make gives them.
abbrev pub IsDurable : {C : Type 0} → Raft C → Type 0
IsDurable rf =
    (rf.persister.raftstate ≡ persistent rf)
    ⊎ ((rf.persister.raftstate ≡ [])
        × (rf.state ≡ follower)
        × (rf.current_term ≡ 0)
        × (rf.voted_for ≡ minus_one)
        × (rf.log ≡ sentinel ∷ []))

module _ {C : Type 0} where
  check_log-IsDurable :
      (args : AppendEntriesArgs C) (rf : Raft C) (reply : AppendEntriesReply) {rf' : Raft C}
      {reply' : AppendEntriesReply}
      → check_log args rf reply ≡ ok (rf', reply')
      → IsDurable rf
      → IsDurable rf'
  unfolding check_log
  check_log-IsDurable args rf reply h d = ground arith

  append_entries-IsDurable :
      (now : ℕ) (args : AppendEntriesArgs C) (rf : Raft C) {rf' : Raft C}
      {reply : AppendEntriesReply}
      → append_entries now args rf ≡ ok (rf', reply)
      → IsDurable rf
      → IsDurable rf'
  unfolding append_entries
  append_entries-IsDurable now args rf h d = ground arith

  request_vote-IsDurable :
      (now : ℕ) (args : RequestVoteArgs) (rf : Raft C) {rf' : Raft C} {reply : RequestVoteReply}
      → request_vote now args rf ≡ ok (rf', reply)
      → IsDurable rf
      → IsDurable rf'
  unfolding request_vote
  request_vote-IsDurable now args rf h d = ground arith

  start-IsDurable : (c : C) (rf : Raft C) → IsDurable rf → IsDurable (start c rf).0
  unfolding start
  start-IsDurable c rf d = ground arith

  check_election-IsDurable :
      (now r : ℕ) (rf : Raft C) → IsDurable rf → IsDurable (check_election now r rf).0
  unfolding check_election
  check_election-IsDurable now r rf d = ground arith

  handle_vote_reply-IsDurable :
      (now : ℕ) (args : RequestVoteArgs) (reply : Option RequestVoteReply) (cnt : ℕ) (rf : Raft C)
      → IsDurable rf
      → IsDurable (handle_vote_reply now args reply cnt rf).1
  unfolding handle_vote_reply
  handle_vote_reply-IsDurable now args none cnt rf d = d
  handle_vote_reply-IsDurable now args (some reply) cnt rf d = ground arith

  handle_append_reply-IsDurable :
      (i : ℕ) (args : AppendEntriesArgs C) (reply : Option AppendEntriesReply) (round : Round)
      (rf : Raft C) {round' : Round} {rf' : Raft C} {nxt : Next}
      → handle_append_reply i args reply round rf ≡ ok (round', rf', nxt)
      → IsDurable rf
      → IsDurable rf'
  unfolding handle_append_reply
  handle_append_reply-IsDurable i args reply round rf h d = ground arith

  check_apply-IsDurable :
      (rf : Raft C) {rf' : Raft C} {sent : List (ApplyMsg C)}
      → check_apply rf ≡ ok (rf', sent)
      → IsDurable rf
      → IsDurable rf'
  unfolding persistent
  check_apply-IsDurable rf h d = ground (arith, check_apply-Keeps rf)

  Step-IsDurable : {rf rf' : Raft C} → Step rf rf' → IsDurable rf → IsDurable rf'
  unfolding kill persistent
  Step-IsDurable {rf} (on_append_entries now args h) d = append_entries-IsDurable now args rf h d
  Step-IsDurable {rf} (on_request_vote now args h) d = request_vote-IsDurable now args rf h d
  Step-IsDurable {rf} (on_start c) d = start-IsDurable c rf d
  Step-IsDurable (on_kill) d = d
  Step-IsDurable {rf} (on_check_election now r) d = check_election-IsDurable now r rf d
  Step-IsDurable {rf} (on_vote_reply now args reply cnt) d =
      handle_vote_reply-IsDurable now args reply cnt rf d
  Step-IsDurable {rf} (on_append_reply i args reply round h) d =
      handle_append_reply-IsDurable i args reply round rf h d
  Step-IsDurable {rf} (on_check_apply h) d = check_apply-IsDurable rf h d

  Reach-IsDurable : {rf rf' : Raft C} → IsDurable rf → Reach rf rf' → IsDurable rf'
  Reach-IsDurable d here = d
  Reach-IsDurable d (next r s) = Step-IsDurable s (Reach-IsDurable d r)

  -- The peer that Make builds from the fields that a persister held.
  restarted : ℕ → ℕ → ℕ → ℕ → Raft C → Raft C
  unfolding reset_indices initial
  restarted peers me r now rf = reset_indices (record (initial peers me rf.persister r now) {
    state = rf.state;
    current_term = rf.current_term;
    voted_for = rf.voted_for;
    log = rf.log;
  })

  make-restarted :
      (peers me r now : ℕ) (rf : Raft C)
      → IsDurable rf
      → make peers me rf.persister r now ≡ ok (restarted peers me r now rf)
  unfolding make persistent restarted
  make-restarted peers me r now rf d = ground arith

  -- From a durable peer, whatever critical sections ran: a crash and a new Make on the same
  -- persister does not panic, recovers `state`, the term, the vote and the whole log, and starts
  -- with nothing committed or applied; the new peer is durable again.
  pub restart_recovers :
      (peers me r now : ℕ) {rf₀ rf : Raft C}
      → IsDurable rf₀
      → Reach rf₀ rf
      → (rf' : Raft C) × (make peers me rf.persister r now ≡ ok rf')
        × ((rf'.state ≡ rf.state)
            × (rf'.current_term ≡ rf.current_term)
            × (rf'.voted_for ≡ rf.voted_for)
            × (rf'.log ≡ rf.log))
        × ((rf'.commit_index ≡ 0) × (rf'.last_applied ≡ 0))
        × IsDurable rf'
  unfolding restarted persistent
  restart_recovers peers me r now {rf = rf} d reach =
      let durable : IsDurable rf = Reach-IsDurable d reach in
      (
        restarted peers me r now rf,
        make-restarted peers me r now rf durable,
        (refl, refl, refl, refl),
        (refl, refl),
        durable,
      )
