-- ===== src/Raft/Commit.antt =====
-- raft/raft.go, `sendHeartbeat`: when a leader commits.
use m2i8t.Prelude.{
  ℕ, ◌+◌, ◌-◌, ◌*◌, ◌≤◌, ◌<◌, ◌≡◌, sym, ap, ◌∙◌, ◌≢◌, inl, inr, true, Option, none, some, List, [],
  ◌∷◌, arith, if◌then◌else◌, length, ok, index_in_range, Outcome-cases, eq_nat, eq_string,
  int_eq_iff,
}
use m2i8t.Raft.Types.{LogEntry, Raft, leader, AppendEntriesArgs, AppendEntriesReply, term_at}
use m2i8t.Raft.RequestVote.{last_entry}
use m2i8t.Raft.Heartbeat.{Round, Next, start_round, handle_append_reply}

abbrev pub successes : Option AppendEntriesReply → ℕ
successes none = 0
successes (some reply) = if reply.success then 1 else 0

module _ {C : Type 0} where
  -- The snapshot of a round says that the last entry is of the leader's term only if it is.
  last_entry-term :
      (log : List (LogEntry C)) (e : LogEntry C)
      → last_entry log ≡ ok e
      → (term_at log (length log - 1) ≡ e.term) × (0 < length log)
  last_entry-term [] e h = cc
  last_entry-term (x ∷ log) e h =
      let (y, found, got) = index_in_range (x ∷ log) (length (x ∷ log) - 1) (omega arith) in
      (rw (got, term_at) (ground (arith, found, h)), omega arith)

  -- The variables of a round that `rf₀` started, once its goroutines have handled replies of which `n`
  -- are successes. Whatever else happens to the peer between them, each is handled in a state `rf`.
  pub data Counted (rf₀ : Raft C) : ℕ → Round → Type 0 where
    starts : {round : Round} → start_round rf₀ ≡ ok (some round) → Counted rf₀ 0 round
    handles :
        {n : ℕ} {round : Round} (i : ℕ) (args : AppendEntriesArgs C)
        (reply : Option AppendEntriesReply) (rf : Raft C) {round' : Round} {rf' : Raft C}
        {nxt : Next}
        → Counted rf₀ n round
        → handle_append_reply i args reply round rf ≡ ok (round', rf', nxt)
        → Counted rf₀ (n + successes reply) round'

  record IsSnapshot (rf₀ : Raft C) (n : ℕ) (round : Round) : Type 0 where
    whole : round.current_log_len ≡ length rf₀.log
    own_term : round.change_commit ≡ true → term_at rf₀.log (length rf₀.log - 1) ≡ rf₀.current_term
    same_term : round.current_term ≡ rf₀.current_term
    count : round.repl_count ≤ n + 1

  start_round-IsSnapshot :
      (rf₀ : Raft C) (round : Round) → start_round rf₀ ≡ ok (some round) → IsSnapshot rf₀ 0 round
  unfolding start_round
  start_round-IsSnapshot rf₀ round h = elim (Outcome-cases (last_entry rf₀.log)) [
    | inl e ↦ absurd (ground (arith, h, e))
    | inr (x, e) ↦ record {
      whole = ground (arith, h, e);
      own_term = λ c. ground (arith, h, e, c, last_entry-term rf₀.log x e);
      same_term = ground (arith, h, e);
      count = ground (arith, h, e);
    }
  ]

  -- A reply changes only the count of the round, by one at most, and only if it is a success.
  handle_append_reply-count :
      (i : ℕ) (args : AppendEntriesArgs C) (reply : Option AppendEntriesReply) (round : Round)
      (rf : Raft C) {round' : Round} {rf' : Raft C} {nxt : Next}
      → handle_append_reply i args reply round rf ≡ ok (round', rf', nxt)
      → (round'.current_log_len ≡ round.current_log_len)
        × (round'.change_commit ≡ round.change_commit)
        × (round'.current_term ≡ round.current_term)
        × (round'.repl_count ≤ round.repl_count + successes reply)
  unfolding handle_append_reply
  handle_append_reply-count i args none round rf h = ground (arith, h)
  handle_append_reply-count i args (some reply) round rf h = ground (arith, h)

  Counted-IsSnapshot :
      (rf₀ : Raft C) {n : ℕ} {round : Round} → Counted rf₀ n round → IsSnapshot rf₀ n round
  Counted-IsSnapshot rf₀ {round = round} (starts h) = start_round-IsSnapshot rf₀ round h
  Counted-IsSnapshot rf₀ (handles {round = round₁} i args reply rf c h) =
      let s = Counted-IsSnapshot rf₀ c in
      let (len, change, term, count) = handle_append_reply-count i args reply round₁ rf h in
      record {
        whole = len ∙ s.whole;
        own_term = λ q. s.own_term (sym change ∙ q);
        same_term = term ∙ s.same_term;
        count = omega (arith, count, s.count);
      }

  reply_commits :
      (i : ℕ) (args : AppendEntriesArgs C) (reply : AppendEntriesReply) (round : Round)
      (rf : Raft C) {round' : Round} {rf' : Raft C} {nxt : Next}
      → handle_append_reply i args (some reply) round rf ≡ ok (round', rf', nxt)
      → rf'.commit_index ≢ rf.commit_index
      → (rf.commit_index < rf'.commit_index)
        × (rf'.commit_index ≡ round.current_log_len - 1)
        × (round.change_commit ≡ true)
        × (rf.peers < 2 * (round.repl_count + 1))
        × (reply.success ≡ true)
        × (rf.state ≡ leader)
        × (round.current_term ≡ rf.current_term)
  unfolding handle_append_reply
  reply_commits i args reply round rf h ne = ground (arith, int_eq_iff rf.state leader)

  -- A reply to a request of a round that `rf₀` started, after `n` successes in it, moves the commit index
  -- of the peer only if it is a success that reaches a leader still in the term of `rf₀`, the leader, the
  -- `n` and this one are more than half of the peers, and the last entry of the log of `rf₀` is of that
  -- term. The index then rises to that entry.
  pub leader_commits :
      (i n : ℕ) (args : AppendEntriesArgs C) (reply : AppendEntriesReply) (round : Round)
      (rf₀ rf : Raft C) {round' : Round} {rf' : Raft C} {nxt : Next}
      → Counted rf₀ n round
      → handle_append_reply i args (some reply) round rf ≡ ok (round', rf', nxt)
      → rf'.commit_index ≢ rf.commit_index
      → (rf.commit_index < rf'.commit_index)
        × (rf'.commit_index ≡ length rf₀.log - 1)
        × (term_at rf₀.log rf'.commit_index ≡ rf₀.current_term)
        × (rf.peers < 2 * (1 + n + 1))
        × (reply.success ≡ true)
        × (rf.state ≡ leader)
        × (rf.current_term ≡ rf₀.current_term)
  leader_commits i n args reply round rf₀ rf {rf' = rf'} counted h ne =
      let s = Counted-IsSnapshot rf₀ counted in
      let (rises, there, change, most, success, leads, term) =
        reply_commits i args reply round rf h ne in
      let last : rf'.commit_index ≡ length rf₀.log - 1 = there ∙ ap (λ k. k - 1) s.whole in
      (
        rises,
        last,
        ap (term_at rf₀.log) last ∙ s.own_term change,
        omega (arith, most, s.count),
        success,
        leads,
        sym term ∙ s.same_term,
      )
