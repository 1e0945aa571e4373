-- ===== src/Raft/Replies.antt =====
-- raft/raft.go, `sendHeartbeat`: the single steps of its retry loop, as the peer and the leader see them.
use m2i8t.Prelude.{
  ℕ, suc, ◌+◌, ◌≤◌, ◌<◌, ◌≡◌, refl, sym, ◌∙◌, inl, inr, true, false, Option, none, some, List,
  arith, ltb, ==_iff, ==_refl, tests, Bool-cases, length, get_elem?, set, take, length-take,
  length-drop, Outcome, ok, panic, index-eq, index_in_range, eq_nat, eq_string,
}
use m2i8t.Raft.Types.{
  LogEntry, Raft, leader, follower, AppendEntriesArgs, AppendEntriesReply, new_reply,
}
use m2i8t.Raft.Persist.{persist}
use m2i8t.Raft.AppendEntries.{append_entries, check_log, accept, advance_commit, reject_conflict}
use m2i8t.Raft.Heartbeat.{
  Round, return, retry, entries_from, append_args, append_request, outdated, backtrack,
  handle_refusal, advance_leader, handle_success, handle_append_reply,
}
use m2i8t.Raft.Matching.{last_covered, term_at-take}
use m2i8t.Raft.Backtrack.{IsOrdered}
use m2i8t.Raft.Sending.{Fits}
use m2i8t.Raft.Retry.{retry_loop}

module _ {C : Type 0} where
  pub IsOrdered-take :
      (n : ℕ) (log : List (LogEntry C)) → 0 < n → IsOrdered log → IsOrdered (take n log)
  IsOrdered-take n log some_left o =
      let len = length-take n log in
      record {
        nonempty = omega (arith, len, some_left, o.nonempty);
        starts = term_at-take n 0 log some_left ∙ o.starts;
        positive = λ i p q.
            let same = term_at-take n i log (omega (arith, q, len)) in
            omega (arith, same, o.positive i p (omega (arith, q, len)));
        sorted = λ i j p q.
            let same = term_at-take n i log (omega (arith, p, q, len)) in
            let same' = term_at-take n j log (omega (arith, q, len)) in
            omega (arith, same, same', o.sorted i j p (omega (arith, q, len)));
      }

  check_log-term :
      (args : AppendEntriesArgs C) (rf : Raft C) (reply : AppendEntriesReply) {rf' : Raft C}
      {reply' : AppendEntriesReply}
      → check_log args rf reply ≡ ok (rf', reply')
      → (reply'.term ≡ reply.term) × (rf'.current_term ≡ rf.current_term)
  unfolding check_log accept advance_commit reject_conflict persist
  check_log-term args rf reply h = ground (arith, h)

  pub append_entries-term :
      (now : ℕ) (args : AppendEntriesArgs C) (rf : Raft C) {rf' : Raft C}
      {reply : AppendEntriesReply}
      → rf.current_term ≤ args.term
      → append_entries now args rf ≡ ok (rf', reply)
      → (reply.term ≡ args.term) × (rf'.current_term ≡ args.term)
  unfolding append_entries persist
  append_entries-term now args rf fresh h = elim (Bool-cases (ltb args.term rf.current_term)) [
    | inl stale ↦ absurd (omega (tests, stale, fresh))
    | inr not_stale ↦
        let rf₀ : Raft C = record rf {
          last_heartbeat = now;
          current_term = args.term;
          state = follower;
        } in
        let e : append_entries now args rf
            ≡ check_log args (persist rf₀) (record new_reply { term = args.term }) =
          rw not_stale refl in
        check_log-term args (persist rf₀) (record new_reply { term = args.term }) (sym e ∙ h)
  ]

  -- What a request says of its round and of nextIndex.
  abbrev pub Says : ℕ → Round → List (LogEntry C) → Outcome (Option (AppendEntriesArgs C)) → Type 0
  Says prev round l panic = ⊥
  Says prev round l (ok none) = ⊥
  Says prev round l (ok (some args)) =
      (args.term ≡ round.current_term)
      × (args.prev_log_index ≡ prev)
      × (round.current_log_len ≤ last_covered args + 1)

  pub append_request_lem :
      (i prev : ℕ) (round : Round) (rf : Raft C)
      → Fits round rf
      → rf.state ≡ leader
      → round.current_term ≡ rf.current_term
      → get_elem? rf.next_index i ≡ some (suc prev)
      → prev < length rf.log
      → Says prev round rf.log (append_request i round rf)
  unfolding append_request append_args entries_from outdated
  append_request_lem i prev round rf f leads same next h =
      let at_next = index-eq rf.next_index i next in
      let (e, found, got) = index_in_range rf.log prev h in
      let inside : ltb (length rf.log) round.current_log_len ≡ false = ground (arith, f.in_log) in
      let current : outdated round rf ≡ false = rw (leads, (==_iff _ _).1 same) refl in
      elim (Bool-cases (ltb (suc prev) round.current_log_len)) [
        | inl more ↦
            rw (current, at_next, found, more, inside)
              (
                refl,
                refl,
                omega (
                  tests,
                  more,
                  f.in_log,
                  length-drop (suc prev) (take round.current_log_len rf.log),
                  length-take round.current_log_len rf.log,
                ),
              )
        | inr all ↦ rw (current, at_next, found, all) (refl, refl, omega (tests, all))
      ]

  pub reply_returns :
      (i : ℕ) (args : AppendEntriesArgs C) (reply : AppendEntriesReply) (round : Round)
      (rf : Raft C)
      → rf.state ≡ leader
      → round.current_term ≡ rf.current_term
      → get_elem? rf.next_index i ≡ some (args.prev_log_index + 1)
      → reply.success ≡ true
      → (round' : Round) × (rf' : Raft C) × (handle_append_reply i args (some reply) round rf
          ≡ ok (round', rf', return))
        × (rf'.log ≡ rf.log)
  unfolding handle_append_reply outdated advance_leader
  reply_returns i args reply round rf leads same next success =
      let at_next = index-eq rf.next_index i next in
      let current : outdated round rf ≡ false = rw (leads, (==_iff _ _).1 same) refl in
      let res = handle_success i args round rf in
      (
        res.0,
        res.1,
        rw (current, at_next, success, ==_refl (args.prev_log_index + 1)) refl,
        ground arith,
      )

  pub reply_retries :
      (i : ℕ) (args : AppendEntriesArgs C) (reply : AppendEntriesReply) (round : Round)
      (rf : Raft C)
      → rf.state ≡ leader
      → round.current_term ≡ rf.current_term
      → get_elem? rf.next_index i ≡ some (args.prev_log_index + 1)
      → reply.success ≡ false
      → reply.term ≡ rf.current_term
      → handle_append_reply i args (some reply) round rf
        ≡ ok (round, record rf { next_index = set rf.next_index i (backtrack rf.log reply) }, retry)
  unfolding handle_append_reply handle_refusal outdated
  reply_retries i args reply round rf leads same next refused term =
      let at_next = index-eq rf.next_index i next in
      let current : outdated round rf ≡ false = rw (leads, (==_iff _ _).1 same) refl in
      let not_newer : ltb rf.current_term reply.term ≡ false = ground (arith, term) in
      rw (current, at_next, refused, not_newer, ==_refl (args.prev_log_index + 1)) refl

  pub retry_loop-return :
      (fuel : ℕ) (clock : ℕ → ℕ) (i : ℕ) (round : Round) (rf peer : Raft C)
      {args : AppendEntriesArgs C} {peer' rf' : Raft C} {reply : AppendEntriesReply}
      {round' : Round}
      → rf.dead ≡ false
      → append_request i round rf ≡ ok (some args)
      → append_entries (clock fuel) args peer ≡ ok (peer', reply)
      → handle_append_reply i args (some reply) round rf ≡ ok (round', rf', return)
      → retry_loop (suc fuel) clock i round rf peer ≡ some (ok (round', rf', peer'))
  unfolding retry_loop
  retry_loop-return fuel clock i round rf peer alive built answer done =
      rw (retry_loop, alive, built, answer, done) refl

  pub retry_loop-retry :
      (fuel : ℕ) (clock : ℕ → ℕ) (i : ℕ) (round : Round) (rf peer : Raft C)
      {args : AppendEntriesArgs C} {peer' rf' : Raft C} {reply : AppendEntriesReply}
      {round' : Round}
      → rf.dead ≡ false
      → append_request i round rf ≡ ok (some args)
      → append_entries (clock fuel) args peer ≡ ok (peer', reply)
      → handle_append_reply i args (some reply) round rf ≡ ok (round', rf', retry)
      → retry_loop (suc fuel) clock i round rf peer ≡ retry_loop fuel clock i round' rf' peer'
  unfolding retry_loop
  retry_loop-retry fuel clock i round rf peer alive built answer again =
      rw (retry_loop, alive, built, answer, again) refl
