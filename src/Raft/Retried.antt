-- ===== src/Raft/Retried.antt =====
-- raft/raft.go, `sendHeartbeat`: the loop that sends a round's log to a peer, to its end.
use m2i8t.Prelude.{
  false, ℕ, zero, suc, ◌+◌, ◌*◌, ◌≤◌, ◌<◌, ◌≡◌, sym, ◌∙◌, subst, inl, inr, Option, none, some, List,
  arith, nat_cases, length, get_elem?, set, take, get_elem?_lt, get_elem?-set_self, Outcome, ok,
  panic, Outcome-cases, eq_nat, eq_string,
}
use native.Mathlib.Nat.{mul-le-mul_right}
use m2i8t.Raft.Types.{LogEntry, Raft, leader, AppendEntriesArgs, AppendEntriesReply}
use m2i8t.Raft.AppendEntries.{append_entries}
use m2i8t.Raft.Heartbeat.{Round, retry, backtrack, handle_append_reply}
use m2i8t.Raft.Matching.{FromLog, last_covered, take_of_take}
use m2i8t.Raft.Follows.{Follows}
use m2i8t.Raft.Appended.{Answered, Declined, append_entries-Answered}
use m2i8t.Raft.Backtrack.{IsOrdered, Progress, Refused, append_entries-Refused}
use m2i8t.Raft.Sending.{Fits, append_request-FromLog}
use m2i8t.Raft.Retry.{retry_loop}
use m2i8t.Raft.Replies.{
  IsOrdered-take, append_entries-term, Says, append_request_lem, reply_returns, reply_retries,
  retry_loop-return, retry_loop-retry,
}

module _ {C : Type 0} where
  -- A live leader in a round of its term, whose nextIndex for peer i is `suc prev` and lies in its log;
  -- and the peer, of no newer term, whose log follows the leader's.
  pub record InRound (i prev : ℕ) (round : Round) (rf peer : Raft C) : Type 0 where
    pub alive : rf.dead ≡ false
    pub leads : rf.state ≡ leader
    pub same_term : round.current_term ≡ rf.current_term
    pub fits : Fits round rf
    pub next : get_elem? rf.next_index i ≡ some (suc prev)
    pub in_log : prev < length rf.log
    pub ordered : IsOrdered rf.log
    pub not_newer : peer.current_term ≤ rf.current_term
    pub peer_ordered : IsOrdered peer.log
    pub follows : Follows peer.log peer.commit_index rf.log

  Declined-IsOrdered :
      (args : AppendEntriesArgs C) (l : List (LogEntry C)) (t c : ℕ) (log : List (LogEntry C))
      (rf' : Raft C) (reply : AppendEntriesReply)
      → IsOrdered l
      → IsOrdered log
      → Declined args l t c log rf' reply
      → IsOrdered rf'.log
  Declined-IsOrdered args l t c log rf' reply o' o d = elim d.drops [
    | inl e ↦ rw e o
    | inr (e, ne) ↦ rw e (elim (nat_cases args.prev_log_index) [
      | inl z ↦ absurd (ne (rw z (o.starts ∙ sym o'.starts)))
      | inr (k, p) ↦ IsOrdered-take args.prev_log_index log (omega (arith, p)) o
    ])
  ]

  -- What is left to do falls, in the order of the peer's log's length and then of nextIndex.
  less_left :
      (args : AppendEntriesArgs C) (l log : List (LogEntry C)) (rf' : Raft C)
      (reply : AppendEntriesReply)
      → Progress args l log rf' reply
      → length rf'.log * (length l + 1) + backtrack l reply
        < length log * (length l + 1) + (args.prev_log_index + 1)
  less_left args l log rf' reply p = elim p.less [
    | inl (e, lt) ↦ rw e (omega (arith, lt))
    | inr lt ↦
        let h : suc (length rf'.log) ≤ length log = omega (arith, lt) in
        omega (arith, mul-le-mul_right (length l + 1) h, p.in_log)
  ]

  -- How the loop must end, for what it had at its start: no panic, the peer's log is the leader's as far
  -- as the round's length, it still follows the leader's log, and the leader keeps its log.
  abbrev pub Delivered : Round → Raft C → Option (Outcome (Round × Raft C × Raft C)) → Type 0
  Delivered round rf none = ⊥
  Delivered round rf (some panic) = ⊥
  Delivered round rf (some (ok (round', rf', peer'))) =
      (take round.current_log_len peer'.log ≡ take round.current_log_len rf.log)
      × Follows peer'.log peer'.commit_index rf.log
      × (rf'.log ≡ rf.log)

  -- A reply that is no success is a refusal for the log, and the loop goes on with less to do.
  refused_again :
      (now i prev : ℕ) (round : Round) (rf peer peer' : Raft C) (args : AppendEntriesArgs C)
      (reply : AppendEntriesReply)
      → InRound i prev round rf peer
      → FromLog args rf.log
      → args.term ≡ round.current_term
      → args.prev_log_index ≡ prev
      → append_entries now args peer ≡ ok (peer', reply)
      → Follows peer'.log peer'.commit_index rf.log
      → Declined args rf.log peer.current_term peer.commit_index peer.log peer' reply
      → (next : ℕ) × (handle_append_reply i args (some reply) round rf
          ≡ ok (round, record rf { next_index = set rf.next_index i (suc next) }, retry))
        × InRound i next round (record rf { next_index = set rf.next_index i (suc next) }) peer'
        × (length peer'.log * (length rf.log + 1) + suc next
            < length peer.log * (length rf.log + 1) + suc prev)
  refused_again now i prev round rf peer peer' args reply r from term at_prev e f d =
      let (t, t') =
        append_entries-term now args peer (omega (arith, term, r.same_term, r.not_newer)) e in
      let p : Progress args rf.log peer.log peer' reply =
        subst (Refused args rf.log peer.log) e
          (append_entries-Refused now args rf.log peer r.ordered r.peer_ordered
            (omega (arith, from.covered)) from.prev_term)
          d.no_success (sym t) in
      let at_next : args.prev_log_index + 1 ≡ suc prev = omega (arith, at_prev) in
      let left = less_left args rf.log peer.log peer' reply p in
      let again =
        reply_retries i args reply round rf r.leads r.same_term (rw at_next r.next) d.no_success
          (t ∙ term ∙ r.same_term) in
      elim (nat_cases (backtrack rf.log reply)) [
        | inl z ↦ absurd (omega (arith, z, p.positive))
        | inr (k, q) ↦ (
          k,
          subst
              (λ m.
                handle_append_reply i args (some reply) round rf
                ≡ ok (round, record rf { next_index = set rf.next_index i m }, retry))
              q again,
          record {
            alive = r.alive;
            leads = r.leads;
            same_term = r.same_term;
            fits = record { in_log = r.fits.in_log; commit_in = r.fits.commit_in };
            next = get_elem?-set_self rf.next_index i (suc k) (get_elem?_lt rf.next_index i r.next);
            in_log = omega (arith, q, p.in_log);
            ordered = r.ordered;
            not_newer = omega (arith, t', term, r.same_term);
            peer_ordered =
                Declined-IsOrdered args rf.log peer.current_term peer.commit_index peer.log peer'
                  reply r.ordered r.peer_ordered d;
            follows = f;
          },
          omega (arith, left, q, at_prev),
        )
      ]

  -- In the round of a leader that is not killed, with `nextIndex[i]` in its log and a peer of no newer
  -- term, both logs ordered and the peer's following the leader's: when each request arrives and its
  -- reply comes back before anything else changes the two, the loop ends within
  -- len(peer's log) * (len(leader's log) + 1) + nextIndex[i] requests, without a panic; the peer's log
  -- then is the leader's up to the round's length and follows it, and the leader's log is as before.
  pub retry_loop-Delivered :
      (fuel : ℕ) (clock : ℕ → ℕ) (i prev : ℕ) (round : Round) (rf peer : Raft C)
      → InRound i prev round rf peer
      → length peer.log * (length rf.log + 1) + suc prev ≤ fuel
      → Delivered round rf (retry_loop fuel clock i round rf peer)
  unfolding retry_loop
  retry_loop-Delivered zero clock i prev round rf peer r h = absurd (omega (arith, h))
  retry_loop-Delivered (suc fuel) clock i prev round rf peer r h =
      let (args, built, from) =
        append_request-FromLog i prev round rf r.fits r.leads r.same_term r.next r.in_log in
      let (term, at_prev, covers) =
        subst (Says prev round rf.log) built
          (append_request_lem i prev round rf r.fits r.leads r.same_term r.next r.in_log) in
      let at_next : args.prev_log_index + 1 ≡ suc prev = omega (arith, at_prev) in
      let answered = append_entries-Answered (clock fuel) args peer rf.log from r.follows in
      elim (Outcome-cases (append_entries (clock fuel) args peer)) [
        | inl e ↦
            absurd
              (subst (Answered args rf.log peer.current_term peer.commit_index peer.log) e answered)
        | inr ((peer', reply), e) ↦
            let (f, _, _, how) =
              subst (Answered args rf.log peer.current_term peer.commit_index peer.log) e
                answered in
            elim how [
              | inl a ↦
                  let (round', rf', done, log) =
                    reply_returns i args reply round rf r.leads r.same_term (rw at_next r.next)
                      a.success in
                  subst (Delivered round rf)
                    (sym (retry_loop-return fuel clock i round rf peer r.alive built e done))
                    (
                      take_of_take round.current_log_len (last_covered args + 1) peer'.log rf.log
                          covers a.prefix,
                      f,
                      log,
                    )
              | inr d ↦
                  let (next, again, r', left) =
                    refused_again (clock fuel) i prev round rf peer peer' args reply r from term
                      at_prev e f d in
                  subst (Delivered round rf)
                    (sym (retry_loop-retry fuel clock i round rf peer r.alive built e again))
                    (retry_loop-Delivered fuel clock i next round
                      (record rf { next_index = set rf.next_index i (suc next) }) peer' r'
                      (omega (arith, left, h)))
            ]
      ]
