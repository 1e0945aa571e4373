-- ===== src/Raft/Backtrack.antt =====
-- raft/raft.go: the conflict fields of a refusal, and the nextIndex that the leader takes from them.
use m2i8t.Prelude.{
  ℕ, zero, suc, ◌+◌, ◌≤◌, ◌<◌, ◌≡◌, refl, sym, ap, ◌∙◌, ◌≢◌, ◌⊎◌, inl, inr, false, List, arith, ltb,
  ◌==◌, ltb→lt, ==_iff, tests, Bool-cases, nat_cases, length, length-take, Outcome, ok, panic,
  index_in_range, eq_nat, eq_string,
}
use m2i8t.Raft.Types.{
  LogEntry, Raft, AppendEntriesArgs, AppendEntriesReply, term_at, new_reply, follower,
}
use m2i8t.Raft.Persist.{persist}
use m2i8t.Raft.AppendEntries.{conflict_index, check_log, append_entries}
use m2i8t.Raft.Heartbeat.{last_of_term, backtrack}

-- The log starts with the sentinel of term 0, and the later terms are positive and never fall.
pub record IsOrdered {C : Type 0} (log : List (LogEntry C)) : Type 0 where
  pub nonempty : 0 < length log
  pub starts : term_at log 0 ≡ 0
  pub positive : (i : ℕ) → 0 < i → i < length log → 0 < term_at log i
  pub sorted : (i j : ℕ) → i ≤ j → j < length log → term_at log i ≤ term_at log j

module _ {C : Type 0} where
  conflict_index_lem :
      (log : List (LogEntry C)) (x n : ℕ)
      → term_at log 0 < x
      → 0 < n
      → (r : ℕ) × (conflict_index log x n ≡ suc r) × (term_at log r < x) × (r < n)
  unfolding conflict_index
  conflict_index_lem log x zero h h' = absurd (omega arith)
  conflict_index_lem log x (suc i) h h' = elim (Bool-cases (ltb (term_at log i) x)) [
    | inl found ↦ (i, rw found (omega arith), ltb→lt _ _ found, omega arith)
    | inr not_yet ↦ elim (nat_cases i) [
      | inl e ↦ let h0 : term_at log i < x = rw e h in absurd (omega (tests, not_yet))
      | inr (k, e) ↦
          let (r, p, q, s) = conflict_index_lem log x i h (omega arith) in
          (r, rw not_yet p, q, omega arith)
    ]
  ]

  last_of_term_lem :
      (l : List (LogEntry C)) (x d n : ℕ)
      → (last_of_term l x d n ≡ d)
        ⊎ ((last_of_term l x d n < n) × (term_at l (last_of_term l x d n) ≡ x))
  unfolding last_of_term
  last_of_term_lem l x d zero = inl refl
  last_of_term_lem l x d (suc j) = elim (Bool-cases (term_at l j == x)) [
    | inl found ↦ rw found (inr (omega arith, (==_iff _ _).0 found))
    | inr not_yet ↦
        rw not_yet
          (elim (last_of_term_lem l x d j) [ inl p ↦ inl p | inr (p, q) ↦ inr (omega arith, q) ])
  ]

  -- What a refusal does: the next nextIndex is positive and at most the length of the leader's log,
  -- and it is lower than before with the follower's log unchanged, or that log is shorter.
  pub record Progress (args : AppendEntriesArgs C) (l log : List (LogEntry C)) (rf' : Raft C)
      (reply : AppendEntriesReply) : Type 0 where
    pub positive : 0 < backtrack l reply
    pub in_log : backtrack l reply ≤ length l
    pub less :
        ((rf'.log ≡ log) × (backtrack l reply < args.prev_log_index + 1))
        ⊎ (length rf'.log < length log)

  abbrev pub Refused :
      AppendEntriesArgs C
      → List (LogEntry C)
      → List (LogEntry C)
      → Outcome (Raft C × AppendEntriesReply)
      → Type 0
  Refused args l log panic = ⊥
  Refused args l log (ok (rf', reply)) =
      reply.success ≡ false → args.term ≡ reply.term → Progress args l log rf' reply

  -- The conflict's `nextIndex`: XIndex, or the leader's last entry of the conflicting term.
  conflict_range :
      (log l : List (LogEntry C)) (prev x : ℕ)
      → IsOrdered log
      → IsOrdered l
      → prev < length log
      → prev < length l
      → term_at log prev ≡ x
      → 0 < x
      → (0 < last_of_term l x (conflict_index log x (length log)) (length l))
        × (last_of_term l x (conflict_index log x (length log)) (length l) ≤ length l)
  conflict_range log l prev x o o' in_log in_l there h =
      let zero_below : term_at log 0 < x = omega (arith, o.starts) in
      let (r, p, below, small) = conflict_index_lem log x (length log) zero_below o.nonempty in
      let r_in : r < prev = elim (Bool-cases (ltb r prev)) [
        | inl yes' ↦ ltb→lt r prev yes'
        | inr no' ↦
            absurd (omega (tests, no', o.sorted prev r (omega (tests, no')) small, there, below))
      ] in
      rw p (elim (last_of_term_lem l x (suc r) (length l)) [
        | inl e ↦ rw e (omega arith, omega arith)
        | inr (lt, e) ↦ (
          elim (nat_cases (last_of_term l x (suc r) (length l))) [
            | inl z ↦ absurd (
                let q : term_at l 0 ≡ x = (sym (ap (term_at l) z) ∙ e) in
                omega (arith, q, o'.starts))
            | inr (m, q) ↦ omega (arith, q)
          ],
          omega arith,
        )
      ])

  differ_pos :
      (log l : List (LogEntry C)) (prev x : ℕ)
      → IsOrdered log
      → IsOrdered l
      → prev < length log
      → term_at log prev ≡ x
      → x ≢ term_at l prev
      → 0 < x
  differ_pos log l zero x o o' h e ne = absurd (ne (sym e ∙ o.starts ∙ sym o'.starts))
  differ_pos log l (suc prev) x o o' h e ne =
      omega (arith, o.positive (suc prev) (omega arith) h, e)

  check_log-Refused :
      (args : AppendEntriesArgs C) (l : List (LogEntry C)) (rf : Raft C)
      (reply : AppendEntriesReply)
      → IsOrdered l
      → IsOrdered rf.log
      → args.prev_log_index < length l
      → term_at l args.prev_log_index ≡ args.prev_log_term
      → Refused args l rf.log (check_log args rf reply)
  unfolding check_log backtrack
  check_log-Refused args l rf reply o' o in_l prev =
      elim (Bool-cases (ltb (length rf.log) (args.prev_log_index + 1))) [
        | inl short ↦ rw short (λ _ _. record {
          positive = o.nonempty;
          in_log = omega (tests, short);
          less = inl (refl, omega (tests, short));
        })
        | inr long ↦
            let (e, found, got) = index_in_range rf.log args.prev_log_index (omega (tests, long)) in
            let there : term_at rf.log args.prev_log_index ≡ e.term = rw (got, term_at) in
            rw (long, found)
              (elim (Bool-cases (e.term == args.prev_log_term)) [
                | inl same ↦ rw same (λ s. cc)
                | inr differ ↦
                    let ne : e.term ≢ term_at l args.prev_log_index =
                      λ q. cc (differ, (==_iff e.term args.prev_log_term).1 (q ∙ prev)) in
                    let (p, q) =
                      conflict_range rf.log l args.prev_log_index e.term o o' (omega (tests, long))
                        in_l there
                        (differ_pos rf.log l args.prev_log_index e.term o o' (omega (tests, long))
                          there ne) in
                    rw differ (λ _ _. record {
                      positive = p;
                      in_log = q;
                      less = inr (omega (tests, long, length-take args.prev_log_index rf.log));
                    })
              ])
      ]

  -- A request built from an ordered log `l`, refused by a peer of an ordered log for a conflict or a
  -- missing entry: the leader's next nextIndex is in 1 .. len(l), so that its next request does not
  -- panic; and it is lower with the peer's log unchanged, or the peer's log is shorter.
  pub append_entries-Refused :
      (now : ℕ) (args : AppendEntriesArgs C) (l : List (LogEntry C)) (rf : Raft C)
      → IsOrdered l
      → IsOrdered rf.log
      → args.prev_log_index < length l
      → term_at l args.prev_log_index ≡ args.prev_log_term
      → Refused args l rf.log (append_entries now args rf)
  unfolding append_entries
  append_entries-Refused now args l rf o' o in_l prev =
      elim (Bool-cases (ltb args.term rf.current_term)) [
        | inl stale ↦ rw stale (λ s e. absurd (omega (tests, stale)))
        | inr fresh ↦ rw fresh (
            check_log-Refused args l
              (persist
                (record rf { last_heartbeat = now; current_term = args.term; state = follower }))
              (record new_reply { term = args.term }) o' o in_l prev)
      ]
