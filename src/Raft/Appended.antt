-- ===== src/Raft/Appended.antt =====
-- raft/raft.go: AppendEntries as a whole, for a request that was built from a log.
use m2i8t.Prelude.{
  ℕ, ◌+◌, ◌≤◌, ◌<◌, ◌≡◌, refl, sym, ◌∙◌, ◌≢◌, ◌⊎◌, inl, inr, true, false, Option, none, some, List,
  arith, ltb, ◌==◌, if◌then◌else◌, ==_iff, tests, Bool-cases, length, take, drop, Outcome, ok,
  panic, index_in_range, eq_nat, eq_string, minus_one,
}
use m2i8t.Raft.Types.{
  LogEntry, Raft, AppendEntriesArgs, AppendEntriesReply, term_at, new_reply, follower,
}
use m2i8t.Raft.Persist.{persist}
use m2i8t.Raft.AppendEntries.{append_entries_log, advance_commit, accept, check_log, append_entries}
use m2i8t.Raft.Heartbeat.{entry_count}
use m2i8t.Raft.Matching.{
  Matching, take_of_take, FromLog, entries_of, last_covered, Updated, kept,
  append_entries_log-Updated,
}
use m2i8t.Raft.Follows.{Follows, cut-Follows, Updated-prefix, Updated-Follows, raise-Follows}

-- The larger of a commit index and the leader's.
abbrev pub raised : ℕ → ℕ → ℕ
raised c leader_commit = if ltb c leader_commit then leader_commit else c

raised_ge : (c d : ℕ) → c ≤ raised c d
raised_ge c d = ground arith

module _ {C : Type 0} where
  updated :
      (prev : ℕ) (es : Option (List (LogEntry C))) (log l : List (LogEntry C))
      → prev + entry_count es < length l
      → entries_of es ≡ take (entry_count es) (drop (prev + 1) l)
      → Matching log l
      → prev < length log
      → take (prev + 1) log ≡ take (prev + 1) l
      → Updated log l (prev + entry_count es + 1) (append_entries_log log prev es)
  unfolding append_entries_log
  updated prev none log l h s m in_log p =
      let e : prev + 0 + 1 ≡ prev + 1 = omega arith in rw e (kept refl (omega arith) p)
  updated prev (some es) log l h s m in_log p =
      append_entries_log-Updated log l es prev (prev + length es + 1) (omega arith) s p m
        (omega arith)

  -- A success: the term is not old; the log has the first entries of `l` that the request covers, and lost
  -- others only for a conflict among these; the commit index is the larger of the peer's and the leader's.
  pub record Accepted (args : AppendEntriesArgs C) (l : List (LogEntry C)) (t c : ℕ)
      (log : List (LogEntry C)) (rf' : Raft C) (reply : AppendEntriesReply) : Type 0 where
    pub success : reply.success ≡ true
    pub fresh : t ≤ args.term
    pub prefix : take (last_covered args + 1) rf'.log ≡ take (last_covered args + 1) l
    pub update : Updated log l (last_covered args + 1) rf'.log
    pub commit : rf'.commit_index ≡ raised c args.leader_commit

  -- A refusal: the term is old, or the log lacks the request's previous entry; the commit index stays, and
  -- entries are dropped only from one on that conflicts with `l`.
  pub record Declined (args : AppendEntriesArgs C) (l : List (LogEntry C)) (t c : ℕ)
      (log : List (LogEntry C)) (rf' : Raft C) (reply : AppendEntriesReply) : Type 0 where
    pub no_success : reply.success ≡ false
    pub cause :
        (args.term < t)
        ⊎ ((length log ≤ args.prev_log_index)
            ⊎ (term_at log args.prev_log_index ≢ args.prev_log_term))
    pub commit : rf'.commit_index ≡ c
    pub drops :
        (rf'.log ≡ log)
        ⊎ ((rf'.log ≡ take args.prev_log_index log)
            × (term_at log args.prev_log_index ≢ term_at l args.prev_log_index))

  -- What the answer to a request built from `l` must be, for a peer of term `t`, commit index `c` and log
  -- `log`: no panic, and its log still follows `l`, with the same entries up to the old commit index.
  abbrev pub Answered :
      AppendEntriesArgs C
      → List (LogEntry C)
      → ℕ
      → ℕ
      → List (LogEntry C)
      → Outcome (Raft C × AppendEntriesReply)
      → Type 0
  Answered args l t c log panic = ⊥
  Answered args l t c log (ok (rf', reply)) =
      Follows rf'.log rf'.commit_index l
      × (c ≤ rf'.commit_index)
      × (take (c + 1) rf'.log ≡ take (c + 1) log)
      × (Accepted args l t c log rf' reply ⊎ Declined args l t c log rf' reply)

  -- The commit index of a success, which the entries that the log has bound.
  advance_commit_lem :
      (c n : ℕ) (rf : Raft C)
      → c < n
      → n ≤ length rf.log
      → ((advance_commit c rf).log ≡ rf.log)
        × ((advance_commit c rf).commit_index ≡ raised rf.commit_index c)
  unfolding advance_commit
  advance_commit_lem c n rf h in_log = ground (arith, h, in_log)

  raised-Follows :
      (c n : ℕ) (rf : Raft C) (l : List (LogEntry C))
      → Follows rf.log rf.commit_index l
      → c < n
      → (take n rf.log ≡ take n l) × (n ≤ length rf.log)
      → Follows rf.log (raised rf.commit_index c) l
  raised-Follows c n rf l f h (p, in_log) = elim (Bool-cases (ltb rf.commit_index c)) [
    | inl more ↦ rw more (raise-Follows rf.log l rf.commit_index c n f h in_log p)
    | inr less ↦ rw less f
  ]

  -- What is committed in two logs that follow `l` is the same.
  committed_same :
      (log log' l : List (LogEntry C)) (c c' : ℕ)
      → Follows log c l
      → Follows log' c' l
      → c ≤ c'
      → take (c + 1) log' ≡ take (c + 1) log
  committed_same log log' l c c' f f' h =
      take_of_take (c + 1) (c' + 1) log' l (omega (arith, h)) f'.agrees ∙ sym f.agrees

  accept-Answered :
      (args : AppendEntriesArgs C) (t : ℕ) (rf : Raft C) (reply : AppendEntriesReply)
      (l : List (LogEntry C))
      → FromLog args l
      → Follows rf.log rf.commit_index l
      → t ≤ args.term
      → args.prev_log_index < length rf.log
      → take (args.prev_log_index + 1) rf.log ≡ take (args.prev_log_index + 1) l
      → Answered args l t rf.commit_index rf.log (ok (accept args rf reply))
  unfolding accept
  accept-Answered args t rf reply l from f fresh in_log p =
      let n = last_covered args + 1 in
      let log' = append_entries_log rf.log args.prev_log_index args.entries in
      let up : Updated rf.log l n log' =
        updated args.prev_log_index args.entries rf.log l from.covered from.segment f.matching
          in_log p in
      let pre : (take n log' ≡ take n l) × (n ≤ length log') =
        Updated-prefix rf.log l n (omega (arith, from.covered)) up in
      let rf' : Raft C = persist (record rf { log = log' }) in
      let below : args.leader_commit < n = omega (arith, from.commit_covered) in
      let (kept_log, commit) = advance_commit_lem args.leader_commit n rf' below pre.1 in
      let f' : Follows log' (raised rf.commit_index args.leader_commit) l =
        raised-Follows args.leader_commit n rf' l
          (Updated-Follows rf.log l rf.commit_index n (omega (arith, from.covered)) up f) below
          pre in
      (
        rw (kept_log, commit) f',
        rw commit (raised_ge rf.commit_index args.leader_commit),
        rw kept_log (
            committed_same rf.log log' l rf.commit_index _ f f'
              (raised_ge rf.commit_index args.leader_commit)),
        inl (record {
          success = refl;
          fresh = fresh;
          prefix = rw kept_log pre.0;
          update = rw kept_log up;
          commit = commit;
        }),
      )

  check_log-Answered :
      (args : AppendEntriesArgs C) (t : ℕ) (rf : Raft C) (reply : AppendEntriesReply)
      (l : List (LogEntry C))
      → FromLog args l
      → Follows rf.log rf.commit_index l
      → t ≤ args.term
      → reply.success ≡ false
      → Answered args l t rf.commit_index rf.log (check_log args rf reply)
  unfolding check_log
  check_log-Answered args t rf reply l from f fresh no_success =
      elim (Bool-cases (ltb (length rf.log) (args.prev_log_index + 1))) [
        | inl short ↦ rw short (
          f,
          omega arith,
          refl,
          inr (record {
            no_success = no_success;
            cause = inr (inl (omega (tests, short)));
            commit = refl;
            drops = inl refl;
          }),
        )
        | inr long ↦
            let (e, found, got) = index_in_range rf.log args.prev_log_index (omega (tests, long)) in
            let there : term_at rf.log args.prev_log_index ≡ e.term = rw (got, term_at) in
            rw (long, found)
              (elim (Bool-cases (e.term == args.prev_log_term)) [
                | inl same ↦ rw same (
                    accept-Answered args t rf (record reply { xlen = minus_one }) l from f fresh
                      (omega (tests, long))
                      (f.matching args.prev_log_index (omega (tests, long))
                        (omega (arith, from.covered))
                        (there ∙ (==_iff _ _).0 same ∙ sym from.prev_term)))
                | inr differ ↦
                    let other : term_at rf.log args.prev_log_index ≢ args.prev_log_term =
                      λ q. cc (differ, (==_iff e.term args.prev_log_term).1 (sym there ∙ q)) in
                    let ne : term_at rf.log args.prev_log_index ≢ term_at l args.prev_log_index =
                      λ q. other (q ∙ from.prev_term) in
                    let f' = cut-Follows rf.log l rf.commit_index args.prev_log_index f ne in
                    rw differ (
                      f',
                      omega arith,
                      committed_same rf.log _ l rf.commit_index rf.commit_index f f' (omega arith),
                      inr (record {
                        no_success = no_success;
                        cause = inr (inr other);
                        commit = refl;
                        drops = inr (refl, ne);
                      }),
                    )
              ])
      ]

  -- A request built from a log `l` that the peer's log follows is answered without a panic; the log
  -- and the commit index still follow `l`, and every entry that was committed is kept. The answer is a
  -- success only for a term that is not old, and then the log agrees with `l` up to the last entry that
  -- the request covers, has lost others only for a conflict, and the commit index is the larger of the
  -- peer's and the leader's; or it is a refusal, for an old term or where the log lacks the request's
  -- previous entry, and then the commit index stays and only entries from a conflict on are dropped.
  pub append_entries-Answered :
      (now : ℕ) (args : AppendEntriesArgs C) (rf : Raft C) (l : List (LogEntry C))
      → FromLog args l
      → Follows rf.log rf.commit_index l
      → Answered args l rf.current_term rf.commit_index rf.log (append_entries now args rf)
  unfolding append_entries
  append_entries-Answered now args rf l from f = elim (Bool-cases (ltb args.term rf.current_term)) [
    | inl stale ↦ rw stale (
      f,
      omega arith,
      refl,
      inr (record {
        no_success = refl;
        cause = inl (omega (tests, stale));
        commit = refl;
        drops = inl refl;
      }),
    )
    | inr fresh ↦
        let not_old : rf.current_term ≤ args.term = omega (tests, fresh) in
        rw fresh (
          check_log-Answered args rf.current_term
            (persist
              (record rf { last_heartbeat = now; current_term = args.term; state = follower }))
            (record new_reply { term = args.term }) l from f not_old refl)
  ]
