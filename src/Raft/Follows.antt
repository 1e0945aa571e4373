-- ===== src/Raft/Follows.antt =====
-- raft/raft.go, AppendEntries: a follower's log against the log of the leader that sends to it.
use m2i8t.Prelude.{
  ℕ, ◌+◌, ◌≤◌, ◌<◌, ◌≡◌, sym, ◌∙◌, ◌≢◌, inl, inr, List, arith, ltb, ltb→lt, tests, Bool-cases,
  length, take, length-take, take-take, eq_nat, eq_string,
}
use m2i8t.Raft.Types.{LogEntry, term_at}
use m2i8t.Raft.Matching.{
  Matching, term_at-take, term_at_of_take, take_of_take, Updated, kept, longer, conflict,
}

-- The log matches `l`, and its first `c + 1` entries, which are committed, are those of `l`.
pub record Follows {C : Type 0} (log : List (LogEntry C)) (c : ℕ) (l : List (LogEntry C))
    : Type 0 where
  pub matching : Matching log l
  pub committed : c < length log
  pub agrees : take (c + 1) log ≡ take (c + 1) l

module _ {C : Type 0} (log l : List (LogEntry C)) where
  Matching-take : (n : ℕ) → Matching (take n l) l
  Matching-take n i h _ _ = take-take (i + 1) n l (omega (arith, length-take n l))

  pub take-Matching : (n : ℕ) → Matching log l → Matching (take n log) l
  take-Matching n m i h h' e =
      let small : i < n = omega (arith, length-take n log) in
      take-take (i + 1) n log (omega arith)
      ∙ m i (omega (arith, length-take n log)) h' (sym (term_at-take n i log small) ∙ e)

  -- A request cannot conflict with an entry that is committed.
  conflict_above : (c i : ℕ) → Follows log c l → term_at log i ≢ term_at l i → c < i
  conflict_above c i f ne = elim (Bool-cases (ltb c i)) [
    | inl above ↦ ltb→lt c i above
    | inr below ↦ absurd (ne (term_at_of_take (c + 1) i log l (omega (tests, below)) f.agrees))
  ]

  take-Follows : (c n : ℕ) → Follows log c l → c < n → n ≤ length l → Follows (take n l) c l
  take-Follows c n f h in_l = record {
    matching = Matching-take n;
    committed = omega (arith, length-take n l);
    agrees = take-take (c + 1) n l (omega arith);
  }

  pub cut-Follows :
      (c i : ℕ) → Follows log c l → term_at log i ≢ term_at l i → Follows (take i log) c l
  cut-Follows c i f ne =
      let above : c < i = conflict_above c i f ne in
      record {
        matching = take-Matching i f.matching;
        committed = omega (arith, length-take i log, f.committed);
        agrees = take-take (c + 1) i log (omega arith) ∙ f.agrees;
      }

  -- After an accepted request the log has the entries that the request covers.
  pub Updated-prefix :
      {log' : List (LogEntry C)} (n : ℕ)
      → n ≤ length l
      → Updated log l n log'
      → (take n log' ≡ take n l) × (n ≤ length log')
  Updated-prefix n in_l (kept e h p) = (rw e p, rw e h)
  Updated-prefix n in_l (longer e h) =
      (rw e (take-take n n l (omega arith)), rw e (omega (arith, length-take n l)))
  Updated-prefix n in_l (conflict i e h ne) =
      (rw e (take-take n n l (omega arith)), rw e (omega (arith, length-take n l)))

  pub Updated-Follows :
      {log' : List (LogEntry C)} (c n : ℕ)
      → n ≤ length l
      → Updated log l n log'
      → Follows log c l
      → Follows log' c l
  Updated-Follows c n in_l (kept e h p) f = rw e f
  Updated-Follows c n in_l (longer e h) f =
      rw e (take-Follows c n f (omega (arith, f.committed)) in_l)
  Updated-Follows c n in_l (conflict i e h ne) f =
      rw e (take-Follows c n f (omega (arith, conflict_above c i f ne)) in_l)

  -- A higher commit index, among entries that the two logs share.
  pub raise-Follows :
      (c c' n : ℕ)
      → Follows log c l
      → c' < n
      → n ≤ length log
      → take n log ≡ take n l
      → Follows log c' l
  raise-Follows c c' n f h in_log p = record {
    matching = f.matching;
    committed = omega arith;
    agrees = take_of_take (c' + 1) n log l (omega arith) p;
  }
