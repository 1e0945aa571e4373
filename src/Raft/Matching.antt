-- ===== src/Raft/Matching.antt =====
-- raft/raft.go: what a request says of the log that it was built from, and two logs that match.
use m2i8t.Prelude.{
  nat_cases, ℕ, zero, suc, ◌+◌, ◌≤◌, ◌<◌, ◌≡◌, sym, ap, ◌∙◌, ◌≢◌, inl, inr, true, false, Option,
  none, some, List, [], ◌∷◌, ◌++◌, arith, ltb, ◌==◌, tests, Bool-cases, length, take, drop,
  get_elem?-take, take-take, take-append-take-drop, get_elem?-drop, eq_nat, eq_string,
}
use m2i8t.Raft.Types.{LogEntry, AppendEntriesArgs, term_at}
use m2i8t.Raft.AppendEntries.{rpc_stale, append_entries_log}
use m2i8t.Raft.Heartbeat.{entry_count}

module _ {C : Type 0} where
  abbrev pub entries_of : Option (List (LogEntry C)) → List (LogEntry C)
  entries_of none = []
  entries_of (some es) = es

  -- Equal terms at an index mean equal logs up to it.
  abbrev pub Matching : List (LogEntry C) → List (LogEntry C) → Type 0
  Matching log l =
      (i : ℕ)
      → i < length log
      → i < length l
      → term_at log i ≡ term_at l i
      → take (i + 1) log ≡ take (i + 1) l

  -- The last index that the request covers.
  abbrev pub last_covered : AppendEntriesArgs C → ℕ
  last_covered args = args.prev_log_index + entry_count args.entries

  -- The request was built from the log `l`.
  pub record FromLog (args : AppendEntriesArgs C) (l : List (LogEntry C)) : Type 0 where
    pub covered : last_covered args < length l
    pub prev_term : term_at l args.prev_log_index ≡ args.prev_log_term
    pub segment :
        entries_of args.entries ≡ take (entry_count args.entries) (drop (args.prev_log_index + 1) l)
    pub commit_covered : args.leader_commit ≤ last_covered args

  pub term_at-take : (n i : ℕ) (l : List (LogEntry C)) → i < n → term_at (take n l) i ≡ term_at l i
  term_at-take n i l h = rw (get_elem?-take n i l h, term_at)

  -- Logs that agree on their first `n` entries agree on the terms there.
  pub term_at_of_take :
      (n i : ℕ) (log l : List (LogEntry C))
      → i < n
      → take n log ≡ take n l
      → term_at log i ≡ term_at l i
  term_at_of_take n i log l h e = sym (term_at-take n i log h) ∙ (rw e (term_at-take n i l h))

  pub take_of_take :
      (m n : ℕ) (log l : List (LogEntry C)) → m ≤ n → take n log ≡ take n l → take m log ≡ take m l
  take_of_take m n log l h e = sym (take-take m n log h) ∙ (rw e (take-take m n l h))

  -- No entry of the request conflicts: the log has the request's terms.
  pub rpc_stale-false :
      (log : List (LogEntry C)) (i j : ℕ) (es : List (LogEntry C))
      → rpc_stale log i es ≡ false
      → j < length es
      → term_at log (i + j) ≡ term_at es j
  unfolding rpc_stale
  rpc_stale-false log i j [] h lt = absurd (omega arith)
  rpc_stale-false log i zero (v ∷ vs) h lt = let e : i + 0 ≡ i = omega arith in rw e (ground arith)
  rpc_stale-false log i (suc j) (v ∷ vs) h lt =
      let e : i + suc j ≡ i + 1 + j = omega arith in
      rw e (rpc_stale-false log (i + 1) j vs (ground arith) (omega arith))

  -- An entry conflicts: there is one whose term differs from the log's.
  pub rpc_stale-true :
      (log : List (LogEntry C)) (i : ℕ) (es : List (LogEntry C))
      → rpc_stale log i es ≡ true
      → (j : ℕ) × (j < length es) × (term_at log (i + j) ≢ term_at es j)
  unfolding rpc_stale
  rpc_stale-true log i [] h = cc
  rpc_stale-true log i (v ∷ vs) h = elim (Bool-cases (term_at log i == v.term)) [
    | inl same ↦
        let (j, lt, ne) = rpc_stale-true log (i + 1) vs (ground arith) in
        let e : i + suc j ≡ i + 1 + j = omega arith in (suc j, omega arith, rw e ne)
    | inr differ ↦ (0, omega arith, let e : i + 0 ≡ i = omega arith in rw e (ground arith))
  ]

  -- How the log may come out of a request that covers the first `n` entries of `l`: unchanged, with
  -- these entries in it, or cut down to them, where it had no more of them or one that conflicts.
  pub data Updated (log l : List (LogEntry C)) (n : ℕ) (log' : List (LogEntry C)) : Type 0 where
    kept : log' ≡ log → n ≤ length log → take n log ≡ take n l → Updated log l n log'
    longer : log' ≡ take n l → length log ≤ n → Updated log l n log'
    conflict :
        (i : ℕ) → log' ≡ take n l → i < n → term_at log i ≢ term_at l i → Updated log l n log'

module _ {C : Type 0} (log l es : List (LogEntry C)) (prev n : ℕ) (count : prev + 1 + length es ≡ n)
    (segment : es ≡ take (length es) (drop (prev + 1) l))
    (prefix : take (prev + 1) log ≡ take (prev + 1) l) where
  replaced : take (prev + 1) log ++ es ≡ take n l
  replaced = rw prefix (
      ap (λ xs. take (prev + 1) l ++ xs) segment
      ∙ take-append-take-drop (prev + 1) (length es) n l count)

  segment_term : (j : ℕ) → j < length es → term_at es j ≡ term_at l (prev + 1 + j)
  segment_term j h =
      ap (λ xs. term_at xs j) segment
      ∙ term_at-take (length es) j (drop (prev + 1) l) h
      ∙ rw (get_elem?-drop (prev + 1) j l, term_at)

  kept_prefix :
      Matching log l
      → n ≤ length log
      → n ≤ length l
      → rpc_stale log (prev + 1) es ≡ false
      → take n log ≡ take n l
  kept_prefix matching in_log in_l h = elim (nat_cases (length es)) [
    | inl e ↦ let e' : n ≡ prev + 1 = omega arith in rw e' prefix
    | inr (j, e) ↦
        let last : term_at log (prev + 1 + j) ≡ term_at l (prev + 1 + j) =
          rpc_stale-false log (prev + 1) j es h (omega arith) ∙ segment_term j (omega arith) in
        let e' : n ≡ prev + 1 + j + 1 = omega arith in
        rw e' (matching (prev + 1 + j) (omega arith) (omega arith) last)
  ]

  pub append_entries_log-Updated :
      Matching log l → n ≤ length l → Updated log l n (append_entries_log log prev (some es))
  unfolding append_entries_log
  append_entries_log-Updated matching in_l =
      elim (Bool-cases (ltb (prev + 1 + length es) (length log))) [
        | inr short ↦ Updated.longer (rw short replaced) (omega (tests, short))
        | inl more ↦ elim (Bool-cases (rpc_stale log (prev + 1) es)) [
          | inr fits ↦
              kept (rw (more, fits)) (omega (tests, more))
                (kept_prefix matching (omega (tests, more)) in_l fits)
          | inl stale ↦
              let (j, lt, ne) = rpc_stale-true log (prev + 1) es stale in
              conflict (prev + 1 + j) (rw (more, stale) replaced) (omega arith)
                (λ e. ne (e ∙ sym (segment_term j lt)))
        ]
      ]
