-- ===== src/Porcupine/Sound.antt =====
-- porcupine/checker.go: what checkSingle's answer says of the calls that it has made.
use m2i8t.Prelude.{
  ℕ, zero, suc, ◌≡◌, ◌≢◌, inl, inr, Bool, true, false, none, some, List, arith, Bool-cases,
  Option-cases, length, replicate, length-replicate, ok, Outcome-cases, eq_nat, eq_string,
}
use m2i8t.Porcupine.Model.{Model}
use m2i8t.Porcupine.Entries.{Entry}
use m2i8t.Porcupine.Checker.{
  Search, Round, again, answer, ids, try_call, backtrack, complete, check_round, check_loop,
  check_single, start,
}
use m2i8t.Porcupine.Rounds.{step_cases}
use m2i8t.Porcupine.Runs.{
  no_calls, IsLegal, search_of, Keeps, Keeps-IsLegal, try_call-IsLegal, backtrack-IsLegal,
  complete-IsLegal,
}

module _ {S V : Type 0} (model : Model S V) where
  -- What a round on the entry `n` comes to, when an entry is left and the flag is not set.
  check_entry-IsLegal :
      (equal : S → S → Bool) (compute_partial : Bool) (head first n m : ℕ) (s : Search S V)
      {r : Round S V}
      → IsLegal model s
      → s.heap.next head ≡ some first
      → s.entry ≡ some n
      → s.heap.match_of n ≡ some m
      → check_round model equal compute_partial head false s ≡ ok r
      → IsLegal model (search_of model r)
  unfolding check_round
  check_entry-IsLegal equal compute_partial head first n m s {r} l a b c e =
      elim (Option-cases (s.heap.value n)) [
        | inl p ↦ absurd (ground (arith, p, a, b, c))
        | inr (input, p) ↦ elim (Option-cases (s.heap.value m)) [
          | inl q ↦ absurd (ground (arith, p, a, b, c, q))
          | inr (output, q) ↦ elim (step_cases (model.step s.state input output)) [
            | inl (s', d) ↦
                let t : try_call equal head n s' s ≡ ok r = ground (arith, p, a, b, c, q, d) in
                try_call-IsLegal model equal head n m input output s' s l c p q d t
            | inr (s', d) ↦
                let k : Keeps model s (search_of model r) = ground (arith, p, a, b, c, q, d) in
                Keeps-IsLegal model k l
          ]
        ]
      ]

  check_round-IsLegal :
      (equal : S → S → Bool) (compute_partial : Bool) (head : ℕ) (kill : Bool) (s : Search S V)
      {r : Round S V}
      → IsLegal model s
      → check_round model equal compute_partial head kill s ≡ ok r
      → IsLegal model (search_of model r)
  unfolding check_round
  check_round-IsLegal equal compute_partial head kill s {r} l e =
      elim (Option-cases (s.heap.next head)) [
        | inl last ↦
            let t : complete s ≡ ok r = ground (arith, last) in complete-IsLegal model s l t
        | inr (first, a) ↦ elim (Bool-cases kill) [
          | inl killed ↦
              let k : Keeps model s (search_of model r) = ground (arith, a, killed) in
              Keeps-IsLegal model k l
          | inr alive ↦ elim (Option-cases s.entry) [
            | inl b ↦ absurd (ground (arith, a, alive, b))
            | inr (n, b) ↦ elim (Option-cases (s.heap.match_of n)) [
              | inl c ↦
                  let t : backtrack compute_partial s ≡ ok r = ground (arith, a, alive, b, c) in
                  backtrack-IsLegal model compute_partial s l t
              | inr (m, c) ↦
                  let t : check_round model equal compute_partial head false s ≡ ok r =
                    rw (← alive) e in
                  check_entry-IsLegal equal compute_partial head first n m s l a b c t
            ]
          ]
        ]
      ]

  -- A search that answers true: no entry is left in the list, its calls are a run of the model, and
  -- each operation's longest linearization is the list of those calls' ids.
  pub record Found (head : ℕ) (s : Search S V) : Type 0 where
    pub none_left : s.heap.next head ≡ none
    pub run : IsLegal model s
    pub seq : List ℕ
    pub listed : ids s.heap s.calls ≡ ok seq
    pub everywhere : s.longest ≡ replicate (length s.longest) (some seq)

  goes_on :
      (equal : S → S → Bool) (compute_partial : Bool) (head first : ℕ) (kill : Bool)
      (s : Search S V) {s' : Search S V}
      → s.heap.next head ≡ some first
      → check_round model equal compute_partial head kill s ≢ ok (answer true s')
  unfolding check_round backtrack try_call
  goes_on equal compute_partial head first kill s a e = ground arith

  check_round-Found :
      (equal : S → S → Bool) (compute_partial : Bool) (head : ℕ) (kill : Bool) (s : Search S V)
      {s' : Search S V}
      → IsLegal model s
      → check_round model equal compute_partial head kill s ≡ ok (answer true s')
      → Found head s'
  unfolding check_round complete
  check_round-Found equal compute_partial head kill s {s'} l e =
      elim (Option-cases (s.heap.next head)) [
        | inr (first, a) ↦ absurd (goes_on equal compute_partial head first kill s a e)
        | inl a ↦ elim (Outcome-cases (ids s.heap s.calls)) [
          | inl p ↦ absurd (ground (arith, a, p))
          | inr (seq, p) ↦
              let q : s' ≡ record s { longest = replicate (length s.longest) (some seq) } =
                ground (arith, a, p) in
              rw q (record {
                none_left = a;
                run = l;
                seq = seq;
                listed = p;
                everywhere = rw (length-replicate (length s.longest) (some seq));
              })
        ]
      ]

  check_loop-Found :
      (equal : S → S → Bool) (compute_partial : Bool) (head : ℕ) (kill : ℕ → Bool) (fuel : ℕ)
      (s : Search S V) {s' : Search S V}
      → IsLegal model s
      → check_loop model equal compute_partial head kill fuel s ≡ some (ok (true, s'))
      → Found head s'
  unfolding check_loop
  check_loop-Found equal compute_partial head kill zero s l e = absurd (ground arith)
  check_loop-Found equal compute_partial head kill (suc fuel) s l e =
      elim (Outcome-cases (check_round model equal compute_partial head (kill fuel) s)) [
        | inl p ↦ absurd (ground (arith, p))
        | inr (again s₁, p) ↦
            check_loop-Found equal compute_partial head kill fuel s₁
              (check_round-IsLegal equal compute_partial head (kill fuel) s l p) (ground (arith, p))
        | inr (answer true s₁, p) ↦
            check_round-Found equal compute_partial head (kill fuel) s l (ground (arith, p))
        | inr (answer false s₁, p) ↦ absurd (ground (arith, p))
      ]

  -- Where checkSingle answers true, whatever the fuel and the flag: no entry is left, the calls it
  -- made are a run of the model from its initial state, and each operation's longest linearization
  -- is the list of those calls' ids.
  pub check_single-Found :
      (equal : S → S → Bool) (compute_partial : Bool) (kill : ℕ → Bool) (fuel : ℕ)
      (history : List (Entry V)) {s' : Search S V}
      → check_single model equal compute_partial kill fuel history ≡ some (ok (true, s'))
      → Found (start model history).0 s'
  unfolding check_single
  check_single-Found equal compute_partial kill fuel history e =
      check_loop-Found equal compute_partial (start model history).0 kill fuel
        (start model history).1 (unfold start in no_calls) e
