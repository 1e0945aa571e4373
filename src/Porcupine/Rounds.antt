-- ===== src/Porcupine/Rounds.antt =====
-- porcupine/checker.go: what a round of the search does to its calls, its list and its entry.
use m2i8t.Prelude.{
  ℕ, ◌≡◌, refl, subst, ◌≢◌, ◌⊎◌, inl, inr, Bool, true, false, none, some, List, [], ◌∷◌, arith,
  Bool-cases, Option-cases, ok, panic, Outcome-cases, eq_nat, eq_string,
}
use m2i8t.Porcupine.Model.{Model}
use m2i8t.Porcupine.Links.{Heap, lift, unlift}
use m2i8t.Porcupine.Checker.{
  CallsEntry, Search, Round, again, answer, try_call, backtrack, complete, check_round,
}

pub calls_cases :
    {S : Type 0} (cs : List (CallsEntry S))
    → (cs ≡ []) ⊎ ((c : CallsEntry S) × (rest : List (CallsEntry S)) × (cs ≡ c ∷ rest))
calls_cases [] = inl refl
calls_cases (c ∷ cs) = inr (c, cs, refl)

pub step_cases :
    {S : Type 0} (r : Bool × S) → ((s' : S) × (r ≡ (true, s'))) ⊎ ((s' : S) × (r ≡ (false, s')))
step_cases (true, s') = inl (s', refl)
step_cases (false, s') = inr (s', refl)

module _ {S V : Type 0} (head : ℕ) where
  pub record Lifts (n : ℕ) (h : Heap V) (s s' : Search S V) : Type 0 where
    pub calls : s'.calls ≡ (record { entry = n; state = s.state }) ∷ s.calls
    pub heap : s'.heap ≡ h
    pub entry : s'.entry ≡ h.next head

  pub record Drops (top : CallsEntry S) (rest : List (CallsEntry S)) (h : Heap V)
      (s s' : Search S V) : Type 0 where
    pub calls : s'.calls ≡ rest
    pub heap : s'.heap ≡ h
    pub entry : s'.entry ≡ h.next top.entry

  -- A round that goes on steps over a call, makes the call, or takes the last one back.
  pub data Move (s s' : Search S V) : Type 0 where
    passes :
        (n m : ℕ)
        → s.entry ≡ some n
        → s.heap.match_of n ≡ some m
        → s' ≡ record s { entry = s.heap.next n }
        → Move s s'
    lifts :
        (n m : ℕ) (h : Heap V)
        → s.entry ≡ some n
        → s.heap.match_of n ≡ some m
        → lift n s.heap ≡ ok h
        → Lifts n h s s'
        → Move s s'
    drops :
        (top : CallsEntry S) (rest : List (CallsEntry S)) (h : Heap V)
        → s.calls ≡ top ∷ rest
        → unlift top.entry s.heap ≡ ok h
        → Drops top rest h s s'
        → Move s s'

  -- A round that answers leaves the three.
  pub record Stays (s s' : Search S V) : Type 0 where
    pub calls : s'.calls ≡ s.calls
    pub heap : s'.heap ≡ s.heap
    pub entry : s'.entry ≡ s.entry

  abbrev pub Led : Search S V → Round S V → Type 0
  Led s (again s') = Move s s'
  Led s (answer b s') = Stays s s'

  try_call_either :
      (equal : S → S → Bool) (n : ℕ) (new_state : S) (s s' : Search S V) (h : Heap V)
      → lift n s.heap ≡ ok h
      → try_call equal head n new_state s ≡ ok (again s')
      → (s' ≡ record s { entry = s.heap.next n }) ⊎ Lifts n h s s'
  unfolding try_call
  try_call_either equal n new_state s s' h p e = ground (arith, p)

  try_call_over :
      (equal : S → S → Bool) (n : ℕ) (new_state : S) (s s' : Search S V)
      → lift n s.heap ≡ panic
      → try_call equal head n new_state s ≡ ok (again s')
      → s' ≡ record s { entry = s.heap.next n }
  unfolding try_call
  try_call_over equal n new_state s s' p e = ground (arith, p)

  try_call_goes_on :
      (equal : S → S → Bool) (n : ℕ) (new_state : S) (s s' : Search S V) (b : Bool)
      → try_call equal head n new_state s ≢ ok (answer b s')
  unfolding try_call
  try_call_goes_on equal n new_state s s' b e = ground arith

  try_call-Led :
      (equal : S → S → Bool) (n m : ℕ) (new_state : S) (s : Search S V) (r : Round S V)
      → s.entry ≡ some n
      → s.heap.match_of n ≡ some m
      → try_call equal head n new_state s ≡ ok r
      → Led s r
  try_call-Led equal n m new_state s (again s') a b e = elim (Outcome-cases (lift n s.heap)) [
    | inl p ↦ passes n m a b (try_call_over equal n new_state s s' p e)
    | inr (h, p) ↦ elim (try_call_either equal n new_state s s' h p e) [
      | inl q ↦ passes n m a b q
      | inr q ↦ lifts n m h a b p q
    ]
  ]
  try_call-Led equal n m new_state s (answer b s') a c e =
      absurd (try_call_goes_on equal n new_state s s' b e)

  backtrack-Led :
      (compute_partial : Bool) (s : Search S V) (r : Round S V)
      → backtrack compute_partial s ≡ ok r
      → Led s r
  unfolding backtrack
  backtrack-Led compute_partial s (again s') e = elim (calls_cases s.calls) [
    | inl q ↦ absurd (ground (arith, q, e))
    | inr (top, rest, q) ↦ elim (Outcome-cases (unlift top.entry s.heap)) [
      | inl u ↦ absurd (ground (arith, q, u, e))
      | inr (h, u) ↦ drops top rest h q u (ground (arith, q, u, e))
    ]
  ]
  backtrack-Led compute_partial s (answer b s') e = elim (calls_cases s.calls) [
    | inl q ↦ ground (arith, q, e)
    | inr (top, rest, q) ↦ absurd (ground (arith, q, e))
  ]

  refused-Led :
      (n m : ℕ) (s : Search S V) (r : Round S V)
      → s.entry ≡ some n
      → s.heap.match_of n ≡ some m
      → again (record s { entry = s.heap.next n }) ≡ r
      → Led s r
  refused-Led n m s r a b e = subst (λ z. Led s z) e (passes n m a b refl)

  call-Led :
      (model : Model S V) (equal : S → S → Bool) (compute_partial : Bool) (first n m : ℕ)
      (s : Search S V) (r : Round S V)
      → s.heap.next head ≡ some first
      → s.entry ≡ some n
      → s.heap.match_of n ≡ some m
      → check_round model equal compute_partial head false s ≡ ok r
      → Led s r
  unfolding check_round
  call-Led model equal compute_partial first n m s r a b c e =
      elim (Option-cases (s.heap.value n)) [
        | inl v ↦ absurd (ground (arith, v, a, b, c))
        | inr (input, v) ↦ elim (Option-cases (s.heap.value m)) [
          | inl u ↦ absurd (ground (arith, v, a, b, c, u))
          | inr (output, u) ↦ elim (step_cases (model.step s.state input output)) [
            | inl (s', yes_it) ↦
                let t : try_call equal head n s' s ≡ ok r = ground (arith, v, a, b, c, u, yes_it) in
                try_call-Led equal n m s' s r b c t
            | inr (s', no_it) ↦ refused-Led n m s r b c (ground (arith, v, a, b, c, u, no_it))
          ]
        ]
      ]

  last-Led :
      (model : Model S V) (equal : S → S → Bool) (compute_partial kill : Bool) (s : Search S V)
      (r : Round S V)
      → s.heap.next head ≡ none
      → check_round model equal compute_partial head kill s ≡ ok r
      → Led s r
  unfolding check_round complete
  last-Led model equal compute_partial kill s (again s') last e = absurd (ground (arith, last, e))
  last-Led model equal compute_partial kill s (answer b s') last e = ground (arith, last, e)

  killed-Led :
      (model : Model S V) (equal : S → S → Bool) (compute_partial : Bool) (first : ℕ)
      (s : Search S V) (r : Round S V)
      → s.heap.next head ≡ some first
      → check_round model equal compute_partial head true s ≡ ok r
      → Led s r
  unfolding check_round
  killed-Led model equal compute_partial first s (again s') a e = absurd (ground (arith, a, e))
  killed-Led model equal compute_partial first s (answer b s') a e = ground (arith, a, e)

  pub check_round-Led :
      (model : Model S V) (equal : S → S → Bool) (compute_partial kill : Bool) (s : Search S V)
      (r : Round S V)
      → check_round model equal compute_partial head kill s ≡ ok r
      → Led s r
  unfolding check_round
  check_round-Led model equal compute_partial kill s r e = elim (Option-cases (s.heap.next head)) [
    | inl last ↦ last-Led model equal compute_partial kill s r last e
    | inr (first, a) ↦ elim (Bool-cases kill) [
      | inl killed ↦ killed-Led model equal compute_partial first s r a (rw (← killed) e)
      | inr alive ↦ elim (Option-cases s.entry) [
        | inl b ↦ absurd (ground (arith, a, alive, b))
        | inr (n, b) ↦ elim (Option-cases (s.heap.match_of n)) [
          | inl c ↦
              let t : backtrack compute_partial s ≡ ok r = ground (arith, a, alive, b, c) in
              backtrack-Led compute_partial s r t
          | inr (m, c) ↦
              let t : check_round model equal compute_partial head false s ≡ ok r =
                rw (← alive) e in
              call-Led model equal compute_partial first n m s r a b c t
        ]
      ]
    ]
  ]
