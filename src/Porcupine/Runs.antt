-- ===== src/Porcupine/Runs.antt =====
-- porcupine/checker.go: the calls of a search are a run of the model, through each branch of a round.
use m2i8t.Prelude.{
  ℕ, ◌≡◌, ◌⊎◌, inl, inr, Bool, true, some, List, [], ◌∷◌, arith, ok, Outcome-cases, eq_nat,
  eq_string,
}
use m2i8t.Porcupine.Model.{Model}
use m2i8t.Porcupine.Links.{Heap, lift, unlift}
use m2i8t.Porcupine.Relink.{SameFields, lift-SameFields, unlift-SameFields}
use m2i8t.Porcupine.Rounds.{calls_cases}
use m2i8t.Porcupine.Checker.{
  CallsEntry, Search, Round, again, answer, try_call, backtrack, complete,
}

module _ {S V : Type 0} (model : Model S V) where
  -- The calls, the last one first, are a run of the model from its initial state to the given one:
  -- each accepts its entry's value with the value of the entry's match.
  pub data Legal (h : Heap V) : List (CallsEntry S) → S → Type 0 where
    no_calls : Legal h [] model.init
    call :
        {c : CallsEntry S} {cs : List (CallsEntry S)} {s' : S} (m : ℕ) (input output : V)
        → Legal h cs c.state
        → h.match_of c.entry ≡ some m
        → h.value c.entry ≡ some input
        → h.value m ≡ some output
        → model.step c.state input output ≡ (true, s')
        → Legal h (c ∷ cs) s'

  pub Legal-SameFields :
      {h h' : Heap V} {cs : List (CallsEntry S)} {s : S}
      → SameFields h h'
      → Legal h cs s
      → Legal h' cs s
  Legal-SameFields f no_calls = no_calls
  Legal-SameFields {h} {h'} f (call {c = c} m i o l a b d e) =
      call m i o (Legal-SameFields f l) (cc (a, f.match_of)) (cc (b, f.value)) (cc (d, f.value)) e

  -- Of a search's answer or of the search that goes on.
  abbrev pub search_of : Round S V → Search S V
  search_of (again s) = s
  search_of (answer b s) = s

  abbrev pub IsLegal : Search S V → Type 0
  IsLegal s = Legal s.heap s.calls s.state

  -- The round leaves the calls, their state and the nodes' values as they are.
  pub record Keeps (s s' : Search S V) : Type 0 where
    pub calls : s'.calls ≡ s.calls
    pub state : s'.state ≡ s.state
    pub heap : s'.heap ≡ s.heap

  pub Keeps-IsLegal : {s s' : Search S V} → Keeps s s' → IsLegal s → IsLegal s'
  Keeps-IsLegal k l = rw (k.heap, k.calls, k.state) l

  record Calls (n : ℕ) (new_state : S) (s s' : Search S V) : Type 0 where
    calls : s'.calls ≡ (record { entry = n; state = s.state }) ∷ s.calls
    state : s'.state ≡ new_state
    heap : SameFields s.heap s'.heap

  try_call_cases :
      (equal : S → S → Bool) (head n : ℕ) (s' : S) (s : Search S V) {r : Round S V}
      → try_call equal head n s' s ≡ ok r
      → Keeps s (search_of r) ⊎ Calls n s' s (search_of r)
  unfolding try_call
  try_call_cases equal head n s' s e = elim (Outcome-cases (lift n s.heap)) [
    | inl p ↦ ground (arith, p)
    | inr (h, p) ↦ let f = lift-SameFields n s.heap p in ground (arith, p, f)
  ]

  pub try_call-IsLegal :
      (equal : S → S → Bool) (head n m : ℕ) (input output : V) (s' : S) (s : Search S V)
      {r : Round S V}
      → IsLegal s
      → s.heap.match_of n ≡ some m
      → s.heap.value n ≡ some input
      → s.heap.value m ≡ some output
      → model.step s.state input output ≡ (true, s')
      → try_call equal head n s' s ≡ ok r
      → IsLegal (search_of r)
  try_call-IsLegal equal head n m input output s' s l a b c d e =
      elim (try_call_cases equal head n s' s e) [
        | inl k ↦ Keeps-IsLegal k l
        | inr k ↦ rw (k.calls, k.state) (Legal-SameFields k.heap (call m input output l a b c d))
      ]

  record Undoes (top : CallsEntry S) (rest : List (CallsEntry S)) (s s' : Search S V) : Type 0 where
    calls : s'.calls ≡ rest
    state : s'.state ≡ top.state
    heap : SameFields s.heap s'.heap

  backtrack_cases :
      (compute_partial : Bool) (s : Search S V) {r : Round S V}
      → backtrack compute_partial s ≡ ok r
      → Keeps s (search_of r)
        ⊎ ((top : CallsEntry S) × (rest : List (CallsEntry S)) × (s.calls ≡ top ∷ rest)
            × Undoes top rest s (search_of r))
  unfolding backtrack
  backtrack_cases compute_partial s e = elim (calls_cases s.calls) [
    | inl q ↦ inl (ground (arith, q))
    | inr (top, rest, q) ↦ elim (Outcome-cases (unlift top.entry s.heap)) [
      | inl p ↦ absurd (ground (arith, p, q))
      | inr (h, p) ↦
          let f = unlift-SameFields top.entry s.heap p in
          inr (top, rest, q, ground (arith, p, q, f))
    ]
  ]

  Legal-rest :
      {h : Heap V} {c : CallsEntry S} {cs : List (CallsEntry S)} {s : S}
      → Legal h (c ∷ cs) s
      → Legal h cs c.state
  Legal-rest (call m i o l a b d e) = l

  pub backtrack-IsLegal :
      (compute_partial : Bool) (s : Search S V) {r : Round S V}
      → IsLegal s
      → backtrack compute_partial s ≡ ok r
      → IsLegal (search_of r)
  backtrack-IsLegal compute_partial s {r} l e = elim (backtrack_cases compute_partial s e) [
    | inl k ↦ Keeps-IsLegal k l
    | inr (top, rest, q, u) ↦
        let l' : Legal s.heap (top ∷ rest) s.state = rw (← q) l in
        rw (u.calls, u.state) (Legal-SameFields u.heap (Legal-rest l'))
  ]

  pub complete-IsLegal :
      (s : Search S V) {r : Round S V} → IsLegal s → complete s ≡ ok r → IsLegal (search_of r)
  unfolding complete
  complete-IsLegal s {r} l e = let k : Keeps s (search_of r) = ground arith in Keeps-IsLegal k l
