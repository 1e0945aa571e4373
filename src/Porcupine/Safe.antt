-- ===== src/Porcupine/Safe.antt =====
-- porcupine/checker.go: no round of the search panics.
use m2i8t.Prelude.{
  ℕ, ◌/◌, ◌^◌, ◌≤◌, ◌<◌, ◌≡◌, refl, sym, ap, ◌∙◌, subst, ◌⊎◌, inl, inr, Bool, true, false, Option,
  none, some, List, [], ◌∷◌, ◌++◌, arith, Bool-cases, Option-cases, length, replicate, Outcome, ok,
  eq_nat, eq_string, update, get_or_zero, pos,
}
use m2i8t.Porcupine.Model.{Model}
use m2i8t.Porcupine.Bitset.{Bitset, set_bit, clear_bit, clone, hash}
use m2i8t.Porcupine.Links.{Heap, lift, unlift}
use m2i8t.Porcupine.Chain.{In, without, without-In, Chain, lift-cut, cut, unlift-cut}
use m2i8t.Porcupine.Placed.{
  IsPaired, Stack, bottom, push, Stack-match, Stack-SameFields, Stack-IsListed,
}
use m2i8t.Porcupine.Moves.{At, at_end, At-node, IsPlaced}
use m2i8t.Porcupine.Rounds.{calls_cases, step_cases}
use m2i8t.Porcupine.Sizes.{
  set_bit-length, clear_bit-length, as_uint-pos, note_longest-length, HasIds, ids-AllBelow,
}
use m2i8t.Porcupine.Checker.{
  CallsEntry, Search, Round, again, answer, as_uint, ids, note_longest, CacheEntry, cache_contains,
  try_call, backtrack, complete, check_round,
}

module _ {V : Type 0} (h₀ : Heap V) (xs₀ : List ℕ) (n : ℕ) where
  -- Every node of the list has a value, and an id for which there is a place.
  pub record IsFilled : Type 0 where
    pub filled : (a : ℕ) → In a xs₀ → (v : V) × (h₀.value a ≡ some v)
    pub numbered : (a : ℕ) → In a xs₀ → (i : ℕ) × (h₀.id a ≡ pos i) × (i < n)
    pub small : n ≤ 2 ^ 64

module _ {S V : Type 0} (h₀ : Heap V) (head : ℕ) (xs₀ : List ℕ) (w : IsPaired h₀ head xs₀)
    (n : ℕ) where
  pub record IsSized (s : Search S V) : Type 0 where
    pub words : (i : ℕ) → i < n → i / 64 < length s.linearized
    pub slots : length s.longest ≡ n

  Stack-In :
      {cs : List (CallsEntry S)} {h : Heap V} {xs : List ℕ} (a : ℕ)
      → Stack h₀ head xs₀ cs h xs
      → In a xs
      → In a xs₀
  Stack-In a bottom i = i
  Stack-In a (push {xs = xs} c m st k f before) i =
      Stack-In a st (without-In c.entry a xs (without-In m a (without c.entry xs) i))

  Stack-HasIds :
      {cs : List (CallsEntry S)} {h : Heap V} {xs : List ℕ} (g : Heap V)
      → IsFilled h₀ xs₀ n
      → g.id ≡ h₀.id
      → Stack h₀ head xs₀ cs h xs
      → HasIds n g cs
  Stack-HasIds g q e bottom = tt
  Stack-HasIds g q e (push c m st k f before) =
      let (i, same, l) = q.numbered c.entry (Stack-In c.entry st k) in
      ((i, ap (λ z. z c.entry) e ∙ same, l), Stack-HasIds g q e st)

  -- The place of a node's id in the bitset.
  placed_bit :
      (s : Search S V) (a : ℕ)
      → IsFilled h₀ xs₀ n
      → IsPlaced h₀ head xs₀ w s
      → IsSized s
      → In a xs₀
      → as_uint (s.heap.id a) / 64 < length s.linearized
  placed_bit s a q p z i =
      let (k, e, l) = q.numbered a i in
      let f = Stack-SameFields h₀ head xs₀ p.stack in
      let here : as_uint (s.heap.id a) ≡ k =
        ap as_uint (ap (λ g. g a) f.id ∙ e) ∙ as_uint-pos k (omega (arith, l, q.small)) in
      subst (λ u. u / 64 < length s.linearized) (sym here) (z.words k l)

  abbrev Sized : Search S V → Round S V → Type 0
  Sized s (again s') =
      (length s'.linearized ≡ length s.linearized) × (length s'.longest ≡ length s.longest)
  Sized s (answer b s') = Unit

  abbrev Goes : Search S V → Outcome (Round S V) → Type 0
  Goes s o = (r : Round S V) × (o ≡ ok r) × Sized s r

  complete-Goes :
      (s : Search S V) → IsFilled h₀ xs₀ n → IsPlaced h₀ head xs₀ w s → Goes s (complete s)
  unfolding complete
  complete-Goes s q p =
      let (seq, e, _) =
        ids-AllBelow n s.heap s.calls
          (Stack-HasIds s.heap q (Stack-SameFields h₀ head xs₀ p.stack).id p.stack) in
      (
        answer true record s { longest = replicate (length s.longest) (some seq) },
        ground (arith, e),
        tt,
      )

  -- The ids of the calls, and the longest linearizations once they are noted.
  pub record Noted (s : Search S V) : Type 0 where
    pub seq : List ℕ
    pub longest : List (Option (List ℕ))
    pub listed : ids s.heap s.calls ≡ ok seq
    pub noted : note_longest seq seq s.longest ≡ ok longest
    pub slots : length longest ≡ length s.longest

  search-Noted :
      (s : Search S V) → IsFilled h₀ xs₀ n → IsPlaced h₀ head xs₀ w s → IsSized s → Noted s
  search-Noted s q p z =
      let (seq, e, a) =
        ids-AllBelow n s.heap s.calls
          (Stack-HasIds s.heap q (Stack-SameFields h₀ head xs₀ p.stack).id p.stack) in
      let (l, f, same) = note_longest-length seq seq s.longest (rw z.slots a) in
      record { seq = seq; longest = l; listed = e; noted = f; slots = same }

  -- Taking the last call back.
  top_unlift :
      (cs : List (CallsEntry S)) (g : Heap V) (xs : List ℕ) (top : CallsEntry S)
      (rest : List (CallsEntry S))
      → Stack h₀ head xs₀ cs g xs
      → cs ≡ top ∷ rest
      → In top.entry xs₀ × ((h : Heap V) × (unlift top.entry g ≡ ok h))
  top_unlift cs g xs top rest bottom e = absurd (cc e)
  top_unlift cs g xs top rest (push {cs = cs'} {h = h'} {xs = xs'} c m st i f before) e =
      let c≡ : c ≡ top = cc e in
      let l = Stack-IsListed h₀ head xs₀ w st in
      let j = l.present c.entry m i f in
      let f' : h'.match_of c.entry ≡ some m =
        ap (λ z. z c.entry) (Stack-match h₀ head xs₀ st) ∙ f in
      let back = unlift-cut h' head c.entry m xs' l.chain i j (w.below c.entry m f) f' in
      (
        subst (λ z. In z.entry xs₀) c≡ (Stack-In c.entry st i),
        (h', ap (λ z. unlift z.entry (cut m (cut c.entry h'))) (sym c≡) ∙ back),
      )

  backtracked :
      (compute_partial : Bool) (s : Search S V) (top : CallsEntry S) (rest : List (CallsEntry S))
      (h : Heap V) (now : Bitset)
      → s.calls ≡ top ∷ rest
      → Noted s
      → clear_bit s.linearized (as_uint (s.heap.id top.entry)) ≡ ok now
      → unlift top.entry s.heap ≡ ok h
      → length now ≡ length s.linearized
      → Goes s (backtrack compute_partial s)
  unfolding backtrack
  backtracked true s top rest h now e k f u same =
      let a = k.listed in
      let b = k.noted in
      (
        again record s {
          heap = h;
          entry = h.next top.entry;
          state = top.state;
          linearized = now;
          calls = rest;
          longest = k.longest;
        },
        ground (arith, e, f, u, a, b),
        (same, k.slots),
      )
  backtracked false s top rest h now e k f u same = (
    again record s {
      heap = h;
      entry = h.next top.entry;
      state = top.state;
      linearized = now;
      calls = rest;
      longest = s.longest;
    },
    ground (arith, e, f, u),
    (same, refl),
  )

  backtrack-Goes :
      (compute_partial : Bool) (s : Search S V)
      → IsFilled h₀ xs₀ n
      → IsPlaced h₀ head xs₀ w s
      → IsSized s
      → Goes s (backtrack compute_partial s)
  unfolding backtrack
  backtrack-Goes compute_partial s q p z = elim (calls_cases s.calls) [
    | inl e ↦ (answer false s, ground (arith, e), tt)
    | inr (top, rest, e) ↦
        let (i, (h, u)) = top_unlift s.calls s.heap p.xs top rest p.stack e in
        let (now, f, same) =
          clear_bit-length s.linearized (as_uint (s.heap.id top.entry))
            (placed_bit s top.entry q p z i) in
        backtracked compute_partial s top rest h now e (search-Noted s q p z) f u same
  ]

  called :
      (equal : S → S → Bool) (a : ℕ) (new_state : S) (s : Search S V) (h : Heap V) (now : Bitset)
      → set_bit s.linearized (as_uint (s.heap.id a)) ≡ ok now
      → lift a s.heap ≡ ok h
      → length now ≡ length s.linearized
      → Goes s (try_call equal head a new_state s)
  unfolding try_call clone
  called equal a new_state s h now f u same =
      let e : CacheEntry S = record { linearized = now; state = new_state } in
      elim (Bool-cases (cache_contains equal s.cache e)) [
        | inl known ↦
            (again record s { entry = s.heap.next a }, ground (arith, f, u, known), (refl, refl))
        | inr fresh ↦ (
          again record s {
            cache = update s.cache (hash now) (get_or_zero [] s.cache (hash now) ++ e ∷ []);
            calls = record { entry = a; state = s.state } ∷ s.calls;
            state = new_state;
            linearized = now;
            heap = h;
            entry = h.next head;
          },
          ground (arith, f, u, fresh),
          (same, refl),
        )
      ]

  entry_is : (s : Search S V) → IsPlaced h₀ head xs₀ w s → s.entry ≡ none → s.heap.next head ≡ none
  entry_is s p e =
      let l = Stack-IsListed h₀ head xs₀ w p.stack in
      empty_next p.xs l.chain (At_none p.xs s.entry p.place e)
    where
      At_none : (xs : List ℕ) (o : Option ℕ) → At h₀ head xs₀ xs o → o ≡ none → xs ≡ []
      At_none xs none (at_end q) e = q
      At_none xs (some k) a e = absurd (cc e)

      empty_next : (xs : List ℕ) → Chain s.heap head xs → xs ≡ [] → s.heap.next head ≡ none
      empty_next [] c e = c
      empty_next (x ∷ xs) c e = absurd (cc e)

  call_entry-Goes :
      (model : Model S V) (equal : S → S → Bool) (compute_partial : Bool) (first a m : ℕ)
      (s : Search S V)
      → IsFilled h₀ xs₀ n
      → IsPlaced h₀ head xs₀ w s
      → IsSized s
      → s.heap.next head ≡ some first
      → s.entry ≡ some a
      → s.heap.match_of a ≡ some m
      → Goes s (check_round model equal compute_partial head false s)
  unfolding check_round
  call_entry-Goes model equal compute_partial first a m s q p z e b c =
      let (i, before) = At-node h₀ head xs₀ p.xs s.entry a p.place b in
      let f = Stack-SameFields h₀ head xs₀ p.stack in
      let l = Stack-IsListed h₀ head xs₀ w p.stack in
      let g : h₀.match_of a ≡ some m = ap (λ k. k a) (sym f.match_of) ∙ c in
      let j = l.present a m i g in
      let (input, v) = q.filled a (Stack-In a p.stack i) in
      let (output, u) = q.filled m (Stack-In m p.stack j) in
      let v' : s.heap.value a ≡ some input = ap (λ k. k a) f.value ∙ v in
      let u' : s.heap.value m ≡ some output = ap (λ k. k m) f.value ∙ u in
      let lifted = lift-cut s.heap head a m p.xs l.chain i j (w.below a m g) c in
      let bit = placed_bit s a q p z (Stack-In a p.stack i) in
      let (now, t, same) = set_bit-length s.linearized (as_uint (s.heap.id a)) bit in
      elim (step_cases (model.step s.state input output)) [
        | inl (s', yes_it) ↦
            let (r, o, k) = called equal a s' s (cut m (cut a s.heap)) now t lifted same in
            (r, ground (arith, e, b, c, v', u', yes_it, o), k)
        | inr (s', no_it) ↦ (
          again record s { entry = s.heap.next a },
          ground (arith, e, b, c, v', u', no_it),
          (refl, refl),
        )
      ]

  check_round-Goes :
      (model : Model S V) (equal : S → S → Bool) (compute_partial kill : Bool) (s : Search S V)
      → IsFilled h₀ xs₀ n
      → IsPlaced h₀ head xs₀ w s
      → IsSized s
      → Goes s (check_round model equal compute_partial head kill s)
  unfolding check_round
  check_round-Goes model equal compute_partial kill s q p z =
      elim (Option-cases (s.heap.next head)) [
        | inl last ↦ let (r, o, k) = complete-Goes s q p in (r, ground (arith, last, o), k)
        | inr (first, e) ↦ elim (Bool-cases kill) [
          | inl killed ↦ (answer false s, ground (arith, e, killed), tt)
          | inr alive ↦ elim (Option-cases s.entry) [
            | inl b ↦ absurd (cc (e, entry_is s p b))
            | inr (a, b) ↦ elim (Option-cases (s.heap.match_of a)) [
              | inl c ↦
                  let (r, o, k) = backtrack-Goes compute_partial s q p z in
                  (r, ground (arith, e, alive, b, c, o), k)
              | inr (m, c) ↦
                  let (r, o, k) =
                    call_entry-Goes model equal compute_partial first a m s q p z e b c in
                  (r, ap (λ x. check_round model equal compute_partial head x s) alive ∙ o, k)
            ]
          ]
        ]
      ]

  -- A round does not panic: it answers, or leads to a search with a bitset and a list of linearizations of
  -- the same sizes.
  pub check_round_goes :
      (model : Model S V) (equal : S → S → Bool) (compute_partial kill : Bool) (s : Search S V)
      → IsFilled h₀ xs₀ n
      → IsPlaced h₀ head xs₀ w s
      → IsSized s
      → ((b : Bool) × (s' : Search S V) × (check_round model equal compute_partial head kill s
            ≡ ok (answer b s')))
        ⊎ ((s' : Search S V) × (check_round model equal compute_partial head kill s ≡ ok (again s'))
            × IsSized s')
  check_round_goes model equal compute_partial kill s q p z =
      let (r, o, k) = check_round-Goes model equal compute_partial kill s q p z in by_round r o k
    where
      by_round :
          (r : Round S V)
          → check_round model equal compute_partial head kill s ≡ ok r
          → Sized s r
          → ((b : Bool) × (s' : Search S V) × (check_round model equal compute_partial head kill s
                ≡ ok (answer b s')))
            ⊎ ((s' : Search S V) × (check_round model equal compute_partial head kill s
                  ≡ ok (again s'))
                × IsSized s')
      by_round (answer b s') o k = inl (b, s', o)
      by_round (again s') o (words, slots) = inr (
        s',
        o,
        record {
          words = λ i l. subst (λ u. i / 64 < u) (sym words) (z.words i l);
          slots = slots ∙ z.slots;
        },
      )
