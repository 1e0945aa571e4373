-- ===== src/Porcupine/Measure.antt =====
-- porcupine/checker.go: how many rounds a search can still take.
use m2i8t.Prelude.{
  ℕ, zero, suc, ◌+◌, ◌≤◌, ◌<◌, ◌≡◌, refl, sym, ap, ◌∙◌, subst, inl, inr, Option, none, some, List,
  [], ◌∷◌, arith, ltb, if◌then◌else◌, Option-cases, length, eq_nat, eq_string,
}
use m2i8t.Porcupine.Links.{Heap}
use m2i8t.Porcupine.Chain.{In, without, Chain, Chain-after}
use m2i8t.Porcupine.Placed.{IsPaired, Stack, bottom, push, Stack-IsListed}
use m2i8t.Porcupine.Moves.{At, at_node, At-node, IsPlaced}
use m2i8t.Porcupine.Rounds.{Move, passes, lifts, drops}
use m2i8t.Porcupine.Checker.{CallsEntry, Search}

-- A bound on the rounds in a list of at most `d` nodes, of which `r` stand from the entry on.
pub rounds : ℕ → ℕ → ℕ
rounds zero r = 0
rounds (suc d) zero = 0
rounds (suc d) (suc r) = rounds (suc d) r + rounds d d + 2

pub rounds_mono : (d r r' : ℕ) → r ≤ r' → rounds d r ≤ rounds d r'
unfolding rounds
rounds_mono zero r r' l = omega arith
rounds_mono (suc d) zero r' l = omega arith
rounds_mono (suc d) (suc r) zero l = absurd (omega (arith, l))
rounds_mono (suc d) (suc r) (suc r') l = omega (arith, rounds_mono (suc d) r r' (omega (arith, l)))

rounds_step : (d r : ℕ) → rounds (suc d) (suc r) ≡ rounds (suc d) r + rounds d d + 2
unfolding rounds
rounds_step d r = refl

-- How many nodes stand below an address, and from the entry on.
abbrev below : ℕ → List ℕ → ℕ
below n [] = 0
below n (x ∷ xs) = if ltb x n then below n xs + 1 else below n xs

abbrev pub left : Option ℕ → List ℕ → ℕ
left none xs = 0
left (some n) xs = below n xs + 1

below_le : (k n : ℕ) (xs : List ℕ) → k ≤ n → below k xs ≤ below n xs
below_le k n [] l = omega arith
below_le k n (x ∷ xs) l = ground (arith, below_le k n xs l)

below_lt : (k n : ℕ) (xs : List ℕ) → In k xs → k < n → below k xs < below n xs
below_lt k n [] i l = absurd i
below_lt k n (x ∷ xs) (inl e) l = ground (arith, e, l, below_le k n xs (omega (arith, l)))
below_lt k n (x ∷ xs) (inr i) l = ground (arith, l, below_lt k n xs i l)

below_length : (n : ℕ) (xs : List ℕ) → below n xs ≤ length xs
below_length n [] = omega arith
below_length n (x ∷ xs) = ground (arith, below_length n xs)

below_In : (n : ℕ) (xs : List ℕ) → In n xs → below n xs < length xs
below_In n [] i = absurd i
below_In n (x ∷ xs) (inl e) = ground (arith, e, below_length n xs)
below_In n (x ∷ xs) (inr i) = ground (arith, below_In n xs i)

length-without : (n : ℕ) (xs : List ℕ) → In n xs → length (without n xs) + 1 ≡ length xs
length-without n [] i = absurd i
length-without n (x ∷ xs) (inl e) = ground (arith, e)
length-without n (x ∷ xs) (inr i) = ground (arith, length-without n xs i)

length-without_le : (n : ℕ) (xs : List ℕ) → length (without n xs) ≤ length xs
length-without_le n [] = omega arith
length-without_le n (x ∷ xs) = ground (arith, length-without_le n xs)

rounds_here :
    (d n : ℕ) (o : Option ℕ) (xs : List ℕ)
    → o ≡ some n
    → rounds (suc d) (left o xs) ≡ rounds (suc d) (below n xs) + rounds d d + 2
rounds_here d n o xs e =
    ap (λ z. rounds (suc d) (left z xs)) e
    ∙ ap (λ z. rounds (suc d) z) {x = below n xs + 1} (omega arith)
    ∙ rounds_step d (below n xs)

module _ {V : Type 0} where
  next_left :
      (h : Heap V) (head n : ℕ) (xs : List ℕ)
      → Chain h head xs
      → In n xs
      → left (h.next n) xs ≤ below n xs
  next_left h head n xs c i = elim (Option-cases (h.next n)) [
    | inl e ↦ ground (arith, e)
    | inr (k, e) ↦
        let (_, lt, j) = Chain-after h head n k xs c i e in ground (arith, e, below_lt k n xs j lt)
  ]

  At-left :
      (h₀ : Heap V) (head : ℕ) (xs₀ xs : List ℕ) (o : Option ℕ)
      → At h₀ head xs₀ xs o
      → left o xs ≤ length xs
  At-left h₀ head xs₀ xs none a = omega arith
  At-left h₀ head xs₀ xs (some n) (at_node k i before) = omega (arith, below_In n xs i)

module _ {S V : Type 0} (h₀ : Heap V) (head : ℕ) (xs₀ : List ℕ) where
  -- The nodes left once the calls are made.
  pub list_of : List (CallsEntry S) → List ℕ
  list_of [] = xs₀
  list_of (c ∷ cs) = elim (h₀.match_of c.entry) [
    | none ↦ list_of cs
    | some m ↦ without m (without c.entry (list_of cs))
  ]

  -- The rounds that the calls leave to do once they are taken back.
  burden : ℕ → List (CallsEntry S) → ℕ
  burden d [] = 0
  burden d (c ∷ cs) = burden (suc d) cs + rounds (suc d) (below c.entry (list_of cs)) + 1

  pub measure : ℕ → Search S V → ℕ
  measure d s = burden d s.calls + rounds d (left s.entry (list_of s.calls))

  list_of_cons :
      (c : CallsEntry S) (m : ℕ) (cs : List (CallsEntry S))
      → h₀.match_of c.entry ≡ some m
      → list_of (c ∷ cs) ≡ without m (without c.entry (list_of cs))
  unfolding list_of
  list_of_cons c m cs f = ground (arith, f)

  Stack-list_of :
      {cs : List (CallsEntry S)} {h : Heap V} {xs : List ℕ}
      → Stack h₀ head xs₀ cs h xs
      → xs ≡ list_of cs
  unfolding list_of
  Stack-list_of bottom = refl
  Stack-list_of (push {cs = cs} c m st i f before) =
      ap (λ z. without m (without c.entry z)) (Stack-list_of st) ∙ sym (list_of_cons c m cs f)

  Stack-length :
      {cs : List (CallsEntry S)} {h : Heap V} {xs : List ℕ}
      → Stack h₀ head xs₀ cs h xs
      → length xs + length cs ≤ length xs₀
  Stack-length bottom = omega arith
  Stack-length (push {cs = cs} {xs = xs} c m st i f before) = omega (
    arith,
    Stack-length st,
    length-without c.entry xs i,
    length-without_le m (without c.entry xs),
  )

  Stack-top :
      (cs : List (CallsEntry S)) {h : Heap V} {xs : List ℕ} (top : CallsEntry S)
      (rest : List (CallsEntry S))
      → Stack h₀ head xs₀ cs h xs
      → cs ≡ top ∷ rest
      → In top.entry (list_of rest)
  Stack-top cs top rest bottom e = absurd (cc e)
  Stack-top cs top rest (push {cs = cs'} {xs = xs} c m st i f before) e =
      let a : c ≡ top = cc e in
      let b : cs' ≡ rest = cc e in
      subst (λ z. In top.entry z) (Stack-list_of st ∙ ap list_of b) (subst (λ z. In z.entry xs) a i)

  burden_cons :
      (d : ℕ) (c : CallsEntry S) (cs : List (CallsEntry S))
      → burden d (c ∷ cs) ≡ burden (suc d) cs + rounds (suc d) (below c.entry (list_of cs)) + 1
  unfolding burden
  burden_cons d c cs = refl

  -- The node of a search's entry stands in the list that its calls leave.
  entry-In :
      (w : IsPaired h₀ head xs₀) (s : Search S V) (n : ℕ)
      → IsPlaced h₀ head xs₀ w s
      → s.entry ≡ some n
      → In n (list_of s.calls)
  entry-In w s n p e =
      subst (λ z. In n z) (Stack-list_of p.stack) (At-node h₀ head xs₀ p.xs s.entry n p.place e).0

  left_after :
      (w : IsPaired h₀ head xs₀) (s : Search S V) (n : ℕ)
      → IsPlaced h₀ head xs₀ w s
      → In n (list_of s.calls)
      → left (s.heap.next n) (list_of s.calls) ≤ below n (list_of s.calls)
  left_after w s n p i =
      let same = Stack-list_of p.stack in
      let l = Stack-IsListed h₀ head xs₀ w p.stack in
      next_left s.heap head n (list_of s.calls) (subst (λ z. Chain s.heap head z) same l.chain) i

  pub room :
      (w : IsPaired h₀ head xs₀) (s : Search S V) (d : ℕ)
      → IsPlaced h₀ head xs₀ w s
      → d + length s.calls ≡ length xs₀
      → length (list_of s.calls) ≤ d
  room w s d p fits = omega (
    arith,
    subst (λ z. length z + length s.calls ≤ length xs₀) (Stack-list_of p.stack)
        (Stack-length p.stack),
    fits,
  )

  pub left_le :
      (w : IsPaired h₀ head xs₀) (s : Search S V)
      → IsPlaced h₀ head xs₀ w s
      → left s.entry (list_of s.calls) ≤ length (list_of s.calls)
  left_le w s p =
      subst (λ z. left s.entry z ≤ length z) (Stack-list_of p.stack)
        (At-left h₀ head xs₀ p.xs s.entry p.place)

  -- Before any call is made.
  pub measure_start :
      (d : ℕ) (s : Search S V)
      → s.calls ≡ []
      → measure d s ≡ rounds d (left s.entry (list_of s.calls))
  unfolding measure burden
  measure_start d s e =
      let none_made : burden d s.calls ≡ 0 = ap (burden d) e in omega (arith, none_made)

  -- Every round that goes on leaves fewer to do. `d` counts the calls that may still be made.
  pub Move-measure :
      (w : IsPaired h₀ head xs₀) (s s' : Search S V) (d : ℕ)
      → (p : IsPlaced h₀ head xs₀ w s) → IsPlaced h₀ head xs₀ w s'
      → d + length s.calls ≡ length xs₀
      → Move head s s'
      → (d' : ℕ) × (d' + length s'.calls ≡ length xs₀) × (measure d' s' < measure d s)
  unfolding measure
  Move-measure w s s' zero p p' fits (passes n m a b e) =
      absurd
        (omega (arith, below_In n (list_of s.calls) (entry-In w s n p a), room w s zero p fits))
  Move-measure w s s' (suc d) p p' fits (passes n m a b e) =
      let xs = list_of s.calls in
      let here = rounds_here d n s.entry xs a in
      let next =
        rounds_mono (suc d) (left (s.heap.next n) xs) (below n xs)
          (left_after w s n p (entry-In w s n p a)) in
      rw e (suc d, fits, omega (arith, here, next))
  Move-measure w s s' zero p p' fits (lifts n m h a b l k) =
      absurd
        (omega (arith, below_In n (list_of s.calls) (entry-In w s n p a), room w s zero p fits))
  Move-measure w s s' (suc d) p p' fits (lifts n m h a b l k) =
      let c : CallsEntry S = record { entry = n; state = s.state } in
      let here = rounds_here d n s.entry (list_of s.calls) a in
      let fits' : d + length s'.calls ≡ length xs₀ =
        ap (λ z. d + length z) k.calls ∙ omega (arith, fits) in
      let inside =
        rounds_mono d (left s'.entry (list_of s'.calls)) d
          (omega (arith, left_le w s' p', room w s' d p' fits')) in
      let heavy : burden d s'.calls
          ≡ burden (suc d) s.calls + rounds (suc d) (below n (list_of s.calls)) + 1 =
        ap (burden d) k.calls ∙ burden_cons d c s.calls in
      (d, fits', omega (arith, here, inside, heavy))
  Move-measure w s s' d p p' fits (drops top rest h q u k) =
      let at = Stack-top s.calls top rest p.stack q in
      let heavy = ap (burden d) q ∙ burden_cons d top rest in
      let fits' : suc d + length s'.calls ≡ length xs₀ =
        ap (λ z. suc d + length z) k.calls ∙ omega (arith, fits, ap length q) in
      let le : left s'.entry (list_of s'.calls) ≤ below top.entry (list_of s'.calls) =
        rw (k.entry, ← k.heap) (left_after w s' top.entry p' (rw k.calls at)) in
      let next =
        rounds_mono (suc d) (left s'.entry (list_of s'.calls)) (below top.entry (list_of s'.calls))
          le in
      let same = ap (burden (suc d)) k.calls in
      let same' = ap (λ z. rounds (suc d) (below top.entry (list_of z))) k.calls in
      (suc d, fits', omega (arith, heavy, next, same, same'))
