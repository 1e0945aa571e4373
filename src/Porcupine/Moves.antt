-- ===== src/Porcupine/Moves.antt =====
-- porcupine/checker.go: every round keeps the search's place in its list.
use m2i8t.Prelude.{
  ℕ, zero, suc, ◌<◌, ◌≡◌, refl, sym, ap, ◌∙◌, subst, ◌≢◌, inl, inr, Bool, Option, none, some, List,
  [], ◌∷◌, arith, ok, Outcome-cases, eq_nat, eq_string, nat_order,
}
use m2i8t.Porcupine.Model.{Model}
use m2i8t.Porcupine.Links.{Heap, lift, unlift}
use m2i8t.Porcupine.Chain.{
  In, without, Chain, Chain-lt, Chain-has_after, cut, lift-cut, lift-Chain, unlift-cut,
}
use m2i8t.Porcupine.Rounds.{Lifts, Drops, Move, passes, lifts, drops, Stays, check_round-Led}
use m2i8t.Porcupine.Placed.{IsPaired, IsListed, Stack, bottom, push, Stack-match, Stack-IsListed}
use m2i8t.Porcupine.Checker.{CallsEntry, Search, again, answer, check_round, check_loop}

module _ {V : Type 0} (h₀ : Heap V) (head : ℕ) (xs₀ : List ℕ) where
  -- The entry is a node of the list, with calls only before it; there is none where the list is empty.
  pub data At (xs : List ℕ) : Option ℕ → Type 0 where
    at_end : xs ≡ [] → At xs none
    at_node :
        (n : ℕ) → In n xs → ((a : ℕ) → In a xs → n < a → h₀.match_of a ≢ none) → At xs (some n)

  -- From a call on to the next node.
  pub step_on :
      (h : Heap V) (xs : List ℕ) (n m : ℕ)
      → IsPaired h₀ head xs₀
      → IsListed h₀ head xs₀ h xs
      → In n xs
      → ((a : ℕ) → In a xs → n < a → h₀.match_of a ≢ none)
      → h₀.match_of n ≡ some m
      → At xs (h.next n)
  step_on h xs n m w l i before f =
      let j = l.present n m i f in
      let (k, e, le, k_in) = Chain-has_after h head n m xs l.chain i j (w.below n m f) in
      subst (λ z. At xs z) (sym e)
        (at_node k k_in (λ a a_in lt q. elim (nat_order a n) [
          | inl above ↦ before a a_in above q
          | inr (inl same) ↦ absurd (cc (q, f, same))
          | inr (inr below) ↦
              let (k', e', le', _) = Chain-has_after h head n a xs l.chain i a_in below in
              absurd (ground (arith, e, e', le', lt))
        ]))

  -- The first node of a list.
  pub step_first : (h : Heap V) (xs : List ℕ) → Chain h head xs → At xs (h.next head)
  step_first h [] c = subst (λ z. At [] z) (sym c) (at_end refl)
  step_first h (x ∷ xs) (to, from, lt, c) =
      subst (λ z. At (x ∷ xs) z) (sym to)
        (at_node x (inl refl) (λ a i above q. elim i [
          | inl e ↦ absurd (omega (arith, e, above))
          | inr j ↦ absurd (omega (arith, Chain-lt h x a xs c j, above))
        ]))

  pub At-node :
      (xs : List ℕ) (o : Option ℕ) (n : ℕ)
      → At xs o
      → o ≡ some n
      → In n xs × ((a : ℕ) → In a xs → n < a → h₀.match_of a ≢ none)
  At-node xs none n a e = absurd (cc e)
  At-node xs (some _) n (at_node k i before) e =
      let q : k ≡ n = cc e in
      (subst (λ z. In z xs) q i, λ a j lt. before a j (omega (arith, q, lt)))

module _ {S V : Type 0} (h₀ : Heap V) (head : ℕ) (xs₀ : List ℕ) (w : IsPaired h₀ head xs₀) where
  pub record IsPlaced (s : Search S V) : Type 0 where
    pub xs : List ℕ
    pub stack : Stack h₀ head xs₀ s.calls s.heap xs
    pub place : At h₀ head xs₀ xs s.entry

  match_in :
      (s : Search S V) (n m : ℕ) (p : IsPlaced s)
      → s.heap.match_of n ≡ some m
      → h₀.match_of n ≡ some m
  match_in s n m p f = ap (λ g. g n) (sym (Stack-match h₀ head xs₀ p.stack)) ∙ f

  passes_on :
      (s : Search S V) (n m : ℕ)
      → IsPlaced s
      → s.entry ≡ some n
      → s.heap.match_of n ≡ some m
      → IsPlaced (record s { entry = s.heap.next n })
  passes_on s n m p e f =
      let (i, before) = At-node h₀ head xs₀ p.xs s.entry n p.place e in
      record {
        xs = p.xs;
        stack = p.stack;
        place =
            step_on h₀ head xs₀ s.heap p.xs n m w (Stack-IsListed h₀ head xs₀ w p.stack) i before
              (match_in s n m p f);
      }

  Lifts-IsPlaced :
      (s s' : Search S V) (n m : ℕ) (h : Heap V)
      → IsPlaced s
      → s.entry ≡ some n
      → s.heap.match_of n ≡ some m
      → lift n s.heap ≡ ok h
      → Lifts head n h s s'
      → IsPlaced s'
  Lifts-IsPlaced s s' n m h p e f q k =
      let (i, before) = At-node h₀ head xs₀ p.xs s.entry n p.place e in
      let g = match_in s n m p f in
      let l = Stack-IsListed h₀ head xs₀ w p.stack in
      let j = l.present n m i g in
      let lt = w.below n m g in
      let same : h ≡ cut m (cut n s.heap) =
        cc (q, lift-cut s.heap head n m p.xs l.chain i j lt f) in
      let c = lift-Chain s.heap head n m p.xs l.chain i j lt in
      record {
        xs = without m (without n p.xs);
        stack =
            rw (k.calls, k.heap, same)
              (push (record { entry = n; state = s.state }) m p.stack i g before);
        place =
            rw (k.entry, same)
              (step_first h₀ head xs₀ (cut m (cut n s.heap)) (without m (without n p.xs)) c);
      }

  Drops-IsPlaced :
      (s s' : Search S V) (top : CallsEntry S) (rest : List (CallsEntry S)) (h : Heap V)
      → IsPlaced s
      → s.calls ≡ top ∷ rest
      → unlift top.entry s.heap ≡ ok h
      → Drops head top rest h s s'
      → IsPlaced s'
  Drops-IsPlaced s s' top rest h p e q k = popped (s.calls) s.heap p.xs p.stack e q
    where
      popped :
          (cs : List (CallsEntry S)) (g : Heap V) (xs : List ℕ)
          → Stack h₀ head xs₀ cs g xs
          → cs ≡ top ∷ rest
          → unlift top.entry g ≡ ok h
          → IsPlaced s'
      popped cs g xs bottom e q = absurd (cc e)
      popped cs g xs (push {cs = cs'} {h = h'} {xs = xs'} c m st i f before) e q =
          let c≡ : c ≡ top = cc e in
          let r≡ : cs' ≡ rest = cc e in
          let l = Stack-IsListed h₀ head xs₀ w st in
          let j = l.present c.entry m i f in
          let f' : h'.match_of c.entry ≡ some m =
            ap (λ z. z c.entry) (Stack-match h₀ head xs₀ st) ∙ f in
          let back = unlift-cut h' head c.entry m xs' l.chain i j (w.below c.entry m f) f' in
          let h≡ : h ≡ h' = ground (arith, q, back, c≡) in
          let on = step_on h₀ head xs₀ h' xs' c.entry m w l i before f in
          record {
            xs = xs';
            stack = rw (k.calls, k.heap, h≡, ← r≡) st;
            place = rw (k.entry, h≡, ← c≡) on;
          }

  Stays-IsPlaced : (s s' : Search S V) → Stays head s s' → IsPlaced s → IsPlaced s'
  Stays-IsPlaced s s' k p = record {
    xs = p.xs;
    stack = rw (k.calls, k.heap) p.stack;
    place = rw (k.entry) p.place;
  }

  pub Move-IsPlaced : (s s' : Search S V) → Move head s s' → IsPlaced s → IsPlaced s'
  Move-IsPlaced s s' (passes n m a b e) p = rw e (passes_on s n m p a b)
  Move-IsPlaced s s' (lifts n m h a b l k) p = Lifts-IsPlaced s s' n m h p a b l k
  Move-IsPlaced s s' (drops top rest h q u k) p = Drops-IsPlaced s s' top rest h p q u k

  pub check_loop-IsPlaced :
      (model : Model S V) (equal : S → S → Bool) (compute_partial : Bool) (kill : ℕ → Bool)
      (fuel : ℕ) (s : Search S V) {b : Bool} {s' : Search S V}
      → IsPlaced s
      → check_loop model equal compute_partial head kill fuel s ≡ some (ok (b, s'))
      → IsPlaced s'
  unfolding check_loop
  check_loop-IsPlaced model equal compute_partial kill zero s p e = absurd (ground arith)
  check_loop-IsPlaced model equal compute_partial kill (suc fuel) s {b} {s'} p e =
      elim (Outcome-cases (check_round model equal compute_partial head (kill fuel) s)) [
        | inl q ↦ absurd (ground (arith, q))
        | inr (again s₁, q) ↦
            check_loop-IsPlaced model equal compute_partial kill fuel s₁ {b = b} {s' = s'}
              (Move-IsPlaced s s₁
                (check_round-Led head model equal compute_partial (kill fuel) s (again s₁) q) p)
              (ground (arith, q))
        | inr (answer b₁ s₁, q) ↦
            let same : s₁ ≡ s' = ground (arith, q) in
            subst IsPlaced same (
              Stays-IsPlaced s s₁
                (check_round-Led head model equal compute_partial (kill fuel) s (answer b₁ s₁) q) p)
      ]
