-- ===== src/Porcupine/Linear.antt =====
-- porcupine/checker.go: what a linearization of a history is, and that the calls of a search are one.
use m2i8t.Prelude.{
  ℕ, ◌<◌, ◌≡◌, sym, ap, ◌∙◌, ◌≢◌, ◌⊎◌, inl, inr, true, none, some, List, [], ◌∷◌, arith,
  Option-cases, length, get_elem?, get_elem?_lt, eq_nat, eq_string,
}
use m2i8t.Porcupine.Model.{Model}
use m2i8t.Porcupine.Entries.{Entry, call_entry, return_entry}
use m2i8t.Porcupine.Links.{Heap}
use m2i8t.Porcupine.Chain.{In}
use m2i8t.Porcupine.Placed.{IsPaired, Stack, bottom, push, Done, Stack-covers, Stack-gone}
use m2i8t.Porcupine.Checker.{CallsEntry}
use m2i8t.Porcupine.Runs.{Legal, no_calls, call}

-- Operations are pairs of positions in the list of events: of a call, and of its return.
abbrev pub Ops : Type 0
Ops = List (ℕ × ℕ)

abbrev pub Returned : ℕ → Ops → Type 0
Returned x [] = ⊥
Returned x ((c, r) ∷ ops) = (r ≡ x) ⊎ Returned x ops

abbrev pub Called : ℕ → Ops → Type 0
Called x [] = ⊥
Called x ((c, r) ∷ ops) = (c ≡ x) ⊎ Called x ops

module _ {S V : Type 0} (model : Model S V) (events : List (Entry V)) where
  -- A run of the model over operations of the history, the last one first. The events stand from the
  -- last one to the first, so that a larger position is earlier. Each operation is one call with a
  -- later return of the same id, is taken once, is accepted by the model, and is taken only after
  -- every operation that returned before it was called.
  pub data Linear : Ops → S → Type 0 where
    no_ops : Linear [] model.init
    take_op :
        {ops : Ops} {s s' : S} (c r : ℕ) (invoked answered : Entry V)
        → Linear ops s
        → get_elem? events c ≡ some invoked
        → get_elem? events r ≡ some answered
        → invoked.kind ≡ call_entry
        → answered.kind ≡ return_entry
        → invoked.id ≡ answered.id
        → r < c
        → ¬ Called c ops
        → ((x : ℕ) (e : Entry V)
            → c < x
            → get_elem? events x ≡ some e
            → e.kind ≡ return_entry
            → Returned x ops)
        → model.step s invoked.value answered.value ≡ (true, s')
        → Linear ((c, r) ∷ ops) s'

-- What the list that was built says of the events.
pub record IsBuilt {V : Type 0} (events : List (Entry V)) (h : Heap V) (xs : List ℕ) : Type 0 where
  pub valued :
      (a : ℕ) (v : V)
      → h.value a ≡ some v
      → (e : Entry V) → get_elem? events a ≡ some e
      → e.value ≡ v
  pub matched :
      (a b : ℕ)
      → h.match_of a ≡ some b
      → (e e' : Entry V) × (get_elem? events a ≡ some e)
        × (get_elem? events b ≡ some e')
        × (e.kind ≡ call_entry)
        × (e'.kind ≡ return_entry)
        × (e.id ≡ e'.id)
  pub all_in : (a : ℕ) → a < length events → In a xs

module _ {S V : Type 0} (model : Model S V) (events : List (Entry V)) (h₀ : Heap V) (head : ℕ)
    (xs₀ : List ℕ) (w : IsPaired h₀ head xs₀) (built : IsBuilt events h₀ xs₀) where
  pub record IsRun (cs : List (CallsEntry S)) (s : S) : Type 0 where
    pub ops : Ops
    pub linear : Linear model events ops s
    pub returned : (x : ℕ) → h₀.match_of x ≡ none → Done h₀ head xs₀ x cs → Returned x ops
    pub called : (x : ℕ) → Called x ops → Done h₀ head xs₀ x cs
    pub all_of : (x : ℕ) → Done h₀ head xs₀ x cs → Called x ops ⊎ Returned x ops

  -- What returned before the call was made is no longer in the list, and so is among the operations.
  settled :
      (n : ℕ) (cs : List (CallsEntry S)) (h : Heap V) (xs : List ℕ) (ops : Ops)
      → Stack h₀ head xs₀ cs h xs
      → ((a : ℕ) → In a xs → n < a → h₀.match_of a ≢ none)
      → ((x : ℕ) → h₀.match_of x ≡ none → Done h₀ head xs₀ x cs → Returned x ops)
      → (x : ℕ) (e : Entry V) → n < x
      → get_elem? events x ≡ some e
      → e.kind ≡ return_entry
      → Returned x ops
  settled n cs h xs ops st before returned x e lt at is_return =
      let unmatched : h₀.match_of x ≡ none = elim (Option-cases (h₀.match_of x)) [
        | inl q ↦ q
        | inr (b, q) ↦
            let (e₁, e₂, at₁, at₂, is_call, _, _) = built.matched x b q in
            absurd (ground (arith, at, at₁, is_call, is_return))
      ] in
      elim (Stack-covers h₀ head xs₀ x st (built.all_in x (get_elem?_lt events x at))) [
        | inl j ↦ absurd (before x j lt unmatched)
        | inr d ↦ returned x unmatched d
      ]

  pub calls-IsRun :
      (cs : List (CallsEntry S)) (h : Heap V) (xs : List ℕ) (s : S)
      → Stack h₀ head xs₀ cs h xs
      → Legal model h₀ cs s
      → IsRun cs s
  calls-IsRun cs h xs s bottom no_calls = record {
    ops = [];
    linear = no_ops;
    returned = λ x e d. d;
    called = λ x d. d;
    all_of = λ x d. absurd d;
  }
  calls-IsRun cs h xs s (push {cs = cs'} {h = h'} {xs = xs'} c m st i f before)
        (call m' input output l f' v u step) =
      let r = calls-IsRun cs' h' xs' c.state st l in
      let (e, e', at, at', is_call, is_return, same) = built.matched c.entry m f in
      let m≡ : m' ≡ m = cc (f, f') in
      let vi = built.valued c.entry input v e at in
      let vo = built.valued m output (ap h₀.value (sym m≡) ∙ u) e' at' in
      record {
        ops = (c.entry, m) ∷ r.ops;
        linear =
            take_op c.entry m e e' r.linear at at' is_call is_return same (w.below c.entry m f)
              (λ k. Stack-gone h₀ head xs₀ c.entry w st (r.called c.entry k) i)
              (settled c.entry cs' h' xs' r.ops st before r.returned) (rw (vi, vo) step);
        returned = λ x none_of d. elim d [
          | inl q ↦ absurd (cc (none_of, f, q))
          | inr (inl q) ↦ inl (cc (f, q))
          | inr (inr k) ↦ inr (r.returned x none_of k)
        ];
        called = λ x d. elim d [ inl q ↦ inl q | inr k ↦ inr (inr (r.called x k)) ];
        all_of = λ x d. elim d [
          | inl q ↦ inl (inl q)
          | inr (inl q) ↦ inr (inl (cc (f, q)))
          | inr (inr k) ↦ elim (r.all_of x k) [ inl a ↦ inl (inr a) | inr a ↦ inr (inr a) ]
        ];
      }
