-- ===== src/Porcupine/Linearized.antt =====
-- porcupine/checker.go: where checkSingle answers true, the history is linearizable.
use mathlib.Core.List.{reverse}
use m2i8t.Prelude.{
  ℕ, zero, suc, ◌+◌, ◌≡◌, refl, sym, ap, ◌∙◌, subst, ◌⊎◌, inl, inr, Bool, true, Option, none, some,
  List, [], ◌∷◌, arith, Option-cases, length, get_elem?, get_elem?_lt, ok, eq_nat, eq_string,
  empty_dict, minus_one,
}
use m2i8t.Porcupine.Model.{Model}
use m2i8t.Porcupine.Entries.{Entry, call_entry}
use m2i8t.Porcupine.Links.{Heap, new_node, insert_before, link_entries}
use m2i8t.Porcupine.Relink.{SameFields}
use m2i8t.Porcupine.Chain.{In, Chain}
use m2i8t.Porcupine.Placed.{IsPaired, bottom, Stack-SameFields, Stack-IsListed, Stack-covers}
use m2i8t.Porcupine.Moves.{At, at_end, at_node, IsPlaced, check_loop-IsPlaced}
use m2i8t.Porcupine.Checker.{Search, empty_heap, make_linked_entries, start, check_single}
use m2i8t.Porcupine.Runs.{Legal-SameFields}
use m2i8t.Porcupine.Sound.{check_single-Found}
use m2i8t.Porcupine.Built.{
  top, down, In-down, down-In, added, added-IsLine, IsAdded, added-IsAdded, line-Chain,
}
use m2i8t.Porcupine.Reads.{IsMatch, IsMade, link_entries-IsMade, write_cases}
use m2i8t.Porcupine.Linear.{Ops, Returned, Called, Linear, IsBuilt, calls-IsRun}

module _ {V : Type 0} (events : List (Entry V)) where
  -- No two calls have the same id.
  abbrev pub DistinctCalls : Type 0
  DistinctCalls =
      (a b : ℕ) (e e' : Entry V)
      → get_elem? events a ≡ some e
      → get_elem? events b ≡ some e'
      → e.kind ≡ call_entry
      → e'.kind ≡ call_entry
      → e.id ≡ e'.id
      → a ≡ b

  abbrev pub made : Heap V × Option ℕ
  made = link_entries events empty_heap empty_dict none

  pub made-IsMade : IsMade events (length events) made
  made-IsMade =
      subst (λ n. IsMade events n made) {x = 0 + length events} (omega arith)
        (link_entries-IsMade events events empty_heap empty_dict 0
          (record {
            fresh = refl;
            next = λ a lt. absurd (omega (arith, lt));
            prev = λ a lt. absurd (omega (arith, lt));
            last = λ a e. absurd (omega (arith, e));
          })
          (record {
            valued = λ a v e q. absurd (ground (arith, q));
            recorded = λ a e lt. absurd (omega (arith, lt));
            matched = λ a b q. absurd (ground (arith, q));
            seen = λ i b q. absurd (ground (arith, q));
          })
          (λ j. ap (λ z. get_elem? events z) (omega arith)))

  -- The list with its head.
  abbrev pub headed : Heap V
  headed = added none none minus_one (length events) made.0

  pub headed-IsAdded : IsAdded none none minus_one (length events) made.0 headed
  headed-IsAdded = added-IsAdded none none minus_one (length events) made.0 made-IsMade.line.fresh

  headed-IsMatch : (a b : ℕ) → headed.match_of a ≡ some b → IsMatch events a b
  headed-IsMatch a b q =
      elim (write_cases made.0.match_of (length events) a none b
        (ap (λ f. f a) (sym headed-IsAdded.match_of) ∙ q)) [
          | inl (_, u) ↦ absurd (ground (arith, u))
          | inr u ↦ made-IsMade.read.matched a b u
        ]

  headed-IsBuilt : IsBuilt events headed (down (length events))
  headed-IsBuilt = record {
    valued = λ a v q e at.
        elim (write_cases made.0.value (length events) a none v
          (ap (λ f. f a) (sym headed-IsAdded.value) ∙ q)) [
            | inl (_, u) ↦ absurd (ground (arith, u))
            | inr u ↦ made-IsMade.read.valued a v e u at
          ];
    matched = λ a b q.
        let m = headed-IsMatch a b q in
        (m.call, m.return, m.at_call, m.at_return, m.is_call, m.is_return, m.same_id);
    all_in = λ a lt. In-down (length events) a lt;
  }

  pub headed-IsPaired : DistinctCalls → IsPaired headed (length events) (down (length events))
  headed-IsPaired distinct = record {
    chain =
        line-Chain headed (suc (length events)) (length events) (omega arith)
          (added-IsLine none none minus_one (length events) made.0 made-IsMade.line);
    below = λ a b q. (headed-IsMatch a b q).below;
    returns = λ a b q. elim (Option-cases (headed.match_of b)) [
      | inl u ↦ u
      | inr (c, u) ↦
          let m = headed-IsMatch a b q in
          let m' = headed-IsMatch b c u in
          absurd (cc (m.at_return, m'.at_call, m.is_return, m'.is_call))
    ];
    single = λ a a' b q q'.
        let m = headed-IsMatch a b q in
        let m' = headed-IsMatch a' b q' in
        distinct a a' m.call m'.call m.at_call m'.at_call m.is_call m'.is_call
          (cc (m.at_return, m'.at_return, m.same_id, m'.same_id));
    present = λ a b i q.
        In-down (length events) b
          (omega (arith, (headed-IsMatch a b q).below, down-In (length events) a i));
  }

  first-At : (h : Heap V) (head n : ℕ) (xs₀ : List ℕ) → At h head xs₀ (down n) (top n)
  first-At h head zero xs₀ = at_end refl
  first-At h head (suc n) xs₀ =
      at_node n (inl refl) (λ a i lt. absurd (omega (arith, lt, down-In (suc n) a i)))

SameFields-sym : {V : Type 0} {h h' : Heap V} → SameFields h h' → SameFields h' h
SameFields-sym f = record {
  value = sym f.value;
  match_of = sym f.match_of;
  id = sym f.id;
  fresh = sym f.fresh;
}

module _ {S V : Type 0} (model : Model S V) where
  -- A list of operations that is a linearization of a history: a run of the model, over all the events.
  pub record IsLinearization (history : List (Entry V)) (ops : Ops) (s : S) : Type 0 where
    pub run : Linear model (reverse history) ops s
    pub everything :
        (x : ℕ) (e : Entry V)
        → get_elem? (reverse history) x ≡ some e
        → Called x ops ⊎ Returned x ops

  pub start_head : (history : List (Entry V)) → (start model history).0 ≡ length (reverse history)
  unfolding start make_linked_entries new_node
  start_head history = (made-IsMade (reverse history)).line.fresh

  start_heap : (history : List (Entry V)) → (start model history).1.heap ≡ headed (reverse history)
  unfolding start make_linked_entries new_node
  start_heap history =
      let e = reverse history in
      let l = made-IsMade e in
      let h₁ : Heap V = (new_node none none minus_one (made e).0).1 in
      ap (λ z. insert_before z (made e).1 h₁) l.line.fresh
      ∙ ap (λ z. insert_before (length e) z h₁) l.root

  start_entry :
      (history : List (Entry V)) → (start model history).1.entry ≡ top (length (reverse history))
  unfolding start make_linked_entries
  start_entry history = (made-IsMade (reverse history)).root

  pub start_calls : (history : List (Entry V)) → (start model history).1.calls ≡ []
  unfolding start
  start_calls history = refl

  pub start-IsPlaced :
      (history : List (Entry V))
      (w : IsPaired
        (headed (reverse history))
        (length (reverse history))
        (down (length (reverse history))))
      → IsPlaced
          (headed (reverse history))
          (length (reverse history))
          (down (length (reverse history)))
          w
          (start model history).1
  start-IsPlaced history w =
      let n = length (reverse history) in
      record {
        xs = down n;
        stack = rw (start_heap history, start_calls history) bottom;
        place =
            rw (start_entry history)
              (first-At (reverse history) (headed (reverse history)) n n (down n));
      }

  Chain-end : (h : Heap V) (p : ℕ) (xs : List ℕ) → Chain h p xs → h.next p ≡ none → xs ≡ []
  Chain-end h p [] c e = refl
  Chain-end h p (x ∷ xs) (to, _, _, _) e = absurd (ground (arith, to, e))

  -- Where checkSingle answers true on a history whose calls have distinct ids, whatever the fuel and the flag, the
  -- calls it made are a linearization of the history that ends in the state it ends in.
  pub check_single-IsLinearization :
      (equal : S → S → Bool) (compute_partial : Bool) (kill : ℕ → Bool) (fuel : ℕ)
      (history : List (Entry V)) {s' : Search S V}
      → DistinctCalls (reverse history)
      → check_single model equal compute_partial kill fuel history ≡ some (ok (true, s'))
      → (ops : Ops) × IsLinearization history ops s'.state
  unfolding check_single
  check_single-IsLinearization equal compute_partial kill fuel history {s'} distinct e =
      let events = reverse history in
      let n = length events in
      let h₀ = headed events in
      let w = headed-IsPaired events distinct in
      let found = check_single-Found model equal compute_partial kill fuel history e in
      let p =
        check_loop-IsPlaced h₀ n (down n) w model equal compute_partial kill fuel
          (start model history).1 {b = true} {s' = s'} (start-IsPlaced history w)
          (rw (← start_head history) e) in
      let f = Stack-SameFields h₀ n (down n) p.stack in
      let listed = Stack-IsListed h₀ n (down n) w p.stack in
      let empty : p.xs ≡ [] =
        Chain-end s'.heap n p.xs listed.chain (rw (← start_head history) found.none_left) in
      let r =
        calls-IsRun model events h₀ n (down n) w (headed-IsBuilt events) s'.calls s'.heap p.xs
          s'.state p.stack (Legal-SameFields model (SameFields-sym f) found.run) in
      (
        r.ops,
        record {
          run = r.linear;
          everything = λ x e at.
              elim (Stack-covers h₀ n (down n) x p.stack (In-down n x (get_elem?_lt events x at))) [
                | inl i ↦ absurd (subst (λ z. In x z) empty i)
                | inr d ↦ r.all_of x d
              ];
        },
      )
