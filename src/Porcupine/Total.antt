-- ===== src/Porcupine/Total.antt =====
-- porcupine/checker.go: the search ends with an answer.
use mathlib.Core.List.{reverse}
use m2i8t.Prelude.{
  ℕ, zero, suc, ◌+◌, ◌/◌, ◌^◌, ◌≤◌, ◌<◌, ◌≡◌, refl, sym, ap, ◌∙◌, subst, inl, inr, Bool, none, some,
  List, arith, length, get_elem?, length-replicate, ok, index_in_range, eq_nat, eq_string,
}
use m2i8t.Porcupine.Model.{Model}
use m2i8t.Porcupine.Entries.{Entry}
use m2i8t.Porcupine.Bitset.{new_bitset}
use m2i8t.Porcupine.Links.{Heap, length_from}
use m2i8t.Porcupine.Placed.{IsPaired}
use m2i8t.Porcupine.Moves.{IsPlaced, Move-IsPlaced}
use m2i8t.Porcupine.Rounds.{check_round-Led}
use m2i8t.Porcupine.Measure.{
  rounds, rounds_mono, left, left_le, list_of, room, measure, measure_start, Move-measure,
}
use m2i8t.Porcupine.Sizes.{new_bitset_bound}
use m2i8t.Porcupine.Safe.{IsFilled, IsSized, check_round_goes}
use m2i8t.Porcupine.Checker.{Search, again, make_linked_entries, start, check_loop, check_single}
use m2i8t.Porcupine.Built.{down, down-In, length_from-IsLine}
use m2i8t.Porcupine.Linearized.{
  DistinctCalls, made, made-IsMade, headed, headed-IsAdded, headed-IsPaired, start_head,
  start_calls, start-IsPlaced,
}

module _ {S V : Type 0} (h₀ : Heap V) (head : ℕ) (xs₀ : List ℕ) (w : IsPaired h₀ head xs₀)
    (n : ℕ) where
  check_loop_total :
      (model : Model S V) (equal : S → S → Bool) (compute_partial : Bool) (kill : ℕ → Bool)
      (fuel d : ℕ) (s : Search S V)
      → IsFilled h₀ xs₀ n
      → IsPlaced h₀ head xs₀ w s
      → IsSized h₀ head xs₀ w n s
      → d + length s.calls ≡ length xs₀
      → measure h₀ head xs₀ d s < fuel
      → (b : Bool) × (s' : Search S V) × (check_loop model equal compute_partial head kill fuel s
          ≡ some (ok (b, s')))
  unfolding check_loop
  check_loop_total model equal compute_partial kill zero d s q p z fits l =
      absurd (omega (arith, l))
  check_loop_total model equal compute_partial kill (suc fuel) d s q p z fits l =
      elim (check_round_goes h₀ head xs₀ w n model equal compute_partial (kill fuel) s q p z) [
        | inl (b, s₁, e) ↦ (b, s₁, ground (arith, e))
        | inr (s₁, e, z₁) ↦
            let m = check_round-Led head model equal compute_partial (kill fuel) s (again s₁) e in
            let p₁ = Move-IsPlaced h₀ head xs₀ w s s₁ m p in
            let (d₁, fits₁, less) = Move-measure h₀ head xs₀ w s s₁ d p p₁ fits m in
            let (b, s', f) =
              check_loop_total model equal compute_partial kill fuel d₁ s₁ q p₁ z₁ fits₁
                (omega (arith, less, l)) in
            (b, s', ground (arith, e, f))
      ]

module _ {V : Type 0} (events : List (Entry V)) where
  -- The ids are below the number of operations, which a machine word holds.
  pub record IsNumbered : Type 0 where
    pub numbered : (a : ℕ) (e : Entry V) → get_elem? events a ≡ some e → e.id < length events / 2
    pub small : length events / 2 ≤ 2 ^ 64

  headed-IsFilled : IsNumbered → IsFilled (headed events) (down (length events)) (length events / 2)
  headed-IsFilled k = record {
    filled = λ a i.
        let l = down-In (length events) a i in
        let (e, _, at) = index_in_range events a l in
        let (u, v) = (made-IsMade events).read.recorded a e l at in
        (e.value, ap (λ f. f a) (headed-IsAdded events).value ∙ ground (arith, l) ∙ u);
    numbered = λ a i.
        let l = down-In (length events) a i in
        let (e, _, at) = index_in_range events a l in
        let (u, v) = (made-IsMade events).read.recorded a e l at in
        (e.id, ap (λ f. f a) (headed-IsAdded events).id ∙ ground (arith, l) ∙ v, k.numbered a e at);
    small = k.small;
  }

length-down : (n : ℕ) → length (down n) ≡ n
length-down zero = refl
length-down (suc n) = omega (arith, length-down n)

module _ {S V : Type 0} (model : Model S V) where
  start_fits :
      (history : List (Entry V))
      → length (reverse history) + length (start model history).1.calls
        ≡ length (down (length (reverse history)))
  start_fits history =
      let n = length (reverse history) in
      ap (λ z. n + length z) (start_calls model history) ∙ omega (arith, length-down n)

  measure-start :
      (history : List (Entry V))
      → DistinctCalls (reverse history)
      → measure
          (headed (reverse history))
          (length (reverse history))
          (down (length (reverse history)))
          (length (reverse history))
          (start model history).1
        ≤ rounds (length (reverse history)) (length (reverse history))
  measure-start history distinct =
      let n = length (reverse history) in
      let h₀ = headed (reverse history) in
      let w = headed-IsPaired (reverse history) distinct in
      let s = (start model history).1 in
      let p = start-IsPlaced model history w in
      let fits = start_fits history in
      let small =
        rounds_mono n (left s.entry (list_of h₀ n (down n) s.calls)) n
          (omega (arith, left_le h₀ n (down n) w s p, room h₀ n (down n) w s n p fits)) in
      let begin = measure_start h₀ n (down n) n s (start_calls model history) in
      omega (arith, small, begin)

  start-IsSized :
      (history : List (Entry V))
      (w : IsPaired
        (headed (reverse history))
        (length (reverse history))
        (down (length (reverse history))))
      → IsSized
          (headed (reverse history))
          (length (reverse history))
          (down (length (reverse history)))
          w
          (length (reverse history) / 2)
          (start model history).1
  unfolding start make_linked_entries
  start-IsSized history w =
      let n = length (reverse history) in
      let m = made-IsMade (reverse history) in
      let nodes : length_from (made (reverse history)).0.fresh (made (reverse history)).1
            (made (reverse history)).0
          ≡ n =
        ap (λ z. length_from z (made (reverse history)).1 (made (reverse history)).0) m.line.fresh
        ∙ ap (λ z. length_from n z (made (reverse history)).0) m.root
        ∙ length_from-IsLine (made (reverse history)).0 n n (omega arith) m.line in
      record {
        words = λ i l.
            subst (λ u. i / 64 < length (new_bitset (u / 2))) (sym nodes)
              (new_bitset_bound (n / 2) i l);
        slots =
            length-replicate
              (length_from (made (reverse history)).0.fresh (made (reverse history)).1
                  (made (reverse history)).0
                / 2)
              none
            ∙ ap (λ u. u / 2) nodes;
      }

  -- On a history whose calls have distinct ids, all ids below the number of operations, checkSingle ends
  -- with an answer and no panic, after at most `rounds n n` rounds for n events, whatever the flag.
  pub check_single_total :
      (equal : S → S → Bool) (compute_partial : Bool) (kill : ℕ → Bool) (fuel : ℕ)
      (history : List (Entry V))
      → DistinctCalls (reverse history)
      → IsNumbered (reverse history)
      → rounds (length (reverse history)) (length (reverse history)) < fuel
      → (b : Bool) × (s' : Search S V) × (check_single model equal compute_partial kill fuel history
          ≡ some (ok (b, s')))
  unfolding check_single
  check_single_total equal compute_partial kill fuel history distinct numbered l =
      let n = length (reverse history) in
      let h₀ = headed (reverse history) in
      let w = headed-IsPaired (reverse history) distinct in
      let s = (start model history).1 in
      subst
        (λ z.
          (b : Bool) × (s' : Search S V) × (check_loop model equal compute_partial z kill fuel s
            ≡ some (ok (b, s'))))
        (sym (start_head model history))
        (check_loop_total h₀ n (down n) w (n / 2) model equal compute_partial kill fuel n s
          (headed-IsFilled (reverse history) numbered) (start-IsPlaced model history w)
          (start-IsSized history w) (start_fits history)
          (omega (arith, measure-start history distinct, l)))
