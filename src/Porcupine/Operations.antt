-- ===== src/Porcupine/Operations.antt =====
-- porcupine/checker.go: makeEntries gives histories that the search is right on.
use mathlib.Core.HLevel.{¬_prop}
use mathlib.Core.List.{reverse, reverse_perm, Memᴰ, Perm, Pairwise, length as lib_length}
use mathlib.Core.List.Perm
use mathlib.Core.Logic.{∥∥₁_elim}
use mathlib.Core.Nat.{ℕ as LibNat, zero as lib_zero, suc as lib_suc}
use native.Mathlib.Bridge.{le_prop}
use m2i8t.Prelude.{
  ℕ, zero, suc, ◌+◌, ◌*◌, ◌^◌, ◌≤◌, ◌<◌, ◌≡◌, refl, sym, ap, ◌∙◌, subst, ◌⊎◌, inl, inr, Bool, true,
  false, some, List, [], ◌∷◌, arith, length, get_elem?, ok, eq_nat, eq_string,
}
use m2i8t.Porcupine.Model.{Model, Operation}
use m2i8t.Porcupine.Entries.{Entry, call_entry, return_entry, entries_from, make_entries}
use m2i8t.Porcupine.Checker.{Search, check_single}
use m2i8t.Porcupine.Measure.{rounds}
use m2i8t.Porcupine.Linear.{Ops}
use m2i8t.Porcupine.Linearized.{DistinctCalls, IsLinearization, check_single-IsLinearization}
use m2i8t.Porcupine.Total.{IsNumbered, check_single_total}

to_native : LibNat → ℕ
to_native lib_zero = 0
to_native (lib_suc n) = suc (to_native n)

module _ {A : Type 0} where
  to_native-length : (xs : List A) → length xs ≡ to_native (lib_length xs)
  unfolding to_native
  to_native-length [] = refl
  to_native-length (x ∷ xs) = ap suc (to_native-length xs)

  Perm-length : {xs ys : List A} → Perm xs ys → length xs ≡ length ys
  Perm-length {xs} {ys} p =
      to_native-length xs ∙ ap to_native (Perm.length-eq p) ∙ sym (to_native-length ys)

  get_elem?-Memᴰ : (xs : List A) (n : ℕ) (x : A) → get_elem? xs n ≡ some x → Memᴰ x xs
  get_elem?-Memᴰ [] n x e = absurd (cc e)
  get_elem?-Memᴰ (y ∷ ys) zero x e = Memᴰ.head (cc e)
  get_elem?-Memᴰ (y ∷ ys) (suc n) x e = Memᴰ.tail (get_elem?-Memᴰ ys n x e)

module _ {V : Type 0} where
  -- Two entries are not calls of one id.
  abbrev Apart : Entry V → Entry V → Type 0
  Apart e e' = ¬ ((e.kind ≡ call_entry) × (e'.kind ≡ call_entry) × (e.id ≡ e'.id))

  Pairwise-DistinctCalls : (xs : List (Entry V)) → Pairwise Apart xs → DistinctCalls xs
  Pairwise-DistinctCalls [] p a b e e' at at' k k' same = absurd (cc at)
  Pairwise-DistinctCalls (x ∷ xs) (Pairwise.cons h p) zero zero e e' at at' k k' same = refl
  Pairwise-DistinctCalls (x ∷ xs) (Pairwise.cons h p) zero (suc b) e e' at at' k k' same =
      let q : x ≡ e = cc at in
      absurd
        (h e' ∣ get_elem?-Memᴰ xs b e' at' ∣₁ (ap (λ z. z.kind) q ∙ k, k', ap (λ z. z.id) q ∙ same))
  Pairwise-DistinctCalls (x ∷ xs) (Pairwise.cons h p) (suc a) zero e e' at at' k k' same =
      let q : x ≡ e' = cc at' in
      absurd (
        h e ∣ get_elem?-Memᴰ xs a e at ∣₁ (ap (λ z. z.kind) q ∙ k', k, ap (λ z. z.id) q ∙ sym same))
  Pairwise-DistinctCalls (x ∷ xs) (Pairwise.cons h p) (suc a) (suc b) e e' at at' k k' same =
      ap suc (Pairwise-DistinctCalls xs p a b e e' at at' k k' same)

  entries_from-Memᴰ :
      (id : ℕ) (ops : List (Operation V)) (e : Entry V)
      → Memᴰ e (entries_from id ops)
      → (id ≤ e.id) × (e.id < id + length ops)
  unfolding entries_from
  entries_from-Memᴰ id [] e m = elim m [ ]
  entries_from-Memᴰ id (op ∷ ops) e (Memᴰ.head q) =
      let s = ap (λ z. z.id) q in (omega (arith, s), omega (arith, s))
  entries_from-Memᴰ id (op ∷ ops) e (Memᴰ.tail (Memᴰ.head q)) =
      let s = ap (λ z. z.id) q in (omega (arith, s), omega (arith, s))
  entries_from-Memᴰ id (op ∷ ops) e (Memᴰ.tail (Memᴰ.tail m)) =
      let (l, k) = entries_from-Memᴰ (id + 1) ops e m in (omega (arith, l), omega (arith, k))

  abbrev call_of : ℕ → Operation V → Entry V
  call_of id op = record {
    kind = call_entry;
    value = op.input;
    id = id;
    time = op.call;
    client_id = op.client_id;
  }

  abbrev return_of : ℕ → Operation V → Entry V
  return_of id op = record {
    kind = return_entry;
    value = op.output;
    id = id;
    time = op.return;
    client_id = op.client_id;
  }

  -- An entry of the id `id` is apart from a return and from the entries of later operations.
  Apart-later :
      (id : ℕ) (ops : List (Operation V)) (c r e : Entry V)
      → c.id ≡ id
      → r.kind ≡ return_entry
      → Memᴰ e (r ∷ entries_from (id + 1) ops)
      → Apart c e
  Apart-later id ops c r e q returns (Memᴰ.head same) (_, k, _) =
      let same_kind = ap (λ z. z.kind) same in absurd (cc (same_kind, returns, k))
  Apart-later id ops c r e q returns (Memᴰ.tail d) (_, _, same) =
      let (l, _) = entries_from-Memᴰ (id + 1) ops e d in omega (arith, l, q, same)

  entries_from-Pairwise : (id : ℕ) (ops : List (Operation V)) → Pairwise Apart (entries_from id ops)
  unfolding entries_from
  entries_from-Pairwise id [] = Pairwise.nil
  entries_from-Pairwise id (op ∷ ops) =
      Pairwise.cons
        (λ e m.
          ∥∥₁_elim m ¬_prop
            (λ d. Apart-later id ops (call_of id op) (return_of id op) e refl refl d))
        (Pairwise.cons (λ e m (k, _, _). absurd (cc k)) (entries_from-Pairwise (id + 1) ops))

  length-entries_from :
      (id : ℕ) (ops : List (Operation V)) → length (entries_from id ops) ≡ 2 * length ops
  unfolding entries_from
  length-entries_from id [] = refl
  length-entries_from id (op ∷ ops) = omega (arith, length-entries_from (id + 1) ops)

  -- The entries that `sort` orders, from the last one on.
  module _ (sort : List (Entry V) → List (Entry V))
      (sorts : (xs : List (Entry V)) → Perm (sort xs) xs) (ops : List (Operation V)) where
    made_perm : Perm (entries_from 0 ops) (reverse (make_entries sort ops))
    unfolding make_entries
    made_perm =
        Perm.symm
          (Perm.trans (reverse_perm (sort (entries_from 0 ops))) (sorts (entries_from 0 ops)))

    make_entries-DistinctCalls : DistinctCalls (reverse (make_entries sort ops))
    make_entries-DistinctCalls = Pairwise-DistinctCalls (reverse (make_entries sort ops)) (
        Perm.pairwise (λ a b. ¬_prop) (λ x y h (k, k', same). h (k', k, sym same)) made_perm
          (entries_from-Pairwise 0 ops))

    length-make_entries : length (reverse (make_entries sort ops)) ≡ 2 * length ops
    length-make_entries = sym (Perm-length made_perm) ∙ length-entries_from 0 ops

    make_entries-IsNumbered : length ops ≤ 2 ^ 64 → IsNumbered (reverse (make_entries sort ops))
    make_entries-IsNumbered small = record {
      numbered = λ a e at.
          let m = ∣ get_elem?-Memᴰ (reverse (make_entries sort ops)) a e at ∣₁ in
          let bound =
            ∥∥₁_elim ((Perm.mem_iff made_perm).1 m) le_prop
              (λ d. (entries_from-Memᴰ 0 ops e d).1) in
          omega (arith, bound, length-make_entries);
      small = omega (arith, small, length-make_entries);
    }

module _ {S V : Type 0} (model : Model S V) (sort : List (Entry V) → List (Entry V)) where
  answer_cases :
      (equal : S → S → Bool) (compute_partial : Bool) (kill : ℕ → Bool) (fuel : ℕ)
      (history : List (Entry V)) (b : Bool) (s' : Search S V)
      → DistinctCalls (reverse history)
      → check_single model equal compute_partial kill fuel history ≡ some (ok (b, s'))
      → (b ≡ false) ⊎ ((calls : Ops) × IsLinearization model history calls s'.state)
  answer_cases equal compute_partial kill fuel history false s' distinct e = inl refl
  answer_cases equal compute_partial kill fuel history true s' distinct e =
      inr (check_single-IsLinearization model equal compute_partial kill fuel history distinct e)

  -- On the entries of recorded operations, at most than 2^64 of them, where `sort` returns a permutation of
  -- its argument, the search ends with an answer and no panic after at most `rounds n n` rounds for n
  -- entries, whatever the flag; and where the answer is true its calls linearize these entries.
  pub make_entries-answered :
      (equal : S → S → Bool) (compute_partial : Bool) (kill : ℕ → Bool) (fuel : ℕ)
      (ops : List (Operation V))
      → ((xs : List (Entry V)) → Perm (sort xs) xs)
      → length ops ≤ 2 ^ 64
      → rounds (2 * length ops) (2 * length ops) < fuel
      → (b : Bool) × (s' : Search S V) × (check_single model equal compute_partial kill fuel
            (make_entries sort ops)
          ≡ some (ok (b, s')))
        × ((b ≡ false)
            ⊎ ((calls : Ops) × IsLinearization model (make_entries sort ops) calls s'.state))
  make_entries-answered equal compute_partial kill fuel ops sorts small enough =
      let distinct = make_entries-DistinctCalls sort sorts ops in
      let (b, s', e) =
        check_single_total model equal compute_partial kill fuel (make_entries sort ops) distinct
          (make_entries-IsNumbered sort sorts ops small)
          (subst (λ n. rounds n n < fuel) (sym (length-make_entries sort sorts ops)) enough) in
      (
        b,
        s',
        e,
        answer_cases equal compute_partial kill fuel (make_entries sort ops) b s' distinct e,
      )
