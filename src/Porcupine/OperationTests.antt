-- ===== src/Porcupine/OperationTests.antt =====
-- porcupine/checker.go: the checker on the entries of a put and a get that overlap.
use mathlib.Core.List.{Perm}
use mathlib.Core.List.Perm
use text.Mathlib.Text.{◌==◌ as str_eq}
use m2i8t.Prelude.{
  ◌+◌, String, ◌≡◌, refl, ◌⊎◌, Bool, true, false, some, List, [], ◌∷◌, map, arith, if◌then◌else◌,
  ok, eq_nat, eq_string,
}
use m2i8t.Porcupine.Model.{Model, Operation, KvValue, kv_input, kv_output, kv_model}
use m2i8t.Porcupine.Entries.{Entry, less, make_entries}
use m2i8t.Porcupine.Checker.{Search, check_single}
use m2i8t.Porcupine.Linear.{Ops}
use m2i8t.Porcupine.Linearized.{IsLinearization}
use m2i8t.Porcupine.Measure.{rounds}
use m2i8t.Porcupine.Operations.{make_entries-answered}

-- A sort by the time of the entries.
unfoldable insert : Entry KvValue → List (Entry KvValue) → List (Entry KvValue)
insert e [] = e ∷ []
insert e (x ∷ xs) = if less x e then x ∷ insert e xs else e ∷ x ∷ xs

unfoldable insertion_sort : List (Entry KvValue) → List (Entry KvValue)
insertion_sort [] = []
insertion_sort (x ∷ xs) = insert x (insertion_sort xs)

insert-Perm : (e : Entry KvValue) (xs : List (Entry KvValue)) → Perm (insert e xs) (e ∷ xs)
unfolding insert
insert-Perm e [] = Perm.rfl
insert-Perm e (x ∷ xs) =
    elim (less x e) as (λ b. Perm (if b then x ∷ insert e xs else e ∷ x ∷ xs) (e ∷ x ∷ xs)) [
      | true ↦ Perm.trans (Perm.cons x (insert-Perm e xs)) (Perm.swap e x xs)
      | false ↦ Perm.rfl
    ]

insertion_sort-Perm : (xs : List (Entry KvValue)) → Perm (insertion_sort xs) xs
unfolding insertion_sort
insertion_sort-Perm [] = Perm.rfl
insertion_sort-Perm (x ∷ xs) =
    Perm.trans (insert-Perm x (insertion_sort xs)) (Perm.cons x (insertion_sort-Perm xs))

abbrev register : Model String KvValue
register = kv_model (λ keys. keys)

abbrev operations : List (Operation KvValue)
operations =
    record {
      input = kv_input 0 "x" "";
      call = 0;
      output = kv_output "a";
      return = 3;
      client_id = 0;
    }
    ∷ record {
      input = kv_input 1 "x" "a";
      call = 1;
      output = kv_output "";
      return = 2;
      client_id = 1;
    }
    ∷ []

times :
    map (λ (e : Entry KvValue). e.time) (make_entries insertion_sort operations)
    ≡ 0 ∷ 1 ∷ 2 ∷ 3 ∷ []
unfolding make_entries insertion_sort insert less
times = refl

make_entries-answered_example :
    (b : Bool) × (s' : Search String KvValue) × (check_single register str_eq true
        (λ i. false)
        (rounds 4 4 + 1)
        (make_entries insertion_sort operations)
      ≡ some (ok (b, s')))
    × ((b ≡ false)
        ⊎ ((calls : Ops) × IsLinearization register
              (make_entries insertion_sort operations)
              calls
              s'.state))
make_entries-answered_example =
    make_entries-answered register insertion_sort str_eq true (λ i. false) (rounds 4 4 + 1)
      operations insertion_sort-Perm (omega arith) (omega arith)
