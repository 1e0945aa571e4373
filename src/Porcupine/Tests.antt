-- ===== src/Porcupine/Tests.antt =====
-- porcupine/checker.go: the checker on a put and a get that overlap.
use mathlib.Core.List.{reverse}
use text.Mathlib.Text.{◌==◌ as str_eq}
use m2i8t.Prelude.{
  ℕ, zero, suc, ◌+◌, ◌<◌, String, ◌≡◌, refl, ◌↔◌, ◌⊎◌, Bool, true, false, Option, none, some, List,
  [], ◌∷◌, ◌++◌, map, arith, ◌==◌, if◌then◌else◌, get_elem?, replicate, Outcome, ok, panic, store,
  eq_nat, eq_string,
}
use m2i8t.Porcupine.Renumber.{HasId, renamed, renumber-renamed}
use m2i8t.Porcupine.Model.{kv_model, Event, Model, KvValue, kv_input, kv_output, kv_step, legal}
use m2i8t.Porcupine.Entries.{renumber, Entry}
use m2i8t.Porcupine.Links.{Heap, lift, unlift}
use m2i8t.Porcupine.Bitset.{Bitset, new_bitset, set_bit, clear_bit, get_bit}
use m2i8t.Porcupine.Checker.{
  check_round, try_call, as_uint, complete, ids, as_index, Search, start, check_single,
}
use m2i8t.Porcupine.Parallel.{Arrival, result, time_out, check_parallel}
use m2i8t.Porcupine.Relink.{IsLinked, SameLinks, unlift-lift}
use m2i8t.Porcupine.Sound.{Found, check_single-Found}
use m2i8t.Porcupine.Members.{IsWords, new_bitset-IsWords, bit_updates}
use m2i8t.Porcupine.Linear.{Ops}
use m2i8t.Porcupine.Linearized.{DistinctCalls, IsLinearization, check_single-IsLinearization}
use m2i8t.Porcupine.Measure.{rounds}
use m2i8t.Porcupine.Total.{IsNumbered, check_single_total}
use m2i8t.Porcupine.Verdict.{check_parallel-legal}

abbrev register : Model String KvValue
register = kv_model (λ keys. keys)

abbrev history : List (Entry KvValue)
history =
    record { kind = false; value = kv_input 0 "x" ""; id = 0; time = 0; client_id = 0 }
    ∷ record { kind = false; value = kv_input 1 "x" "a"; id = 1; time = 1; client_id = 1 }
    ∷ record { kind = true; value = kv_output ""; id = 1; time = 2; client_id = 1 }
    ∷ record { kind = true; value = kv_output "a"; id = 0; time = 3; client_id = 0 }
    ∷ []

-- The get is tried first, in vain; the put, then the get, are the linearization.
abbrev run : Option (Outcome (Bool × Search String KvValue))
run = check_single register str_eq true (λ i. false) 20 history

abbrev searched : Option (Outcome (Bool × Search String KvValue)) → Search String KvValue
searched none = (start register history).1
searched (some panic) = (start register history).1
searched (some (ok (b, s))) = s

run_lem : run ≡ some (ok (true, searched run))
unfolding check_single check_round kv_step kv_model try_call new_bitset as_uint store lift complete
    ids as_index
run_lem = refl

abbrev events : List (Event KvValue)
events =
    record { client_id = 0; kind = false; value = kv_input 0 "x" ""; id = 7 }
    ∷ record { client_id = 1; kind = false; value = kv_input 1 "x" "a"; id = 4 }
    ∷ record { client_id = 1; kind = true; value = kv_output ""; id = 4 }
    ∷ record { client_id = 0; kind = true; value = kv_output "a"; id = 7 }
    ∷ []

-- The list of the history, and the first entry with its match: the put, at address 2, is the second.
abbrev linked : Heap KvValue
linked = (start register history).1.heap

nexts :
    map (λ k. linked.next k) (0 ∷ 1 ∷ 2 ∷ 3 ∷ 4 ∷ 5 ∷ [])
    ≡ none ∷ some 0 ∷ some 1 ∷ some 2 ∷ some 3 ∷ none ∷ []
unfolding start
nexts = refl

linked-IsLinked : IsLinked linked 3 0 4 2 1
unfolding start
linked-IsLinked = record {
  matched = refl;
  prev_entry = refl;
  next_entry = refl;
  prev_match = refl;
  to_entry = refl;
  from_entry = refl;
  to_match = refl;
  from_match = λ r e. absurd (cc e);
  other = λ e. omega arith;
  not_self = λ e. omega arith;
  before = λ e. omega arith;
  before_next = λ e. omega arith;
  match_not_self = λ e. omega arith;
}

unlift-lift_example :
    (h' h'' : Heap KvValue) × (lift 3 linked ≡ ok h')
    × (unlift 3 h' ≡ ok h'')
    × SameLinks linked h''
unlift-lift_example = unlift-lift linked 3 0 4 2 1 linked-IsLinked

renumber-renamed_example :
    (f : ℕ → ℕ) × (renumber events ≡ renamed f events)
    × ((x y : ℕ) → HasId x events → HasId y events → f x ≡ f y → x ≡ y)
renumber-renamed_example = renumber-renamed events

check_parallel-legal_example :
    (check_parallel (history ∷ history ∷ []) false (result true ∷ result true ∷ time_out ∷ [])
      ≡ some legal)
    ↔ ((rest : List Arrival) × (result true ∷ result true ∷ time_out ∷ []
          ≡ replicate 2 (result true) ++ rest))
check_parallel-legal_example =
    check_parallel-legal history (history ∷ []) false (result true ∷ result true ∷ time_out ∷ [])

check_single-Found_example : Found register (start register history).0 (searched run)
check_single-Found_example = check_single-Found register str_eq true (λ i. false) 20 history run_lem

call_at :
    (a : ℕ) (e : Entry KvValue)
    → get_elem? (reverse history) a ≡ some e
    → e.kind ≡ false
    → ((a ≡ 2) × (e.id ≡ 1)) ⊎ ((a ≡ 3) × (e.id ≡ 0))
call_at zero e at k = absurd (ground (arith, at, k))
call_at (suc zero) e at k = absurd (ground (arith, at, k))
call_at (suc (suc zero)) e at k = ground (arith, at)
call_at (suc (suc (suc zero))) e at k = ground (arith, at)
call_at (suc (suc (suc (suc a)))) e at k = absurd (ground (arith, at))

history_distinct : DistinctCalls (reverse history)
history_distinct a b e e' at at' k k' same =
    ground (arith, call_at a e at k, call_at b e' at' k', same)

check_single-IsLinearization_example :
    (ops : Ops) × IsLinearization register history ops (searched run).state
check_single-IsLinearization_example =
    check_single-IsLinearization register str_eq true (λ i. false) 20 history history_distinct
      run_lem

history_numbered : IsNumbered (reverse history)
history_numbered = record { numbered = λ a e at. id_at a e at; small = omega arith }
  where
    id_at : (a : ℕ) (e : Entry KvValue) → get_elem? (reverse history) a ≡ some e → e.id < 2
    id_at zero e at = ground (arith, at)
    id_at (suc zero) e at = ground (arith, at)
    id_at (suc (suc zero)) e at = ground (arith, at)
    id_at (suc (suc (suc zero))) e at = ground (arith, at)
    id_at (suc (suc (suc (suc a)))) e at = absurd (ground (arith, at))

check_single_total_example :
    (b : Bool) × (s' : Search String KvValue) × (check_single register str_eq true
        (λ i. false)
        (rounds 4 4 + 1)
        history
      ≡ some (ok (b, s')))
check_single_total_example =
    check_single_total register str_eq true (λ i. false) (rounds 4 4 + 1) history history_distinct
      history_numbered (omega arith)

bit_updates_example :
    ((b' : Bitset) × (set_bit (new_bitset 70) 69 ≡ ok b')
      × IsWords b'
      × ((j : ℕ) → get_bit b' j ≡ (if 69 == j then ok true else get_bit (new_bitset 70) j)))
    × ((b' : Bitset) × (clear_bit (new_bitset 70) 69 ≡ ok b')
        × IsWords b'
        × ((j : ℕ) → get_bit b' j ≡ (if 69 == j then ok false else get_bit (new_bitset 70) j)))
bit_updates_example =
    bit_updates (new_bitset 70) 69 (new_bitset-IsWords 70) (unfold new_bitset in omega arith)
