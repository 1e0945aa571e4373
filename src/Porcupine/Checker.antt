-- ===== src/Porcupine/Checker.antt =====
-- porcupine/checker.go: the search for a linearization of one partition.
use mathlib.Core.List.{reverse}
use m2i8t.Prelude.{
  ℕ, zero, suc, ◌-◌, ◌/◌, ◌%◌, ◌^◌, Bool, true, false, ◌&&◌, not, Option, none, some, List, [], ◌∷◌,
  ◌++◌, ltb, if◌then◌else◌, length, replicate, Outcome, ok, panic, ◌>>=◌, index, store, eq_nat,
  eq_string, Dict, empty_dict, update, get_or_zero, of_option, ℤ, pos, negsuc, minus_one,
}
use m2i8t.Porcupine.Model.{Model}
use m2i8t.Porcupine.Bitset.{Bitset, new_bitset, clone, set_bit, clear_bit, hash, bitset_equals}
use m2i8t.Porcupine.Entries.{Entry}
use m2i8t.Porcupine.Links.{
  Heap, deref, new_node, insert_before, length_from, lift, unlift, link_entries,
}

pub record CacheEntry (S : Type 0) : Type 0 where
  pub linearized : Bitset
  pub state : S

-- A call and the state before it.
pub record CallsEntry (S : Type 0) : Type 0 where
  pub entry : ℕ
  pub state : S

-- The variables of checkSingle. `calls` is a stack with its top first; the source's slice has its top
-- last.
pub record Search (S V : Type 0) : Type 0 where
  pub heap : Heap V
  pub entry : Option ℕ
  pub state : S
  pub linearized : Bitset
  pub cache : Dict ℕ (List (CacheEntry S))
  pub calls : List (CallsEntry S)
  pub longest : List (Option (List ℕ))

-- The conversion of an int to a uint.
unfoldable pub as_uint : ℤ → ℕ
as_uint (pos n) = n % 2 ^ 64
as_uint (negsuc n) = (2 ^ 64 - suc n % 2 ^ 64) % 2 ^ 64

-- The int as an index of a slice: a negative one is out of range.
unfoldable pub as_index : ℤ → Outcome ℕ
as_index (pos n) = ok n
as_index (negsuc n) = panic

module _ {S : Type 0} where
  unfoldable pub among : (S → S → Bool) → List (CacheEntry S) → CacheEntry S → Bool
  unfolding bitset_equals
  among equal [] e = false
  among equal (elem ∷ rest) e =
      if bitset_equals e.linearized elem.linearized && equal e.state elem.state
      then true
      else among equal rest e

  -- `equal` is Model.Equal, which fillDefault has set.
  unfoldable pub cache_contains :
      (S → S → Bool) → Dict ℕ (List (CacheEntry S)) → CacheEntry S → Bool
  unfolding among hash
  cache_contains equal cache e = among equal (get_or_zero [] cache (hash e.linearized)) e

-- The loop over `calls` that notes a longer prefix.
unfoldable pub note_longest :
    List ℕ → List ℕ → List (Option (List ℕ)) → Outcome (List (Option (List ℕ)))
note_longest seq [] longest = ok longest
note_longest seq (i ∷ rest) longest = do
  old ← index longest i
  let longer : Bool = elim old [ none ↦ true | some l ↦ ltb (length l) (length seq) ]
  now ← if longer then store longest i (some seq) else ok longest
  note_longest seq rest now

-- What a round of the loop, from the test of `kill` on, leads to.
pub data Round (S V : Type 0) : Type 0 where
  again : Search S V → Round S V
  answer : Bool → Search S V → Round S V

module _ {V : Type 0} where
  abbrev pub empty_heap : Heap V
  empty_heap = record {
    value = λ n. none;
    match_of = λ n. none;
    id = λ n. pos 0;
    next = λ n. none;
    prev = λ n. none;
    fresh = 0;
  }

  unfoldable pub make_linked_entries : List (Entry V) → Heap V × Option ℕ
  unfolding link_entries
  make_linked_entries entries = link_entries (reverse entries) empty_heap empty_dict none

module _ {S V : Type 0} where
  -- The ids of the calls, in the order they were made.
  unfoldable pub ids : Heap V → List (CallsEntry S) → Outcome (List ℕ)
  ids h [] = ok []
  ids h (c ∷ cs) = do seq ← ids h cs; i ← as_index (h.id c.entry); ok (seq ++ i ∷ [])

  -- The branch of a call that the model accepts.
  unfoldable pub try_call : (S → S → Bool) → ℕ → ℕ → S → Search S V → Outcome (Round S V)
  unfolding clone set_bit cache_contains
  try_call equal head n new_state s = do
    new_linearized ← set_bit (clone s.linearized) (as_uint (s.heap.id n))
    let new_entry : CacheEntry S = record { linearized = new_linearized; state = new_state }
    let fresh : Bool = not (cache_contains equal s.cache new_entry)
    (if fresh
        then (do
          let key = hash new_linearized
          now ← set_bit s.linearized (as_uint (s.heap.id n))
          h ← lift n s.heap
          ok (
              again record s {
                cache = update s.cache key (get_or_zero [] s.cache key ++ new_entry ∷ []);
                calls = record { entry = n; state = s.state } ∷ s.calls;
                state = new_state;
                linearized = now;
                heap = h;
                entry = h.next head;
              }))
        else ok (again record s { entry = s.heap.next n }))

  -- The longest linearizations, with the calls so far noted where they are longer.
  abbrev noted : Search S V → Outcome (List (Option (List ℕ)))
  noted s = do seq ← ids s.heap s.calls; note_longest seq seq s.longest

  -- The branch of a return entry: the last call is undone.
  unfoldable pub backtrack : Bool → Search S V → Outcome (Round S V)
  unfolding ids note_longest clear_bit unlift
  backtrack compute_partial s = elim s.calls [
    | [] ↦ ok (answer false s)
    | top ∷ rest ↦ do
      longest ← if compute_partial then noted s else ok s.longest
      now ← clear_bit s.linearized (as_uint (s.heap.id top.entry))
      h ← unlift top.entry s.heap
      ok (
          again record s {
            heap = h;
            entry = h.next top.entry;
            state = top.state;
            linearized = now;
            calls = rest;
            longest = longest;
          })
  ]

  -- The end of the loop: every operation's longest linearization is the one found.
  unfoldable pub complete : Search S V → Outcome (Round S V)
  complete s = do
    seq ← ids s.heap s.calls
    ok (answer true record s { longest = replicate (length s.longest) (some seq) })

  unfoldable pub check_round :
      Model S V → (S → S → Bool) → Bool → ℕ → Bool → Search S V → Outcome (Round S V)
  check_round model equal compute_partial head kill s = elim (s.heap.next head) [
    | none ↦ complete s
    | some first ↦ if kill then ok (answer false s) else (do
      n ← deref s.entry
      elim (s.heap.match_of n) [
        | none ↦ backtrack compute_partial s
        | some m ↦ do
          input ← of_option (s.heap.value n)
          output ← of_option (s.heap.value m)
          let (accepted, new_state) = model.step s.state input output
          (if accepted
              then try_call equal head n new_state s
              else ok (again record s { entry = s.heap.next n }))
      ])
  ]

  -- `kill i` is what the i-th round reads of the flag; none is that the fuel has run out.
  unfoldable pub check_loop :
      Model S V
      → (S → S → Bool)
      → Bool
      → ℕ
      → (ℕ → Bool)
      → ℕ
      → Search S V
      → Option (Outcome (Bool × Search S V))
  check_loop model equal compute_partial head kill zero s = none
  check_loop model equal compute_partial head kill (suc fuel) s =
      elim (check_round model equal compute_partial head (kill fuel) s) [
        | panic ↦ some panic
        | ok (answer b s') ↦ some (ok (b, s'))
        | ok (again s') ↦ check_loop model equal compute_partial head kill fuel s'
      ]

  -- The state before the loop, and the head entry.
  unfoldable pub start : Model S V → List (Entry V) → ℕ × Search S V
  unfolding make_linked_entries new_node insert_before length_from
  start model history =
      let (h, entry) = make_linked_entries history in
      let n = length_from h.fresh entry h / 2 in
      let (head, h₁) = new_node none none minus_one h in
      (
        head,
        record {
          heap = insert_before head entry h₁;
          entry = entry;
          state = model.init;
          linearized = new_bitset n;
          cache = empty_dict;
          calls = [];
          longest = replicate n none;
        },
      )

  unfoldable pub check_single :
      Model S V
      → (S → S → Bool)
      → Bool
      → (ℕ → Bool)
      → ℕ
      → List (Entry V)
      → Option (Outcome (Bool × Search S V))
  unfolding start check_loop
  check_single model equal compute_partial kill fuel history =
      let (head, s) = start model history in check_loop model equal compute_partial head kill fuel s
