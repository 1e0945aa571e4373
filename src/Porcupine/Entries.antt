-- ===== src/Porcupine/Entries.antt =====
-- porcupine/checker.go: entries, from operations or from renumbered events.
use m2i8t.Prelude.{
  ℕ, ◌+◌, Bool, true, false, none, some, List, [], ◌∷◌, ltb, eq_nat, eq_string, Dict, empty_dict,
  update,
}
use m2i8t.Porcupine.Model.{Operation, Event}

-- entryKind: callEntry is false, returnEntry is true.
abbrev pub call_entry : Bool
call_entry = false

abbrev pub return_entry : Bool
return_entry = true

pub record Entry (V : Type 0) : Type 0 where
  pub kind : Bool
  pub value : V
  pub id : ℕ
  pub time : ℕ
  pub client_id : ℕ

module _ {V : Type 0} where
  unfoldable pub less : Entry V → Entry V → Bool
  less a b = ltb a.time b.time

  -- The loop of makeEntries, from the counter `id` on.
  unfoldable pub entries_from : ℕ → List (Operation V) → List (Entry V)
  entries_from id [] = []
  entries_from id (elem ∷ history) =
      record {
        kind = call_entry;
        value = elem.input;
        id = id;
        time = elem.call;
        client_id = elem.client_id;
      }
      ∷ record {
        kind = return_entry;
        value = elem.output;
        id = id;
        time = elem.return;
        client_id = elem.client_id;
      }
      ∷ entries_from (id + 1) history

  -- `sort` is sort.Sort by `less`.
  unfoldable pub make_entries :
      (List (Entry V) → List (Entry V)) → List (Operation V) → List (Entry V)
  unfolding entries_from
  make_entries sort history = sort (entries_from 0 history)

  -- The loop of renumber: the map of the ids seen, and the next id.
  unfoldable pub renumber_from : Dict ℕ ℕ → ℕ → List (Event V) → List (Event V)
  renumber_from m id [] = []
  renumber_from m id (v ∷ vs) = elim (m v.id) [
    | some r ↦ record v { id = r } ∷ renumber_from m id vs
    | none ↦ record v { id = id } ∷ renumber_from (update m v.id id) (id + 1) vs
  ]

  unfoldable pub renumber : List (Event V) → List (Event V)
  unfolding renumber_from
  renumber events = renumber_from empty_dict 0 events

  -- The loop of convertEntries; the index serves as the time.
  unfoldable pub convert_from : ℕ → List (Event V) → List (Entry V)
  convert_from i [] = []
  convert_from i (elem ∷ events) =
      record {
        kind = elem.kind;
        value = elem.value;
        id = elem.id;
        time = i;
        client_id = elem.client_id;
      }
      ∷ convert_from (i + 1) events

  unfoldable pub convert_entries : List (Event V) → List (Entry V)
  unfolding convert_from
  convert_entries events = convert_from 0 events
