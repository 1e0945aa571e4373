-- ===== src/Porcupine/Parallel.antt =====
-- porcupine/checker.go: the answers of all partitions together.
use m2i8t.Prelude.{
  ℕ, ◌+◌, Bool, true, false, ◌&&◌, not, Option, none, some, List, [], ◌∷◌, map, leb, if◌then◌else◌,
  length, Outcome, ok, ◌>>=◌, eq_nat, eq_string, of_option,
}
use m2i8t.Porcupine.Model.{
  Operation, Event, Model, CheckResult, unknown, legal, illegal, fill_default,
}
use m2i8t.Porcupine.Entries.{Entry, make_entries, renumber, convert_entries}

-- What checkParallel's select receives: the result of one partition, or the time-out.
pub data Arrival : Type 0 where
  result : Bool → Arrival
  time_out : Arrival

unfoldable pub verdict : Bool → Bool → CheckResult
verdict agree timed_out = if not agree then illegal else if timed_out then unknown else legal

-- The loop of checkParallel over what arrives, with `count` results so far; none is that it waits.
-- The goroutines run check_single; they choose the results and their order.
unfoldable pub receive : Bool → ℕ → List Arrival → Bool → ℕ → Option CheckResult
unfolding verdict
receive compute_info n [] agree count = none
receive compute_info n (result b ∷ rest) agree count =
    if not (agree && b) && not compute_info
    then some (verdict (agree && b) false)
    else if leb n (count + 1)
    then some (verdict (agree && b) false)
    else receive compute_info n rest (agree && b) (count + 1)
receive compute_info n (time_out ∷ rest) agree count = some (verdict agree true)

unfoldable pub check_parallel :
    {V : Type 0} → List (List (Entry V)) → Bool → List Arrival → Option CheckResult
unfolding receive
check_parallel history compute_info arrivals = receive compute_info (length history) arrivals true 0

module _ {V : Type 0} where
  -- The partitions' entries, of which checkEvents and checkOperations take the verdict; a partition
  -- function that fillDefault has left nil cannot be.
  unfoldable pub event_histories :
      {S : Type 0} → Model S V → List (Event V) → Outcome (List (List (Entry V)))
  unfolding renumber convert_entries
  event_histories model history = do
    partition ← of_option model.partition_event
    ok (map (λ sub. convert_entries (renumber sub)) (partition history))

  unfoldable pub operation_histories :
      {S : Type 0}
      → (List (Entry V) → List (Entry V))
      → Model S V
      → List (Operation V)
      → Outcome (List (List (Entry V)))
  unfolding make_entries
  operation_histories sort model history = do
    partition ← of_option model.partition
    ok (map (λ sub. make_entries sort sub) (partition history))

  unfoldable pub check_events :
      {S : Type 0}
      → (S → S → Bool)
      → Model S V
      → List (Event V)
      → Bool
      → List Arrival
      → Outcome (Option CheckResult)
  unfolding fill_default event_histories check_parallel
  check_events shallow model history verbose arrivals = do
    l ← event_histories (fill_default shallow model) history
    ok (check_parallel l verbose arrivals)

  unfoldable pub check_operations :
      {S : Type 0}
      → (List (Entry V) → List (Entry V))
      → (S → S → Bool)
      → Model S V
      → List (Operation V)
      → Bool
      → List Arrival
      → Outcome (Option CheckResult)
  unfolding fill_default operation_histories check_parallel
  check_operations sort shallow model history verbose arrivals = do
    l ← operation_histories sort (fill_default shallow model) history
    ok (check_parallel l verbose arrivals)
