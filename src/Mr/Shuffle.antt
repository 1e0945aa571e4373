-- ===== src/Mr/Shuffle.antt =====
-- mr/worker.go: the values of a key that reach its reduce task.
use text.Mathlib.Text.{◌==◌ as str_eq}
use text.Mathlib.TextEquality.{eq_iff}
use m2i8t.Prelude.{
  ℕ, zero, suc, ◌≤◌, String, ◌≡◌, refl, List, [], ◌∷◌, ◌++◌, arith, if◌then◌else◌, length, eq_nat,
  eq_string,
}
use m2i8t.Mr.Worker.{KeyValue, KeyValues, same_key, group_from, group}

-- The values of a key among a task's entries, in their order.
pub values_of : String → List KeyValue → List String
values_of key [] = []
values_of key (kv ∷ kvs) =
    if str_eq kv.key key then kv.value ∷ values_of key kvs else values_of key kvs

-- The same among groups.
unfoldable pub values_in : String → List KeyValues → List String
values_in key [] = []
values_in key (g ∷ gs) = if str_eq g.key key then g.values ++ values_in key gs else values_in key gs

same_key-values_of :
    (k key : String) (kvs : List KeyValue)
    → values_of key kvs ≡ (
        if str_eq k key
        then (same_key k kvs).0 ++ values_of key (same_key k kvs).1
        else values_of key (same_key k kvs).1)
unfolding same_key values_of
same_key-values_of k key [] = ground arith
same_key-values_of k key (kv ∷ kvs) =
    ground (arith, eq_iff kv.key k, eq_iff k key, eq_iff kv.key key, same_key-values_of k key kvs)

length-same_key : (k : String) (kvs : List KeyValue) → length (same_key k kvs).1 ≤ length kvs
unfolding same_key
length-same_key k [] = omega arith
length-same_key k (kv ∷ kvs) = ground (arith, length-same_key k kvs)

values_in-group_from :
    (fuel : ℕ) (key : String) (kvs : List KeyValue)
    → length kvs ≤ fuel
    → values_in key (group_from fuel kvs) ≡ values_of key kvs
unfolding values_in group_from values_of
values_in-group_from zero key [] h = refl
values_in-group_from zero key (kv ∷ kvs) h = absurd (omega arith)
values_in-group_from (suc fuel) key [] h = refl
values_in-group_from (suc fuel) key (kv ∷ kvs) h =
    let rest : List KeyValue = (same_key kv.key kvs).1 in
    ground (
      arith,
      same_key-values_of kv.key key kvs,
      values_in-group_from fuel key rest (omega (arith, length-same_key kv.key kvs)),
    )

-- Grouping loses no value of a key and keeps their order.
pub values_in-group :
    (key : String) (kvs : List KeyValue) → values_in key (group kvs) ≡ values_of key kvs
unfolding group
values_in-group key kvs = values_in-group_from (length kvs) key kvs (omega arith)
