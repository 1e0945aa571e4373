-- ===== src/Porcupine/Model.antt =====
-- porcupine/model.go and models/kv.go. `V` is the type of inputs and outputs, `S` that of states; a
-- function field that may be nil is an option.
use Prim.Native.String.{◌++◌ as concat}
use text.Mathlib.Text.{◌==◌ as str_eq}
use m2i8t.Prelude.{
  ℕ, String, Bool, true, false, Option, none, some, List, [], ◌∷◌, ◌++◌, map, ◌==◌, if◌then◌else◌,
  eq_nat, eq_string, Dict, empty_dict, update, get_or_zero,
}

pub record Operation (V : Type 0) : Type 0 where
  pub client_id : ℕ
  pub input : V
  pub call : ℕ
  pub output : V
  pub return : ℕ

-- EventKind: CallEvent is false, ReturnEvent is true.
pub record Event (V : Type 0) : Type 0 where
  pub client_id : ℕ
  pub kind : Bool
  pub value : V
  pub id : ℕ

pub record Model (S V : Type 0) : Type 0 where
  pub partition : Option (List (Operation V) → List (List (Operation V)))
  pub partition_event : Option (List (Event V) → List (List (Event V)))
  pub init : S
  pub step : S → V → V → Bool × S
  pub equal : Option (S → S → Bool)

module _ {V : Type 0} where
  unfoldable pub no_partition : List (Operation V) → List (List (Operation V))
  no_partition history = history ∷ []

  unfoldable pub no_partition_event : List (Event V) → List (List (Event V))
  no_partition_event history = history ∷ []

abbrev pub or_default {ℓ} : {A : Type ℓ} → Option A → A → Option A
or_default none d = some d
or_default (some a) d = some a

-- `shallow` is the language's `==` on states, which ShallowEqual uses. The two functions that
-- describe values for the visualization are left out.
unfoldable pub fill_default : {S V : Type 0} → (S → S → Bool) → Model S V → Model S V
unfolding no_partition no_partition_event
fill_default shallow m = record m {
  partition = or_default m.partition no_partition;
  partition_event = or_default m.partition_event no_partition_event;
  equal = or_default m.equal shallow;
}

pub data CheckResult : Type 0 where
  unknown legal illegal : CheckResult

-- models/kv.go: the values of the key/value model. `Op` is 0 for get, 1 for put, 2 for append.
pub data KvValue : Type 0 where
  kv_input : ℕ → String → String → KvValue
  kv_output : String → KvValue

-- KvModel.Step on the value of one key; a value of the wrong type panics in the source, and the
-- checker calls the step with an input and an output.
unfoldable pub kv_step : String → KvValue → KvValue → Bool × String
kv_step st (kv_input op key value) (kv_output out) =
    if op == 0
    then (str_eq out st, st)
    else if op == 1
    then (true, value)
    else (true, concat st value)
kv_step st _ _ = (false, st)

abbrev pub kv_init : String
kv_init = ""

-- The key of an operation's input.
unfoldable pub kv_key : KvValue → String
kv_key (kv_input op key value) = key
kv_key (kv_output out) = ""

-- `m[key] = append(m[key], v)`, and the keys of the map in the order of their first operation.
unfoldable pub kv_group :
    List (Operation KvValue)
    → Dict String (List (Operation KvValue)) × List String
    → Dict String (List (Operation KvValue)) × List String
unfolding kv_key
kv_group [] (m, keys) = (m, keys)
kv_group (v ∷ vs) (m, keys) =
    let key = kv_key v.input in
    kv_group vs (
      update m key (get_or_zero [] m key ++ v ∷ []),
      elim (m key) [ none ↦ keys ++ key ∷ [] | some _ ↦ keys ],
    )

-- `sort` is sort.Strings.
unfoldable pub kv_partition :
    (List String → List String) → List (Operation KvValue) → List (List (Operation KvValue))
unfolding kv_group
kv_partition sort history =
    let (m, keys) = kv_group history (empty_dict, []) in
    map (λ key. get_or_zero [] m key) (sort keys)

unfoldable pub kv_model : (List String → List String) → Model String KvValue
unfolding kv_partition kv_step
kv_model sort = record {
  partition = some (kv_partition sort);
  partition_event = none;
  init = kv_init;
  step = kv_step;
  equal = none;
}
