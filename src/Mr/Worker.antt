-- ===== src/Mr/Worker.antt =====
-- mr/worker.go: what a worker writes for a map task and reads for a reduce task, and the loop of
-- main/mrsequential.go. A file is the sequence of JSON values in it; a missing file holds none.
use Prim.Native.Nat.{bit_xor}
use text.Mathlib.Text.{◌==◌ as str_eq}
use m2i8t.Prelude.{
  ℕ, zero, suc, ◌+◌, ◌*◌, ◌%◌, ◌^◌, String, ◌&&◌, none, some, List, [], ◌∷◌, ◌++◌, map, ltb, ◌==◌,
  if◌then◌else◌, length, eq_nat, eq_string, Dict, empty_dict, update, get_or_zero, bytes,
}

pub record KeyValue : Type 0 where
  pub key : String
  pub value : String

pub record KeyValues : Type 0 where
  pub key : String
  pub values : List String

-- fnv.New32a: the state after the bytes.
fnv32a : ℕ → List ℕ → ℕ
fnv32a h [] = h
fnv32a h (b ∷ bs) = fnv32a (bit_xor h b * 16_777_619 % 2 ^ 32) bs

-- `h & 0x7fffffff` keeps the low 31 bits.
unfoldable pub ihash : String → ℕ
unfolding bytes fnv32a
ihash key = fnv32a 2_166_136_261 (bytes key) % 2 ^ 31

-- The inner loops: the values of the entries with this key at the front, and what follows them.
unfoldable pub same_key : String → List KeyValue → List String × List KeyValue
same_key key [] = ([], [])
same_key key (kv ∷ kvs) =
    let (values, rest) = same_key key kvs in
    if str_eq kv.key key then (kv.value ∷ values, rest) else ([], kv ∷ kvs)

-- The loop over the sorted entries. Each round takes an entry at least, so the length is fuel enough.
unfoldable pub group_from : ℕ → List KeyValue → List KeyValues
unfolding same_key
group_from zero kvs = []
group_from (suc fuel) [] = []
group_from (suc fuel) (kv ∷ kvs) =
    let (values, rest) = same_key kv.key kvs in
    record { key = kv.key; values = kv.value ∷ values } ∷ group_from fuel rest

unfoldable pub group : List KeyValue → List KeyValues
unfolding group_from
group kvs = group_from (length kvs) kvs

-- The files `out-x-y`, by x and y.
abbrev pub Files : Type 0
Files = ℕ → ℕ → List KeyValues

-- os.OpenFile with O_APPEND, and one Encode.
unfoldable pub append_file : ℕ → ℕ → KeyValues → Files → Files
append_file x y kvs files i j = if i == x && j == y then files i j ++ kvs ∷ [] else files i j

-- The writes of a map task: each group goes to the file of its key's hash. `nreduce` is positive: the
-- source panics on a remainder by 0.
unfoldable pub write_groups : ℕ → ℕ → List KeyValues → Files → Files
unfolding append_file
write_groups id nreduce [] files = files
write_groups id nreduce (g ∷ gs) files =
    write_groups id nreduce gs (append_file id (ihash g.key % nreduce) g files)

-- A map task, from the sorted output of the application's map function.
unfoldable pub run_map : ℕ → ℕ → List KeyValue → Files → Files
run_map id nreduce sorted files = write_groups id nreduce (group sorted) files

-- The map `kva` of a reduce task: its entries, and its keys in the order of their first value.
pub record Collected : Type 0 where
  pub entries : Dict String (List String)
  pub keys : List String

abbrev pub nothing : Collected
nothing = record { entries = empty_dict; keys = [] }

-- `kva[key] = append(kva[key], v)`
unfoldable pub add_value : String → String → Collected → Collected
add_value key v c = record {
  entries = update c.entries key (get_or_zero [] c.entries key ++ v ∷ []);
  keys = elim (c.entries key) [ none ↦ c.keys ++ key ∷ [] | some _ ↦ c.keys ];
}

unfoldable pub add_values : String → List String → Collected → Collected
unfolding add_value
add_values key [] c = c
add_values key (v ∷ vs) c = add_values key vs (add_value key v c)

-- The loop over one file.
unfoldable pub read_file : List KeyValues → Collected → Collected
unfolding add_values
read_file [] c = c
read_file (g ∷ gs) c = read_file gs (add_values g.key g.values c)

-- The loop over the `n` files from `out-i-y` on.
unfoldable pub read_files : ℕ → ℕ → ℕ → Files → Collected → Collected
unfolding read_file
read_files zero i y files c = c
read_files (suc n) i y files c = read_files n (i + 1) y files (read_file (files i y) c)

-- os.Remove of the files `out-i-y` for i below `n`.
unfoldable pub remove_files : ℕ → ℕ → Files → Files
remove_files n y files i j = if ltb i n && j == y then [] else files i j

-- A reduce task: the lines of `mr-out-y`, and the files that are left. Each file is removed once it is
-- read, before the next. `sort` is sort.Strings.
unfoldable pub run_reduce :
    (List String → List String)
    → (String → List String → String)
    → ℕ
    → ℕ
    → Files
    → List (String × String) × Files
unfolding read_files remove_files
run_reduce sort reducef nmap y files =
    let c = read_files nmap 0 y files nothing in
    (
      map (λ key. (key, reducef key (get_or_zero [] c.entries key))) (sort c.keys),
      remove_files nmap y files,
    )

-- main/mrsequential.go: the lines of `mr-out-0`, from the sorted entries.
unfoldable pub sequential : (String → List String → String) → List KeyValue → List (String × String)
unfolding group
sequential reducef sorted = map (λ g. (g.key, reducef g.key g.values)) (group sorted)
