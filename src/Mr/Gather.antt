-- ===== src/Mr/Gather.antt =====
-- mr/worker.go: from the map tasks' files to the values that a reduce task collects.
use text.Mathlib.Text.{◌==◌ as str_eq}
use text.Mathlib.TextEquality.{eq_iff}
use mathlib.Core.List.{append_assoc, append-nil}
use m2i8t.Prelude.{
  ℕ, zero, suc, ◌+◌, ◌%◌, ◌≤◌, ◌<◌, String, ◌≡◌, refl, sym, ap, ◌∙◌, inl, inr, ◌&&◌, List, [], ◌∷◌,
  ◌++◌, arith, ltb, leb, ◌==◌, if◌then◌else◌, ==_iff, Bool-cases, eq_nat, eq_string, get_or_zero,
}
use m2i8t.Mr.Worker.{
  KeyValue, KeyValues, ihash, group, Files, append_file, write_groups, run_map, Collected, nothing,
  add_value, add_values, read_file, read_files,
}
use m2i8t.Mr.Shuffle.{values_of, values_in, values_in-group}

-- What a reduce task has collected for a key.
abbrev pub collected : Collected → String → List String
collected c key = get_or_zero [] c.entries key

abbrev pub no_files : Files
no_files i j = []

values_in-append :
    (key : String) (xs ys : List KeyValues)
    → values_in key (xs ++ ys) ≡ values_in key xs ++ values_in key ys
unfolding values_in
values_in-append key [] ys = refl
values_in-append key (g ∷ gs) ys =
    ground (
      arith,
      values_in-append key gs ys,
      append_assoc g.values (values_in key gs) (values_in key ys),
    )

values_in_one :
    (key : String) (g : KeyValues)
    → values_in key (g ∷ []) ≡ (if str_eq g.key key then g.values else [])
unfolding values_in
values_in_one key g = ground (arith, append-nil g.values)

-- The map tasks `i` to `i + n - 1`, each run once.
unfoldable pub run_maps : ℕ → ℕ → ℕ → (ℕ → List KeyValue) → Files → Files
run_maps nreduce zero i input files = files
run_maps nreduce (suc n) i input files =
    run_maps nreduce n (i + 1) input (run_map i nreduce (input i) files)

module _ (key : String) (nreduce : ℕ) where
  at_file : ℕ → ℕ → ℕ → List String → List String
  at_file id i j values = if i == id && j == ihash key % nreduce then values else []

  values_in-append_file :
      (id i j : ℕ) (g : KeyValues) (files : Files)
      → values_in key (append_file id (ihash g.key % nreduce) g files i j)
        ≡ values_in key (files i j) ++ at_file id i j (if str_eq g.key key then g.values else [])
  unfolding append_file at_file
  values_in-append_file id i j g files = ground (
    arith,
    eq_iff g.key key,
    values_in-append key (files i j) (g ∷ []),
    values_in_one key g,
    append-nil (values_in key (files i j)),
  )

  values_in-write_groups :
      (id i j : ℕ) (gs : List KeyValues) (files : Files)
      → values_in key (write_groups id nreduce gs files i j)
        ≡ values_in key (files i j) ++ at_file id i j (values_in key gs)
  unfolding write_groups at_file values_in
  values_in-write_groups id i j [] files = ground (arith, append-nil (values_in key (files i j)))
  values_in-write_groups id i j (g ∷ gs) files = ground (
    arith,
    values_in-write_groups id i j gs (append_file id (ihash g.key % nreduce) g files),
    values_in-append_file id i j g files,
    append-nil (values_in key (files i j)),
    append_assoc (values_in key (files i j)) g.values (values_in key gs),
  )

  values_in-run_map :
      (id i j : ℕ) (kvs : List KeyValue) (files : Files)
      → values_in key (run_map id nreduce kvs files i j)
        ≡ values_in key (files i j) ++ at_file id i j (values_of key kvs)
  unfolding run_map
  values_in-run_map id i j kvs files =
      values_in-write_groups id i j (group kvs) files
      ∙ ap (λ vs. values_in key (files i j) ++ at_file id i j vs) (values_in-group key kvs)

  values_in-run_maps :
      (n i k j : ℕ) (input : ℕ → List KeyValue) (files : Files)
      → values_in key (run_maps nreduce n i input files k j)
        ≡ values_in key (files k j)
          ++ (if (leb i k && ltb k (i + n)) && j == ihash key % nreduce
              then values_of key (input k)
              else [])
  unfolding run_maps at_file
  values_in-run_maps zero i k j input files = ground (arith, append-nil (values_in key (files k j)))
  values_in-run_maps (suc n) i k j input files = elim (Bool-cases (k == i)) [
    | inl e ↦
        let same : k ≡ i = (==_iff k i).0 e in
        rw same (
          ground (
            arith,
            values_in-run_maps n (i + 1) i j input (run_map i nreduce (input i) files),
            values_in-run_map i i j (input i) files,
            append-nil (values_in key (files i j)),
            append-nil (values_in key (run_map i nreduce (input i) files i j)),
          ))
    | inr ne ↦ ground (
      arith,
      ne,
      values_in-run_maps n (i + 1) k j input (run_map i nreduce (input i) files),
      values_in-run_map i k j (input i) files,
      append-nil (values_in key (files k j)),
    )
  ]

  collected-add_values :
      (k : String) (vs : List String) (c : Collected)
      → collected (add_values k vs c) key ≡ collected c key ++ (if str_eq k key then vs else [])
  unfolding add_values
  collected-add_values k [] c = ground (arith, append-nil (collected c key))
  collected-add_values k (v ∷ vs) c = ground (
    arith,
    eq_iff k key,
    collected-add_values k vs (add_value k v c),
    append_assoc (collected c key) (v ∷ []) vs,
  )

  collected-read_file :
      (gs : List KeyValues) (c : Collected)
      → collected (read_file gs c) key ≡ collected c key ++ values_in key gs
  unfolding read_file values_in
  collected-read_file [] c = sym (append-nil (collected c key))
  collected-read_file (g ∷ gs) c = ground (
    arith,
    collected-read_file gs (add_values g.key g.values c),
    collected-add_values g.key g.values c,
    append_assoc (collected c key) g.values (values_in key gs),
    append-nil (collected c key),
  )

  -- The lists `f i`, …, `f (i + n - 1)`, one after the other.
  pub gather : ℕ → ℕ → (ℕ → List String) → List String
  gather zero i f = []
  gather (suc n) i f = f i ++ gather n (i + 1) f

  collected-read_files :
      (n i y : ℕ) (files : Files) (c : Collected)
      → collected (read_files n i y files c) key
        ≡ collected c key ++ gather n i (λ j. values_in key (files j y))
  unfolding read_files gather
  collected-read_files zero i y files c = sym (append-nil (collected c key))
  collected-read_files (suc n) i y files c =
      collected-read_files n (i + 1) y files (read_file (files i y) c)
      ∙ rw (collected-read_file (files i y) c, append_assoc)

  gather_ext :
      (n i : ℕ) (f g : ℕ → List String)
      → ((j : ℕ) → i ≤ j → j < i + n → f j ≡ g j)
      → gather n i f ≡ gather n i g
  unfolding gather
  gather_ext zero i f g h = refl
  gather_ext (suc n) i f g h =
      rw (h i (omega arith) (omega arith))
        (ap (λ vs. g i ++ vs) (gather_ext n (i + 1) f g (λ j p q. h j (omega arith) (omega arith))))

  gather_none : (n i : ℕ) → gather n i (λ j. []) ≡ []
  unfolding gather
  gather_none zero i = refl
  gather_none (suc n) i = gather_none n (i + 1)

  -- With every map task run once, on files that start empty: the reduce task `y` of the key's hash
  -- collects exactly the key's values of all tasks, in the order of the tasks and of their entries,
  -- and any other reduce task collects none of them.
  pub collected_all :
      (nmap y : ℕ) (input : ℕ → List KeyValue)
      → collected (read_files nmap 0 y (run_maps nreduce nmap 0 input no_files) nothing) key
        ≡ (if y == ihash key % nreduce then gather nmap 0 (λ i. values_of key (input i)) else [])
  unfolding values_in
  collected_all nmap y input =
      collected-read_files nmap 0 y (run_maps nreduce nmap 0 input no_files) nothing
      ∙ gather_ext nmap 0 _ (λ j. if y == ihash key % nreduce then values_of key (input j) else [])
          (λ j p q. values_in-run_maps nmap 0 j y input no_files ∙ ground arith)
      ∙ elim (Bool-cases (y == ihash key % nreduce)) [
        | inl mine ↦ rw mine
        | inr other ↦ rw other (gather_none nmap 0)
      ]

  -- A map task that is run again, as after a time-out, appends its groups once more: its reduce task
  -- then finds the key's values twice.
  pub rerun_duplicates :
      (id : ℕ) (kvs : List KeyValue) (files : Files)
      → values_in key
          (run_map id nreduce kvs (run_map id nreduce kvs files) id (ihash key % nreduce))
        ≡ (values_in key (files id (ihash key % nreduce)) ++ values_of key kvs) ++ values_of key kvs
  unfolding at_file
  rerun_duplicates id kvs files = ground (
    arith,
    values_in-run_map id id (ihash key % nreduce) kvs (run_map id nreduce kvs files),
    values_in-run_map id id (ihash key % nreduce) kvs files,
  )
