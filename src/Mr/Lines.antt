-- ===== src/Mr/Lines.antt =====
-- mr/worker.go: the lines that a reduce task writes.
use mathlib.Core.List.{Memᴰ}
use text.Mathlib.Text.{◌==◌ as str_eq}
use text.Mathlib.TextEquality.{eq_iff}
use m2i8t.Prelude.{
  ℕ, zero, suc, ◌+◌, ◌%◌, String, ◌≡◌, refl, sym, ap, ◌∙◌, subst, ◌≢◌, ◌↔◌, ◌⊎◌, inl, inr, true,
  false, none, some, List, [], ◌∷◌, ◌++◌, map, ◌==◌, if◌then◌else◌, ==_iff, Bool-cases,
  Option-cases, eq_nat, eq_string, update, update_self, update_ne, get_or_zero,
}
use m2i8t.Mr.Worker.{
  KeyValue, KeyValues, Files, Collected, nothing, add_value, add_values, read_file, read_files,
  run_reduce, ihash,
}
use m2i8t.Mr.Gather.{run_maps, gather, collected, no_files, collected_all}
use m2i8t.Mr.Shuffle.{values_of}

-- The keys are those that have values, and each of them has one at least.
record IsKeyed (c : Collected) : Type 0 where
  listed : (k : String) → Memᴰ k c.keys → c.entries k ≢ none
  lists : (k : String) → c.entries k ≢ none → Memᴰ k c.keys
  filled : (k : String) → c.entries k ≢ some []

Memᴰ-last : {A : Type 0} (x : A) (xs : List A) → Memᴰ x (xs ++ x ∷ [])
Memᴰ-last x [] = Memᴰ.head refl
Memᴰ-last x (y ∷ ys) = Memᴰ.tail (Memᴰ-last x ys)

Memᴰ-append_left : {A : Type 0} (x y : A) (xs : List A) → Memᴰ x xs → Memᴰ x (xs ++ y ∷ [])
Memᴰ-append_left x y (z ∷ zs) (Memᴰ.head e) = Memᴰ.head e
Memᴰ-append_left x y (z ∷ zs) (Memᴰ.tail m) = Memᴰ.tail (Memᴰ-append_left x y zs m)
Memᴰ-append_left x y [] m = elim m [ ]

Memᴰ-append_cases :
    {A : Type 0} (x y : A) (xs : List A) → Memᴰ x (xs ++ y ∷ []) → Memᴰ x xs ⊎ (x ≡ y)
Memᴰ-append_cases x y [] (Memᴰ.head e) = inr e
Memᴰ-append_cases x y [] (Memᴰ.tail m) = elim m [ ]
Memᴰ-append_cases x y (z ∷ zs) (Memᴰ.head e) = inl (Memᴰ.head e)
Memᴰ-append_cases x y (z ∷ zs) (Memᴰ.tail m) = elim (Memᴰ-append_cases x y zs m) [
  | inl a ↦ inl (Memᴰ.tail a)
  | inr e ↦ inr e
]

append_last≢[] : (vs : List String) (v : String) → vs ++ v ∷ [] ≢ []
append_last≢[] [] v e = absurd (cc e)
append_last≢[] (w ∷ ws) v e = absurd (cc e)

entry_cases :
    (key v : String) (c : Collected) (k : String)
    → ((k ≡ key) × (vs : List String) × ((add_value key v c).entries k ≡ some (vs ++ v ∷ [])))
      ⊎ ((k ≢ key) × ((add_value key v c).entries k ≡ c.entries k))
unfolding add_value
entry_cases key v c k =
    let vs = get_or_zero [] c.entries key in
    elim (Bool-cases (str_eq k key)) [
      | inl same ↦
          let q = (eq_iff k key).0 same in
          inl (
            q,
            vs,
            ap (update c.entries key (vs ++ v ∷ [])) q ∙ update_self c.entries key (vs ++ v ∷ []),
          )
      | inr other ↦
          let ne : k ≢ key = λ e. absurd (cc (other, (eq_iff k key).1 e)) in
          inr (ne, update_ne c.entries key k (vs ++ v ∷ []) (λ e. ne (sym e)))
    ]

keys_cases :
    (key v : String) (c : Collected)
    → ((c.entries key ≡ none) × ((add_value key v c).keys ≡ c.keys ++ key ∷ []))
      ⊎ ((c.entries key ≢ none) × ((add_value key v c).keys ≡ c.keys))
unfolding add_value
keys_cases key v c = elim (Option-cases (c.entries key)) [
  | inl missing ↦ inl (missing, rw missing refl)
  | inr (vs, there) ↦ inr (λ e. absurd (cc (e, there)), rw there refl)
]

add_value-IsKeyed : (key v : String) (c : Collected) → IsKeyed c → IsKeyed (add_value key v c)
add_value-IsKeyed key v c g = record {
  listed = λ k m e. elim (entry_cases key v c k) [
    | inl (_, vs, q) ↦ absurd (cc (e, q))
    | inr (ne, q) ↦ elim (keys_cases key v c) [
      | inl (_, p) ↦ elim (Memᴰ-append_cases k key c.keys (subst (Memᴰ k) p m)) [
        | inl a ↦ g.listed k a (sym q ∙ e)
        | inr same ↦ ne same
      ]
      | inr (_, p) ↦ g.listed k (subst (Memᴰ k) p m) (sym q ∙ e)
    ]
  ];
  lists = λ k there. elim (keys_cases key v c) [
    | inl (_, p) ↦ subst (Memᴰ k) (sym p) (elim (entry_cases key v c k) [
      | inl (same, _, _) ↦
          subst (λ z. Memᴰ z (c.keys ++ key ∷ [])) (sym same) (Memᴰ-last key c.keys)
      | inr (_, q) ↦ Memᴰ-append_left k key c.keys (g.lists k (λ e. there (q ∙ e)))
    ])
    | inr (old, p) ↦ subst (Memᴰ k) (sym p) (elim (entry_cases key v c k) [
      | inl (same, _, _) ↦ subst (λ z. Memᴰ z c.keys) (sym same) (g.lists key old)
      | inr (_, q) ↦ g.lists k (λ e. there (q ∙ e))
    ])
  ];
  filled = λ k e. elim (entry_cases key v c k) [
    | inl (_, vs, q) ↦ append_last≢[] vs v (cc (e, q))
    | inr (_, q) ↦ g.filled k (sym q ∙ e)
  ];
}

add_values-IsKeyed :
    (key : String) (vs : List String) (c : Collected) → IsKeyed c → IsKeyed (add_values key vs c)
unfolding add_values
add_values-IsKeyed key [] c g = g
add_values-IsKeyed key (v ∷ vs) c g =
    add_values-IsKeyed key vs (add_value key v c) (add_value-IsKeyed key v c g)

read_file-IsKeyed : (gs : List KeyValues) (c : Collected) → IsKeyed c → IsKeyed (read_file gs c)
unfolding read_file
read_file-IsKeyed [] c g = g
read_file-IsKeyed (x ∷ xs) c g =
    read_file-IsKeyed xs (add_values x.key x.values c) (add_values-IsKeyed x.key x.values c g)

read_files-IsKeyed :
    (n i y : ℕ) (files : Files) (c : Collected) → IsKeyed c → IsKeyed (read_files n i y files c)
unfolding read_files
read_files-IsKeyed zero i y files c g = g
read_files-IsKeyed (suc n) i y files c g =
    read_files-IsKeyed n (i + 1) y files (read_file (files i y) c)
      (read_file-IsKeyed (files i y) c g)

nothing-IsKeyed : IsKeyed nothing
nothing-IsKeyed = record {
  listed = λ k m. elim m [ ];
  lists = λ k ne. absurd (ne refl);
  filled = λ k e. absurd (cc e);
}

IsKeyed-collected : (c : Collected) (k : String) → IsKeyed c → Memᴰ k c.keys ↔ (collected c k ≢ [])
IsKeyed-collected c k g = (
  λ m e. elim (Option-cases (c.entries k)) [
    | inl missing ↦ g.listed k m missing
    | inr (vs, there) ↦
        g.filled k (there ∙ ap some (sym (ap (λ o. elim o [ none ↦ [] | some v ↦ v ]) there) ∙ e))
  ],
  λ some_value. g.lists k (λ e. some_value (ap (λ o. elim o [ none ↦ [] | some v ↦ v ]) e)),
)

Memᴰ-map :
    {A B : Type 0} (f : A → B) (xs : List A) (b : B)
    → Memᴰ b (map f xs)
    → (a : A) × Memᴰ a xs × (b ≡ f a)
Memᴰ-map f [] b m = elim m [ ]
Memᴰ-map f (x ∷ xs) b (Memᴰ.head e) = (x, Memᴰ.head refl, e)
Memᴰ-map f (x ∷ xs) b (Memᴰ.tail m) =
    let (a, there, e) = Memᴰ-map f xs b m in (a, Memᴰ.tail there, e)

map-Memᴰ : {A B : Type 0} (f : A → B) (xs : List A) (a : A) → Memᴰ a xs → Memᴰ (f a) (map f xs)
map-Memᴰ f (x ∷ xs) a (Memᴰ.head e) = Memᴰ.head (ap f e)
map-Memᴰ f (x ∷ xs) a (Memᴰ.tail m) = Memᴰ.tail (map-Memᴰ f xs a m)
map-Memᴰ f [] a m = elim m [ ]

-- Sorting adds no key and loses none.
abbrev pub KeepsMembers : (List String → List String) → Type 0
KeepsMembers sort = (xs : List String) (k : String) → Memᴰ k (sort xs) ↔ Memᴰ k xs

module _ (sort : List String → List String) (reducef : String → List String → String)
    (nreduce nmap y : ℕ) (input : ℕ → List KeyValue) where
  -- All values of a key in the map tasks' pairs, in the order of the tasks.
  abbrev pub all_values : String → List String
  all_values key = gather key nreduce nmap 0 (λ i. values_of key (input i))

  abbrev pub lines : List (String × String)
  lines = (run_reduce sort reducef nmap y (run_maps nreduce nmap 0 input no_files)).0

  read : Collected
  read = read_files nmap 0 y (run_maps nreduce nmap 0 input no_files) nothing

  line_of : String → String × String
  line_of key = (key, reducef key (collected read key))

  read-IsKeyed : IsKeyed read
  unfolding read
  read-IsKeyed =
      read_files-IsKeyed nmap 0 y (run_maps nreduce nmap 0 input no_files) nothing nothing-IsKeyed

  collected-read :
      (key : String)
      → collected read key ≡ (if y == ihash key % nreduce then all_values key else [])
  unfolding read
  collected-read key = collected_all key nreduce nmap y input

  collected_mine :
      (key : String) → (y == ihash key % nreduce) ≡ true → collected read key ≡ all_values key
  collected_mine key mine = collected-read key ∙ ap (λ b. if b then all_values key else []) mine

  collected_other : (key : String) → (y == ihash key % nreduce) ≡ false → collected read key ≡ []
  collected_other key other = collected-read key ∙ ap (λ b. if b then all_values key else []) other

  line_right :
      KeepsMembers sort
      → (key out : String) → Memᴰ (key, out) (map line_of (sort read.keys))
      → (y ≡ ihash key % nreduce) × (all_values key ≢ []) × (out ≡ reducef key (all_values key))
  unfolding line_of
  line_right keeps key out m =
      let (k, at, e) = Memᴰ-map line_of (sort read.keys) (key, out) m in
      let same : key ≡ k = ap (λ p. p.0) e in
      let result : out ≡ reducef k (collected read k) = ap (λ p. p.1) e in
      let there = subst (λ z. Memᴰ z read.keys) (sym same) ((keeps read.keys k).0 at) in
      let some_value = (IsKeyed-collected read key read-IsKeyed).0 there in
      elim (Bool-cases (y == ihash key % nreduce)) [
        | inl mine ↦
            let q = collected_mine key mine in
            (
              (==_iff y (ihash key % nreduce)).0 mine,
              λ z. some_value (q ∙ z),
              result ∙ ap (λ z. reducef z (collected read z)) (sym same) ∙ ap (reducef key) q,
            )
        | inr other ↦ absurd (some_value (collected_other key other))
      ]

  line_there :
      KeepsMembers sort
      → (key : String) → y ≡ ihash key % nreduce
      → all_values key ≢ []
      → Memᴰ (key, reducef key (all_values key)) (map line_of (sort read.keys))
  unfolding line_of
  line_there keeps key h some_value =
      let q = collected_mine key ((==_iff y (ihash key % nreduce)).1 h) in
      let there = (IsKeyed-collected read key read-IsKeyed).1 (λ e. some_value (sym q ∙ e)) in
      subst (λ vs. Memᴰ (key, reducef key vs) (map line_of (sort read.keys))) q
        (map-Memᴰ line_of (sort read.keys) key ((keeps read.keys key).1 there))

  -- With every map task run once, on files that start empty: a line of reduce task `y` is of a key of the
  -- task that has values, and is the application's result on all of them; and every such key has its line.
  pub run_reduce-lines :
      KeepsMembers sort
      → ((key out : String)
          → Memᴰ (key, out) lines
          → (y ≡ ihash key % nreduce)
            × (all_values key ≢ [])
            × (out ≡ reducef key (all_values key)))
        × ((key : String)
            → y ≡ ihash key % nreduce
            → all_values key ≢ []
            → Memᴰ (key, reducef key (all_values key)) lines)
  unfolding run_reduce read line_of
  run_reduce-lines keeps = (line_right keeps, line_there keeps)
