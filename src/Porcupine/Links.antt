-- ===== src/Porcupine/Links.antt =====
-- porcupine/checker.go: the doubly linked list of entries. A node is an address, and each field a
-- function of it.
use m2i8t.Prelude.{
  ℕ, zero, suc, ◌+◌, Option, none, some, List, [], ◌∷◌, ◌==◌, if◌then◌else◌, Outcome, ok, ◌>>=◌,
  eq_nat, eq_string, Dict, update, of_option, ℤ, pos,
}
use m2i8t.Porcupine.Entries.{Entry}

pub record Heap (V : Type 0) : Type 0 where
  pub value : ℕ → Option V
  pub match_of : ℕ → Option ℕ
  pub id : ℕ → ℤ
  pub next : ℕ → Option ℕ
  pub prev : ℕ → Option ℕ
  pub fresh : ℕ

-- A write to a field of the node `p`.
abbrev pub write {ℓ} : {A : Type ℓ} → (ℕ → A) → ℕ → A → ℕ → A
write f p v q = if p == q then v else f q

-- Following a nil pointer panics.
abbrev pub deref : Option ℕ → Outcome ℕ
deref = of_option

module _ {V : Type 0} where
  abbrev pub set_next : ℕ → Option ℕ → Heap V → Heap V
  set_next p v h = record h { next = write h.next p v }

  abbrev pub set_prev : ℕ → Option ℕ → Heap V → Heap V
  set_prev p v h = record h { prev = write h.prev p v }

  -- `&node{value: …, match: …, id: …}`
  unfoldable pub new_node : Option V → Option ℕ → ℤ → Heap V → ℕ × Heap V
  new_node v m i h = (
    h.fresh,
    record {
      value = write h.value h.fresh v;
      match_of = write h.match_of h.fresh m;
      id = write h.id h.fresh i;
      next = write h.next h.fresh none;
      prev = write h.prev h.fresh none;
      fresh = h.fresh + 1;
    },
  )

  unfoldable pub insert_before : ℕ → Option ℕ → Heap V → Heap V
  insert_before n none h = h
  insert_before n (some mark) h =
      let before = h.prev mark in
      let h₁ = set_next n (some mark) (set_prev mark (some n) h) in
      elim before [ none ↦ h₁ | some b ↦ set_next b (some n) (set_prev n (some b) h₁) ]

  -- The number of nodes from `n` on; the fuel is the number of nodes there are.
  unfoldable pub length_from : ℕ → Option ℕ → Heap V → ℕ
  length_from fuel none h = 0
  length_from zero (some n) h = 0
  length_from (suc fuel) (some n) h = length_from fuel (h.next n) h + 1

  -- `entry.prev.next = entry.next; entry.next.prev = entry.prev`, then the same for the match, whose
  -- next may be nil.
  unfoldable pub lift : ℕ → Heap V → Outcome (Heap V)
  lift entry h = do
    p ← deref (h.prev entry)
    let h₁ = set_next p (h.next entry) h
    n ← deref (h₁.next entry)
    let h₂ = set_prev n (h₁.prev entry) h₁
    m ← deref (h₂.match_of entry)
    q ← deref (h₂.prev m)
    let h₃ = set_next q (h₂.next m) h₂
    ok (elim (h₃.next m) [ none ↦ h₃ | some r ↦ set_prev r (h₃.prev m) h₃ ])

  unfoldable pub unlift : ℕ → Heap V → Outcome (Heap V)
  unlift entry h = do
    m ← deref (h.match_of entry)
    q ← deref (h.prev m)
    let h₁ = set_next q (some m) h
    let h₂ : Heap V = elim (h₁.next m) [ none ↦ h₁ | some r ↦ set_prev r (some m) h₁ ]
    p ← deref (h₂.prev entry)
    let h₃ = set_next p (some entry) h₂
    n ← deref (h₃.next entry)
    ok (set_prev n (some entry) h₃)

  -- The loop of makeLinkedEntries, from the last entry to the first; `match` maps an id to the node of
  -- its return.
  unfoldable pub link_entries : List (Entry V) → Heap V → Dict ℕ ℕ → Option ℕ → Heap V × Option ℕ
  unfolding new_node insert_before
  link_entries [] h match root = (h, root)
  link_entries (elem ∷ rest) h match root =
      if elem.kind
      then (let (n, h₁) = new_node (some elem.value) none (pos elem.id) h in
          link_entries rest (insert_before n root h₁) (update match elem.id n) (some n))
      else (let (n, h₁) = new_node (some elem.value) (match elem.id) (pos elem.id) h in
          link_entries rest (insert_before n root h₁) match (some n))
