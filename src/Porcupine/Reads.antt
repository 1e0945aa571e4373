-- ===== src/Porcupine/Reads.antt =====
-- porcupine/checker.go: what the list that makeLinkedEntries builds holds of the entries.
use m2i8t.Prelude.{
  ℕ, suc, ◌+◌, ◌<◌, ◌≡◌, refl, sym, ap, ◌∙◌, subst, ◌⊎◌, inl, inr, Option, none, some, List, [],
  ◌∷◌, arith, ◌==◌, ==_iff, Bool-cases, length, get_elem?, eq_nat, eq_string, Dict, update, pos,
}
use m2i8t.Porcupine.Entries.{Entry, call_entry, return_entry}
use m2i8t.Porcupine.Links.{Heap, write, new_node, link_entries}
use m2i8t.Porcupine.Built.{top, IsLine, added, added-IsLine, IsAdded, added-IsAdded}

pub write_cases :
    {A : Type 0} (f : ℕ → Option A) (p q : ℕ) (v : Option A) (z : A)
    → write f p v q ≡ some z
    → ((p ≡ q) × (v ≡ some z)) ⊎ (f q ≡ some z)
write_cases f p q v z e = elim (Bool-cases (p == q)) [
  | inl same ↦ inl ((==_iff p q).0 same, ground (arith, same, e))
  | inr other ↦ inr (ground (arith, other, e))
]

update_cases :
    (d : Dict ℕ ℕ) (i k j b : ℕ) → update d i k j ≡ some b → ((i ≡ j) × (k ≡ b)) ⊎ (d j ≡ some b)
update_cases d i k j b e = elim (Bool-cases (i == j)) [
  | inl same ↦ inl ((==_iff i j).0 same, ground (arith, same, e))
  | inr other ↦ inr (ground (arith, other, e))
]

module _ {V : Type 0} (events : List (Entry V)) where
  -- The entry at the position `a` is a call, and the one at `b` a later return of the same id.
  pub record IsMatch (a b : ℕ) : Type 0 where
    pub call : Entry V
    pub return : Entry V
    pub below : b < a
    pub at_call : get_elem? events a ≡ some call
    pub at_return : get_elem? events b ≡ some return
    pub is_call : call.kind ≡ call_entry
    pub is_return : return.kind ≡ return_entry
    pub same_id : call.id ≡ return.id

  -- What the nodes made so far, and the map of the returns, hold of the entries.
  pub record IsRead (h : Heap V) (d : Dict ℕ ℕ) (k : ℕ) : Type 0 where
    pub valued :
        (a : ℕ) (v : V) (e : Entry V)
        → h.value a ≡ some v
        → get_elem? events a ≡ some e
        → e.value ≡ v
    pub recorded :
        (a : ℕ) (e : Entry V)
        → a < k
        → get_elem? events a ≡ some e
        → (h.value a ≡ some e.value) × (h.id a ≡ pos e.id)
    pub matched : (a b : ℕ) → h.match_of a ≡ some b → IsMatch a b
    pub seen :
        (i b : ℕ)
        → d i ≡ some b
        → (b < k)
          × ((e : Entry V) × (get_elem? events b ≡ some e) × (e.kind ≡ return_entry) × (e.id ≡ i))

  valued_next :
      (h h' : Heap V) (d : Dict ℕ ℕ) (k : ℕ) (m : Option ℕ) (elem : Entry V)
      → IsRead h d k
      → IsAdded (some elem.value) m (pos elem.id) k h h'
      → get_elem? events k ≡ some elem
      → (a : ℕ) (v : V) (e : Entry V) → h'.value a ≡ some v
      → get_elem? events a ≡ some e
      → e.value ≡ v
  valued_next h h' d k m elem r x at a v e q at' =
      elim (write_cases h.value k a (some elem.value) v (ap (λ f. f a) (sym x.value) ∙ q)) [
        | inl (same, u) ↦ cc (at, at', same, u)
        | inr u ↦ r.valued a v e u at'
      ]

  recorded_next :
      (h h' : Heap V) (d : Dict ℕ ℕ) (k : ℕ) (m : Option ℕ) (elem : Entry V)
      → IsRead h d k
      → IsAdded (some elem.value) m (pos elem.id) k h h'
      → get_elem? events k ≡ some elem
      → (a : ℕ) (e : Entry V) → a < suc k
      → get_elem? events a ≡ some e
      → (h'.value a ≡ some e.value) × (h'.id a ≡ pos e.id)
  recorded_next h h' d k m elem r x at a e l at' = elim (Bool-cases (k == a)) [
    | inl same ↦
        let q : k ≡ a = (==_iff k a).0 same in
        let u : elem ≡ e = cc (at, at', q) in
        (
          ap (λ f. f a) x.value ∙ ground (arith, same) ∙ ap (λ z. some z.value) u,
          ap (λ f. f a) x.id ∙ ground (arith, same) ∙ ap (λ z. pos z.id) u,
        )
    | inr other ↦
        let (u, v) = r.recorded a e (ground (arith, l, other)) at' in
        (
          ap (λ f. f a) x.value ∙ ground (arith, other) ∙ u,
          ap (λ f. f a) x.id ∙ ground (arith, other) ∙ v,
        )
  ]

  returned-IsRead :
      (h : Heap V) (d : Dict ℕ ℕ) (k : ℕ) (elem : Entry V)
      → IsLine h k
      → IsRead h d k
      → get_elem? events k ≡ some elem
      → elem.kind ≡ return_entry
      → IsRead (added (some elem.value) none (pos elem.id) k h) (update d elem.id k) (suc k)
  returned-IsRead h d k elem l r at is_return =
      let x = added-IsAdded (some elem.value) none (pos elem.id) k h l.fresh in
      record {
        valued =
            valued_next h (added (some elem.value) none (pos elem.id) k h) d k none elem r x at;
        recorded =
            recorded_next h (added (some elem.value) none (pos elem.id) k h) d k none elem r x at;
        matched = λ a b q.
            elim (write_cases h.match_of k a none b (ap (λ f. f a) (sym x.match_of) ∙ q)) [
              | inl (_, u) ↦ absurd (ground (arith, u))
              | inr u ↦ r.matched a b u
            ];
        seen = λ i b q. elim (update_cases d elem.id k i b q) [
          | inl (same, u) ↦
              (omega (arith, u), (elem, ap (λ z. get_elem? events z) (sym u) ∙ at, is_return, same))
          | inr u ↦ let (lt, s) = r.seen i b u in (omega (arith, lt), s)
        ];
      }

  called-IsRead :
      (h : Heap V) (d : Dict ℕ ℕ) (k : ℕ) (elem : Entry V)
      → IsLine h k
      → IsRead h d k
      → get_elem? events k ≡ some elem
      → elem.kind ≡ call_entry
      → IsRead (added (some elem.value) (d elem.id) (pos elem.id) k h) d (suc k)
  called-IsRead h d k elem l r at is_call =
      let x = added-IsAdded (some elem.value) (d elem.id) (pos elem.id) k h l.fresh in
      record {
        valued =
            valued_next h (added (some elem.value) (d elem.id) (pos elem.id) k h) d k (d elem.id)
              elem r x at;
        recorded =
            recorded_next h (added (some elem.value) (d elem.id) (pos elem.id) k h) d k (d elem.id)
              elem r x at;
        matched = λ a b q.
            elim (write_cases h.match_of k a (d elem.id) b (ap (λ f. f a) (sym x.match_of) ∙ q)) [
              | inl (same, u) ↦
                  let (lt, (e, at', is_return, same_id)) = r.seen elem.id b u in
                  record {
                    call = elem;
                    return = e;
                    below = omega (arith, lt, same);
                    at_call = ap (λ z. get_elem? events z) (sym same) ∙ at;
                    at_return = at';
                    is_call = is_call;
                    is_return = is_return;
                    same_id = sym same_id;
                  }
              | inr u ↦ r.matched a b u
            ];
        seen = λ i b q. let (lt, s) = r.seen i b q in (omega (arith, lt), s);
      }

  -- The list once all the entries are read.
  pub record IsMade (k : ℕ) (r : Heap V × Option ℕ) : Type 0 where
    pub line : IsLine r.0 k
    pub root : r.1 ≡ top k
    pub map : Dict ℕ ℕ
    pub read : IsRead r.0 map k

  link_return :
      (rest : List (Entry V)) (h : Heap V) (d : Dict ℕ ℕ) (k : ℕ) (elem : Entry V)
      → h.fresh ≡ k
      → elem.kind ≡ return_entry
      → link_entries (elem ∷ rest) h d (top k)
        ≡ link_entries rest
            (added (some elem.value) none (pos elem.id) k h)
            (update d elem.id k)
            (top (suc k))
  unfolding link_entries new_node
  link_return rest h d k elem f e = ground (arith, f, e)

  link_call :
      (rest : List (Entry V)) (h : Heap V) (d : Dict ℕ ℕ) (k : ℕ) (elem : Entry V)
      → h.fresh ≡ k
      → elem.kind ≡ call_entry
      → link_entries (elem ∷ rest) h d (top k)
        ≡ link_entries rest (added (some elem.value) (d elem.id) (pos elem.id) k h) d (top (suc k))
  unfolding link_entries new_node
  link_call rest h d k elem f e = ground (arith, f, e)

  pub link_entries-IsMade :
      (rest : List (Entry V)) (h : Heap V) (d : Dict ℕ ℕ) (k : ℕ)
      → IsLine h k
      → IsRead h d k
      → ((j : ℕ) → get_elem? rest j ≡ get_elem? events (k + j))
      → IsMade (k + length rest) (link_entries rest h d (top k))
  unfolding link_entries
  link_entries-IsMade [] h d k l r s =
      subst (λ z. IsMade z (h, top k)) {x = k} (omega arith)
        (record { line = l; root = refl; map = d; read = r })
  link_entries-IsMade (elem ∷ rest) h d k l r s =
      let at : get_elem? events k ≡ some elem =
        ap (λ z. get_elem? events z) (omega arith) ∙ sym (s 0) in
      let next : (j : ℕ) → get_elem? rest j ≡ get_elem? events (suc k + j) =
        λ j. s (suc j) ∙ ap (λ z. get_elem? events z) (omega arith) in
      subst (λ z. IsMade z (link_entries (elem ∷ rest) h d (top k))) {x = suc k + length rest}
        (omega arith)
        (elim (Bool-cases elem.kind) [
          | inl is_return ↦ rw (link_return rest h d k elem l.fresh is_return) (
              link_entries-IsMade rest (added (some elem.value) none (pos elem.id) k h)
                (update d elem.id k) (suc k)
                (added-IsLine (some elem.value) none (pos elem.id) k h l)
                (returned-IsRead h d k elem l r at is_return) next)
          | inr is_call ↦ rw (link_call rest h d k elem l.fresh is_call) (
              link_entries-IsMade rest (added (some elem.value) (d elem.id) (pos elem.id) k h) d
                (suc k) (added-IsLine (some elem.value) (d elem.id) (pos elem.id) k h l)
                (called-IsRead h d k elem l r at is_call) next)
        ])
