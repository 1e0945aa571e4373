-- ===== src/Porcupine/Built.antt =====
-- porcupine/checker.go: the list that makeLinkedEntries builds, and checkSingle's head before it.
use m2i8t.Prelude.{
  ℕ, zero, suc, ◌+◌, ◌≤◌, ◌<◌, ◌≡◌, refl, ap, ◌∙◌, inl, inr, Option, none, some, List, [], ◌∷◌,
  arith, ◌==◌, ==_iff, Bool-cases, eq_nat, eq_string, ℤ,
}
use m2i8t.Porcupine.Links.{Heap, write, length_from, new_node, insert_before}
use m2i8t.Porcupine.Chain.{In, Chain}

-- The node made last, where this many have been made.
abbrev pub top : ℕ → Option ℕ
top zero = none
top (suc n) = some n

-- The addresses below, from the top.
abbrev pub down : ℕ → List ℕ
down zero = []
down (suc n) = n ∷ down n

pub In-down : (n a : ℕ) → a < n → In a (down n)
In-down zero a lt = absurd (omega (arith, lt))
In-down (suc n) a lt = elim (Bool-cases (n == a)) [
  | inl e ↦ inl ((==_iff n a).0 e)
  | inr ne ↦ inr (In-down n a (ground arith))
]

pub down-In : (n a : ℕ) → In a (down n) → a < n
down-In zero a i = absurd i
down-In (suc n) a (inl e) = omega (arith, e)
down-In (suc n) a (inr i) = omega (arith, down-In n a i)

module _ {V : Type 0} where
  -- The nodes made so far are a list, the one made last first.
  pub record IsLine (h : Heap V) (k : ℕ) : Type 0 where
    pub fresh : h.fresh ≡ k
    pub next : (a : ℕ) → a < k → h.next a ≡ top a
    pub prev : (a : ℕ) → suc a < k → h.prev a ≡ some (suc a)
    pub last : (a : ℕ) → suc a ≡ k → h.prev a ≡ none

  -- A node is made and put before the list.
  abbrev pub added : Option V → Option ℕ → ℤ → ℕ → Heap V → Heap V
  added v m i k h = insert_before k (top k) (new_node v m i h).1

  pub added-IsLine :
      (v : Option V) (m : Option ℕ) (i : ℤ) (k : ℕ) (h : Heap V)
      → IsLine h k
      → IsLine (added v m i k h) (suc k)
  unfolding new_node insert_before
  added-IsLine v m i zero h l = record {
    fresh = ground (arith, l.fresh);
    next = λ a lt. ground (arith, l.fresh);
    prev = λ a lt. absurd (omega (arith, lt));
    last = λ a e. ground (arith, l.fresh);
  }
  added-IsLine v m i (suc k) h l =
      let f = l.fresh in
      let none_before : h.prev k ≡ none = l.last k refl in
      record {
        fresh = ground (arith, f, none_before);
        next = λ a lt. elim (Bool-cases (a == suc k)) [
          | inl e ↦ let q : a ≡ suc k = (==_iff a (suc k)).0 e in ground (arith, f, none_before, q)
          | inr ne ↦
              let n = l.next a (ground (arith, lt, ne)) in ground (arith, f, none_before, ne, n)
        ];
        prev = λ a lt. elim (Bool-cases (a == k)) [
          | inl e ↦ let q : a ≡ k = (==_iff a k).0 e in ground (arith, f, none_before, q)
          | inr ne ↦
              let n = l.prev a (ground (arith, lt, ne)) in ground (arith, f, none_before, ne, n)
        ];
        last = λ a e. ground (arith, f, none_before);
      }

  pub record IsAdded (v : Option V) (m : Option ℕ) (i : ℤ) (k : ℕ) (h h' : Heap V) : Type 0 where
    pub value : h'.value ≡ write h.value k v
    pub match_of : h'.match_of ≡ write h.match_of k m
    pub id : h'.id ≡ write h.id k i

  pub added-IsAdded :
      (v : Option V) (m : Option ℕ) (i : ℤ) (k : ℕ) (h : Heap V)
      → h.fresh ≡ k
      → IsAdded v m i k h (added v m i k h)
  unfolding new_node insert_before
  added-IsAdded v m i zero h f = ground (arith, f)
  added-IsAdded v m i (suc k) h f = ground (arith, f)

  pub line-Chain : (h : Heap V) (k n : ℕ) → n < k → IsLine h k → Chain h n (down n)
  line-Chain h k zero lt l = l.next 0 lt
  line-Chain h k (suc n) lt l =
      (l.next (suc n) lt, l.prev n lt, omega arith, line-Chain h k n (omega (arith, lt)) l)

  -- The count of the nodes of the list.
  pub length_from-IsLine : (h : Heap V) (k n : ℕ) → n ≤ k → IsLine h k → length_from n (top n) h ≡ n
  unfolding length_from
  length_from-IsLine h k zero l w = refl
  length_from-IsLine h k (suc n) l w =
      ap (λ z. length_from n z h + 1) (w.next n (omega (arith, l)))
      ∙ ap (λ z. z + 1) (length_from-IsLine h k n (omega (arith, l)) w)
      ∙ omega arith
