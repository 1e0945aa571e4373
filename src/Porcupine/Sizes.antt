-- ===== src/Porcupine/Sizes.antt =====
-- porcupine/bitset.go and checker.go: the operations of a search that index a slice, and its size after them.
use Prim.Native.Nat.{bit_and, bit_or, bit_xor}
use m2i8t.Prelude.{
  ℕ, ◌+◌, ◌/◌, ◌%◌, ◌^◌, ◌<◌, ◌≡◌, refl, sym, ◌∙◌, subst, inl, inr, Bool, true, false, Option, none,
  some, List, [], ◌∷◌, ◌++◌, arith, ltb, ◌==◌, if◌then◌else◌, ==_iff, Bool-cases, length, set,
  length-set, length-replicate, ok, index_in_range, store, store-eq, eq_nat, eq_string, pos,
}
use m2i8t.Porcupine.Bitset.{Bitset, new_bitset, set_bit, clear_bit}
use m2i8t.Porcupine.Links.{Heap}
use m2i8t.Porcupine.Checker.{CallsEntry, as_uint, as_index, note_longest, ids}

-- `store` in range keeps the length.
pub stored :
    {A : Type 0} (xs : List A) (i : ℕ) (v : A)
    → i < length xs
    → (ys : List A) × (store xs i v ≡ ok ys) × (length ys ≡ length xs)
stored xs i v l = (set xs i v, store-eq xs i v l, length-set xs i v)

pub set_bit-length :
    (b : Bitset) (i : ℕ)
    → i / 64 < length b
    → (b' : Bitset) × (set_bit b i ≡ ok b') × (length b' ≡ length b)
unfolding set_bit
set_bit-length b i l =
    let (word, e, _) = index_in_range b (i / 64) l in
    let (b', f, same) = stored b (i / 64) (bit_or word (2 ^ (i % 64))) l in
    (b', ground (arith, e, f), same)

pub clear_bit-length :
    (b : Bitset) (i : ℕ)
    → i / 64 < length b
    → (b' : Bitset) × (clear_bit b i ≡ ok b') × (length b' ≡ length b)
unfolding clear_bit
clear_bit-length b i l =
    let (word, e, _) = index_in_range b (i / 64) l in
    let (b', f, same) = stored b (i / 64) (bit_xor word (bit_and word (2 ^ (i % 64)))) l in
    (b', ground (arith, e, f), same)

-- A bitset for `n` bits has a word for each of them.
pub new_bitset_bound : (n i : ℕ) → i < n → i / 64 < length (new_bitset n)
unfolding new_bitset
new_bitset_bound n i l = elim (Bool-cases (n % 64 == 0)) [
  | inl e ↦
      let whole : n % 64 ≡ 0 = (==_iff (n % 64) 0).0 e in
      let size : length (new_bitset n) ≡ n / 64 + 0 = rw e (length-replicate (n / 64 + 0) 0) in
      omega (arith, l, whole, size)
  | inr e ↦
      let size : length (new_bitset n) ≡ n / 64 + 1 = rw e (length-replicate (n / 64 + 1) 0) in
      omega (arith, l, size)
]

pub as_uint-pos : (i : ℕ) → i < 2 ^ 64 → as_uint (pos i) ≡ i
unfolding as_uint
as_uint-pos i l = omega (arith, l)

abbrev pub AllBelow : ℕ → List ℕ → Type 0
AllBelow n [] = Unit
AllBelow n (x ∷ xs) = (x < n) × AllBelow n xs

AllBelow-append : (n : ℕ) (xs : List ℕ) (x : ℕ) → AllBelow n xs → x < n → AllBelow n (xs ++ x ∷ [])
AllBelow-append n [] x a l = (l, tt)
AllBelow-append n (y ∷ ys) x (k, a) l = (k, AllBelow-append n ys x a l)

noted_one :
    (seq : List ℕ) (longest : List (Option (List ℕ))) (i : ℕ) (longer : Bool)
    → i < length longest
    → (now : List (Option (List ℕ))) × ((if longer then store longest i (some seq) else ok longest)
        ≡ ok now)
      × (length now ≡ length longest)
noted_one seq longest i true l = stored longest i (some seq) l
noted_one seq longest i false l = (longest, refl, refl)

pub note_longest-length :
    (seq rest : List ℕ) (longest : List (Option (List ℕ)))
    → AllBelow (length longest) rest
    → (longest' : List (Option (List ℕ))) × (note_longest seq rest longest ≡ ok longest')
      × (length longest' ≡ length longest)
unfolding note_longest
note_longest-length seq [] longest a = (longest, refl, refl)
note_longest-length seq (i ∷ rest) longest (l, a) =
    let (old, e, _) = index_in_range longest i l in
    let longer : Bool = elim old [ none ↦ true | some l' ↦ ltb (length l') (length seq) ] in
    let (now, f, same) = noted_one seq longest i longer l in
    let (longest', g, same') =
      note_longest-length seq rest now (subst (λ z. AllBelow z rest) (sym same) a) in
    (longest', rw (e, f, g), same' ∙ same)

module _ {S V : Type 0} where
  -- The id of each call's node is a position below `n`.
  abbrev pub HasIds : ℕ → Heap V → List (CallsEntry S) → Type 0
  HasIds n h [] = Unit
  HasIds n h (c ∷ cs) = ((i : ℕ) × (h.id c.entry ≡ pos i) × (i < n)) × HasIds n h cs

  pub ids-AllBelow :
      (n : ℕ) (h : Heap V) (cs : List (CallsEntry S))
      → HasIds n h cs
      → (seq : List ℕ) × (ids h cs ≡ ok seq) × AllBelow n seq
  unfolding ids as_index
  ids-AllBelow n h [] a = ([], refl, tt)
  ids-AllBelow n h (c ∷ cs) ((i, e, l), a) =
      let (seq, f, b) = ids-AllBelow n h cs a in
      (seq ++ i ∷ [], ground (arith, e, f), AllBelow-append n seq i b l)
