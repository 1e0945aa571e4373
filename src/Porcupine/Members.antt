-- ===== src/Porcupine/Members.antt =====
-- porcupine/bitset.go: the bitset as a set of numbers.
use Prim.Native.Nat.{bit_and, bit_or, bit_xor}
use m2i8t.Prelude.{
  ℕ, zero, suc, ◌+◌, ◌/◌, ◌%◌, ◌^◌, ◌<◌, ◌≡◌, refl, sym, ap, ◌∙◌, ◌≢◌, inl, inr, Bool, true, false,
  not, [], ◌∷◌, arith, ◌==◌, if◌then◌else◌, ==_iff, Bool-cases, length, set, replicate, Outcome, ok,
  ◌>>=◌, index, index_in_range, store-eq, eq_nat, eq_string,
}
use m2i8t.Porcupine.Bitset.{Bitset, new_bitset, set_bit, clear_bit, get_bit}
use m2i8t.Porcupine.Bits.{
  bit, masked, set_mask, clear_mask, or_width, and_width, xor_width, mask_width,
}

-- Every word has 64 bits.
abbrev pub IsWords : Bitset → Type 0
IsWords [] = Unit
IsWords (w ∷ b) = (w < 2 ^ 64) × IsWords b

IsWords-index : (b : Bitset) (i w : ℕ) → IsWords b → index b i ≡ ok w → w < 2 ^ 64
IsWords-index [] i w k e = absurd (cc e)
IsWords-index (x ∷ b) zero w (l, k) e = let same : x ≡ w = cc e in omega (arith, l, same)
IsWords-index (x ∷ b) (suc i) w (l, k) e = IsWords-index b i w k e

IsWords-set : (b : Bitset) (i w : ℕ) → IsWords b → w < 2 ^ 64 → IsWords (set b i w)
IsWords-set [] i w k l = tt
IsWords-set (x ∷ b) zero w (_, k) l = (l, k)
IsWords-set (x ∷ b) (suc i) w (m, k) l = (m, IsWords-set b i w k l)

index-set :
    (b : Bitset) (i k w : ℕ)
    → i < length b
    → index (set b i w) k ≡ (if i == k then ok w else index b k)
index-set [] i k w l = absurd (omega (arith, l))
index-set (x ∷ b) zero zero w l = refl
index-set (x ∷ b) zero (suc k) w l = ground arith
index-set (x ∷ b) (suc i) zero w l = ground arith
index-set (x ∷ b) (suc i) (suc k) w l = ground (arith, index-set b i k w (omega (arith, l)))

differs : {i j : ℕ} → i ≢ j → (i == j) ≡ false
differs {i} {j} ne = elim (Bool-cases (i == j)) [
  | inl e ↦ absurd (ne ((==_iff i j).0 e))
  | inr e ↦ e
]

-- The test of a bit in a word that was found.
abbrev got : Outcome ℕ → ℕ → Outcome Bool
got o m = do w ← o; ok (not (bit_and w (2 ^ m) == 0))

got-bit : (w m : ℕ) → got (ok w) m ≡ ok (bit w m == 1)
got-bit w m = ap ok (masked w m)

-- What the bitset holds once one of its words has another bit at the place of `i`.
get_bit-set :
    (b : Bitset) (i w v t j : ℕ)
    → i / 64 < length b
    → index b (i / 64) ≡ ok w
    → bit v (j % 64) ≡ (if (i % 64) == (j % 64) then t else bit w (j % 64))
    → get_bit (set b (i / 64) v) j ≡ (if i == j then ok (t == 1) else get_bit b j)
unfolding get_bit
get_bit-set b i w v t j l e f = elim (Bool-cases ((i / 64) == (j / 64))) [
  | inr ne ↦
      let apart : (i == j) ≡ false = differs (λ z. ground (arith, ne, ap (λ u. u / 64) z)) in
      rw apart (ap (λ o. got o (j % 64)) (index-set b (i / 64) (j / 64) v l ∙ ground (arith, ne)))
  | inl same ↦
      let q : i / 64 ≡ j / 64 = (==_iff (i / 64) (j / 64)).0 same in
      let new : index (set b (i / 64) v) (j / 64) ≡ ok v =
        index-set b (i / 64) (j / 64) v l ∙ ground (arith, same) in
      let old : index b (j / 64) ≡ ok w = ap (index b) (sym q) ∙ e in
      let left : get_bit (set b (i / 64) v) j ≡ ok (bit v (j % 64) == 1) =
        ap (λ o. got o (j % 64)) new ∙ got-bit v (j % 64) in
      let right : get_bit b j ≡ ok (bit w (j % 64) == 1) =
        ap (λ o. got o (j % 64)) old ∙ got-bit w (j % 64) in
      elim (Bool-cases ((i % 64) == (j % 64))) [
        | inl e₁ ↦
            let one : (i == j) ≡ true =
              (==_iff i j).1 (omega (arith, q, (==_iff (i % 64) (j % 64)).0 e₁)) in
            rw one (left ∙ ap (λ z. ok (z == 1)) (f ∙ ground (arith, e₁)))
        | inr e₁ ↦
            let two : (i == j) ≡ false = differs (λ z. ground (arith, e₁, ap (λ u. u % 64) z)) in
            rw two (left ∙ ap (λ z. ok (z == 1)) (f ∙ ground (arith, e₁)) ∙ sym right)
      ]
]

set_bit-get_bit :
    (b : Bitset) (i : ℕ)
    → IsWords b
    → i / 64 < length b
    → (b' : Bitset) × (set_bit b i ≡ ok b')
      × IsWords b'
      × ((j : ℕ) → get_bit b' j ≡ (if i == j then ok true else get_bit b j))
unfolding set_bit
set_bit-get_bit b i k l =
    let (w, e, _) = index_in_range b (i / 64) l in
    let v = bit_or w (2 ^ (i % 64)) in
    let f = store-eq b (i / 64) v l in
    (
      set b (i / 64) v,
      ground (arith, e, f),
      IsWords-set b (i / 64) v k (
          or_width 64 w (2 ^ (i % 64)) (IsWords-index b (i / 64) w k e)
            (mask_width 64 (i % 64) (omega arith))),
      λ j. get_bit-set b i w v 1 j l e (set_mask w (i % 64) (j % 64)),
    )

clear_bit-get_bit :
    (b : Bitset) (i : ℕ)
    → IsWords b
    → i / 64 < length b
    → (b' : Bitset) × (clear_bit b i ≡ ok b')
      × IsWords b'
      × ((j : ℕ) → get_bit b' j ≡ (if i == j then ok false else get_bit b j))
unfolding clear_bit
clear_bit-get_bit b i k l =
    let (w, e, _) = index_in_range b (i / 64) l in
    let v = bit_xor w (bit_and w (2 ^ (i % 64))) in
    let f = store-eq b (i / 64) v l in
    let small = IsWords-index b (i / 64) w k e in
    (
      set b (i / 64) v,
      ground (arith, e, f),
      IsWords-set b (i / 64) v k
          (xor_width 64 w (bit_and w (2 ^ (i % 64))) small (and_width 64 w (2 ^ (i % 64)) small)),
      λ j. get_bit-set b i w v 0 j l e (clear_mask w (i % 64) (j % 64)),
    )

zeros-IsWords : (n : ℕ) → IsWords (replicate n 0)
zeros-IsWords zero = tt
zeros-IsWords (suc n) = (omega arith, zeros-IsWords n)

pub new_bitset-IsWords : (n : ℕ) → IsWords (new_bitset n)
unfolding new_bitset
new_bitset-IsWords n = zeros-IsWords (n / 64 + (if not (n % 64 == 0) then 1 else 0))

-- Setting or clearing a bit in range does not panic: every word keeps its 64 bits, and afterwards exactly
-- that number is in the set, or is not, and every other test answers as before.
pub bit_updates :
    (b : Bitset) (i : ℕ)
    → IsWords b
    → i / 64 < length b
    → ((b' : Bitset) × (set_bit b i ≡ ok b')
        × IsWords b'
        × ((j : ℕ) → get_bit b' j ≡ (if i == j then ok true else get_bit b j)))
      × ((b' : Bitset) × (clear_bit b i ≡ ok b')
          × IsWords b'
          × ((j : ℕ) → get_bit b' j ≡ (if i == j then ok false else get_bit b j)))
bit_updates b i k l = (set_bit-get_bit b i k l, clear_bit-get_bit b i k l)
