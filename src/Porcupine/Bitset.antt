-- ===== src/Porcupine/Bitset.antt =====
-- porcupine/bitset.go: sets of small numbers as words of 64 bits.
use Prim.Native.Nat.{bit_and, bit_or, bit_xor}
use m2i8t.Prelude.{
  ℕ, zero, suc, ◌+◌, ◌/◌, ◌%◌, ◌^◌, Bool, true, false, not, List, [], ◌∷◌, ◌==◌, if◌then◌else◌,
  length, replicate, Outcome, ok, ◌>>=◌, index, store, eq_nat, eq_string,
}

abbrev pub Bitset : Type 0
Bitset = List ℕ

unfoldable pub new_bitset : ℕ → Bitset
new_bitset bits =
    let extra : ℕ = if not (bits % 64 == 0) then 1 else 0 in replicate (bits / 64 + extra) 0

-- The word, and the bit in it.
unfoldable pub bitset_index : ℕ → ℕ × ℕ
bitset_index at = (at / 64, at % 64)

-- Slices are values here, so that `clone` copies nothing.
unfoldable pub clone : Bitset → Bitset
clone b = b

unfoldable pub set_bit : Bitset → ℕ → Outcome Bitset
unfolding bitset_index
set_bit b at = do
  let (major, minor) = bitset_index at
  w ← index b major
  store b major (bit_or w (2 ^ minor))

-- `b[major] &^= (1 << minor)` clears the bits of the mask.
unfoldable pub clear_bit : Bitset → ℕ → Outcome Bitset
unfolding bitset_index
clear_bit b at = do
  let (major, minor) = bitset_index at
  w ← index b major
  store b major (bit_xor w (bit_and w (2 ^ minor)))

unfoldable pub get_bit : Bitset → ℕ → Outcome Bool
unfolding bitset_index
get_bit b at = do
  let (major, minor) = bitset_index at
  w ← index b major
  ok (not (bit_and w (2 ^ minor) == 0))

-- bits.OnesCount64
ones_count : ℕ → ℕ → ℕ
ones_count zero w = 0
ones_count (suc n) w = w % 2 + ones_count n (w / 2)

unfoldable pub popcnt : Bitset → ℕ
unfolding ones_count
popcnt [] = 0
popcnt (w ∷ b) = ones_count 64 w + popcnt b

xor_words : ℕ → Bitset → ℕ
xor_words h [] = h
xor_words h (w ∷ b) = xor_words (bit_xor h w) b

unfoldable pub hash : Bitset → ℕ
unfolding popcnt xor_words
hash b = xor_words (popcnt b) b

unfoldable pub same_words : Bitset → Bitset → Bool
same_words [] [] = true
same_words (w ∷ b) (w' ∷ b') = if not (w == w') then false else same_words b b'
same_words [] (w' ∷ b') = false
same_words (w ∷ b) [] = false

unfoldable pub bitset_equals : Bitset → Bitset → Bool
unfolding same_words
bitset_equals b b' = if not (length b == length b') then false else same_words b b'
