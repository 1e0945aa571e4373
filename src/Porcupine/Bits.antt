-- ===== src/Porcupine/Bits.antt =====
-- porcupine/bitset.go: the bit operations of the words, digit by digit.
use Prim.Native.Nat.{
  min, max, differ, digits, bit_and, bit_or, bit_xor, bit_and-bitwise, bit_or-bitwise,
  bit_xor-bitwise,
}
use native.Mathlib.Nat.{pow-suc}
use m2i8t.Prelude.{
  ℕ, zero, suc, ◌+◌, ◌*◌, ◌/◌, ◌%◌, ◌^◌, ◌≤◌, ◌<◌, ◌≡◌, refl, sym, ap, ◌∙◌, ◌≢◌, inl, inr, not,
  arith, ◌==◌, if◌then◌else◌, ==_iff, Bool-cases, eq_nat, eq_string,
}

digits_fuel :
    (past : ℕ → ℕ) (f : ℕ → ℕ → ℕ) (n m a b : ℕ)
    → a ≤ n
    → a ≤ m
    → digits past f n a b ≡ digits past f m a b
digits_fuel past f zero zero a b p q = refl
digits_fuel past f zero (suc m) zero b p q = refl
digits_fuel past f zero (suc m) (suc a) b p q = absurd (omega (arith, p))
digits_fuel past f (suc n) zero zero b p q = refl
digits_fuel past f (suc n) zero (suc a) b p q = absurd (omega (arith, q))
digits_fuel past f (suc n) (suc m) zero b p q = refl
digits_fuel past f (suc n) (suc m) (suc a) b p q =
    ap (λ z. z * 2 + f (suc a % 2) (b % 2))
      (digits_fuel past f n m (suc a / 2) (b / 2) (omega (arith, p)) (omega (arith, q)))

-- The digits of a number that has some, by those of its half.
digits_step :
    (past : ℕ → ℕ) (f : ℕ → ℕ → ℕ) (a b : ℕ)
    → digits past f (suc a) (suc a) b
      ≡ digits past f (suc a / 2) (suc a / 2) (b / 2) * 2 + f (suc a % 2) (b % 2)
digits_step past f a b =
    ap (λ z. z * 2 + f (suc a % 2) (b % 2))
      (digits_fuel past f a (suc a / 2) (suc a / 2) (b / 2) (omega arith) (omega arith))

bit_or_step : (a b : ℕ) → bit_or a b ≡ bit_or (a / 2) (b / 2) * 2 + max (a % 2) (b % 2)
bit_or_step zero b = omega (arith, bit_or-bitwise 0 b, bit_or-bitwise 0 (b / 2))
bit_or_step (suc a) b = omega (
  arith,
  bit_or-bitwise (suc a) b,
  bit_or-bitwise (suc a / 2) (b / 2),
  digits_step (λ b. b) max a b,
)

bit_and_step : (a b : ℕ) → bit_and a b ≡ bit_and (a / 2) (b / 2) * 2 + min (a % 2) (b % 2)
bit_and_step zero b = omega (arith, bit_and-bitwise 0 b, bit_and-bitwise 0 (b / 2))
bit_and_step (suc a) b = omega (
  arith,
  bit_and-bitwise (suc a) b,
  bit_and-bitwise (suc a / 2) (b / 2),
  digits_step (λ b. zero) min a b,
)

bit_xor_step : (a b : ℕ) → bit_xor a b ≡ bit_xor (a / 2) (b / 2) * 2 + differ (a % 2) (b % 2)
bit_xor_step zero b = omega (arith, bit_xor-bitwise 0 b, bit_xor-bitwise 0 (b / 2))
bit_xor_step (suc a) b = omega (
  arith,
  bit_xor-bitwise (suc a) b,
  bit_xor-bitwise (suc a / 2) (b / 2),
  digits_step (λ b. b) differ a b,
)

-- The digit at a position.
abbrev pub bit : ℕ → ℕ → ℕ
bit w zero = w % 2
bit w (suc j) = bit (w / 2) j

bit_le : (w j : ℕ) → bit w j ≤ 1
bit_le w zero = omega arith
bit_le w (suc j) = bit_le (w / 2) j

pub bit-bit_or : (a b j : ℕ) → bit (bit_or a b) j ≡ max (bit a j) (bit b j)
bit-bit_or a b zero = omega (arith, bit_or_step a b)
bit-bit_or a b (suc j) =
    ap (λ z. bit z j) {x = bit_or a b / 2} (omega (arith, bit_or_step a b))
    ∙ bit-bit_or (a / 2) (b / 2) j

pub bit-bit_and : (a b j : ℕ) → bit (bit_and a b) j ≡ min (bit a j) (bit b j)
bit-bit_and a b zero = omega (arith, bit_and_step a b)
bit-bit_and a b (suc j) =
    ap (λ z. bit z j) {x = bit_and a b / 2} (omega (arith, bit_and_step a b))
    ∙ bit-bit_and (a / 2) (b / 2) j

differ_le : (x y : ℕ) → x ≤ 1 → y ≤ 1 → differ x y ≤ 1
differ_le zero y l k = k
differ_le (suc x) zero l k = l
differ_le (suc x) (suc y) l k = omega (arith, differ_le x y (omega (arith, l)) (omega (arith, k)))

differ_self : (x : ℕ) → differ x x ≡ 0
differ_self zero = refl
differ_self (suc x) = differ_self x

differ-zero : (x : ℕ) → differ x 0 ≡ x
differ-zero zero = refl
differ-zero (suc x) = refl

pub bit-bit_xor : (a b j : ℕ) → bit (bit_xor a b) j ≡ differ (bit a j) (bit b j)
bit-bit_xor a b zero =
    omega (arith, bit_xor_step a b, differ_le (a % 2) (b % 2) (omega arith) (omega arith))
bit-bit_xor a b (suc j) =
    ap (λ z. bit z j) {x = bit_xor a b / 2}
      (omega (arith, bit_xor_step a b, differ_le (a % 2) (b % 2) (omega arith) (omega arith)))
    ∙ bit-bit_xor (a / 2) (b / 2) j

pow_suc : (m : ℕ) → 2 ^ suc m ≡ 2 ^ m * 2
pow_suc m = pow-suc 2 m

bit-mask_self : (m : ℕ) → bit (2 ^ m) m ≡ 1
bit-mask_self zero = refl
bit-mask_self (suc m) =
    ap (λ z. bit z m) {x = 2 ^ suc m / 2} (omega (arith, pow_suc m)) ∙ bit-mask_self m

bit-zero : (j : ℕ) → bit 0 j ≡ 0
bit-zero zero = refl
bit-zero (suc j) = bit-zero j

bit-mask_ne : (m j : ℕ) → m ≢ j → bit (2 ^ m) j ≡ 0
bit-mask_ne zero zero ne = absurd (ne refl)
bit-mask_ne zero (suc j) ne = bit-zero j
bit-mask_ne (suc m) zero ne = omega (arith, pow_suc m)
bit-mask_ne (suc m) (suc j) ne =
    ap (λ z. bit z j) {x = 2 ^ suc m / 2} (omega (arith, pow_suc m))
    ∙ bit-mask_ne m j (λ e. ne (ap suc e))

and_none : (n a : ℕ) → a ≤ n → bit_and a 0 ≡ 0
and_none n zero l = omega (arith, bit_and-bitwise 0 0)
and_none zero (suc a) l = absurd (omega (arith, l))
and_none (suc n) (suc a) l =
    omega (arith, bit_and_step (suc a) 0, and_none n (suc a / 2) (omega (arith, l)))

-- The test of a word against a mask of one digit.
mask_zero : (w m : ℕ) → bit w m ≡ 0 → bit_and w (2 ^ m) ≡ 0
mask_zero w zero e = omega (arith, bit_and_step w 1, and_none (w / 2) (w / 2) (omega arith), e)
mask_zero w (suc m) e =
    let half = mask_zero (w / 2) m e in
    let same : bit_and (w / 2) (2 ^ suc m / 2) ≡ bit_and (w / 2) (2 ^ m) =
      ap (bit_and (w / 2)) (omega (arith, pow_suc m)) in
    omega (arith, bit_and_step w (2 ^ suc m), half, same, pow_suc m)

mask_one : (w m : ℕ) → bit w m ≡ 1 → bit_and w (2 ^ m) ≢ 0
mask_one w m e z =
    absurd
      (omega (arith, bit-bit_and w (2 ^ m) m, bit-mask_self m, e, ap (λ x. bit x m) z ∙ bit-zero m))

pub masked : (w m : ℕ) → (not (bit_and w (2 ^ m) == 0)) ≡ (bit w m == 1)
masked w m = elim (Bool-cases (bit w m == 1)) [
  | inl e ↦ ground (arith, e, mask_one w m)
  | inr e ↦
      let zero_bit : bit w m ≡ 0 = ground (arith, e, bit_le w m) in
      ground (arith, e, mask_zero w m zero_bit)
]

pub set_mask : (w m j : ℕ) → bit (bit_or w (2 ^ m)) j ≡ (if m == j then 1 else bit w j)
set_mask w m j = elim (Bool-cases (m == j)) [
  | inl e ↦
      let same : m ≡ j = (==_iff m j).0 e in
      let one : bit (2 ^ m) j ≡ 1 = ap (bit (2 ^ m)) (sym same) ∙ bit-mask_self m in
      rw e (omega (arith, bit-bit_or w (2 ^ m) j, one, bit_le w j))
  | inr e ↦
      let none_there = bit-mask_ne m j (λ q. ground (arith, e)) in
      rw e (omega (arith, bit-bit_or w (2 ^ m) j, none_there))
]

pub clear_mask :
    (w m j : ℕ) → bit (bit_xor w (bit_and w (2 ^ m))) j ≡ (if m == j then 0 else bit w j)
clear_mask w m j = elim (Bool-cases (m == j)) [
  | inl e ↦
      let same : m ≡ j = (==_iff m j).0 e in
      let one : bit (2 ^ m) j ≡ 1 = ap (bit (2 ^ m)) (sym same) ∙ bit-mask_self m in
      let kept : bit (bit_and w (2 ^ m)) j ≡ bit w j =
        omega (arith, bit-bit_and w (2 ^ m) j, one, bit_le w j) in
      rw e
        (bit-bit_xor w (bit_and w (2 ^ m)) j ∙ ap (differ (bit w j)) kept ∙ differ_self (bit w j))
  | inr e ↦
      let none_there = bit-mask_ne m j (λ q. ground (arith, e)) in
      let dropped : bit (bit_and w (2 ^ m)) j ≡ 0 =
        omega (arith, bit-bit_and w (2 ^ m) j, none_there) in
      rw e (
        bit-bit_xor w (bit_and w (2 ^ m)) j ∙ ap (differ (bit w j)) dropped ∙ differ-zero (bit w j))
]

-- Words keep their width.
pub or_width : (n a b : ℕ) → a < 2 ^ n → b < 2 ^ n → bit_or a b < 2 ^ n
or_width zero a b l k =
    omega (arith, ap (λ z. bit_or z b) {x = a} {y = 0} (omega (arith, l)), bit_or-bitwise 0 b, k)
or_width (suc n) a b l k =
    let half =
      or_width n (a / 2) (b / 2) (omega (arith, pow_suc n, l)) (omega (arith, pow_suc n, k)) in
    omega (arith, pow_suc n, bit_or_step a b, half)

pub and_width : (n a b : ℕ) → a < 2 ^ n → bit_and a b < 2 ^ n
and_width zero a b l =
    omega (arith, ap (λ z. bit_and z b) {x = a} {y = 0} (omega (arith, l)), bit_and-bitwise 0 b)
and_width (suc n) a b l =
    omega (
      arith,
      pow_suc n,
      bit_and_step a b,
      and_width n (a / 2) (b / 2) (omega (arith, pow_suc n, l)),
    )

pub xor_width : (n a b : ℕ) → a < 2 ^ n → b < 2 ^ n → bit_xor a b < 2 ^ n
xor_width zero a b l k =
    omega (arith, ap (λ z. bit_xor z b) {x = a} {y = 0} (omega (arith, l)), bit_xor-bitwise 0 b, k)
xor_width (suc n) a b l k =
    let half =
      xor_width n (a / 2) (b / 2) (omega (arith, pow_suc n, l)) (omega (arith, pow_suc n, k)) in
    let digit = differ_le (a % 2) (b % 2) (omega arith) (omega arith) in
    omega (arith, pow_suc n, bit_xor_step a b, half, digit)

pow_pos : (n : ℕ) → 0 < 2 ^ n
pow_pos zero = omega arith
pow_pos (suc n) = omega (arith, pow_suc n, pow_pos n)

pub mask_width : (n m : ℕ) → m < n → 2 ^ m < 2 ^ n
mask_width zero m l = absurd (omega (arith, l))
mask_width (suc n) m l = elim (Bool-cases (m == n)) [
  | inl e ↦ omega (arith, pow_suc n, pow_pos n, ap (λ z. 2 ^ z) ((==_iff m n).0 e))
  | inr e ↦ omega (arith, pow_suc n, mask_width n m (ground (arith, l, e)))
]
