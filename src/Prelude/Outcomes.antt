-- ===== src/Prelude/Outcomes.antt =====
-- A Go function that may panic: an index out of range, a failed assertion, `log.Fatal`.
use mathlib.Core.Path.{◌≡◌, refl}
use mathlib.Core.Logic.{◌⊎◌, inl, inr}
use native.Mathlib.Omega.{arith}
use mathlib.Core.List.{List, [], ◌∷◌, ◌++◌}
use mathlib.Core.Option.{Option, none, some}
use Prim.Native.Nat.{ℕ, zero, suc, ◌<◌, ◌≤◌}
use m2i8t.Prelude.Tests.{ltb, ltb→lt, ltb→le, Bool-cases}
use m2i8t.Prelude.Lists.{set, length, get_elem?}

pub data Outcome {ℓ} (A : Type ℓ) : Type ℓ where
  ok : A → Outcome A
  panic : Outcome A

infixl 5 ◌>>=◌
abbrev pub ◌>>=◌ {ℓ κ} : {A : Type ℓ} {B : Type κ} → Outcome A → (A → Outcome B) → Outcome B
ok a >>= f = f a
panic >>= f = panic

abbrev pub of_option {ℓ} : {A : Type ℓ} → Option A → Outcome A
of_option (some a) = ok a
of_option none = panic

-- `xs[i]`: the bounds check of the language.
abbrev pub index {ℓ} : {A : Type ℓ} → List A → ℕ → Outcome A
index [] i = panic
index (x ∷ xs) zero = ok x
index (x ∷ xs) (suc i) = index xs i

pub index-eq {ℓ} :
    {A : Type ℓ} (xs : List A) (i : ℕ) {a : A} → get_elem? xs i ≡ some a → index xs i ≡ ok a
index-eq [] i h = ground arith
index-eq (x ∷ xs) zero h = ground arith
index-eq (x ∷ xs) (suc i) h = index-eq xs i h

pub index_in_range {ℓ} :
    {A : Type ℓ} (xs : List A) (i : ℕ)
    → i < length xs
    → (a : A) × (index xs i ≡ ok a) × (get_elem? xs i ≡ some a)
index_in_range [] i h = absurd (omega arith)
index_in_range (x ∷ xs) zero h = (x, refl, refl)
index_in_range (x ∷ xs) (suc i) h = index_in_range xs i (omega arith)

pub Outcome-cases {ℓ} : {A : Type ℓ} (o : Outcome A) → (o ≡ panic) ⊎ ((a : A) × (o ≡ ok a))
Outcome-cases panic = inl refl
Outcome-cases (ok a) = inr (a, refl)

-- The element appended last.
pub index-append_last {ℓ} :
    {A : Type ℓ} (xs : List A) (y : A) → index (xs ++ y ∷ []) (length xs) ≡ ok y
index-append_last [] y = refl
index-append_last (x ∷ xs) y = index-append_last xs y

-- `xs[i] = v`, with its bounds check.
unfoldable pub store {ℓ} : {A : Type ℓ} → List A → ℕ → A → Outcome (List A)
store [] i v = panic
store (x ∷ xs) zero v = ok (v ∷ xs)
store (x ∷ xs) (suc i) v = do rest ← store xs i v; ok (x ∷ rest)

pub store-eq {ℓ} :
    {A : Type ℓ} (xs : List A) (i : ℕ) (v : A) → i < length xs → store xs i v ≡ ok (set xs i v)
unfolding store
store-eq [] i v h = absurd (omega arith)
store-eq (x ∷ xs) zero v h = refl
store-eq (x ∷ xs) (suc i) v h = rw (store-eq xs i v (omega arith))

store_panic {ℓ} : {A : Type ℓ} (xs : List A) (i : ℕ) (v : A) → length xs ≤ i → store xs i v ≡ panic
unfolding store
store_panic [] i v h = refl
store_panic (x ∷ xs) zero v h = absurd (omega arith)
store_panic (x ∷ xs) (suc i) v h = rw (store_panic xs i v (omega arith))

pub store-eq-ok {ℓ} :
    {A : Type ℓ} (xs : List A) (i : ℕ) (v : A) {r : List A}
    → store xs i v ≡ ok r
    → (i < length xs) × (r ≡ set xs i v)
store-eq-ok xs i v h = elim (Bool-cases (ltb i (length xs))) [
  | inl inside ↦
      (ltb→lt i (length xs) inside, cc (h, store-eq xs i v (ltb→lt i (length xs) inside)))
  | inr outside ↦ absurd (cc (h, store_panic xs i v (ltb→le i (length xs) outside)))
]
