-- ===== src/Prelude/Dicts.antt =====
-- A Go map as a function; `m[k] = v` is `update m k v`.
use mathlib.Core.Path.{◌≡◌, refl}
use mathlib.Core.Logic.{◌↔◌, ◌≢◌}
use mathlib.Core.Bool.{Bool, true}
use mathlib.Core.Option.{Option, none, some}
use Prim.Native.Nat.{ℕ}
use Prim.Native.String.{String}
use native.Mathlib.Omega.{arith}
use text.Mathlib.Text.{◌==◌ as str_eq}
use text.Mathlib.TextEquality.{eq_iff}
use m2i8t.Prelude.Tests.{◌==◌ as nat_eq, ==_iff, if◌then◌else◌}

pub record Eq (A : Type 0) : Type 0 where
  pub beq : A → A → Bool
  pub beq_iff : (a b : A) → (beq a b ≡ true) ↔ (a ≡ b)

instance abbrev pub eq_nat : Eq ℕ
eq_nat = record { beq = nat_eq; beq_iff = ==_iff }

instance abbrev pub eq_string : Eq String
eq_string = record { beq = str_eq; beq_iff = eq_iff }

abbrev pub Dict : Type 0 → Type 0 → Type 0
Dict K V = K → Option V

abbrev pub empty_dict : {K V : Type 0} → Dict K V
empty_dict k = none

module _ {K V : Type 0} ⦃e : Eq K⦄ where
  abbrev pub update : Dict K V → K → V → Dict K V
  update m k v j = if e.beq k j then some v else m j

  pub update_self : (m : Dict K V) (k : K) (v : V) → update m k v k ≡ some v
  update_self m k v = rw ((e.beq_iff k k).1 refl)

  pub update_ne : (m : Dict K V) (k j : K) (v : V) → k ≢ j → update m k v j ≡ m j
  update_ne m k j v h = ground (arith, e.beq_iff k j)

-- `v := m[k]` on a missing key: the zero value of the type.
abbrev pub get_or_zero : {K V : Type 0} → V → Dict K V → K → V
get_or_zero z m k = elim (m k) [ none ↦ z | some v ↦ v ]
