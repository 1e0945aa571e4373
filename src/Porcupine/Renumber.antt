-- ===== src/Porcupine/Renumber.antt =====
-- porcupine/checker.go: renumber.
use m2i8t.Prelude.{
  ℕ, ◌+◌, ◌<◌, ◌≡◌, refl, ◌≢◌, ◌⊎◌, inl, inr, Option, none, some, List, [], ◌∷◌, arith,
  Option-cases, eq_nat, eq_string, Dict, empty_dict, update, update_self,
}
use m2i8t.Porcupine.Model.{Event}
use m2i8t.Porcupine.Entries.{renumber, renumber_from}

-- The ids given out so far are below the counter, and no two are equal.
record Seen (m : Dict ℕ ℕ) (id : ℕ) : Type 0 where
  below : (x r : ℕ) → m x ≡ some r → r < id
  apart : (x y r : ℕ) → m x ≡ some r → m y ≡ some r → x ≡ y

Seen-update : (m : Dict ℕ ℕ) (id x : ℕ) → Seen m id → m x ≡ none → Seen (update m x id) (id + 1)
Seen-update m id x s e = record {
  below = λ y r p. let a = s.below y r in ground arith;
  apart = λ y z r p q.
      let a = s.apart y z r in let b = s.below y r in let c = s.below z r in ground arith;
}

abbrev or_zero : Option ℕ → ℕ
or_zero none = 0
or_zero (some r) = r

IsKnown-nil : (m : Dict ℕ ℕ) (x : ℕ) → (m x ≢ none) ⊎ ⊥ → (r : ℕ) × (m x ≡ some r)
IsKnown-nil m x (inl a) = elim (Option-cases (m x)) [
  | inl none_there ↦ absurd (a none_there)
  | inr found ↦ found
]
IsKnown-nil m x (inr h) = absurd h

module _ {V : Type 0} where
  pub HasId : ℕ → List (Event V) → Type 0
  HasId x [] = ⊥
  HasId x (v ∷ vs) = (v.id ≡ x) ⊎ HasId x vs

  pub renamed : (ℕ → ℕ) → List (Event V) → List (Event V)
  renamed f [] = []
  renamed f (v ∷ vs) = record v { id = f v.id } ∷ renamed f vs

  -- `f` extends the map, and is injective on its keys and the ids of the events.
  record Renames (m : Dict ℕ ℕ) (events : List (Event V)) (f : ℕ → ℕ) : Type 0 where
    extends : (x r : ℕ) → m x ≡ some r → f x ≡ r
    injective :
        (x y : ℕ)
        → (m x ≢ none) ⊎ HasId x events
        → (m y ≢ none) ⊎ HasId y events
        → f x ≡ f y
        → x ≡ y

  abbrev IsKnown : Dict ℕ ℕ → List (Event V) → ℕ → Type 0
  IsKnown m events x = (m x ≢ none) ⊎ HasId x events

  IsKnown-cons :
      (m : Dict ℕ ℕ) (v : Event V) (vs : List (Event V)) (x r : ℕ)
      → m v.id ≡ some r
      → IsKnown m (v ∷ vs) x
      → IsKnown m vs x
  unfolding HasId
  IsKnown-cons m v vs x r e (inl a) = inl a
  IsKnown-cons m v vs x r e (inr (inl q)) = inl (ground arith)
  IsKnown-cons m v vs x r e (inr (inr h)) = inr h

  IsKnown-update :
      (m : Dict ℕ ℕ) (v : Event V) (vs : List (Event V)) (x id : ℕ)
      → IsKnown m (v ∷ vs) x
      → IsKnown (update m v.id id) vs x
  unfolding HasId
  IsKnown-update m v vs x id (inl a) = inl (ground arith)
  IsKnown-update m v vs x id (inr (inl q)) = inl (ground arith)
  IsKnown-update m v vs x id (inr (inr h)) = inr h

  renumber_from_lem :
      (m : Dict ℕ ℕ) (id : ℕ) (events : List (Event V))
      → Seen m id
      → (f : ℕ → ℕ) × (renumber_from m id events ≡ renamed f events) × Renames m events f
  unfolding renumber_from renamed HasId
  renumber_from_lem m id [] s = (
    (λ x. or_zero (m x)),
    refl,
    record {
      extends = λ x r e. rw e;
      injective = λ x y p q e.
          let (r, a) = IsKnown-nil m x p in
          let (r', b) = IsKnown-nil m y q in s.apart x y r a (ground arith);
    },
  )
  renumber_from_lem m id (v ∷ vs) s = elim (Option-cases (m v.id)) [
    | inr (r, e) ↦
        let (f, same, k) = renumber_from_lem m id vs s in
        let here = k.extends v.id r e in
        (
          f,
          ground (arith, e, same, here),
          record {
            extends = k.extends;
            injective = λ x y p q.
                k.injective x y (IsKnown-cons m v vs x r e p) (IsKnown-cons m v vs y r e q);
          },
        )
    | inl e ↦
        let (f, same, k) =
          renumber_from_lem (update m v.id id) (id + 1) vs (Seen-update m id v.id s e) in
        let here = k.extends v.id id (update_self m v.id id) in
        (
          f,
          ground (arith, e, same, here),
          record {
            extends = λ x r a. let b = k.extends x r in ground (arith, e, a);
            injective = λ x y p q.
                k.injective x y (IsKnown-update m v vs x id p) (IsKnown-update m v vs y id q);
          },
        )
  ]

  -- Renumbering replaces each id by a function of it, which is injective on the ids of the events:
  -- two events have one id after it exactly when they had one before.
  pub renumber-renamed :
      (events : List (Event V))
      → (f : ℕ → ℕ) × (renumber events ≡ renamed f events)
        × ((x y : ℕ) → HasId x events → HasId y events → f x ≡ f y → x ≡ y)
  unfolding renumber
  renumber-renamed events =
      let none_seen : Seen empty_dict 0 = record {
        below = λ x r e. absurd (ground arith);
        apart = λ x y r e. absurd (ground arith);
      } in
      let (f, same, k) = renumber_from_lem empty_dict 0 events none_seen in
      (f, same, λ x y p q. k.injective x y (inr p) (inr q))
