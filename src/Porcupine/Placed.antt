-- ===== src/Porcupine/Placed.antt =====
-- porcupine/checker.go: what the list of a search holds, and where its entry stands.
use m2i8t.Prelude.{
  ℕ, ◌<◌, ◌≡◌, refl, sym, ap, ◌∙◌, subst, ◌≢◌, ◌⊎◌, inl, inr, none, some, List, [], ◌∷◌, arith,
  ◌==◌, ==_iff, Bool-cases, eq_nat, eq_string,
}
use m2i8t.Porcupine.Links.{Heap}
use m2i8t.Porcupine.Relink.{SameFields}
use m2i8t.Porcupine.Chain.{
  In, without, without-In, In-without, Chain, cut, cut-SameFields, SameFields-trans, lift-Chain,
  cut-Chain, not_In-without,
}
use m2i8t.Porcupine.Checker.{CallsEntry}

module _ {V : Type 0} (h₀ : Heap V) (head : ℕ) (xs₀ : List ℕ) where
  -- A call's match is a later return, and no other call's match.
  pub record IsPaired : Type 0 where
    pub chain : Chain h₀ head xs₀
    pub below : (a b : ℕ) → h₀.match_of a ≡ some b → b < a
    pub returns : (a b : ℕ) → h₀.match_of a ≡ some b → h₀.match_of b ≡ none
    pub single : (a a' b : ℕ) → h₀.match_of a ≡ some b → h₀.match_of a' ≡ some b → a ≡ a'
    pub present : (a b : ℕ) → In a xs₀ → h₀.match_of a ≡ some b → In b xs₀

  -- What stays so of the list of a search.
  pub record IsListed (h : Heap V) (xs : List ℕ) : Type 0 where
    pub chain : Chain h head xs
    pub present : (a b : ℕ) → In a xs → h₀.match_of a ≡ some b → In b xs

  pub lifted_present :
      (e m : ℕ) (xs : List ℕ) (h : Heap V)
      → IsPaired
      → IsListed h xs
      → h₀.match_of e ≡ some m
      → (a b : ℕ) → In a (without m (without e xs))
      → In e xs
      → h₀.match_of a ≡ some b
      → In b (without m (without e xs))
  lifted_present e m xs h w l f a b i k g =
      let i₁ = without-In m a (without e xs) i in
      let i₂ = without-In e a xs i₁ in
      let j = l.present a b i₂ g in
      let not_e : a ≢ e =
        λ q. not_In-without h head e xs l.chain (subst (λ z. In z (without e xs)) q i₁) in
      let b≢e : b ≢ e = λ q. absurd (cc (w.returns a b g, f, q)) in
      let b≢m : b ≢ m = λ q. not_e (w.single a e m (g ∙ ap some q) f) in
      In-without m b (without e xs) (In-without e b xs j b≢e) b≢m

module _ {S V : Type 0} (h₀ : Heap V) (head : ℕ) (xs₀ : List ℕ) where
  -- From the list of the history, the calls have been lifted one after the other: each stood in the
  -- list, with calls only before it.
  pub data Stack : List (CallsEntry S) → Heap V → List ℕ → Type 0 where
    bottom : Stack [] h₀ xs₀
    push :
        {cs : List (CallsEntry S)} {h : Heap V} {xs : List ℕ} (c : CallsEntry S) (m : ℕ)
        → Stack cs h xs
        → In c.entry xs
        → h₀.match_of c.entry ≡ some m
        → ((a : ℕ) → In a xs → c.entry < a → h₀.match_of a ≢ none)
        → Stack (c ∷ cs) (cut m (cut c.entry h)) (without m (without c.entry xs))

  pub Stack-SameFields :
      {cs : List (CallsEntry S)} {h : Heap V} {xs : List ℕ} → Stack cs h xs → SameFields h₀ h
  Stack-SameFields bottom = record { value = refl; match_of = refl; id = refl; fresh = refl }
  Stack-SameFields (push {h = h} c m s i f b) =
      SameFields-trans (Stack-SameFields s)
        (SameFields-trans (cut-SameFields c.entry h) (cut-SameFields m (cut c.entry h)))

  pub Stack-match :
      {cs : List (CallsEntry S)} {h : Heap V} {xs : List ℕ}
      → Stack cs h xs
      → h.match_of ≡ h₀.match_of
  Stack-match s = (Stack-SameFields s).match_of

  pub Stack-IsListed :
      {cs : List (CallsEntry S)} {h : Heap V} {xs : List ℕ}
      → IsPaired h₀ head xs₀
      → Stack cs h xs
      → IsListed h₀ head xs₀ h xs
  Stack-IsListed w bottom = record { chain = w.chain; present = w.present }
  Stack-IsListed w (push {h = h} {xs = xs} c m s i f b) =
      let l = Stack-IsListed w s in
      let j = l.present c.entry m i f in
      record {
        chain = lift-Chain h head c.entry m xs l.chain i j (w.below c.entry m f);
        present = λ a b' k g. lifted_present h₀ head xs₀ c.entry m xs h w l f a b' k i g;
      }

  -- The position is that of a call that was made, or of its return.
  abbrev pub Done : ℕ → List (CallsEntry S) → Type 0
  Done a [] = ⊥
  Done a (c ∷ cs) = (c.entry ≡ a) ⊎ (h₀.match_of c.entry ≡ some a) ⊎ Done a cs

  pub Stack-covers :
      {cs : List (CallsEntry S)} {h : Heap V} {xs : List ℕ} (a : ℕ)
      → Stack cs h xs
      → In a xs₀
      → In a xs ⊎ Done a cs
  Stack-covers a bottom i = inl i
  Stack-covers a (push {cs = cs} {xs = xs} c m s k f b) i = elim (Stack-covers a s i) [
    | inr d ↦ inr (inr (inr d))
    | inl j ↦ elim (Bool-cases (a == c.entry)) [
      | inl e ↦ inr (inl (sym ((==_iff a c.entry).0 e)))
      | inr ne ↦ elim (Bool-cases (a == m)) [
        | inl e ↦ inr (inr (inl (f ∙ ap some (sym ((==_iff a m).0 e)))))
        | inr ne' ↦ inl (
            In-without m a (without c.entry xs) (In-without c.entry a xs j (λ q. ground arith))
              (λ q. ground arith))
      ]
    ]
  ]

  pub Stack-gone :
      {cs : List (CallsEntry S)} {h : Heap V} {xs : List ℕ} (a : ℕ)
      → IsPaired h₀ head xs₀
      → Stack cs h xs
      → Done a cs
      → ¬ In a xs
  Stack-gone a w bottom d i = d
  Stack-gone a w (push {cs = cs} {h = h} {xs = xs} c m s k f b) d i =
      let i₁ = without-In m a (without c.entry xs) i in
      let l = Stack-IsListed w s in
      elim d [
        | inl e ↦
            not_In-without h head c.entry xs l.chain
              (subst (λ z. In z (without c.entry xs)) (sym e) i₁)
        | inr (inl g) ↦
            let q : a ≡ m = ground (arith, f, g) in
            not_In-without (cut c.entry h) head m (without c.entry xs)
              (cut-Chain h head c.entry xs l.chain k)
              (subst (λ z. In z (without m (without c.entry xs))) q i)
        | inr (inr d') ↦ Stack-gone a w s d' (without-In c.entry a xs i₁)
      ]
