-- ===== src/Harness/Wiring.antt =====
-- kvraft/config.go: what connecting and disconnecting a server does to its ends.
use m2i8t.Prelude.{
  ℕ, ◌+◌, ◌≤◌, ◌<◌, ◌≡◌, refl, ap, ◌∙◌, ◌⊎◌, inl, inr, Bool, true, false, Option, some, List, [],
  ◌∷◌, arith, length, Outcome, ok, index, eq_nat, eq_string,
}
use m2i8t.Labrpc.Network.{Network}
use m2i8t.Harness.Ends.{
  EndNames, end_name, set_each, Among, Sets, Sets-then, Found, NoPanic, set_each-Sets,
}
use m2i8t.Harness.Kv.{
  outgoing, incoming, outgoing_if, incoming_if, connect_unlocked, disconnect_unlocked,
}

-- Each of the servers has a row of names, and no two ends have the same name.
pub record IsNamed (endnames : EndNames) (n : ℕ) : Type 0 where
  pub name : ℕ → ℕ → ℕ
  pub row :
      (a : ℕ)
      → a < n
      → (names : List ℕ) × (index endnames a ≡ ok (some names))
        × ((b : ℕ) → b < n → index names b ≡ ok (name a b))
  pub apart :
      (a b a' b' : ℕ)
      → a < n
      → b < n
      → a' < n
      → b' < n
      → name a b ≡ name a' b'
      → (a ≡ a') × (b ≡ b')

-- Servers of the configuration, not more than there are.
pub record IsPart (n : ℕ) (xs : List ℕ) : Type 0 where
  pub below : (x : ℕ) → Among x xs → x < n
  pub short : length xs ≤ n

-- The ends that `g` gives for the servers.
abbrev pub Names : (ℕ → ℕ) → List ℕ → ℕ → Type 0
Names g xs e = (x : ℕ) × Among x xs × (g x ≡ e)

pub record IsRead (f : ℕ → ℕ → Outcome (Option ℕ)) (g : ℕ → ℕ) (j : ℕ) (xs : List ℕ) : Type 0 where
  pub no_panic : NoPanic f j xs
  pub found : (e : ℕ) → Found f j xs e → Names g xs e
  pub all : (e : ℕ) → Names g xs e → Found f j xs e

pub all-IsRead :
    (n : ℕ) (f : ℕ → ℕ → Outcome (Option ℕ)) (g : ℕ → ℕ) (j : ℕ) (xs : List ℕ)
    → ((j x : ℕ) → j < n → x < n → f j x ≡ ok (some (g x)))
    → j + length xs ≤ n
    → ((x : ℕ) → Among x xs → x < n)
    → IsRead f g j xs
all-IsRead n f g j [] h s b = record {
  no_panic = tt;
  found = λ e d. absurd d;
  all = λ e d. absurd d.1;
}
all-IsRead n f g j (x ∷ xs) h s b =
    let r = all-IsRead n f g (j + 1) xs h (omega (arith, s)) (λ y a. b y (inr a)) in
    let q = h j x (omega (arith, s)) (b x (inl refl)) in
    record {
      no_panic = ((some (g x), q), r.no_panic);
      found = λ e d. elim d [
        | inl u ↦ (x, inl refl, cc (q, u))
        | inr u ↦ let (y, a, v) = r.found e u in (y, inr a, v)
      ];
      all = λ e d. elim (d.1) [
        | inl u ↦ inl (q ∙ ap (λ z. ok (some z)) (ap g u ∙ d.2))
        | inr u ↦ inr (r.all e (d.0, u, d.2))
      ];
    }

module _ (endnames : EndNames) (n : ℕ) (w : IsNamed endnames n) where
  pub named : (a b : ℕ) → a < n → b < n → end_name endnames a b ≡ ok (w.name a b)
  unfolding end_name
  named a b la lb = let (names, q, f) = w.row a la in rw (q, f b lb)

  -- The ends between a server and others.
  abbrev pub Link : ℕ → List ℕ → ℕ → Type 0
  Link i xs e = Names (λ x. w.name i x) xs e ⊎ Names (λ x. w.name x i) xs e

module _ {Args Reply State : Type 0} (endnames : EndNames) (n : ℕ) (w : IsNamed endnames n) where
  pub links-Sets :
      (b : Bool) (f g : ℕ → ℕ → Outcome (Option ℕ)) (i : ℕ) (xs : List ℕ)
      (net : Network Args Reply State)
      → IsRead f (λ x. w.name i x) 0 xs
      → IsRead g (λ x. w.name x i) 0 xs
      → (net₁ : Network Args Reply State) × (net₂ : Network Args Reply State) × (set_each b f 0 xs
            net
          ≡ ok net₁)
        × (set_each b g 0 xs net₁ ≡ ok net₂)
        × Sets b (Link endnames n w i xs) net net₂
  links-Sets b f g i xs net r s =
      let (net₁, p, u) = set_each-Sets b f 0 xs net r.no_panic in
      let (net₂, q, v) = set_each-Sets b g 0 xs net₁ s.no_panic in
      (
        net₁,
        net₂,
        p,
        q,
        Sets-then u v (λ e l. elim l [ inl k ↦ inl (r.all e k) | inr k ↦ inr (s.all e k) ])
            (λ e l. elim l [ inl k ↦ inl (r.found e k) | inr k ↦ inr (s.found e k) ]),
      )

  pub connect_unlocked-Sets :
      (i : ℕ) (xs : List ℕ) (net : Network Args Reply State)
      → i < n
      → IsPart n xs
      → (net' : Network Args Reply State) × (connect_unlocked endnames i xs net ≡ ok net')
        × Sets true (Link endnames n w i xs) net net'
  unfolding connect_unlocked outgoing incoming
  connect_unlocked-Sets i xs net l p =
      let r =
        all-IsRead n (outgoing endnames i) (λ x. w.name i x) 0 xs
          (λ j x lj lx. rw (named endnames n w i x l lx)) (omega (arith, p.short)) p.below in
      let s =
        all-IsRead n (incoming endnames i) (λ x. w.name x i) 0 xs
          (λ j x lj lx. rw (named endnames n w x i lx l)) (omega (arith, p.short)) p.below in
      let (net₁, net₂, a, b, c) =
        links-Sets true (outgoing endnames i) (incoming endnames i) i xs net r s in
      (net₂, rw (a, b), c)

  pub disconnect_unlocked-Sets :
      (i : ℕ) (xs : List ℕ) (net : Network Args Reply State)
      → i < n
      → IsPart n xs
      → (net' : Network Args Reply State) × (disconnect_unlocked endnames i xs net ≡ ok net')
        × Sets false (Link endnames n w i xs) net net'
  unfolding disconnect_unlocked outgoing_if incoming_if outgoing incoming
  disconnect_unlocked-Sets i xs net l p =
      let r =
        all-IsRead n (outgoing_if endnames i) (λ x. w.name i x) 0 xs
          (λ j x lj lx. rw ((w.row i l).1, named endnames n w i x l lx)) (omega (arith, p.short))
          p.below in
      let s =
        all-IsRead n (incoming_if endnames i) (λ x. w.name x i) 0 xs
          (λ j x lj lx. rw ((w.row j lj).1, named endnames n w x i lx l)) (omega (arith, p.short))
          p.below in
      let (net₁, net₂, a, b, c) =
        links-Sets false (outgoing_if endnames i) (incoming_if endnames i) i xs net r s in
      (net₂, rw (a, b), c)
