-- ===== src/Harness/Partition.antt =====
-- kvraft/config.go: what partitioning the servers does to their ends, and to requests through them.
use m2i8t.Prelude.{
  ℕ, ◌≡◌, refl, sym, ap, ◌∙◌, subst, ◌≢◌, ◌⊎◌, inl, inr, Bool, true, false, some, List, [], ◌∷◌, ok,
  eq_nat, eq_string,
}
use m2i8t.Labrpc.Network.{ReqMsg, Network}
use m2i8t.Labrpc.Request.{Tick, process_req}
use m2i8t.Labrpc.Delivery.{disabled-process_req}
use m2i8t.Harness.Ends.{EndNames, Among, Sets, OnlyEnabled, OnlyEnabled-trans}
use m2i8t.Harness.Kv.{KvConfig, part_each, partition}
use m2i8t.Harness.Wiring.{IsNamed, IsPart, Link, connect_unlocked-Sets, disconnect_unlocked-Sets}

abbrev pub Apart : List ℕ → List ℕ → Type 0
Apart own other = (x : ℕ) → Among x own → ¬ Among x other

module _ (endnames : EndNames) (n : ℕ) (w : IsNamed endnames n) where
  -- The end is between two servers of the part, or from one part to the other.
  abbrev Within : List ℕ → ℕ → Type 0
  Within own e = (x : ℕ) × (y : ℕ) × Among x own × Among y own × (w.name x y ≡ e)

  abbrev Across : List ℕ → List ℕ → ℕ → Type 0
  Across own other e =
      (x : ℕ) × (y : ℕ) × Among x own × Among y other × ((w.name x y ≡ e) ⊎ (w.name y x ≡ e))

  disjoint_ends :
      (own other : List ℕ)
      → IsPart n own
      → IsPart n other
      → Apart own other
      → (e : ℕ) → Within own e
      → ¬ Across own other e
  disjoint_ends own other p q apart e (x, y, i, j, r) (u, v, k, l, inl s) =
      let (_, same) =
        w.apart x y u v (p.below x i) (p.below y j) (p.below u k) (q.below v l) (r ∙ sym s) in
      apart y j (subst (λ z. Among z other) (sym same) l)
  disjoint_ends own other p q apart e (x, y, i, j, r) (u, v, k, l, inr s) =
      let (same, _) =
        w.apart x y v u (p.below x i) (p.below y j) (q.below v l) (p.below u k) (r ∙ sym s) in
      apart x i (subst (λ z. Among z other) (sym same) l)

  Across-swap : (own other : List ℕ) (e : ℕ) → Across own other e → Across other own e
  Across-swap own other e (x, y, i, j, inl q) = (y, x, j, i, inr q)
  Across-swap own other e (x, y, i, j, inr q) = (y, x, j, i, inl q)

  Link-Within : (own : List ℕ) (i e : ℕ) → Among i own → Link endnames n w i own e → Within own e
  Link-Within own i e a (inl (x, b, q)) = (i, x, a, b, q)
  Link-Within own i e a (inr (x, b, q)) = (x, i, b, a, q)

  Link-Across :
      (own other : List ℕ) (i e : ℕ)
      → Among i own
      → Link endnames n w i other e
      → Across own other e
  Link-Across own other i e a (inl (x, b, q)) = (i, x, a, b, inl q)
  Link-Across own other i e a (inr (x, b, q)) = (i, x, a, b, inr q)

  -- What the loop over the servers of `own` leaves of the other ends.
  abbrev Framed : List ℕ → List ℕ → (ℕ → Bool) → (ℕ → Bool) → Type 0
  Framed own other on on' =
      (e : ℕ)
      → (on' e ≡ on e) ⊎ (Within own e × (on' e ≡ true)) ⊎ (Across own other e × (on' e ≡ false))

  kept_within :
      (own other : List ℕ) (on on' : ℕ → Bool) (e : ℕ)
      → Framed own other on on'
      → ¬ Across own other e
      → on e ≡ true
      → on' e ≡ true
  kept_within own other on on' e f never t = elim (f e) [
    | inl q ↦ q ∙ t
    | inr (inl q) ↦ q.1
    | inr (inr q) ↦ absurd (never q.0)
  ]

  kept_across :
      (own other : List ℕ) (on on' : ℕ → Bool) (e : ℕ)
      → Framed own other on on'
      → ¬ Within own e
      → on e ≡ false
      → on' e ≡ false
  kept_across own other on on' e f never t = elim (f e) [
    | inl q ↦ q ∙ t
    | inr (inl q) ↦ absurd (never q.0)
    | inr (inr q) ↦ q.1
  ]

  -- What a loop over the servers `is` of a part does.
  record Parts {Args Reply State : Type 0} (own other is : List ℕ)
      (net net' : Network Args Reply State) : Type 0 where
    within : (x y : ℕ) → Among x is → Among y own → net'.enabled (w.name x y) ≡ true
    across :
        (x y : ℕ)
        → Among x is
        → Among y other
        → (net'.enabled (w.name x y) ≡ false) × (net'.enabled (w.name y x) ≡ false)
    frame : Framed own other net.enabled net'.enabled
    rest : OnlyEnabled net net'

  -- An end across the parts that is disabled stays so while a server is connected to its part.
  Across-disabled :
      {Args Reply State : Type 0} (own other : List ℕ) (i e : ℕ)
      (net₁ net₂ net₃ : Network Args Reply State)
      → IsPart n own
      → IsPart n other
      → Apart own other
      → Among i own
      → Across own other e
      → Sets true (Link endnames n w i own) net₁ net₂
      → Framed own other net₂.enabled net₃.enabled
      → net₁.enabled e ≡ false
      → net₃.enabled e ≡ false
  Across-disabled own other i e net₁ net₂ net₃ p q apart a x s f t =
      let never : ¬ Within own e = λ k. disjoint_ends own other p q apart e k x in
      kept_across own other net₂.enabled net₃.enabled e f never
        (elim (s.only e) [ inl u ↦ u ∙ t | inr u ↦ absurd (never (Link-Within own i e a u.0)) ])

  part_each-Parts :
      {Args Reply State : Type 0} (own other is : List ℕ) (net : Network Args Reply State)
      → IsPart n own
      → IsPart n other
      → Apart own other
      → ((x : ℕ) → Among x is → Among x own)
      → (net' : Network Args Reply State) × (part_each endnames own other is net ≡ ok net')
        × Parts own other is net net'
  unfolding part_each
  part_each-Parts own other [] net p q apart sub = (
    net,
    refl,
    record {
      within = λ x y a. absurd a;
      across = λ x y a. absurd a;
      frame = λ e. inl refl;
      rest = refl;
    },
  )
  part_each-Parts own other (i ∷ is) net p q apart sub =
      let a = sub i (inl refl) in
      let l = p.below i a in
      let (net₁, e₁, s₁) = disconnect_unlocked-Sets endnames n w i other net l q in
      let (net₂, e₂, s₂) = connect_unlocked-Sets endnames n w i own net₁ l p in
      let (net₃, e₃, r) = part_each-Parts own other is net₂ p q apart (λ x b. sub x (inr b)) in
      (
        net₃,
        rw (e₁, e₂, e₃),
        record {
          within = λ x y k b. elim k [
            | inl same ↦
                let e = w.name x y in
                let here = s₂.set e (inl (y, b, ap (λ z. w.name z y) same)) in
                kept_within own other net₂.enabled net₃.enabled e r.frame
                  (disjoint_ends own other p q apart e
                    (x, y, subst (λ z. Among z own) same a, b, refl))
                  here
            | inr k' ↦ r.within x y k' b
          ];
          across = λ x y k b. elim k [
            | inl same ↦
                let out = w.name x y in
                let back = w.name y x in
                let to =
                  Across-disabled own other i out net₁ net₂ net₃ p q apart a
                    (i, y, a, b, inl (ap (λ z. w.name z y) same)) s₂ r.frame
                    (s₁.set out (inl (y, b, ap (λ z. w.name z y) same))) in
                let from =
                  Across-disabled own other i back net₁ net₂ net₃ p q apart a
                    (i, y, a, b, inr (ap (λ z. w.name y z) same)) s₂ r.frame
                    (s₁.set back (inr (y, b, ap (λ z. w.name y z) same))) in
                (to, from)
            | inr k' ↦ r.across x y k' b
          ];
          frame = λ e. elim (r.frame e) [
            | inr q₃ ↦ inr q₃
            | inl q₃ ↦ elim (s₂.only e) [
              | inr (k, t) ↦ inr (inl (Link-Within own i e a k, q₃ ∙ t))
              | inl q₂ ↦ elim (s₁.only e) [
                | inr (k, t) ↦ inr (inr (Link-Across own other i e a k, q₃ ∙ q₂ ∙ t))
                | inl q₁ ↦ inl (q₃ ∙ q₂ ∙ q₁)
              ]
            ]
          ];
          rest =
              OnlyEnabled-trans net net₂ net₃ (OnlyEnabled-trans net net₁ net₂ s₁.rest s₂.rest)
                r.rest;
        },
      )

  -- The servers of each part reach each other, and no request from one part to the other gets a reply.
  pub record Split {Args Reply State : Type 0} (p1 p2 : List ℕ)
      (net net' : Network Args Reply State) : Type 0 where
    pub first : (x y : ℕ) → Among x p1 → Among y p1 → net'.enabled (w.name x y) ≡ true
    pub second : (x y : ℕ) → Among x p2 → Among y p2 → net'.enabled (w.name x y) ≡ true
    pub between :
        (x y : ℕ) (req : ReqMsg Args) (draw draw' : ℕ) (ticks : List (Tick Args Reply State))
        (rn : Network Args Reply State) (r : Reply)
        → Among x p1
        → Among y p2
        → (req.endname ≡ w.name x y) ⊎ (req.endname ≡ w.name y x)
        → process_req draw draw' req net' ticks rn ≢ some (some r)
    pub rest : OnlyEnabled net net'

  parts-Split :
      {Args Reply State : Type 0} (p1 p2 : List ℕ) (net : Network Args Reply State)
      → IsPart n p1
      → IsPart n p2
      → Apart p1 p2
      → (net₁ : Network Args Reply State) × (net₂ : Network Args Reply State) × (part_each endnames
            p1 p2 p1 net
          ≡ ok net₁)
        × (part_each endnames p2 p1 p2 net₁ ≡ ok net₂)
        × Split p1 p2 net net₂
  parts-Split p1 p2 net a b apart =
      let other : Apart p2 p1 = λ x i j. apart x j i in
      let (net₁, e₁, r) = part_each-Parts p1 p2 p1 net a b apart (λ x i. i) in
      let (net₂, e₂, s) = part_each-Parts p2 p1 p2 net₁ b a other (λ x i. i) in
      (
        net₁,
        net₂,
        e₁,
        e₂,
        record {
          first = λ x y i j.
              let e = w.name x y in
              kept_within p2 p1 net₁.enabled net₂.enabled e s.frame
                (λ k. disjoint_ends p1 p2 a b apart e (x, y, i, j, refl) (Across-swap p2 p1 e k))
                (r.within x y i j);
          second = s.within;
          between = λ x y req draw draw' ticks rn m i j e.
              let (f, g) = s.across y x j i in
              disabled-process_req draw draw' req net₂ ticks rn m
                (elim e [ inl u ↦ ap net₂.enabled u ∙ g | inr u ↦ ap net₂.enabled u ∙ f ]);
          rest = OnlyEnabled-trans net net₁ net₂ r.rest s.rest;
        },
      )

-- Partitioning servers of the configuration into two parts that share none does not panic; then the ends
-- within a part are enabled, a request from one part to the other gets no reply, and nothing else of the
-- network has changed.
pub partition-Split :
    {C Args Reply State : Type 0} (p1 p2 : List ℕ) (cfg : KvConfig C Args Reply State)
    (w : IsNamed cfg.endnames cfg.n)
    → IsPart cfg.n p1
    → IsPart cfg.n p2
    → Apart p1 p2
    → (net : Network Args Reply State) × (partition p1 p2 cfg ≡ ok record cfg { net = net })
      × Split cfg.endnames cfg.n w p1 p2 cfg.net net
unfolding partition
partition-Split p1 p2 cfg w a b apart =
    let (net₁, net₂, e₁, e₂, s) = parts-Split cfg.endnames cfg.n w p1 p2 cfg.net a b apart in
    (net₂, rw (e₁, e₂), s)
