-- ===== src/Porcupine/Chain.antt =====
-- porcupine/checker.go: the list as a chain of addresses, each below the one before it, and what lifting
-- an entry does to it.
use m2i8t.Prelude.{
  ℕ, ◌≤◌, ◌<◌, ◌≡◌, refl, sym, ap, ◌∙◌, fun_ext, subst, ◌≢◌, ◌⊎◌, inl, inr, true, false, none, some,
  List, [], ◌∷◌, arith, ◌==◌, if◌then◌else◌, ==_iff, Bool-cases, Option-cases, ok, eq_nat,
  eq_string,
}
use m2i8t.Porcupine.Links.{Heap, set_next, set_prev, lift, unlift}
use m2i8t.Porcupine.Relink.{
  IsLinked, SameFields, SameLinks, lift-SameFields, unlift-SameFields, unlift-lift,
}

abbrev pub In : ℕ → List ℕ → Type 0
In x [] = ⊥
In x (y ∷ ys) = (y ≡ x) ⊎ In x ys

abbrev pub without : ℕ → List ℕ → List ℕ
without x [] = []
without x (y ∷ ys) = if y == x then ys else y ∷ without x ys

pub without-In : (x a : ℕ) (xs : List ℕ) → In a (without x xs) → In a xs
without-In x a [] i = i
without-In x a (y ∷ ys) i = ground (arith, without-In x a ys)

pub In-without : (x a : ℕ) (xs : List ℕ) → In a xs → a ≢ x → In a (without x xs)
In-without x a [] i ne = i
In-without x a (y ∷ ys) i ne = ground (arith, In-without x a ys)

module _ {V : Type 0} where
  -- From the node `p` on the list is these nodes.
  abbrev pub Chain : Heap V → ℕ → List ℕ → Type 0
  Chain h p [] = h.next p ≡ none
  Chain h p (x ∷ xs) = (h.next p ≡ some x) × (h.prev x ≡ some p) × (x < p) × Chain h x xs

  pub Chain-lt : (h : Heap V) (p a : ℕ) (xs : List ℕ) → Chain h p xs → In a xs → a < p
  Chain-lt h p a [] c i = absurd i
  Chain-lt h p a (x ∷ xs) (_, _, lt, c) (inl e) = omega (arith, lt, e)
  Chain-lt h p a (x ∷ xs) (_, _, lt, c) (inr i) = omega (arith, lt, Chain-lt h x a xs c i)

  -- A node of the chain, and the one before it.
  pub Chain-before :
      (h : Heap V) (p a : ℕ) (xs : List ℕ)
      → Chain h p xs
      → In a xs
      → (b : ℕ) × (h.prev a ≡ some b) × (h.next b ≡ some a) × (a < b) × (b ≤ p)
  Chain-before h p a [] c i = absurd i
  Chain-before h p a (x ∷ xs) (to, from, lt, c) (inl e) =
      (p, ap h.prev (sym e) ∙ from, to ∙ ap some e, omega (arith, lt, e), omega arith)
  Chain-before h p a (x ∷ xs) (to, from, lt, c) (inr i) =
      let (b, e, f, g, k) = Chain-before h x a xs c i in (b, e, f, g, omega (arith, lt, k))

  first_after :
      (h : Heap V) (p b : ℕ) (xs : List ℕ)
      → Chain h p xs
      → h.next p ≡ some b
      → (h.prev b ≡ some p) × (b < p) × In b xs
  first_after h p b [] c e = absurd (cc (c, e))
  first_after h p b (x ∷ xs) (to, from, lt, c) e =
      let q : x ≡ b = cc (to, e) in (ap h.prev (sym q) ∙ from, omega (arith, lt, q), inl q)

  -- The one after it, where there is one.
  pub Chain-after :
      (h : Heap V) (p a b : ℕ) (xs : List ℕ)
      → Chain h p xs
      → In a xs
      → h.next a ≡ some b
      → (h.prev b ≡ some a) × (b < a) × In b xs
  Chain-after h p a b [] c i e = absurd i
  Chain-after h p a b (x ∷ xs) (to, from, lt, c) (inl q) e =
      let (f, g, k) = first_after h x b xs c (ap h.next q ∙ e) in
      (f ∙ ap some q, omega (arith, g, q), inr k)
  Chain-after h p a b (x ∷ xs) (to, from, lt, c) (inr i) e =
      let (f, g, k) = Chain-after h x a b xs c i e in (f, g, inr k)

  pub first_has :
      (h : Heap V) (p b : ℕ) (xs : List ℕ)
      → Chain h p xs
      → In b xs
      → (n : ℕ) × (h.next p ≡ some n) × (b ≤ n) × In n xs
  first_has h p b [] c j = absurd j
  first_has h p b (x ∷ xs) (to, from, lt, c) (inl e) = (x, to, omega (arith, e), inl refl)
  first_has h p b (x ∷ xs) (to, from, lt, c) (inr j) =
      (x, to, omega (arith, Chain-lt h x b xs c j), inl refl)

  -- A node that has one below it in the chain has one after it, and that is not below.
  pub Chain-has_after :
      (h : Heap V) (p a b : ℕ) (xs : List ℕ)
      → Chain h p xs
      → In a xs
      → In b xs
      → b < a
      → (n : ℕ) × (h.next a ≡ some n) × (b ≤ n) × In n xs
  Chain-has_after h p a b [] c i j lt = absurd i
  Chain-has_after h p a b (x ∷ xs) (to, from, l, c) (inl q) (inl e) lt =
      absurd (omega (arith, q, e, lt))
  Chain-has_after h p a b (x ∷ xs) (to, from, l, c) (inl q) (inr j) lt =
      let (n, e, le, k) = first_has h x b xs c j in (n, ap h.next (sym q) ∙ e, le, inr k)
  Chain-has_after h p a b (x ∷ xs) (to, from, l, c) (inr i) (inl e) lt =
      absurd (omega (arith, e, lt, Chain-lt h x a xs c i))
  Chain-has_after h p a b (x ∷ xs) (to, from, l, c) (inr i) (inr j) lt =
      let (n, e, le, k) = Chain-has_after h x a b xs c i j lt in (n, e, le, inr k)

  Chain-frame :
      (h h' : Heap V) (p : ℕ) (xs : List ℕ)
      → ((a : ℕ) → a ≤ p → h'.next a ≡ h.next a)
      → ((a : ℕ) → a < p → h'.prev a ≡ h.prev a)
      → Chain h p xs
      → Chain h' p xs
  Chain-frame h h' p [] f g c = f p (omega arith) ∙ c
  Chain-frame h h' p (x ∷ xs) f g (to, from, lt, c) = (
    f p (omega arith) ∙ to,
    g x lt ∙ from,
    lt,
    Chain-frame h h' x xs (λ a le. f a (omega (arith, lt, le))) (λ a l. g a (omega (arith, lt, l)))
        c,
  )

  -- The node is taken out of the list; its own links stay.
  unfoldable pub cut : ℕ → Heap V → Heap V
  cut x h = elim (h.prev x) [
    | none ↦ h
    | some p ↦ elim (h.next x) [
      | none ↦ set_next p none h
      | some n ↦ set_prev n (some p) (set_next p (some n) h)
    ]
  ]

  cut_next :
      (h : Heap V) (x b a : ℕ)
      → h.prev x ≡ some b
      → (cut x h).next a ≡ (if b == a then h.next x else h.next a)
  unfolding cut
  cut_next h x b a e = elim (Option-cases (h.next x)) [
    | inl q ↦ ground (arith, e, q)
    | inr (n, q) ↦ ground (arith, e, q)
  ]

  cut_prev :
      (h : Heap V) (x b a : ℕ) → h.prev x ≡ some b → h.next x ≢ some a → (cut x h).prev a ≡ h.prev a
  unfolding cut
  cut_prev h x b a e ne = elim (Option-cases (h.next x)) [
    | inl q ↦ ground (arith, e, q)
    | inr (n, q) ↦ ground (arith, e, q)
  ]

  cut_prev_after :
      (h : Heap V) (x b a : ℕ) → h.prev x ≡ some b → h.next x ≡ some a → (cut x h).prev a ≡ some b
  unfolding cut
  cut_prev_after h x b a e q = ground (arith, e, q)

  first-cut :
      (h : Heap V) (p x : ℕ) (xs : List ℕ)
      → h.prev x ≡ some p
      → x < p
      → Chain h x xs
      → Chain (cut x h) p xs
  first-cut h p x [] from lt c = cut_next h x p p from ∙ ground (arith, c)
  first-cut h p x (y ∷ ys) from lt (to', from', lt', c) = (
    cut_next h x p p from ∙ ground (arith, to'),
    cut_prev_after h x p y from to',
    omega (arith, lt, lt'),
    Chain-frame h (cut x h) y ys (λ a le. cut_next h x p a from ∙ ground arith)
        (λ a l. cut_prev h x p a from (λ q. ground arith)) c,
  )

  pub cut-SameFields : (x : ℕ) (h : Heap V) → SameFields h (cut x h)
  unfolding cut
  cut-SameFields x h = ground arith

  pub cut-Chain :
      (h : Heap V) (p x : ℕ) (xs : List ℕ)
      → Chain h p xs
      → In x xs
      → Chain (cut x h) p (without x xs)
  cut-Chain h p x [] c i = absurd i
  cut-Chain h p x (y ∷ ys) (to, from, lt, c) (inl e) =
      let same : (y == x) ≡ true = ground arith in
      rw same (
        first-cut h p x ys (ap h.prev (sym e) ∙ from) (omega (arith, e, lt))
          (subst (λ z. Chain h z ys) e c))
  cut-Chain h p x (y ∷ ys) (to, from, lt, c) (inr i) =
      let l = Chain-lt h y x ys c i in
      let (b, e, f, g, k) = Chain-before h y x ys c i in
      let other : (y == x) ≡ false = ground arith in
      rw other (
        cut_next h x b p e ∙ ground arith,
        cut_prev h x b y e (λ q. absurd (omega (arith, l, (Chain-after h y x y ys c i q).1)))
            ∙ from,
        lt,
        cut-Chain h y x ys c i,
      )

  -- The links of an entry and its match in a chain.
  pub Chain-IsLinked :
      (h : Heap V) (p e m : ℕ) (xs : List ℕ)
      → Chain h p xs
      → In e xs
      → In m xs
      → m < e
      → h.match_of e ≡ some m
      → (b n q : ℕ) × IsLinked h e m b n q
  Chain-IsLinked h p e m xs c i j lt f =
      let (b, e₁, e₂, e₃, e₄) = Chain-before h p e xs c i in
      let (n, n₁, n₂, n₃) = Chain-has_after h p e m xs c i j lt in
      let (q, q₁, q₂, q₃, q₄) = Chain-before h p m xs c j in
      let (n₄, n₅, n₆) = Chain-after h p e n xs c i n₁ in
      (
        b,
        n,
        q,
        record {
          matched = f;
          prev_entry = e₁;
          next_entry = n₁;
          prev_match = q₁;
          to_entry = e₂;
          from_entry = n₄;
          to_match = q₂;
          from_match = λ r k. (Chain-after h p m r xs c j k).0;
          other = λ z. absurd (omega (arith, lt, z));
          not_self = λ z. absurd (omega (arith, e₃, z));
          before = λ z. absurd (omega (arith, lt, e₃, z));
          before_next = λ z. absurd (omega (arith, e₃, n₅, z));
          match_not_self = λ z. absurd (omega (arith, q₃, z));
        },
      )

  lift-cut_linked :
      (h : Heap V) (e m b n q : ℕ) → IsLinked h e m b n q → lift e h ≡ ok (cut m (cut e h))
  unfolding lift cut
  lift-cut_linked h e m b n q l = ground (arith, l)

  -- Where the entry and its match stand in the chain, lifting the entry cuts both out.
  pub lift-cut :
      (h : Heap V) (p e m : ℕ) (xs : List ℕ)
      → Chain h p xs
      → In e xs
      → In m xs
      → m < e
      → h.match_of e ≡ some m
      → lift e h ≡ ok (cut m (cut e h))
  lift-cut h p e m xs c i j lt f =
      let (b, n, q, l) = Chain-IsLinked h p e m xs c i j lt f in lift-cut_linked h e m b n q l

  pub lift-Chain :
      (h : Heap V) (p e m : ℕ) (xs : List ℕ)
      → Chain h p xs
      → In e xs
      → In m xs
      → m < e
      → Chain (cut m (cut e h)) p (without m (without e xs))
  lift-Chain h p e m xs c i j lt =
      cut-Chain (cut e h) p m (without e xs) (cut-Chain h p e xs c i)
        (In-without e m xs j (λ z. absurd (omega (arith, lt, z))))

  pub SameFields-trans :
      {h h' h'' : Heap V} → SameFields h h' → SameFields h' h'' → SameFields h h''
  SameFields-trans f g = record {
    value = g.value ∙ f.value;
    match_of = g.match_of ∙ f.match_of;
    id = g.id ∙ f.id;
    fresh = g.fresh ∙ f.fresh;
  }

  heap_ext : {h h' : Heap V} → SameFields h h' → SameLinks h h' → h' ≡ h
  unfolding SameLinks
  heap_ext {h} {h'} f l =
      let a : h'.next ≡ h.next = fun_ext (λ x. (l x).0) in
      let b : h'.prev ≡ h.prev = fun_ext (λ x. (l x).1) in ground (arith, f, a, b)

  -- Unlifting it then gives the heap back.
  pub unlift-cut :
      (h : Heap V) (p e m : ℕ) (xs : List ℕ)
      → Chain h p xs
      → In e xs
      → In m xs
      → m < e
      → h.match_of e ≡ some m
      → unlift e (cut m (cut e h)) ≡ ok h
  unlift-cut h p e m xs c i j lt f =
      let (b, n, q, l) = Chain-IsLinked h p e m xs c i j lt f in
      let (h', h'', x, y, same) = unlift-lift h e m b n q l in
      let k : h' ≡ cut m (cut e h) = cc (x, lift-cut_linked h e m b n q l) in
      let z : h'' ≡ h =
        heap_ext (SameFields-trans (lift-SameFields e h x) (unlift-SameFields e h' y)) same in
      rw (← k) (y ∙ ap ok z)

  -- A node that was cut out is not in the list.
  pub not_In-without : (h : Heap V) (p x : ℕ) (xs : List ℕ) → Chain h p xs → ¬ In x (without x xs)
  not_In-without h p x [] c i = i
  not_In-without h p x (y ∷ ys) (to, from, lt, c) i = elim (Bool-cases (y == x)) [
    | inl e ↦
        let k : In x ys = ground arith in
        absurd (omega (arith, (==_iff y x).0 e, Chain-lt h y x ys c k))
    | inr e ↦
        let k : (y ≡ x) ⊎ In x (without x ys) = ground (arith, e) in
        elim k [ inl q ↦ absurd (ground (arith, e, q)) | inr j ↦ not_In-without h y x ys c j ]
  ]
