-- ===== src/Harness/Ends.antt =====
-- kvraft/config.go and raft/config.go: the names of the servers' ends, and the loops that enable them.
use m2i8t.Prelude.{
  ℕ, zero, suc, ◌+◌, ◌≤◌, ◌<◌, ◌≡◌, refl, ap, ◌∙◌, ◌⊎◌, inl, inr, Bool, Option, none, some, List,
  [], ◌∷◌, arith, ◌==◌, ==_iff, Bool-cases, length, Outcome, ok, ◌>>=◌, index, eq_nat, eq_string,
  of_option,
}
use m2i8t.Labrpc.Network.{Network, enable}

-- `cfg.endnames`: for each server the names of its ends, or nil.
abbrev pub EndNames : Type 0
EndNames = List (Option (List ℕ))

-- `endnames[i][j]`
unfoldable pub end_name : EndNames → ℕ → ℕ → Outcome ℕ
end_name endnames i j = do row ← index endnames i; names ← of_option row; index names j

-- `make([]int, n)` filled with its own indices, from `i` on.
unfoldable pub all_from : ℕ → ℕ → List ℕ
all_from i zero = []
all_from i (suc n) = i ∷ all_from (i + 1) n

abbrev pub Among : ℕ → List ℕ → Type 0
Among x [] = ⊥
Among x (y ∷ ys) = (y ≡ x) ⊎ Among x ys

pub length-all_from : (i n : ℕ) → length (all_from i n) ≡ n
unfolding all_from
length-all_from i zero = refl
length-all_from i (suc n) = omega (arith, length-all_from (i + 1) n)

pub all_from-Among : (i n x : ℕ) → Among x (all_from i n) → x < i + n
unfolding all_from
all_from-Among i zero x a = absurd a
all_from-Among i (suc n) x (inl e) = omega (arith, e)
all_from-Among i (suc n) x (inr a) = omega (arith, all_from-Among (i + 1) n x a)

pub Among-all_from : (i n x : ℕ) → i ≤ x → x < i + n → Among x (all_from i n)
unfolding all_from
Among-all_from i zero x l k = absurd (omega (arith, l, k))
Among-all_from i (suc n) x l k = elim (Bool-cases (i == x)) [
  | inl e ↦ inl ((==_iff i x).0 e)
  | inr e ↦ inr (Among-all_from (i + 1) n x (ground (arith, l, e)) (omega (arith, k)))
]

-- The ends that the loop finds.
abbrev pub Found : (ℕ → ℕ → Outcome (Option ℕ)) → ℕ → List ℕ → ℕ → Type 0
Found name j [] e = ⊥
Found name j (x ∷ xs) e = (name j x ≡ ok (some e)) ⊎ Found name (j + 1) xs e

abbrev pub NoPanic : (ℕ → ℕ → Outcome (Option ℕ)) → ℕ → List ℕ → Type 0
NoPanic name j [] = Unit
NoPanic name j (x ∷ xs) = ((found : Option ℕ) × (name j x ≡ ok found)) × NoPanic name (j + 1) xs

module _ {Args Reply State : Type 0} where
  -- A loop that enables or disables an end for each of the servers: `name` takes the index and the
  -- server there, and gives none where the loop's condition does not hold.
  unfoldable pub set_each :
      Bool
      → (ℕ → ℕ → Outcome (Option ℕ))
      → ℕ
      → List ℕ
      → Network Args Reply State
      → Outcome (Network Args Reply State)
  unfolding enable
  set_each b name j [] net = ok net
  set_each b name j (x ∷ xs) net = do
    found ← name j x
    set_each b name (j + 1) xs (elim found [ none ↦ net | some e ↦ enable e b net ])

  -- Nothing but the flags of the ends differs.
  abbrev pub OnlyEnabled : Network Args Reply State → Network Args Reply State → Type 0
  OnlyEnabled net net' = net' ≡ record net { enabled = net'.enabled }

  pub OnlyEnabled-trans :
      (net net' net'' : Network Args Reply State)
      → OnlyEnabled net net'
      → OnlyEnabled net' net''
      → OnlyEnabled net net''
  OnlyEnabled-trans net net' net'' p q =
      let f : Network Args Reply State → Network Args Reply State =
        λ z. record z { enabled = net''.enabled } in
      q ∙ ap f p

  -- The ends that are of a kind are set to a Boolean, and no others change.
  pub record Sets (b : Bool) (P : ℕ → Type 0) (net net' : Network Args Reply State) : Type 0 where
    pub set : (e : ℕ) → P e → net'.enabled e ≡ b
    pub only : (e : ℕ) → (net'.enabled e ≡ net.enabled e) ⊎ (P e × (net'.enabled e ≡ b))
    pub rest : OnlyEnabled net net'

  pub Sets-then :
      {b : Bool} {P Q R : ℕ → Type 0} {net net' net'' : Network Args Reply State}
      → Sets b P net net'
      → Sets b Q net' net''
      → ((e : ℕ) → R e → P e ⊎ Q e)
      → ((e : ℕ) → P e ⊎ Q e → R e)
      → Sets b R net net''
  Sets-then {net = net} {net' = net'} {net'' = net''} s t f g = record {
    set = λ e r. elim (f e r) [
      | inl p ↦ elim (t.only e) [ inl q ↦ q ∙ s.set e p | inr q ↦ q.1 ]
      | inr q ↦ t.set e q
    ];
    only = λ e. elim (t.only e) [
      | inl q ↦ elim (s.only e) [ inl p ↦ inl (q ∙ p) | inr p ↦ inr (g e (inl p.0), q ∙ p.1) ]
      | inr q ↦ inr (g e (inr q.0), q.1)
    ];
    rest = OnlyEnabled-trans net net' net'' s.rest t.rest;
  }

  enable-Sets :
      (e : ℕ) (b : Bool) (net : Network Args Reply State) → Sets b (λ x. e ≡ x) net (enable e b net)
  unfolding enable
  enable-Sets e b net = record {
    set = λ x q. ground (arith, q);
    only = λ x. ground arith;
    rest = refl;
  }

  pub set_each-Sets :
      (b : Bool) (name : ℕ → ℕ → Outcome (Option ℕ)) (j : ℕ) (xs : List ℕ)
      (net : Network Args Reply State)
      → NoPanic name j xs
      → (net' : Network Args Reply State) × (set_each b name j xs net ≡ ok net')
        × Sets b (Found name j xs) net net'
  unfolding set_each
  set_each-Sets b name j [] net n =
      (net, refl, record { set = λ e p. absurd p; only = λ e. inl refl; rest = refl })
  set_each-Sets b name j (x ∷ xs) net ((none, q), n) =
      let (net', r, s) = set_each-Sets b name (j + 1) xs net n in
      (
        net',
        rw (q, r),
        record {
          set = λ e p. elim p [ inl u ↦ absurd (cc (q, u)) | inr u ↦ s.set e u ];
          only = λ e. elim (s.only e) [ inl u ↦ inl u | inr u ↦ inr (inr u.0, u.1) ];
          rest = s.rest;
        },
      )
  set_each-Sets b name j (x ∷ xs) net ((some e, q), n) =
      let (net', r, s) = set_each-Sets b name (j + 1) xs (enable e b net) n in
      (
        net',
        rw (q, r),
        Sets-then (enable-Sets e b net) s
            (λ x p. elim p [ inl u ↦ inl (cc (q, u)) | inr u ↦ inr u ])
            (λ x p. elim p [ inl u ↦ inl (q ∙ ap (λ z. ok (some z)) u) | inr u ↦ inr u ]),
      )
