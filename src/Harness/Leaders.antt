-- ===== src/Harness/Leaders.antt =====
-- raft/config.go: what checkOneLeader's answer says of the connected servers.
use mathlib.Core.List.{append_assoc, append-nil}
use m2i8t.Prelude.{
  ℕ, suc, ◌≤◌, ◌<◌, ◌≡◌, refl, sym, ap, ◌∙◌, subst, inl, inr, Bool, ◌&&◌, Option, none, some, List,
  [], ◌∷◌, ◌++◌, arith, ltb, ◌==◌, if◌then◌else◌, Bool-cases, length, get_elem?, ok, index,
  Outcome-cases, eq_nat, eq_string,
}
use m2i8t.Raft.Types.{Raft}
use m2i8t.Harness.Ends.{all_from}
use m2i8t.Harness.Peers.{
  add_leader, newest, leaders_in, states_of, collect_leaders, find_one_leader, check_one_leader,
}

-- The servers that lead in the term, in order.
abbrev pub of_term : ℕ → List (ℕ × ℕ × Bool) → List ℕ
of_term t [] = []
of_term t ((i, term, is_leader) ∷ rest) =
    if is_leader && term == t then i ∷ of_term t rest else of_term t rest

leaders_in-add_leader :
    (t term i : ℕ) (leaders : List (ℕ × List ℕ))
    → leaders_in t (add_leader term i leaders)
      ≡ (if term == t then leaders_in t leaders ++ i ∷ [] else leaders_in t leaders)
unfolding add_leader leaders_in
leaders_in-add_leader t term i [] = ground arith
leaders_in-add_leader t term i ((u, is) ∷ rest) =
    ground (arith, leaders_in-add_leader t term i rest)

leaders_in-collect_leaders :
    (t : ℕ) (states : List (ℕ × ℕ × Bool)) (leaders : List (ℕ × List ℕ))
    → leaders_in t (collect_leaders states leaders) ≡ leaders_in t leaders ++ of_term t states
unfolding collect_leaders
leaders_in-collect_leaders t [] leaders = sym (append-nil (leaders_in t leaders))
leaders_in-collect_leaders t ((i, term, is_leader) ∷ rest) leaders = elim (Bool-cases is_leader) [
  | inl yes_it ↦ ground (
    arith,
    yes_it,
    leaders_in-collect_leaders t rest (add_leader term i leaders),
    leaders_in-add_leader t term i leaders,
    append_assoc (leaders_in t leaders) (i ∷ []) (of_term t rest),
  )
  | inr not_it ↦ ground (arith, not_it, leaders_in-collect_leaders t rest leaders)
]

record IsNewest (leaders : List (ℕ × List ℕ)) (last found : Option ℕ) : Type 0 where
  alone : (t : ℕ) → length (leaders_in t leaders) ≤ 1
  above : (t u : ℕ) → found ≡ some u → u < t → leaders_in t leaders ≡ []
  from_last : (t u : ℕ) → last ≡ some t → found ≡ some u → t ≤ u
  nobody : found ≡ none → (last ≡ none) × (leaders ≡ [])

first_only : (xs : List ℕ) (i : ℕ) → length xs ≤ 1 → index xs 0 ≡ ok i → xs ≡ i ∷ []
first_only [] i l e = absurd (ground arith)
first_only (x ∷ []) i l e = ground arith
first_only (x ∷ y ∷ ys) i l e = absurd (omega (arith, l))

newest_step :
    (term : ℕ) (is : List ℕ) (rest : List (ℕ × List ℕ)) (last : Option ℕ) {found : Option ℕ}
    → newest last ((term, is) ∷ rest) ≡ ok found
    → (length is ≤ 1)
      × ((next : ℕ) × (newest (some next) rest ≡ ok found)
          × (term ≤ next)
          × ((t : ℕ) → last ≡ some t → t ≤ next))
unfolding newest
newest_step term is rest none e =
    (ground (arith, e), (term, ground (arith, e), omega arith, λ t q. absurd (cc q)))
newest_step term is rest (some l) e = elim (Bool-cases (ltb l term)) [
  | inl above ↦ (
    ground (arith, e),
    (term, ground (arith, e, above), omega arith, λ t q. ground (arith, q, above)),
  )
  | inr below ↦ (
    ground (arith, e),
    (l, ground (arith, e, below), ground (arith, below), λ t q. ground (arith, q)),
  )
]

newest-IsNewest :
    (leaders : List (ℕ × List ℕ)) (last : Option ℕ) {found : Option ℕ}
    → newest last leaders ≡ ok found
    → IsNewest leaders last found
unfolding newest leaders_in
newest-IsNewest [] last e = record {
  alone = λ t. omega arith;
  above = λ t u q l. refl;
  from_last = λ t u q q'. ground (arith, e, q, q');
  nobody = λ q. (ground (arith, e, q), refl);
}
newest-IsNewest ((term, is) ∷ rest) last {found} e =
    let (short, (next, q, le, above)) = newest_step term is rest last e in
    let r = newest-IsNewest rest (some next) q in
    record {
      alone = λ t. ground (arith, short, r.alone t);
      above = λ t u f l. ground (arith, r.above t u f l, r.from_last next u refl f, le, l);
      from_last = λ t u f g. omega (arith, above t f, r.from_last next u refl g);
      nobody = λ f. absurd (cc ((r.nobody f).0));
    }

-- The servers that GetState says lead: each term has at most one, and `i` is that of the newest term.
pub record IsOnlyLeader (states : List (ℕ × ℕ × Bool)) (i : ℕ) : Type 0 where
  pub term : ℕ
  pub leads : of_term term states ≡ i ∷ []
  pub newest_term : (t : ℕ) → term < t → of_term t states ≡ []
  pub alone : (t : ℕ) → length (of_term t states) ≤ 1

module _ {C : Type 0} where
  find_one_leader-IsOnlyLeader :
      (connected : List Bool) (n : ℕ) (rafts : List (Option (Raft C))) {i : ℕ}
      → find_one_leader connected n rafts ≡ ok (some i)
      → (states : List (ℕ × ℕ × Bool)) × (states_of connected rafts (all_from 0 n) ≡ ok states)
        × IsOnlyLeader states i
  unfolding find_one_leader leaders_in
  find_one_leader-IsOnlyLeader connected n rafts {i} e =
      elim (Outcome-cases (states_of connected rafts (all_from 0 n))) [
        | inl p ↦ absurd (ground (arith, p, e))
        | inr (states, p) ↦
            let leaders = collect_leaders states [] in
            elim (Outcome-cases (newest none leaders)) [
              | inl q ↦ absurd (ground (arith, p, q, e))
              | inr (none, q) ↦ absurd (ground (arith, p, q, e))
              | inr (some term, q) ↦
                  let r = newest-IsNewest leaders none q in
                  let of : (t : ℕ) → leaders_in t leaders ≡ of_term t states =
                    λ t. leaders_in-collect_leaders t states [] in
                  let at : index (leaders_in term leaders) 0 ≡ ok i = ground (arith, p, q, e) in
                  (
                    states,
                    p,
                    record {
                      term = term;
                      leads =
                          sym (of term) ∙ first_only (leaders_in term leaders) i (r.alone term) at;
                      newest_term = λ t l. sym (of t) ∙ r.above t term refl l;
                      alone = λ t. subst (λ z. length z ≤ 1) (of t) (r.alone t);
                    },
                  )
            ]
      ]

  -- Where checkOneLeader returns a server, one of the tries found it: among the connected servers then, no
  -- term had two leaders, and it was the one leader of the newest term that had any.
  pub check_one_leader-IsOnlyLeader :
      (connected : List Bool) (n : ℕ) (tries : List (List (Option (Raft C)))) (i : ℕ)
      → check_one_leader connected n tries ≡ ok i
      → (k : ℕ) × (rafts : List (Option (Raft C))) × (states : List (ℕ × ℕ × Bool)) × (get_elem?
            tries k
          ≡ some rafts)
        × (states_of connected rafts (all_from 0 n) ≡ ok states)
        × IsOnlyLeader states i
  unfolding check_one_leader
  check_one_leader-IsOnlyLeader connected n [] i e = absurd (ground (arith, e))
  check_one_leader-IsOnlyLeader connected n (rafts ∷ later) i e =
      elim (Outcome-cases (find_one_leader connected n rafts)) [
        | inl p ↦ absurd (ground (arith, p, e))
        | inr (none, p) ↦
            let (k, r, s, at, q, o) =
              check_one_leader-IsOnlyLeader connected n later i (ground (arith, p, e)) in
            (suc k, r, s, at, q, o)
        | inr (some j, p) ↦
            let same : j ≡ i = ground (arith, p, e) in
            let (s, q, o) =
              find_one_leader-IsOnlyLeader connected n rafts (p ∙ ap (λ z. ok (some z)) same) in
            (0, rafts, s, refl, q, o)
      ]
