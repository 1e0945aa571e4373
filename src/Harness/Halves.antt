-- ===== src/Harness/Halves.antt =====
-- kvraft/config.go: the two parts that make_partition divides the servers into.
use mathlib.Core.List.{Perm, perm_middle}
use mathlib.Core.List.Perm
use m2i8t.Prelude.{
  ℕ, zero, suc, ◌+◌, ◌-◌, ◌*◌, ◌/◌, ◌≤◌, ◌<◌, ◌≡◌, refl, sym, ap, ◌∙◌, subst, ◌⊎◌, inl, inr, Bool,
  Option, some, List, [], ◌∷◌, ◌++◌, arith, ltb, ◌==◌, if◌then◌else◌, ltb→lt, ltb→le, ==_iff,
  Bool-cases, length, get_elem?, set, take, replicate, length-append, length-set,
  get_elem?-set_self, length-replicate, take_of_length, Outcome, ok, Outcome-cases, store-eq,
  eq_nat, eq_string,
}
use m2i8t.Raft.Types.{Raft}
use m2i8t.Harness.Ends.{Among, all_from, length-all_from, all_from-Among}
use m2i8t.Harness.Kv.{
  KvConfig, leader_among, part_from, store_last, all_servers, find_leader, make_partition,
}

module _ {A : Type 0} where
  set-append_left :
      (xs ys : List A) (i : ℕ) (v : A) → i < length xs → set (xs ++ ys) i v ≡ set xs i v ++ ys
  set-append_left [] ys i v l = absurd (omega (arith, l))
  set-append_left (x ∷ xs) ys zero v l = refl
  set-append_left (x ∷ xs) ys (suc i) v l =
      ap (λ zs. x ∷ zs) (set-append_left xs ys i v (omega (arith, l)))

  set-append_right :
      (xs ys : List A) (i : ℕ) (v : A)
      → length xs ≤ i
      → set (xs ++ ys) i v ≡ xs ++ set ys (i - length xs) v
  set-append_right [] ys i v l = ap (λ k. set ys k v) (omega arith)
  set-append_right (x ∷ xs) ys zero v l = absurd (omega (arith, l))
  set-append_right (x ∷ xs) ys (suc i) v l =
      ap (λ zs. x ∷ zs)
        (set-append_right xs ys i v (omega (arith, l)) ∙ ap (λ k. xs ++ set ys k v) (omega arith))

  take-set :
      (xs : List A) (i : ℕ) (v : A)
      → i < length xs
      → take (suc i) (set xs i v) ≡ take i xs ++ v ∷ []
  take-set [] i v l = absurd (omega (arith, l))
  take-set (x ∷ xs) zero v l = refl
  take-set (x ∷ xs) (suc i) v l = ap (λ zs. x ∷ zs) (take-set xs i v (omega (arith, l)))

  append_nil : (xs : List A) → xs ++ [] ≡ xs
  append_nil [] = refl
  append_nil (x ∷ xs) = ap (λ zs. x ∷ zs) (append_nil xs)

  append_assoc : (xs ys zs : List A) → (xs ++ ys) ++ zs ≡ xs ++ (ys ++ zs)
  append_assoc [] ys zs = refl
  append_assoc (x ∷ xs) ys zs = ap (λ us. x ∷ us) (append_assoc xs ys zs)

-- The servers other than `l`.
others : ℕ → List ℕ → List ℕ
others l [] = []
others l (x ∷ xs) = if x == l then others l xs else x ∷ others l xs

-- The writes of `xs` to the places from `j` on.
writes : List ℕ → ℕ → List ℕ → List ℕ
writes zs j [] = zs
writes zs j (x ∷ xs) = writes (set zs j x) (j + 1) xs

length-writes : (zs : List ℕ) (j : ℕ) (xs : List ℕ) → length (writes zs j xs) ≡ length zs
unfolding writes
length-writes zs j [] = refl
length-writes zs j (x ∷ xs) = length-writes (set zs j x) (j + 1) xs ∙ length-set zs j x

take-writes :
    (zs : List ℕ) (j k : ℕ) (xs : List ℕ)
    → j + length xs ≡ k
    → k ≤ length zs
    → take k (writes zs j xs) ≡ take j zs ++ xs
unfolding writes
take-writes zs j k [] e l =
    subst (λ k. take k zs ≡ take j zs ++ []) (omega (arith, e)) (sym (append_nil (take j zs)))
take-writes zs j k (x ∷ xs) e l =
    let shorter : j < length zs = omega (arith, e, l) in
    take-writes (set zs j x) (j + 1) k xs (omega (arith, e)) (omega (arith, l, length-set zs j x))
    ∙ ap (λ ys. ys ++ xs)
        (ap (λ i. take i (set zs j x)) {y = suc j} (omega arith) ∙ take-set zs j x shorter)
    ∙ append_assoc (take j zs) (x ∷ []) xs

record Parts (zs p1 p2 : List ℕ) (o : Outcome (List ℕ × List ℕ)) : Type 0 where
  q1 : List ℕ
  q2 : List ℕ
  result : o ≡ ok (q1, q2)
  whole : q1 ++ q2 ≡ zs
  length1 : length q1 ≡ length p1
  length2 : length q2 ≡ length p2

Parts-step :
    {zs zs' p1 p1' p2 p2' : List ℕ} {o o' : Outcome (List ℕ × List ℕ)}
    → Parts zs' p1' p2' o'
    → zs' ≡ zs
    → length p1' ≡ length p1
    → length p2' ≡ length p2
    → o ≡ o'
    → Parts zs p1 p2 o
Parts-step r e l1 l2 s = record {
  q1 = r.q1;
  q2 = r.q2;
  result = s ∙ r.result;
  whole = r.whole ∙ e;
  length1 = r.length1 ∙ l1;
  length2 = r.length2 ∙ l2;
}

part_from-Parts :
    (l : ℕ) (is : List ℕ) (j : ℕ) (p1 p2 : List ℕ)
    → j + length (others l is) ≤ length p1 + length p2
    → Parts (writes (p1 ++ p2) j (others l is)) p1 p2 (part_from l is j p1 p2)
unfolding part_from others writes
part_from-Parts l [] j p1 p2 h = record {
  q1 = p1;
  q2 = p2;
  result = refl;
  whole = refl;
  length1 = refl;
  length2 = refl;
}
part_from-Parts l (i ∷ is) j p1 p2 h = elim (Bool-cases (i == l)) [
  | inl same ↦
      let e : others l (i ∷ is) ≡ others l is = rw same refl in
      Parts-step (part_from-Parts l is j p1 p2 (omega (arith, h, ap length e)))
        (ap (writes (p1 ++ p2) j) (sym e)) refl refl (rw same refl)
  | inr differs ↦
      let e : others l (i ∷ is) ≡ i ∷ others l is = rw differs refl in
      let n = ap length e in
      elim (Bool-cases (ltb j (length p1))) [
        | inl first ↦
            let in1 = ltb→lt j (length p1) first in
            Parts-step
              (part_from-Parts l is (j + 1) (set p1 j i) p2
                (omega (arith, h, n, length-set p1 j i)))
              (ap (λ zs. writes zs (j + 1) (others l is)) (sym (set-append_left p1 p2 j i in1))
                ∙ ap (writes (p1 ++ p2) j) (sym e))
              (length-set p1 j i) refl (rw (differs, first, store-eq p1 j i in1) refl)
        | inr second ↦
            let k = j - length p1 in
            let in2 = ltb→le j (length p1) second in
            Parts-step
              (part_from-Parts l is (j + 1) p1 (set p2 k i)
                (omega (arith, h, n, length-set p2 k i)))
              (ap (λ zs. writes zs (j + 1) (others l is)) (sym (set-append_right p1 p2 j i in2))
                ∙ ap (writes (p1 ++ p2) j) (sym e))
              refl (length-set p2 k i)
              (rw (differs, second, store-eq p2 k i (omega (arith, h, n, in2))) refl)
      ]
]

others_above : (l i n : ℕ) → l < i → others l (all_from i n) ≡ all_from i n
unfolding others all_from
others_above l i zero h = refl
others_above l i (suc n) h = elim (Bool-cases (i == l)) [
  | inl same ↦ absurd (omega (arith, h, (==_iff i l).0 same))
  | inr differs ↦ rw differs (ap (λ xs. i ∷ xs) (others_above l (i + 1) n (omega (arith, h))))
]

others-Perm : (l i n : ℕ) → i ≤ l → l < i + n → Perm (l ∷ others l (all_from i n)) (all_from i n)
unfolding others all_from
others-Perm l i zero low high = absurd (omega (arith, low, high))
others-Perm l i (suc n) low high = elim (Bool-cases (i == l)) [
  | inl same ↦
      let q = (==_iff i l).0 same in
      rw (same, others_above l (i + 1) n (omega (arith, q)), q) (Perm.refl (l ∷ all_from (l + 1) n))
  | inr differs ↦
      let rest = others l (all_from (i + 1) n) in
      let p = others-Perm l (i + 1) n (ground (arith, low, differs)) (omega (arith, high)) in
      rw differs (Perm.trans (Perm.swap i l rest) (Perm.cons i p))
]

length-others : (l i n : ℕ) → i ≤ l → l < i + n → length (others l (all_from i n)) + 1 ≡ n
unfolding others all_from
length-others l i zero low high = absurd (omega (arith, low, high))
length-others l i (suc n) low high = elim (Bool-cases (i == l)) [
  | inl same ↦
      let q = (==_iff i l).0 same in
      rw (same, others_above l (i + 1) n (omega (arith, q)), length-all_from (i + 1) n)
        (omega arith)
  | inr differs ↦
      let shorter =
        length-others l (i + 1) n (ground (arith, low, differs)) (omega (arith, high)) in
      rw differs (omega (arith, shorter))
]

-- The leader found is one of the servers looked at, or 0.
leader_among-Among :
    {C : Type 0} (kvservers : List (Option (Raft C))) (is : List ℕ) {b : Bool} {l : ℕ}
    → leader_among kvservers is ≡ ok (b, l)
    → Among l is ⊎ (l ≡ 0)
unfolding leader_among
leader_among-Among kvservers [] e = inr (cc e)
leader_among-Among kvservers (i ∷ is) e = elim (Outcome-cases (leader_among kvservers is)) [
  | inl rest ↦ ground (arith, e, rest)
  | inr ((c, k), rest) ↦
      let later = leader_among-Among kvservers is rest in ground (arith, e, rest, later)
]

store_last-eq : (xs : List ℕ) (m l : ℕ) → length xs ≡ suc m → store_last xs l ≡ ok (set xs m l)
store_last-eq [] m l e = absurd (omega (arith, e))
store_last-eq (x ∷ xs) m l e =
    store-eq (x ∷ xs) (length xs) l (omega arith)
    ∙ ap (λ k. ok (set (x ∷ xs) k l)) (omega (arith, e))

perm_append_last : (xs : List ℕ) (x : ℕ) → Perm (xs ++ x ∷ []) (x ∷ xs)
perm_append_last xs x =
    subst (λ ys. Perm (xs ++ x ∷ []) (x ∷ ys)) (append_nil xs) (perm_middle xs [])

set_last :
    (zs q1 q2 os : List ℕ) (m i l : ℕ)
    → q1 ++ q2 ≡ writes zs 0 os
    → length q1 + m ≡ i
    → length os ≡ i
    → length zs ≡ i + 1
    → q1 ++ set q2 m l ≡ os ++ l ∷ []
set_last zs q1 q2 os m i l whole place count room =
    let v = writes zs 0 os in
    let long : length v ≡ i + 1 = length-writes zs 0 os ∙ room in
    ap (λ k. q1 ++ set q2 k l) {y = i - length q1} (omega (arith, place))
    ∙ sym (set-append_right q1 q2 i l (omega (arith, place)))
    ∙ ap (λ ys. set ys i l) whole
    ∙ sym (take_of_length (suc i) (set v i l) (omega (arith, length-set v i l, long)))
    ∙ take-set v i l (omega (arith, long))
    ∙ ap (λ ys. ys ++ l ∷ []) (take-writes zs 0 i os (omega (arith, count)) (omega (arith, room)))

-- A majority and a minority of `2 * k + 1` servers, with the server `l` last in the minority.
pub record IsHalves (k l : ℕ) (servers p1 p2 : List ℕ) : Type 0 where
  pub majority : length p1 ≡ k + 1
  pub minority : length p2 ≡ k
  pub parts : Perm (p1 ++ p2) servers
  pub leader_last : get_elem? p2 (k - 1) ≡ some l

module _ {C Args Reply State : Type 0} where
  found_below :
      (cfg : KvConfig C Args Reply State) {b : Bool} {l : ℕ}
      → 0 < cfg.n
      → find_leader cfg ≡ ok (b, l)
      → l < cfg.n
  unfolding find_leader all_servers
  found_below cfg some_server e = elim (leader_among-Among cfg.kvservers (all_from 0 cfg.n) e) [
    | inl a ↦ omega (arith, all_from-Among 0 cfg.n _ a)
    | inr z ↦ omega (arith, some_server, z)
  ]

  -- make_partition does not panic for an odd number of servers, at least 3, where Leader does not: the parts
  -- it returns hold every server once, the first is a majority, and the server that Leader gives is the
  -- last of the other.
  pub make_partition-IsHalves :
      (cfg : KvConfig C Args Reply State) (m : ℕ) {b : Bool} {l : ℕ}
      → cfg.n ≡ 2 * (m + 1) + 1
      → find_leader cfg ≡ ok (b, l)
      → (p1 : List ℕ) × (p2 : List ℕ) × (make_partition cfg ≡ ok (p1, p2))
        × IsHalves (m + 1) l (all_servers cfg) p1 p2
  unfolding make_partition all_servers
  make_partition-IsHalves cfg m {l = l} odd found =
      let below = found_below cfg (omega (arith, odd)) found in
      let os = others l (all_from 0 cfg.n) in
      let count = length-others l 0 cfg.n (omega arith) (omega (arith, below)) in
      let e1 : List ℕ = replicate (cfg.n / 2 + 1) 0 in
      let e2 : List ℕ = replicate (cfg.n / 2) 0 in
      let n1 : length e1 ≡ m + 2 = length-replicate (cfg.n / 2 + 1) 0 ∙ omega (arith, odd) in
      let n2 : length e2 ≡ m + 1 = length-replicate (cfg.n / 2) 0 ∙ omega (arith, odd) in
      let ps = part_from-Parts l (all_from 0 cfg.n) 0 e1 e2 (omega (arith, n1, n2, count, odd)) in
      let whole =
        set_last (e1 ++ e2) ps.q1 ps.q2 os m (2 * m + 2) l ps.whole (omega (arith, ps.length1, n1))
          (omega (arith, count, odd)) (omega (arith, length-append e1 e2, n1, n2)) in
      let len2 : length ps.q2 ≡ suc m = omega (arith, ps.length2, n2) in
      (
        ps.q1,
        set ps.q2 m l,
        rw (found, ps.result, store_last-eq ps.q2 m l len2) refl,
        record {
          majority = omega (arith, ps.length1, n1);
          minority = omega (arith, length-set ps.q2 m l, len2);
          parts = rw (whole) (
              Perm.trans (perm_append_last os l)
                (others-Perm l 0 cfg.n (omega arith) (omega (arith, below))));
          leader_last =
              ap (get_elem? (set ps.q2 m l)) (omega arith)
              ∙ get_elem?-set_self ps.q2 m l (omega (arith, len2));
        },
      )
