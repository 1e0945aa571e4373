-- ===== src/Harness/Minority.antt =====
-- kvraft/config.go: partition with the parts that make_partition returns.
use mathlib.Core.List.{Memᴰ, Nodup, Pairwise}
use mathlib.Core.List.Perm
use mathlib.Core.Logic.{∥∥₁_elim}
use native.Mathlib.Bridge.{le_prop}
use m2i8t.Prelude.{
  ℕ, zero, suc, ◌+◌, ◌*◌, ◌≤◌, ◌<◌, ◌≡◌, sym, inl, inr, Bool, List, [], ◌∷◌, ◌++◌, arith, ok,
  eq_nat, eq_string,
}
use m2i8t.Labrpc.Network.{Network}
use m2i8t.Harness.Ends.{Among, all_from, all_from-Among}
use m2i8t.Harness.Kv.{KvConfig, all_servers, find_leader, make_partition, partition}
use m2i8t.Harness.Wiring.{IsNamed, IsPart}
use m2i8t.Harness.Partition.{Apart, Split, partition-Split}
use m2i8t.Harness.Halves.{IsHalves, make_partition-IsHalves}

Among-Memᴰ : (x : ℕ) (xs : List ℕ) → Among x xs → Memᴰ x xs
Among-Memᴰ x [] a = absurd a
Among-Memᴰ x (y ∷ ys) (inl e) = Memᴰ.head (sym e)
Among-Memᴰ x (y ∷ ys) (inr a) = Memᴰ.tail (Among-Memᴰ x ys a)

Memᴰ-Among : (x : ℕ) (xs : List ℕ) → Memᴰ x xs → Among x xs
Memᴰ-Among x [] m = elim m [ ]
Memᴰ-Among x (y ∷ ys) (Memᴰ.head e) = inl (sym e)
Memᴰ-Among x (y ∷ ys) (Memᴰ.tail m) = inr (Memᴰ-Among x ys m)

Among-append_left : (x : ℕ) (xs ys : List ℕ) → Among x xs → Among x (xs ++ ys)
Among-append_left x [] ys a = absurd a
Among-append_left x (z ∷ zs) ys (inl e) = inl e
Among-append_left x (z ∷ zs) ys (inr a) = inr (Among-append_left x zs ys a)

Among-append_right : (x : ℕ) (xs ys : List ℕ) → Among x ys → Among x (xs ++ ys)
Among-append_right x [] ys a = a
Among-append_right x (z ∷ zs) ys a = inr (Among-append_right x zs ys a)

all_from-Among_low : (i n x : ℕ) → Among x (all_from i n) → i ≤ x
unfolding all_from
all_from-Among_low i zero x a = absurd a
all_from-Among_low i (suc n) x (inl e) = omega (arith, e)
all_from-Among_low i (suc n) x (inr a) = omega (arith, all_from-Among_low (i + 1) n x a)

all_from-Nodup : (i n : ℕ) → Nodup (all_from i n)
unfolding all_from
all_from-Nodup i zero = Pairwise.nil
all_from-Nodup i (suc n) =
    Pairwise.cons
      (λ x m e.
        ∥∥₁_elim m (λ a b. elim a [ ])
          (λ d.
            let l = all_from-Among_low (i + 1) n x (Memᴰ-Among x (all_from (i + 1) n) d) in
            absurd (omega (arith, l, e))))
      (all_from-Nodup (i + 1) n)

Nodup-Apart : (xs ys : List ℕ) → Nodup (xs ++ ys) → Apart xs ys
Nodup-Apart [] ys d x a b = a
Nodup-Apart (z ∷ zs) ys (Pairwise.cons h d) x (inl e) b =
    h x ∣ Among-Memᴰ x (zs ++ ys) (Among-append_right x zs ys b) ∣₁ e
Nodup-Apart (z ∷ zs) ys (Pairwise.cons h d) x (inr a) b = Nodup-Apart zs ys d x a b

module _ {C Args Reply State : Type 0} where
  -- For an odd number of servers, at least 3, where Leader does not panic, make_partition and a partition into the
  -- parts it returns do not panic: the first part is a majority, the server that Leader gives is in the
  -- other, each part's servers reach each other, and no request from one part to the other gets a reply.
  pub make_partition-Split :
      (cfg : KvConfig C Args Reply State) (w : IsNamed cfg.endnames cfg.n) (m : ℕ) {b : Bool}
      {l : ℕ}
      → cfg.n ≡ 2 * (m + 1) + 1
      → find_leader cfg ≡ ok (b, l)
      → (p1 : List ℕ) × (p2 : List ℕ) × (net : Network Args Reply State) × (make_partition cfg
          ≡ ok (p1, p2))
        × IsHalves (m + 1) l (all_servers cfg) p1 p2
        × (partition p1 p2 cfg ≡ ok record cfg { net = net })
        × Split cfg.endnames cfg.n w p1 p2 cfg.net net
  unfolding all_servers
  make_partition-Split cfg w m odd found =
      let (p1, p2, e, halves) = make_partition-IsHalves cfg m odd found in
      let all_below : (x : ℕ) → Among x (p1 ++ p2) → x < cfg.n = λ x a.
        ∥∥₁_elim ((Perm.mem_iff halves.parts).0 ∣ Among-Memᴰ x (p1 ++ p2) a ∣₁) le_prop
          (λ d. omega (arith, all_from-Among 0 cfg.n x (Memᴰ-Among x (all_from 0 cfg.n) d))) in
      let part1 : IsPart cfg.n p1 = record {
        below = λ x a. all_below x (Among-append_left x p1 p2 a);
        short = omega (arith, halves.majority, odd);
      } in
      let part2 : IsPart cfg.n p2 = record {
        below = λ x a. all_below x (Among-append_right x p1 p2 a);
        short = omega (arith, halves.minority, odd);
      } in
      let apart =
        Nodup-Apart p1 p2 (Perm.nodup (Perm.symm halves.parts) (all_from-Nodup 0 cfg.n)) in
      let (net, f, s) = partition-Split p1 p2 cfg w part1 part2 apart in
      (p1, p2, net, e, halves, f, s)
