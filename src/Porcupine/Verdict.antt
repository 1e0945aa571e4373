-- ===== src/Porcupine/Verdict.antt =====
-- porcupine/checker.go: when checkParallel answers Ok.
use m2i8t.Prelude.{
  ℕ, zero, suc, ◌+◌, ◌≡◌, subst, ◌≢◌, ◌↔◌, Bool, true, false, some, List, [], ◌∷◌, ◌++◌, arith,
  length, replicate, eq_nat, eq_string,
}
use m2i8t.Porcupine.Model.{legal}
use m2i8t.Porcupine.Entries.{Entry}
use m2i8t.Porcupine.Parallel.{Arrival, result, time_out, receive, check_parallel}

receive_all :
    (compute_info : Bool) (k count : ℕ) (rest : List Arrival)
    → receive compute_info (suc (count + k)) (replicate (suc k) (result true) ++ rest) true count
      ≡ some legal
unfolding receive
receive_all compute_info zero count rest = ground arith
receive_all compute_info (suc k) count rest =
    let ih = receive_all compute_info k (suc count) rest in
    let shift : suc (suc count + k) ≡ suc (count + suc k) = omega arith in ground (arith, ih, shift)

receive_disagrees :
    (compute_info : Bool) (n count : ℕ) (arrivals : List Arrival)
    → receive compute_info n arrivals false count ≢ some legal
unfolding receive
receive_disagrees compute_info n count [] e = absurd (ground arith)
receive_disagrees compute_info n count (time_out ∷ rest) e = absurd (ground arith)
receive_disagrees compute_info n count (result b ∷ rest) e =
    let ih = receive_disagrees compute_info n (count + 1) rest in ground arith

receive_legal :
    (compute_info : Bool) (k count : ℕ) (arrivals : List Arrival)
    → receive compute_info (suc (count + k)) arrivals true count ≡ some legal
    → (rest : List Arrival) × (arrivals ≡ replicate (suc k) (result true) ++ rest)
unfolding receive
receive_legal compute_info k count [] e = absurd (ground arith)
receive_legal compute_info k count (time_out ∷ rest) e = absurd (ground arith)
receive_legal compute_info zero count (result b ∷ rest) e = (rest, ground arith)
receive_legal compute_info (suc k) count (result true ∷ rest) e =
    let shift : suc (suc count + k) ≡ suc (count + suc k) = omega arith in
    let (more, q) = receive_legal compute_info k (suc count) rest (ground (arith, shift)) in
    (more, ground (arith, shift))
receive_legal compute_info (suc k) count (result false ∷ rest) e =
    absurd (receive_disagrees compute_info (suc (count + suc k)) (count + 1) rest (ground arith))

-- With at least one partition, checkParallel answers Ok exactly when the first arrivals are a result
-- for every partition and each of them is true, with no time-out before the last.
pub check_parallel-legal :
    {V : Type 0} (first : List (Entry V)) (others : List (List (Entry V))) (compute_info : Bool)
    (arrivals : List Arrival)
    → (check_parallel (first ∷ others) compute_info arrivals ≡ some legal) ↔ (
        (rest : List Arrival) × (arrivals
          ≡ replicate (length (first ∷ others)) (result true) ++ rest))
unfolding check_parallel
check_parallel-legal first others compute_info arrivals =
    let n : suc (0 + length others) ≡ length (first ∷ others) = omega arith in
    (
      (λ e. receive_legal compute_info (length others) 0 arrivals (rw n e)),
      λ (rest, q). rw q (
          subst
            (λ k.
              receive compute_info k (replicate (suc (length others)) (result true) ++ rest) true 0
              ≡ some legal)
            n (receive_all compute_info (length others) 0 rest)),
    )
