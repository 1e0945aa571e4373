-- ===== src/Kvraft/Retries.antt =====
-- kvraft/client.go: what a clerk's call returns, in whatever order its goroutines run.
use native.Mathlib.Nat.{mod-lt}
use m2i8t.Prelude.{
  ℕ, zero, suc, ◌+◌, ◌<◌, ◌≡◌, refl, subst, ◌⊎◌, inl, inr, Bool, true, false, Option, none, some,
  List, [], ◌∷◌, ◌++◌, arith, Bool-cases, get_elem?, set, eq_nat, eq_string,
}
use m2i8t.Kvraft.Clerk.{
  Clerk, Retry, created, calling, leaving, ended, Pending, Protocol, begin_call, spawn, begin_retry,
  work, after_call, finish_retry, end_call, Step, waits, begins, gets_reply, gets_none, finishes,
  Run, here, next,
}

module _ {A : Type 0} where
  All : (A → Type 0) → List A → Type 0
  All P [] = Unit
  All P (x ∷ xs) = P x × All P xs

  All-get :
      (P : A → Type 0) (xs : List A) (k : ℕ) {x : A} → All P xs → get_elem? xs k ≡ some x → P x
  unfolding All
  All-get P [] k a e = absurd (ground (arith, e))
  All-get P (y ∷ ys) zero {x} (a, _) e = let same : y ≡ x = cc e in subst P same a
  All-get P (y ∷ ys) (suc k) (_, a) e = All-get P ys k a e

  All-set : (P : A → Type 0) (xs : List A) (k : ℕ) (x : A) → All P xs → P x → All P (set xs k x)
  unfolding All
  All-set P [] k x a q = a
  All-set P (y ∷ ys) zero x (_, a) q = (q, a)
  All-set P (y ∷ ys) (suc k) x (b, a) q = (b, All-set P ys k x a q)

  All-append : (P : A → Type 0) (xs : List A) (x : A) → All P xs → P x → All P (xs ++ x ∷ [])
  unfolding All
  All-append P [] x a q = (q, a)
  All-append P (y ∷ ys) x (b, a) q = (b, All-append P ys x a q)

  All-map : (P Q : A → Type 0) (xs : List A) → ((x : A) → P x → Q x) → All P xs → All Q xs
  unfolding All
  All-map P Q [] f a = a
  All-map P Q (y ∷ ys) f (b, a) = (f y b, All-map P Q ys f a)

-- What the replies in a goroutine's hands are: `Idle` before an accepted one, `Answer` after it.
pub record Laws {R : Type 0} (p : Protocol R) (Sent : ℕ → R → Type 0) (Idle Answer : R → Type 0)
    : Type 0 where
  pub silent : (r : R) → Idle r → p.accepts r ≡ false
  pub accepted :
      (i : ℕ) (r s : R)
      → Idle r
      → Sent i s
      → p.accepts (p.decode r s) ≡ true
      → Answer (p.decode r s)
  pub refused :
      (i : ℕ) (r s : R) → Idle r → Sent i s → p.accepts (p.decode r s) ≡ false → Idle (p.decode r s)
  pub kept : (c r : R) → Answer r → Answer (p.keep c r)

module _ {R : Type 0} (p : Protocol R) (servers : ℕ) (Sent : ℕ → R → Type 0)
    (Idle Answer : R → Type 0) (laws : Laws p Sent Idle Answer) where
  Fine : Bool → Retry R → Type 0
  Fine is_done created = Unit
  Fine is_done (calling i r) = (i < servers) × ((is_done ≡ true) ⊎ Idle r)
  Fine is_done (leaving i r) = (i < servers) × Answer r
  Fine is_done ended = Unit

  record IsSound (c : Pending R) : Type 0 where
    in_range : c.j < servers
    answered : c.is_done ≡ true → Answer c.reply
    idle : c.is_done ≡ false → Idle c.reply
    each : All (Fine c.is_done) c.retries

  Fine-true : (b : Bool) (w : Retry R) → Fine b w → Fine true w
  unfolding Fine
  Fine-true b created f = f
  Fine-true b (calling i r) (lt, f) = (lt, inl refl)
  Fine-true b (leaving i r) f = f
  Fine-true b ended f = f

  work-Fine :
      (is_done : Bool) (i : ℕ) (r : R) (result : Option R)
      → ((s : R) → result ≡ some s → Sent i s)
      → Fine is_done (calling i r)
      → Fine is_done (work p servers is_done i r result)
  unfolding Fine work
  work-Fine true i r result h f = tt
  work-Fine false i r none h (lt, inl e) = absurd (cc e)
  work-Fine false i r (some s) h (lt, inl e) = absurd (cc e)
  work-Fine false i r none h (lt, inr q) =
      rw (laws.silent r q) (mod-lt (i + 1) (omega (arith, lt)), inr q)
  work-Fine false i r (some s) h (lt, inr q) = elim (Bool-cases (p.accepts (p.decode r s))) [
    | inl yes_it ↦ rw yes_it (lt, laws.accepted i r s q (h s refl) yes_it)
    | inr no_it ↦
        rw no_it (mod-lt (i + 1) (omega (arith, lt)), inr (laws.refused i r s q (h s refl) no_it))
  ]

  begins-IsSound : (k : ℕ) (c : Pending R) → IsSound c → IsSound (begin_retry k c)
  unfolding begin_retry
  begins-IsSound k c s = record {
    in_range = s.in_range;
    answered = s.answered;
    idle = s.idle;
    each =
        All-set (Fine c.is_done) c.retries k (calling c.j c.reply) s.each
          (unfold Fine in (s.in_range, known));
  }
    where
      known : (c.is_done ≡ true) ⊎ Idle c.reply
      known = elim (Bool-cases c.is_done) [ inl e ↦ inl e | inr e ↦ inr (s.idle e) ]

  after_call-IsSound :
      (k i : ℕ) (r : R) (result : Option R) (c : Pending R)
      → get_elem? c.retries k ≡ some (calling i r)
      → ((s : R) → result ≡ some s → Sent i s)
      → IsSound c
      → IsSound (after_call p servers k i r result c)
  after_call-IsSound k i r result c e h s =
      let f : Fine c.is_done (calling i r) = All-get (Fine c.is_done) c.retries k s.each e in
      unfold after_call in
      record {
        in_range = s.in_range;
        answered = s.answered;
        idle = s.idle;
        each =
            All-set (Fine c.is_done) c.retries k (work p servers c.is_done i r result) s.each
              (work-Fine c.is_done i r result h f);
      }

  finish_retry-IsSound :
      (k i : ℕ) (r : R) (c : Pending R)
      → get_elem? c.retries k ≡ some (leaving i r)
      → IsSound c
      → IsSound (finish_retry p k i r c)
  finish_retry-IsSound k i r c e s =
      let f : Fine c.is_done (leaving i r) = All-get (Fine c.is_done) c.retries k s.each e in
      let (lt, a) : (i < servers) × Answer r = unfold Fine in f in
      unfold finish_retry in
      record {
        in_range = lt;
        answered = λ _. laws.kept c.reply r a;
        idle = λ q. absurd (cc q);
        each =
            All-set (Fine true) c.retries k ended
              (All-map (Fine c.is_done) (Fine true) c.retries (Fine-true c.is_done) s.each)
              (unfold Fine in tt);
      }

  Step-IsSound : {c c' : Pending R} → Step p servers Sent c c' → IsSound c → IsSound c'
  unfolding spawn
  Step-IsSound {c} (waits e) s = record {
    in_range = s.in_range;
    answered = s.answered;
    idle = s.idle;
    each = All-append (Fine c.is_done) c.retries created s.each (unfold Fine in tt);
  }
  Step-IsSound {c} (begins k e) s = begins-IsSound k c s
  Step-IsSound {c} (gets_reply k i r sent e q) s =
      after_call-IsSound k i r (some sent) c e (λ x same. subst (Sent i) (cc same) q) s
  Step-IsSound {c} (gets_none k i r e) s =
      after_call-IsSound k i r none c e (λ x same. absurd (cc same)) s
  Step-IsSound {c} (finishes k i r e) s = finish_retry-IsSound k i r c e s

  Run-IsSound : {c c' : Pending R} → Run p servers Sent c c' → IsSound c → IsSound c'
  Run-IsSound here s = s
  Run-IsSound (next r t) s = Step-IsSound t (Run-IsSound r s)

  -- From the start of a call until its clerk leaves the loop.
  pub call_answers :
      (ck : Clerk) (r : R) {c : Pending R}
      → ck.pre_leader_id < servers
      → Idle r
      → Run p servers Sent (begin_call ck r) c
      → c.is_done ≡ true
      → ((end_call c ck).0.pre_leader_id < servers) × Answer (end_call c ck).1
  unfolding end_call
  call_answers ck r lt q run e =
      let first : IsSound (begin_call ck r) =
        unfold begin_call in
        record {
          in_range = lt;
          answered = λ z. absurd (cc z);
          idle = λ _. q;
          each = unfold All in tt;
        } in
      let s = Run-IsSound run first in (s.in_range, s.answered e)
