-- ===== src/Mr/Finish.antt =====
-- mr/master.go: Done, the tasks that it gives back, and what stays finished.
use m2i8t.Prelude.{
  ℕ, zero, suc, ◌+◌, ◌≤◌, ◌<◌, ◌≡◌, refl, ◌∙◌, ◌≢◌, ◌↔◌, inl, inr, Bool, true, false, ◌&&◌, not,
  some, List, [], ◌∷◌, arith, ltb, ◌==◌, if◌then◌else◌, Bool-cases, length, get_elem?, ok, eq_nat,
  eq_string,
}
use m2i8t.Mr.Master.{
  Master, todo, doing, map_task, task_timeout, any_unfinished, task_finished, reclaim, done,
}
use m2i8t.Mr.Tasks.{IsValid}

-- No task of the list is to do or being done.
abbrev pub AllFinished : List ℕ → Type 0
AllFinished states = (k v : ℕ) → get_elem? states k ≡ some v → (v ≢ todo) × (v ≢ doing)

any_unfinished_sound : (states : List ℕ) → any_unfinished states ≡ false → AllFinished states
unfolding any_unfinished
any_unfinished_sound [] h k v e = cc
any_unfinished_sound (x ∷ xs) h zero v e = ground arith
any_unfinished_sound (x ∷ xs) h (suc k) v e = any_unfinished_sound xs (ground arith) k v e

any_unfinished_complete : (states : List ℕ) → AllFinished states → any_unfinished states ≡ false
unfolding any_unfinished
any_unfinished_complete [] a = refl
any_unfinished_complete (x ∷ xs) a =
    let (p, q) = a 0 x refl in ground (arith, any_unfinished_complete xs (λ k v e. a (suc k) v e))

-- What a round of Done may do to one task: nothing, or give it back after ten seconds.
pub data Reclaimed (now : ℕ) (times states states' : List ℕ) (k : ℕ) : Type 0 where
  same : get_elem? states' k ≡ get_elem? states k → Reclaimed now times states states' k
  expired :
      (t : ℕ)
      → get_elem? states k ≡ some doing
      → get_elem? times k ≡ some t
      → t + task_timeout < now
      → get_elem? states' k ≡ some todo
      → Reclaimed now times states states' k

reclaim_lem :
    (now : ℕ) (times states : List ℕ)
    → length states ≤ length times
    → (r : List ℕ) × (reclaim now times states ≡ ok r)
      × (length r ≡ length states)
      × ((k : ℕ) → Reclaimed now times states r k)
unfolding reclaim
reclaim_lem now times [] h = ([], refl, refl, λ k. same refl)
reclaim_lem now [] (v ∷ vs) h = absurd (omega arith)
reclaim_lem now (t ∷ times) (v ∷ vs) h =
    let (r, e, len, each) = reclaim_lem now times vs (omega arith) in
    (
      (if v == doing && ltb (t + task_timeout) now then todo else v) ∷ r,
      rw e,
      omega (arith, len),
      pointwise r each,
    )
  where
    pointwise :
        (r : List ℕ)
        → ((k : ℕ) → Reclaimed now times vs r k)
        → (k : ℕ)
        → Reclaimed now
            (t ∷ times)
            (v ∷ vs)
            ((if v == doing && ltb (t + task_timeout) now then todo else v) ∷ r)
            k
    pointwise r each zero = elim (Bool-cases (v == doing && ltb (t + task_timeout) now)) [
      | inl late ↦ rw late (expired t (ground arith) refl (ground arith) refl)
      | inr kept ↦ rw kept (same refl)
    ]
    pointwise r each (suc k) = lift (each k)
      where
        lift :
            {b : ℕ}
            → Reclaimed now times vs r k
            → Reclaimed now (t ∷ times) (v ∷ vs) (b ∷ r) (suc k)
        lift (same e) = same e
        lift (expired u p q lt e) = expired u p q lt e

any_unfinished_iff : (states : List ℕ) → (not (any_unfinished states) ≡ true) ↔ AllFinished states
any_unfinished_iff states = (
  (λ e. any_unfinished_sound states (ground (arith, e))),
  λ a. rw (any_unfinished_complete states a),
)

-- TaskFinished answers yes exactly when no map task is to do or being done.
pub task_finished_iff :
    (m : Master)
    → ((task_finished (record { task_type = map_task }) m).task_finished ≡ true)
      ↔ AllFinished m.map_states
unfolding task_finished
task_finished_iff m = any_unfinished_iff m.map_states

-- A round of Done does not panic, keeps the master valid, answers yes exactly when no task of either
-- kind is to do or being done, and gives back to the list only tasks that were being done and whose
-- time stamp is more than ten seconds old; all other tasks stay as they are.
pub done_lem :
    (now : ℕ) (m : Master)
    → IsValid m
    → (m' : Master) × (b : Bool) × (done now m ≡ ok (m', b))
      × IsValid m'
      × ((b ≡ true) ↔ (AllFinished m.map_states × AllFinished m.rdc_states))
      × ((k : ℕ) → Reclaimed now m.task_time m.map_states m'.map_states k)
      × ((k : ℕ) → Reclaimed now m.task_time m.rdc_states m'.rdc_states k)
unfolding done
done_lem now m v = elim (Bool-cases (any_unfinished m.map_states)) [
  | inl more ↦
      let (r, e, len, each) =
        reclaim_lem now m.task_time m.map_states (omega (arith, v.maps, v.map_times)) in
      (
        record m { map_states = r },
        false,
        rw (more, e),
        record {
          maps = len ∙ v.maps;
          rdcs = v.rdcs;
          map_times = v.map_times;
          rdc_times = v.rdc_times;
        },
        ((λ e. cc), λ a. cc (any_unfinished_complete m.map_states a.0)),
        each,
        λ k. same refl,
      )
  | inr maps_done ↦
      let (r, e, len, each) =
        reclaim_lem now m.task_time m.rdc_states (omega (arith, v.rdcs, v.rdc_times)) in
      let (to, from) = any_unfinished_iff m.rdc_states in
      (
        record m { rdc_states = r },
        not (any_unfinished m.rdc_states),
        rw (maps_done, e),
        record {
          maps = v.maps;
          rdcs = len ∙ v.rdcs;
          map_times = v.map_times;
          rdc_times = v.rdc_times;
        },
        ((λ b. (any_unfinished_sound m.map_states maps_done, to b)), λ a. from a.1),
        (λ k. same refl),
        each,
      )
]
