-- ===== src/Mr/Whole.antt =====
-- mr/worker.go with mr/master.go: a whole run of a worker that is served alone.
use m2i8t.Prelude.{
  ℕ, zero, suc, ◌+◌, ◌≤◌, ◌<◌, String, ◌≡◌, refl, ap, ◌∙◌, subst, inl, inr, true, false, not, some,
  List, arith, ltb, ◌==◌, lt→ltb, Bool-cases, length, length-replicate, ok, eq_nat, eq_string,
}
use m2i8t.Mr.Master.{Master, map_task, rdc_task, max, make_master, task_finished}
use m2i8t.Mr.Worker.{KeyValue, run_reduce}
use m2i8t.Mr.Gather.{run_maps}
use m2i8t.Mr.Loop.{Job, Disk, alone, ask_finished, map_round, rdc_round, rounds_of, phase, worker}
use m2i8t.Mr.Alone.{
  progress, map_finished-progress, ask_finished-alone, IsInput, Mapped, map_loop-Mapped,
}
use m2i8t.Mr.Reducing.{rdc_finished-progress, Reduced, rdc_loop-Reduced}

max_bounds : (x y : ℕ) → (x ≤ max x y) × (y ≤ max x y)
unfolding max
max_bounds x y = elim (Bool-cases (ltb y x)) [
  | inl less ↦ rw less (ground (arith, less))
  | inr more ↦ rw more (ground (arith, more))
]

module _ (clock : ℕ → ℕ) (job : Job) (input : ℕ → List KeyValue) where
  map_phase-Mapped :
      (k fuel : ℕ) (m : Master) (disk : Disk)
      → IsInput job m.files input
      → m.map_states ≡ progress 0 k
      → k ≡ length m.files
      → length m.files ≤ length m.task_time
      → (m.nreduce == 0) ≡ false
      → k < fuel
      → Mapped clock job input k k 0 m disk
          (phase (alone clock) job map_task (map_round (alone clock) job) fuel (m, 0) disk)
  unfolding phase rounds_of run_maps
  map_phase-Mapped zero fuel m disk w e c l s h =
      let asked : ask_finished (alone clock) job map_task false (m, 0) ≡ ok ((m, 1), true) =
        ask_finished-alone clock job map_task false true m 0
          (map_finished-progress m 0 0 e ∙ refl) in
      record {
        times = m.task_time;
        calls = 1;
        result = rw (asked, phase) (ap (λ s. some (ok ((record m { map_states = s }, 1), disk))) e);
        long = refl;
      }
  map_phase-Mapped (suc k) fuel m disk w e c l s h =
      let asked : ask_finished (alone clock) job map_task false (m, 0) ≡ ok ((m, 1), false) =
        ask_finished-alone clock job map_task false false m 0
          (map_finished-progress m 0 (suc k) e ∙ ap not (lt→ltb 0 (suc k) (omega arith))) in
      let o = rounds_of (alone clock) job (map_round (alone clock) job) fuel false (m, 1) disk in
      let sum : 0 + suc k ≡ suc k = omega arith in
      let r =
        subst (λ n. Mapped clock job input n (suc k) 0 m disk o) sum
          (map_loop-Mapped clock job input (suc k) 0 fuel m 1 disk w e (omega (arith, c)) l s h) in
      record {
        times = r.times;
        calls = r.calls;
        result = rw (asked, phase) r.result;
        long = r.long;
      }

  rdc_phase-Reduced :
      (fuel : ℕ) (m : Master) (t : ℕ) (disk : Disk)
      → m.rdc_states ≡ progress 0 m.nreduce
      → m.nreduce ≤ length m.task_time
      → m.nreduce < fuel
      → (0 < m.nreduce)
      → (w : Master × ℕ) × (disk' : Disk) × (phase
            (alone clock)
            job
            rdc_task
            (rdc_round (alone clock) job)
            fuel
            (m, t)
            disk
          ≡ some (ok (w, disk')))
        × (w.0.map_states ≡ m.map_states)
        × (w.0.rdc_states ≡ progress m.nreduce 0)
        × Reduced clock job (length m.files) m.nreduce 0 disk disk'
  unfolding phase
  rdc_phase-Reduced fuel m t disk e l h some_reduce =
      let asked : ask_finished (alone clock) job rdc_task false (m, t) ≡ ok ((m, t + 1), false) =
        ask_finished-alone clock job rdc_task false false m t
          (rdc_finished-progress m 0 m.nreduce e ∙ ap not (lt→ltb 0 m.nreduce some_reduce)) in
      let (w, disk', goes, maps, rdcs, r) =
        rdc_loop-Reduced clock job m.nreduce 0 fuel m (t + 1) disk e (omega arith) l h in
      (w, disk', rw (asked, phase) goes, maps, rdcs ∙ ap (λ j. progress j 0) (omega arith), r)

  -- A worker that is served alone, on input files that can all be read and at least one reduce task, ends
  -- without a panic, after at most one round more than there are tasks in each loop: every task is
  -- finished then, and the lines of each reduce task are those of the files that every map task wrote once.
  pub worker-alone :
      (files : List String) (nreduce fuel : ℕ) (disk : Disk)
      → IsInput job files input
      → 0 < nreduce
      → length files < fuel
      → nreduce < fuel
      → (w : Master × ℕ) × (disk' : Disk) × (worker
            (alone clock)
            job
            fuel
            (make_master files nreduce, 0)
            disk
          ≡ some (ok (w, disk')))
        × ((task_finished (record { task_type = map_task }) w.0).task_finished ≡ true)
        × ((task_finished (record { task_type = rdc_task }) w.0).task_finished ≡ true)
        × ((y : ℕ)
            → y < nreduce
            → disk'.outputs y
              ≡ some
                  (run_reduce job.sort_keys job.reducef
                    (length files)
                    y
                    (run_maps nreduce (length files) 0 input disk.intermediate)).0)
  unfolding worker make_master progress
  worker-alone files nreduce fuel disk readable some_reduce maps_fit rdcs_fit =
      let n = length files in
      let m = make_master files nreduce in
      let b = max_bounds n nreduce in
      let long : length m.task_time ≡ max n nreduce = length-replicate (max n nreduce) 0 in
      let p =
        map_phase-Mapped n fuel m disk readable refl refl (omega (arith, b.0, long))
          (ground (arith, some_reduce)) maps_fit in
      let m₁ : Master = record m { map_states = progress n 0; task_time = p.times } in
      let disk₁ : Disk = record disk {
        intermediate = run_maps nreduce n 0 input disk.intermediate;
      } in
      let (w, disk', goes, maps, rdcs, r) =
        rdc_phase-Reduced fuel m₁ p.calls disk₁ refl (omega (arith, b.1, long, p.long)) rdcs_fit
          some_reduce in
      (
        w,
        disk',
        rw (p.result, worker) goes,
        map_finished-progress w.0 n 0 maps ∙ refl,
        rdc_finished-progress w.0 nreduce 0 rdcs ∙ refl,
        λ y below. r.lines y (omega arith) (omega (arith, below)),
      )
