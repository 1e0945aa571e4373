-- ===== src/Mr/Reducing.antt =====
-- mr/worker.go with mr/master.go: the reduce tasks of a worker that is served alone.
use m2i8t.Prelude.{
  ℕ, zero, suc, ◌+◌, ◌≤◌, ◌<◌, String, ◌≡◌, refl, ap, ◌∙◌, inl, inr, Bool, true, false, not, none,
  some, List, [], map, arith, ltb, leb, ◌==◌, lt→ltb, ==_iff, Bool-cases, length, set, length-set,
  ok, store-eq, eq_nat, eq_string, update_self, update_ne, get_or_zero,
}
use m2i8t.Mr.Master.{
  Master, GetFileReply, zero_reply, doing, finished, rdc_task, find_todo, any_unfinished, get_file,
  get_rdc, set_state, task_finished,
}
use m2i8t.Mr.Worker.{Files, Collected, nothing, read_files, remove_files, run_reduce}
use m2i8t.Mr.Loop.{
  Job, Disk, alone, ask_finished, ask_file, report, do_reduce, rdc_round, rounds_of,
}
use m2i8t.Mr.Alone.{
  progress, length-progress, find_todo-progress, find_todo-none, any_unfinished-progress,
  set-progress, ask_finished-alone, ask_file-alone, report-alone,
}

read_files_ext :
    (n i y : ℕ) (files files' : Files) (c : Collected)
    → ((j : ℕ) → files j y ≡ files' j y)
    → read_files n i y files c ≡ read_files n i y files' c
unfolding read_files
read_files_ext zero i y files files' c h = refl
read_files_ext (suc n) i y files files' c h = rw (h i) (read_files_ext n (i + 1) y files files' _ h)

-- A reduce task leaves the files of the others.
run_reduce_other :
    (sort : List String → List String) (reducef : String → List String → String) (nmap i y : ℕ)
    (files : Files)
    → (y == i) ≡ false
    → (run_reduce sort reducef nmap y (run_reduce sort reducef nmap i files).1).0
      ≡ (run_reduce sort reducef nmap y files).0
unfolding run_reduce remove_files
run_reduce_other sort reducef nmap i y files ne =
    ap
      (λ (c : Collected).
        map (λ key. (key, reducef key (get_or_zero [] c.entries key))) (sort c.keys))
      (read_files_ext nmap 0 y (remove_files nmap i files) files nothing (λ j. ground (arith, ne)))

pub rdc_finished-progress :
    (m : Master) (i k : ℕ)
    → m.rdc_states ≡ progress i k
    → (task_finished (record { task_type = rdc_task }) m).task_finished ≡ not (ltb 0 k)
unfolding task_finished
rdc_finished-progress m i k e = ap not (ap any_unfinished e ∙ any_unfinished-progress i k)

-- The answer that hands out reduce task `i`.
abbrev handed : Master → ℕ → GetFileReply
handed m i = record zero_reply { id = i; nreduce = m.nreduce; nmap = length m.files }

get_rdc-progress :
    (now i k : ℕ) (m : Master)
    → m.rdc_states ≡ progress i (suc k)
    → i < length m.task_time
    → get_rdc now m
      ≡ ok (
        record m { rdc_states = set m.rdc_states i doing; task_time = set m.task_time i now },
        handed m i,
      )
unfolding get_rdc
get_rdc-progress now i k m e t =
    let first : find_todo 0 m.rdc_states ≡ some i =
      ap (find_todo 0) e ∙ find_todo-progress 0 i k ∙ ap some (omega arith) in
    rw
      (
        first,
        get_rdc,
        store-eq m.rdc_states i doing (omega (arith, ap length e, length-progress i (suc k))),
        store-eq m.task_time i now t,
      )
      refl

set_state-rdc :
    (i : ℕ) (m : Master)
    → i < length m.rdc_states
    → set_state (record { task_type = rdc_task; id = i; state = finished }) m
      ≡ ok (record m { rdc_states = set m.rdc_states i finished }, record { success = true })
unfolding set_state
set_state-rdc i m l = rw (store-eq m.rdc_states i finished l)

module _ (clock : ℕ → ℕ) (job : Job) where
  rdc_round-progress :
      (i k : ℕ) (m : Master) (known : Bool) (t : ℕ) (disk : Disk)
      → m.rdc_states ≡ progress i (suc k)
      → i < length m.task_time
      → i < m.nreduce
      → rdc_round (alone clock) job known (m, t) disk
        ≡ ok (
          false,
          (
            record m {
              rdc_states = progress (suc i) k;
              task_time = set m.task_time i (clock (t + 1));
            },
            t + 1 + 1 + 1,
          ),
          do_reduce (alone clock) job (handed m i) disk,
        )
  unfolding rdc_round get_file get_rdc
  rdc_round-progress i k m known t disk e l below =
      let now = clock (t + 1) in
      let m₁ = record m {
        rdc_states = set m.rdc_states i doing;
        task_time = set m.task_time i now;
      } in
      let m₂ = record m { rdc_states = progress (suc i) k; task_time = set m.task_time i now } in
      let asked : ask_finished (alone clock) job rdc_task known (m, t) ≡ ok ((m, t + 1), false) =
        ask_finished-alone clock job rdc_task known false m t
          (rdc_finished-progress m i (suc k) e ∙ ap not (lt→ltb 0 (suc k) (omega arith))) in
      let got : ask_file (alone clock) job rdc_task (m, t + 1) ≡ ok ((m₁, t + 1 + 1), handed m i) =
        ask_file-alone clock job rdc_task m m₁ (t + 1) (handed m i)
          (get_rdc-progress now i k m e l) in
      let reported : report (alone clock) job rdc_task i (m₁, t + 1 + 1) ≡ ok (m₂, t + 1 + 1 + 1) =
        report-alone clock job rdc_task i m₁ m₂ (t + 1 + 1) (
          set_state-rdc i m₁
            (omega (arith, length-set m.rdc_states i doing, ap length e, length-progress i (suc k)))
          ∙ ap
              (λ s. ok (
                record m { rdc_states = s; task_time = set m.task_time i now },
                record { success = true },
              ))
              (ap (λ s. set (set s i doing) i finished) e ∙ set-progress i k)) in
      let goes : leb m.nreduce i ≡ false = ground (arith, below) in
      rw (asked, got, goes, reported) refl

  rdc_round-none :
      (n : ℕ) (m : Master) (known : Bool) (t : ℕ) (disk : Disk)
      → m.rdc_states ≡ progress n 0
      → rdc_round (alone clock) job known (m, t) disk ≡ ok (true, (m, t + 1 + 1), disk)
  unfolding rdc_round get_file get_rdc
  rdc_round-none n m known t disk e =
      let none_todo : find_todo 0 m.rdc_states ≡ none = ap (find_todo 0) e ∙ find_todo-none 0 n in
      let reply = record zero_reply { id = m.nreduce } in
      let asked : ask_finished (alone clock) job rdc_task known (m, t) ≡ ok ((m, t + 1), true) =
        ask_finished-alone clock job rdc_task known true m t
          (rdc_finished-progress m n 0 e ∙ refl) in
      let got : ask_file (alone clock) job rdc_task (m, t + 1) ≡ ok ((m, t + 1 + 1), reply) =
        ask_file-alone clock job rdc_task m m (t + 1) reply
          (rw (none_todo, get_file, get_rdc) refl) in
      let sleeps : leb 0 m.nreduce ≡ true = ground arith in rw (asked, got, sleeps) refl

  -- The disk has the lines of the tasks from `i` to `i + k - 1`, each of the files it started from.
  pub record Reduced (nmap k i : ℕ) (disk disk' : Disk) : Type 0 where
    pub lines :
        (y : ℕ)
        → i ≤ y
        → y < i + k
        → disk'.outputs y ≡ some (run_reduce job.sort_keys job.reducef nmap y disk.intermediate).0
    pub kept : (y : ℕ) → y < i → disk'.outputs y ≡ disk.outputs y

  Reduced-step :
      (nmap k i nreduce : ℕ) (disk disk' : Disk)
      → Reduced nmap k
          (i + 1)
          (do_reduce
            (alone clock)
            job
            (record zero_reply { id = i; nreduce = nreduce; nmap = nmap })
            disk)
          disk'
      → Reduced nmap (suc k) i disk disk'
  unfolding do_reduce
  Reduced-step nmap k i nreduce disk disk' r =
      let one = (run_reduce job.sort_keys job.reducef nmap i disk.intermediate).0 in
      let left = (run_reduce job.sort_keys job.reducef nmap i disk.intermediate).1 in
      record {
        lines = λ y low high. elim (Bool-cases (y == i)) [
          | inl same ↦
              let q = (==_iff y i).0 same in
              rw q (r.kept i (omega arith) ∙ update_self disk.outputs i one)
          | inr other ↦
              r.lines y (ground (arith, low, other)) (omega (arith, high))
              ∙ ap some
                  (run_reduce_other job.sort_keys job.reducef nmap i y disk.intermediate other)
        ];
        kept = λ y below.
            r.kept y (omega (arith, below))
            ∙ update_ne disk.outputs i y one (λ e. omega (arith, e, below));
      }

  pub rdc_loop-Reduced :
      (k i fuel : ℕ) (m : Master) (t : ℕ) (disk : Disk)
      → m.rdc_states ≡ progress i k
      → i + k ≡ m.nreduce
      → m.nreduce ≤ length m.task_time
      → k < fuel
      → (w : Master × ℕ) × (disk' : Disk) × (rounds_of
            (alone clock)
            job
            (rdc_round (alone clock) job)
            fuel
            false
            (m, t)
            disk
          ≡ some (ok (w, disk')))
        × (w.0.map_states ≡ m.map_states)
        × (w.0.rdc_states ≡ progress (i + k) 0)
        × Reduced (length m.files) k i disk disk'
  unfolding rounds_of
  rdc_loop-Reduced zero i zero m t disk e c l h = absurd (omega (arith, h))
  rdc_loop-Reduced zero i (suc fuel) m t disk e c l h = (
    (m, t + 1 + 1),
    disk,
    rw (rdc_round-none i m false t disk e, rounds_of) refl,
    refl,
    e ∙ ap (λ j. progress j 0) (omega arith),
    record { lines = λ y p q. absurd (omega (arith, p, q)); kept = λ y p. refl },
  )
  rdc_loop-Reduced (suc k) i zero m t disk e c l h = absurd (omega (arith, h))
  rdc_loop-Reduced (suc k) i (suc fuel) m t disk e c l h =
      let m₁ = record m {
        rdc_states = progress (suc i) k;
        task_time = set m.task_time i (clock (t + 1));
      } in
      let disk₁ = do_reduce (alone clock) job (handed m i) disk in
      let round =
        rdc_round-progress i k m false t disk e (omega (arith, c, l)) (omega (arith, c)) in
      let (w, disk', goes, maps, rdcs, r) =
        rdc_loop-Reduced k (i + 1) fuel m₁ (t + 1 + 1 + 1) disk₁
          (ap (λ j. progress j k) (omega arith)) (omega (arith, c))
          (omega (arith, l, length-set m.task_time i (clock (t + 1)))) (omega (arith, h)) in
      (
        w,
        disk',
        rw (round, rounds_of) goes,
        maps,
        rdcs ∙ ap (λ j. progress j 0) (omega arith),
        Reduced-step (length m.files) k i m.nreduce disk disk' r,
      )
