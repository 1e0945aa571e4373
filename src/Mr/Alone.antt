-- ===== src/Mr/Alone.antt =====
-- mr/worker.go with mr/master.go: a worker that is served alone.
use text.Mathlib.Text.{◌==◌ as str_eq}
use m2i8t.Prelude.{
  ℕ, zero, suc, ◌+◌, ◌≤◌, ◌<◌, String, ◌≡◌, refl, sym, ap, ◌∙◌, Bool, true, false, not, Option,
  none, some, List, ◌∷◌, arith, ltb, ◌==◌, lt→ltb, length, get_elem?, set, replicate, length-set,
  length-replicate, Outcome, ok, index-eq, store-eq, eq_nat, eq_string,
}
use m2i8t.Mr.Master.{
  Master, GetFileReply, zero_reply, todo, doing, finished, map_task, find_todo, any_unfinished,
  get_file, get_map, set_state, task_finished,
}
use m2i8t.Mr.Worker.{KeyValue, run_map}
use m2i8t.Mr.Gather.{run_maps}
use m2i8t.Mr.Loop.{Job, Disk, alone, ask_finished, ask_file, report, do_map, map_round, rounds_of}

-- The first `i` tasks are finished, and `k` are to do.
unfoldable pub progress : ℕ → ℕ → List ℕ
progress zero k = replicate k todo
progress (suc i) k = finished ∷ progress i k

pub length-progress : (i k : ℕ) → length (progress i k) ≡ i + k
unfolding progress
length-progress zero k = length-replicate k todo ∙ omega arith
length-progress (suc i) k = omega (arith, length-progress i k)

pub find_todo-progress : (j i k : ℕ) → find_todo j (progress i (suc k)) ≡ some (j + i)
unfolding progress find_todo
find_todo-progress j zero k = ap some (omega arith)
find_todo-progress j (suc i) k = find_todo-progress (j + 1) i k ∙ ap some (omega arith)

pub find_todo-none : (j i : ℕ) → find_todo j (progress i 0) ≡ none
unfolding progress find_todo
find_todo-none j zero = refl
find_todo-none j (suc i) = find_todo-none (j + 1) i

pub any_unfinished-progress : (i k : ℕ) → any_unfinished (progress i k) ≡ ltb 0 k
unfolding progress any_unfinished
any_unfinished-progress zero zero = refl
any_unfinished-progress zero (suc k) = sym (lt→ltb 0 (suc k) (omega arith))
any_unfinished-progress (suc i) k = any_unfinished-progress i k

pub set-progress :
    (i k : ℕ) → set (set (progress i (suc k)) i doing) i finished ≡ progress (suc i) k
unfolding progress
set-progress zero k = refl
set-progress (suc i) k = ap (λ s. finished ∷ s) (set-progress i k)

get_map-progress :
    (now i k : ℕ) (m : Master) (name : String)
    → m.map_states ≡ progress i (suc k)
    → i < length m.task_time
    → get_elem? m.files i ≡ some name
    → get_map now m
      ≡ ok (
        record m { map_states = set m.map_states i doing; task_time = set m.task_time i now },
        record zero_reply { id = i; file_name = name; nreduce = m.nreduce },
      )
unfolding get_map
get_map-progress now i k m name e t at =
    let first : find_todo 0 m.map_states ≡ some i =
      ap (find_todo 0) e ∙ find_todo-progress 0 i k ∙ ap some (omega arith) in
    rw (
      first,
      get_map,
      store-eq m.map_states i doing (omega (arith, ap length e, length-progress i (suc k))),
      store-eq m.task_time i now t,
      index-eq m.files i at,
    )

set_state-map :
    (i : ℕ) (m : Master)
    → i < length m.map_states
    → set_state (record { task_type = map_task; id = i; state = finished }) m
      ≡ ok (record m { map_states = set m.map_states i finished }, record { success = true })
unfolding set_state
set_state-map i m l = rw (store-eq m.map_states i finished l)

pub map_finished-progress :
    (m : Master) (i k : ℕ)
    → m.map_states ≡ progress i k
    → (task_finished (record { task_type = map_task }) m).task_finished ≡ not (ltb 0 k)
unfolding task_finished
map_finished-progress m i k e = ap not (ap any_unfinished e ∙ any_unfinished-progress i k)

module _ (clock : ℕ → ℕ) (job : Job) where
  pub ask_finished-alone :
      (kind : ℕ) (known b : Bool) (m : Master) (t : ℕ)
      → (task_finished (record { task_type = kind }) m).task_finished ≡ b
      → ask_finished (alone clock) job kind known (m, t) ≡ ok ((m, t + 1), b)
  unfolding ask_finished alone
  ask_finished-alone kind known b m t e = ap (λ z. ok ((m, t + 1), z)) e

  pub ask_file-alone :
      (kind : ℕ) (m m' : Master) (t : ℕ) (reply : GetFileReply)
      → get_file (clock t) (record { task_type = kind }) m ≡ ok (m', reply)
      → ask_file (alone clock) job kind (m, t) ≡ ok ((m', t + 1), reply)
  unfolding ask_file alone
  ask_file-alone kind m m' t reply e = rw e refl

  pub report-alone :
      (kind id : ℕ) (m m' : Master) (t : ℕ)
      → set_state (record { task_type = kind; id = id; state = finished }) m
        ≡ ok (m', record { success = true })
      → report (alone clock) job kind id (m, t) ≡ ok (m', t + 1)
  unfolding report alone
  report-alone kind id m m' t e = rw e refl

  do_map_lem :
      (reply : GetFileReply) (content : String) (disk : Disk)
      → job.contents reply.file_name ≡ some content
      → (reply.nreduce == 0) ≡ false
      → do_map (alone clock) job reply disk
        ≡ ok record disk {
          intermediate =
              run_map reply.id reply.nreduce
                (job.sort_pairs (job.mapf reply.file_name content))
                disk.intermediate;
        }
  unfolding do_map
  do_map_lem reply content disk read some_reduce = rw (read, some_reduce) refl

  map_round-progress :
      (i k : ℕ) (m : Master) (name content : String) (known : Bool) (t : ℕ) (disk : Disk)
      → m.map_states ≡ progress i (suc k)
      → i < length m.task_time
      → get_elem? m.files i ≡ some name
      → str_eq name "" ≡ false
      → job.contents name ≡ some content
      → (m.nreduce == 0) ≡ false
      → map_round (alone clock) job known (m, t) disk
        ≡ ok (
          false,
          (
            record m {
              map_states = progress (suc i) k;
              task_time = set m.task_time i (clock (t + 1));
            },
            t + 1 + 1 + 1,
          ),
          record disk {
            intermediate =
                run_map i m.nreduce (job.sort_pairs (job.mapf name content)) disk.intermediate;
          },
        )
  unfolding map_round get_file get_map
  map_round-progress i k m name content known t disk e l at named read some_reduce =
      let now = clock (t + 1) in
      let m₁ = record m {
        map_states = set m.map_states i doing;
        task_time = set m.task_time i now;
      } in
      let reply = record zero_reply { id = i; file_name = name; nreduce = m.nreduce } in
      let asked : ask_finished (alone clock) job map_task known (m, t) ≡ ok ((m, t + 1), false) =
        ask_finished-alone map_task known false m t
          (map_finished-progress m i (suc k) e ∙ ap not (lt→ltb 0 (suc k) (omega arith))) in
      let got : ask_file (alone clock) job map_task (m, t + 1) ≡ ok ((m₁, t + 1 + 1), reply) =
        ask_file-alone map_task m m₁ (t + 1) reply (get_map-progress now i k m name e l at) in
      let did : do_map (alone clock) job reply disk
          ≡ ok (record disk {
            intermediate =
                run_map i m.nreduce (job.sort_pairs (job.mapf name content)) disk.intermediate;
          }) =
        do_map_lem reply content disk read some_reduce in
      let reported : report (alone clock) job map_task i (m₁, t + 1 + 1)
          ≡ ok (
            record m { map_states = progress (suc i) k; task_time = set m.task_time i now },
            t + 1 + 1 + 1,
          ) =
        report-alone map_task i m₁
          (record m { map_states = progress (suc i) k; task_time = set m.task_time i now })
          (t + 1 + 1)
          (set_state-map i m₁ (
              omega
                (arith, length-set m.map_states i doing, ap length e, length-progress i (suc k)))
            ∙ ap
                (λ s. ok (
                  record m { map_states = s; task_time = set m.task_time i now },
                  record { success = true },
                ))
                (ap (λ s. set (set s i doing) i finished) e ∙ set-progress i k)) in
      rw (asked, got, named, did, reported) refl

  map_round-none :
      (n : ℕ) (m : Master) (known : Bool) (t : ℕ) (disk : Disk)
      → m.map_states ≡ progress n 0
      → map_round (alone clock) job known (m, t) disk ≡ ok (true, (m, t + 1 + 1), disk)
  unfolding map_round get_file get_map
  map_round-none n m known t disk e =
      let none_todo : find_todo 0 m.map_states ≡ none = ap (find_todo 0) e ∙ find_todo-none 0 n in
      let asked : ask_finished (alone clock) job map_task known (m, t) ≡ ok ((m, t + 1), true) =
        ask_finished-alone map_task known true m t (map_finished-progress m n 0 e ∙ refl) in
      let got : ask_file (alone clock) job map_task (m, t + 1) ≡ ok ((m, t + 1 + 1), zero_reply) =
        ask_file-alone map_task m m (t + 1) zero_reply (rw (none_todo, get_file, get_map) refl) in
      rw (asked, got) refl

-- The sorted pairs of each input file, all of which can be read.
pub record IsInput (job : Job) (files : List String) (input : ℕ → List KeyValue) : Type 0 where
  pub each :
      (i : ℕ)
      → i < length files
      → (name : String) × (content : String) × (get_elem? files i ≡ some name)
        × (str_eq name "" ≡ false)
        × (job.contents name ≡ some content)
        × (input i ≡ job.sort_pairs (job.mapf name content))

module _ (clock : ℕ → ℕ) (job : Job) (input : ℕ → List KeyValue) where
  pub record Mapped (n k i : ℕ) (m : Master) (disk : Disk)
      (o : Option (Outcome ((Master × ℕ) × Disk))) : Type 0 where
    pub times : List ℕ
    pub calls : ℕ
    pub result :
        o
        ≡ some (
            ok (
              (record m { map_states = progress n 0; task_time = times }, calls),
              record disk { intermediate = run_maps m.nreduce k i input disk.intermediate },
            ))
    pub long : length times ≡ length m.task_time

  pub map_loop-Mapped :
      (k i fuel : ℕ) (m : Master) (t : ℕ) (disk : Disk)
      → IsInput job m.files input
      → m.map_states ≡ progress i k
      → i + k ≡ length m.files
      → length m.files ≤ length m.task_time
      → (m.nreduce == 0) ≡ false
      → k < fuel
      → Mapped
          (i + k)
          k
          i
          m
          disk
          (rounds_of (alone clock) job (map_round (alone clock) job) fuel false (m, t) disk)
  unfolding rounds_of run_maps
  map_loop-Mapped zero i zero m t disk w e c l s h = absurd (omega (arith, h))
  map_loop-Mapped zero i (suc fuel) m t disk w e c l s h = record {
    times = m.task_time;
    calls = t + 1 + 1;
    result =
        rw (map_round-none clock job i m false t disk e, rounds_of)
          (ap (λ s. some (ok ((record m { map_states = s }, t + 1 + 1), disk)))
            (e ∙ ap (λ j. progress j 0) (omega arith)));
    long = refl;
  }
  map_loop-Mapped (suc k) i (suc fuel) m t disk w e c l s h =
      let (name, content, at, named, read, is_input) = w.each i (omega (arith, c)) in
      let m₁ = record m {
        map_states = progress (suc i) k;
        task_time = set m.task_time i (clock (t + 1));
      } in
      let disk₁ = record disk { intermediate = run_map i m.nreduce (input i) disk.intermediate } in
      let round : map_round (alone clock) job false (m, t) disk
          ≡ ok (false, (m₁, t + 1 + 1 + 1), disk₁) =
        rw is_input (
          map_round-progress clock job i k m name content false t disk e (omega (arith, c, l)) at
            named read s) in
      let rest =
        map_loop-Mapped k (i + 1) fuel m₁ (t + 1 + 1 + 1) disk₁ w
          (ap (λ j. progress j k) (omega arith)) (omega (arith, c))
          (omega (arith, l, length-set m.task_time i (clock (t + 1)))) s (omega (arith, h)) in
      record {
        times = rest.times;
        calls = rest.calls;
        result =
            rw (round, rounds_of)
              (rest.result
                ∙ ap
                    (λ j. some (
                      ok (
                        (
                          record m { map_states = progress j 0; task_time = rest.times },
                          rest.calls,
                        ),
                        record disk {
                          intermediate = run_maps m.nreduce k (i + 1) input disk₁.intermediate;
                        },
                      )))
                    (omega arith));
        long = rest.long ∙ length-set m.task_time i (clock (t + 1));
      }
  map_loop-Mapped (suc k) i zero m t disk w e c l s h = absurd (omega (arith, h))
