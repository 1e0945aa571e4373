-- ===== src/Mr/Tasks.antt =====
-- mr/master.go: the bounds of the master's slices, and the tasks that GetFile hands out.
use m2i8t.Prelude.{
  ℕ, zero, suc, ◌+◌, ◌≤◌, ◌<◌, String, ◌≡◌, refl, ap, ◌∙◌, ◌≢◌, ◌⊎◌, inl, inr, false, none, some,
  List, [], ◌∷◌, arith, ◌==◌, ==_iff, Bool-cases, length, get_elem?, set, length-set,
  length-replicate, ok, index_in_range, store-eq, eq_nat, eq_string,
}
use m2i8t.Mr.Master.{
  Master, todo, doing, map_task, rdc_task, GetFileReply, zero_reply, find_todo, get_map, get_rdc,
  get_file, make_master, max,
}

pub record IsValid (m : Master) : Type 0 where
  pub maps : length m.map_states ≡ length m.files
  pub rdcs : length m.rdc_states ≡ m.nreduce
  pub map_times : length m.files ≤ length m.task_time
  pub rdc_times : m.nreduce ≤ length m.task_time

abbrev pub NoTodo : List ℕ → Type 0
NoTodo states = (k : ℕ) → get_elem? states k ≢ some todo

find_todo_lem :
    (i : ℕ) (states : List ℕ)
    → ((find_todo i states ≡ none) × NoTodo states)
      ⊎ ((j : ℕ) × (find_todo i states ≡ some (i + j))
          × (j < length states)
          × (get_elem? states j ≡ some todo))
unfolding find_todo
find_todo_lem i [] = inl (refl, λ k e. cc)
find_todo_lem i (v ∷ vs) = elim (Bool-cases (v == todo)) [
  | inl found ↦
      inr (0, rw found (ap some (omega arith)), omega arith, ap some ((==_iff v todo).0 found))
  | inr other ↦ elim (find_todo_lem (i + 1) vs) [
    | inl (e, n) ↦ inl (rw other e, none_here v vs other n)
    | inr (j, e, lt, got) ↦ inr (suc j, rw (other, e) (ap some (omega arith)), omega arith, got)
  ]
]
  where
    none_here : (v : ℕ) (vs : List ℕ) → (v == todo) ≡ false → NoTodo vs → NoTodo (v ∷ vs)
    none_here v vs other n zero e = ground arith
    none_here v vs other n (suc k) e = n k e

-- What GetFile answers to a request for a map task.
pub record HandsOutMap (m m' : Master) (reply : GetFileReply) : Type 0 where
  pub was_todo : get_elem? m.map_states reply.id ≡ some todo
  pub file : get_elem? m.files reply.id ≡ some reply.file_name
  pub marked : m'.map_states ≡ set m.map_states reply.id doing
  pub others : m'.rdc_states ≡ m.rdc_states
  pub count : reply.nreduce ≡ m.nreduce

pub record HandsOutRdc (m m' : Master) (reply : GetFileReply) : Type 0 where
  pub was_todo : get_elem? m.rdc_states reply.id ≡ some todo
  pub in_range : reply.id < reply.nreduce
  pub marked : m'.rdc_states ≡ set m.rdc_states reply.id doing
  pub others : m'.map_states ≡ m.map_states
  pub maps : reply.nmap ≡ length m.files

-- On a valid master GetFile does not panic and keeps the master valid. For a map task it either
-- hands out one that is still to do, with its file, and marks it, or there is none and nothing
-- changes.
pub get_file-map :
    (now : ℕ) (m : Master)
    → IsValid m
    → (m' : Master) × (reply : GetFileReply) × (get_file now (record { task_type = map_task }) m
        ≡ ok (m', reply))
      × IsValid m'
      × ((NoTodo m.map_states × (m' ≡ m) × (reply ≡ zero_reply)) ⊎ HandsOutMap m m' reply)
unfolding get_file get_map
get_file-map now m v = elim (find_todo_lem 0 m.map_states) [
  | inl (e, n) ↦ (m, zero_reply, rw (e, get_map), v, inl (n, refl, refl))
  | inr (j, e, lt, got) ↦
      let at : 0 + j ≡ j = omega arith in
      let (name, found, named) = index_in_range m.files j (omega (arith, v.maps)) in
      (
        record m { map_states = set m.map_states j doing; task_time = set m.task_time j now },
        record zero_reply { id = j; file_name = name; nreduce = m.nreduce },
        rw (
          e,
          get_map,
          at,
          store-eq m.map_states j doing lt,
          store-eq m.task_time j now (omega (arith, v.maps, v.map_times)),
          found,
        ),
        record {
          maps = length-set m.map_states j doing ∙ v.maps;
          rdcs = v.rdcs;
          map_times = omega (arith, length-set m.task_time j now, v.map_times);
          rdc_times = omega (arith, length-set m.task_time j now, v.rdc_times);
        },
        inr (record { was_todo = got; file = named; marked = refl; others = refl; count = refl }),
      )
]

-- The same for a reduce task; where there is none, the answer's id is the number of reduce tasks,
-- which tells the worker so.
pub get_file-rdc :
    (now : ℕ) (m : Master)
    → IsValid m
    → (m' : Master) × (reply : GetFileReply) × (get_file now (record { task_type = rdc_task }) m
        ≡ ok (m', reply))
      × IsValid m'
      × ((NoTodo m.rdc_states × (m' ≡ m) × (reply.nreduce ≤ reply.id)) ⊎ HandsOutRdc m m' reply)
unfolding get_file get_rdc
get_file-rdc now m v = elim (find_todo_lem 0 m.rdc_states) [
  | inl (e, n) ↦
      (m, record zero_reply { id = m.nreduce }, rw (e, get_rdc), v, inl (n, refl, omega arith))
  | inr (j, e, lt, got) ↦
      let at : 0 + j ≡ j = omega arith in
      (
        record m { rdc_states = set m.rdc_states j doing; task_time = set m.task_time j now },
        record zero_reply { id = j; nreduce = m.nreduce; nmap = length m.files },
        rw (
          e,
          get_rdc,
          at,
          store-eq m.rdc_states j doing lt,
          store-eq m.task_time j now (omega (arith, v.rdcs, v.rdc_times)),
        ),
        record {
          maps = v.maps;
          rdcs = length-set m.rdc_states j doing ∙ v.rdcs;
          map_times = omega (arith, length-set m.task_time j now, v.map_times);
          rdc_times = omega (arith, length-set m.task_time j now, v.rdc_times);
        },
        inr (record {
          was_todo = got;
          in_range = omega (arith, v.rdcs);
          marked = refl;
          others = refl;
          maps = refl;
        }),
      )
]

pub make_master-IsValid : (files : List String) (nreduce : ℕ) → IsValid (make_master files nreduce)
unfolding make_master
make_master-IsValid files nreduce = record {
  maps = length-replicate (length files) todo;
  rdcs = length-replicate nreduce todo;
  map_times = ground (arith, length-replicate {A = ℕ} (max (length files) nreduce) 0);
  rdc_times = ground (arith, length-replicate {A = ℕ} (max (length files) nreduce) 0);
}
