-- ===== src/Mr/Master.antt =====
-- mr/master.go and the records of mr/rpc.go.
use m2i8t.Prelude.{
  ℕ, ◌+◌, String, Bool, true, false, ◌&&◌, ◌||◌, not, Option, none, some, List, [], ◌∷◌, ltb, ◌==◌,
  if◌then◌else◌, length, replicate, Outcome, ok, panic, ◌>>=◌, index, store, eq_nat, eq_string,
}

-- A task's state, and its type.
abbrev pub todo : ℕ
todo = 0

abbrev pub doing : ℕ
doing = 1

abbrev pub finished : ℕ
finished = 2

abbrev pub map_task : ℕ
map_task = 0

abbrev pub rdc_task : ℕ
rdc_task = 1

pub record GetFileArgs : Type 0 where
  pub task_type : ℕ

pub record GetFileReply : Type 0 where
  pub id : ℕ
  pub file_name : String
  pub nmap : ℕ
  pub nreduce : ℕ

abbrev pub zero_reply : GetFileReply
zero_reply = record { id = 0; file_name = ""; nmap = 0; nreduce = 0 }

pub record SetStateArgs : Type 0 where
  pub task_type : ℕ
  pub id : ℕ
  pub state : ℕ

pub record SetStateReply : Type 0 where
  pub success : Bool

pub record TaskFinishedArgs : Type 0 where
  pub task_type : ℕ

pub record TaskFinishedReply : Type 0 where
  pub task_finished : Bool

pub record Master : Type 0 where
  pub files : List String
  pub map_states : List ℕ
  pub rdc_states : List ℕ
  pub nreduce : ℕ
  pub task_time : List ℕ

-- `for i, v := range states { if v == todo { … break } }`, from index `i` on.
unfoldable pub find_todo : ℕ → List ℕ → Option ℕ
find_todo i [] = none
find_todo i (v ∷ vs) = if v == todo then some i else find_todo (i + 1) vs

-- GetFile, the branch of a map task; `now` is time.Now().
unfoldable pub get_map : ℕ → Master → Outcome (Master × GetFileReply)
get_map now m = elim (find_todo 0 m.map_states) [
  | none ↦ ok (m, zero_reply)
  | some i ↦ do
    states ← store m.map_states i doing
    times ← store m.task_time i now
    name ← index m.files i
    ok (
      record m { map_states = states; task_time = times },
      record zero_reply { id = i; file_name = name; nreduce = m.nreduce },
    )
]

-- GetFile, the branch of a reduce task.
unfoldable pub get_rdc : ℕ → Master → Outcome (Master × GetFileReply)
get_rdc now m = elim (find_todo 0 m.rdc_states) [
  | none ↦ ok (m, record zero_reply { id = m.nreduce })
  | some i ↦ do
    states ← store m.rdc_states i doing
    times ← store m.task_time i now
    ok (
      record m { rdc_states = states; task_time = times },
      record zero_reply { id = i; nreduce = m.nreduce; nmap = length m.files },
    )
]

unfoldable pub get_file : ℕ → GetFileArgs → Master → Outcome (Master × GetFileReply)
get_file now args m = if args.task_type == map_task then get_map now m else get_rdc now m

unfoldable pub set_state : SetStateArgs → Master → Outcome (Master × SetStateReply)
set_state args m =
    if args.task_type == map_task
    then (do
      states ← store m.map_states args.id args.state
      ok (record m { map_states = states }, record { success = true }))
    else (do
      states ← store m.rdc_states args.id args.state
      ok (record m { rdc_states = states }, record { success = true }))

-- `for _, v := range states { if v == todo || v == doing { … } }`
unfoldable pub any_unfinished : List ℕ → Bool
any_unfinished [] = false
any_unfinished (v ∷ vs) = v == todo || v == doing || any_unfinished vs

unfoldable pub task_finished : TaskFinishedArgs → Master → TaskFinishedReply
task_finished args m = record {
  task_finished =
      not (any_unfinished (if args.task_type == map_task then m.map_states else m.rdc_states));
}

-- 10 * time.Second, in nanoseconds
abbrev pub task_timeout : ℕ
task_timeout = 10_000_000_000

-- The loop of Done that gives a task back. `time.Since(t) > 10s` is `t + 10s < now`; a task's time is
-- read only while it is being done.
unfoldable pub reclaim : ℕ → List ℕ → List ℕ → Outcome (List ℕ)
reclaim now times [] = ok []
reclaim now [] (v ∷ vs) = if v == doing then panic else (do rest ← reclaim now [] vs; ok (v ∷ rest))
reclaim now (t ∷ times) (v ∷ vs) = do
  rest ← reclaim now times vs
  ok ((if v == doing && ltb (t + task_timeout) now then todo else v) ∷ rest)

unfoldable pub done : ℕ → Master → Outcome (Master × Bool)
done now m =
    if any_unfinished m.map_states
    then (do
      states ← reclaim now m.task_time m.map_states
      ok (record m { map_states = states }, false))
    else (do
      states ← reclaim now m.task_time m.rdc_states
      ok (record m { rdc_states = states }, not (any_unfinished m.rdc_states)))

unfoldable pub max : ℕ → ℕ → ℕ
max x y = if ltb y x then x else y

-- The server that MakeMaster also starts is the caller of the handlers.
unfoldable pub make_master : List String → ℕ → Master
unfolding max
make_master files nreduce = record {
  files = files;
  map_states = replicate (length files) todo;
  rdc_states = replicate nreduce todo;
  nreduce = nreduce;
  task_time = replicate (max (length files) nreduce) 0;
}
