-- ===== src/Mr/Loop.antt =====
-- mr/worker.go: the two loops of Worker, on an interface for its calls of the master.
use text.Mathlib.Text.{◌==◌ as str_eq}
use m2i8t.Prelude.{
  ℕ, zero, suc, ◌+◌, String, Bool, true, false, ◌&&◌, Option, none, some, List, ltb, leb, ◌==◌,
  if◌then◌else◌, length, Outcome, ok, panic, ◌>>=◌, eq_nat, eq_string, Dict, update, of_option,
}
use m2i8t.Mr.Master.{
  finished, map_task, rdc_task, GetFileArgs, GetFileReply, zero_reply, SetStateArgs, SetStateReply,
  TaskFinishedArgs, TaskFinishedReply, Master, get_file, set_state, task_finished,
}
use m2i8t.Mr.Worker.{KeyValue, Files, group, run_map, run_reduce}

-- The calls of the master: none where `call` returns false, which leaves the reply as it was, and panic
-- where the call ends the worker.
pub record Rpc (W : Type 0) : Type 0 where
  pub call_task_finished : TaskFinishedArgs → W → Outcome (W × Option TaskFinishedReply)
  pub call_get_file : GetFileArgs → W → Outcome (W × Option GetFileReply)
  pub call_set_state : SetStateArgs → W → Outcome (W × Option SetStateReply)

-- The intermediate files, and the lines of the files `mr-out-y`.
pub record Disk : Type 0 where
  pub intermediate : Files
  pub outputs : Dict ℕ (List (String × String))

-- What the worker gets from outside: the application, sort.Sort by key, sort.Strings, and the input files.
pub record Job : Type 0 where
  pub mapf : String → String → List KeyValue
  pub reducef : String → List String → String
  pub sort_pairs : List KeyValue → List KeyValue
  pub sort_keys : List String → List String
  pub contents : String → Option String

module _ {W : Type 0} (rpc : Rpc W) (job : Job) where
  -- Whether all tasks of the type are finished; `known` is what the last reply said.
  unfoldable pub ask_finished : ℕ → Bool → W → Outcome (W × Bool)
  ask_finished kind known w = do
    (w₁, reply) ← rpc.call_task_finished record { task_type = kind } w
    ok (w₁, elim reply [ none ↦ known | some r ↦ r.task_finished ])

  unfoldable pub ask_file : ℕ → W → Outcome (W × GetFileReply)
  ask_file kind w = do
    (w₁, reply) ← rpc.call_get_file record { task_type = kind } w
    ok (w₁, elim reply [ none ↦ zero_reply | some r ↦ r ])

  -- A report that fails ends the worker.
  unfoldable pub report : ℕ → ℕ → W → Outcome W
  report kind id w = do
    (w₁, reply) ← rpc.call_set_state record { task_type = kind; id = id; state = finished } w
    elim reply [ none ↦ panic | some r ↦ if r.success then ok w₁ else panic ]

  -- The writes of a map task; a remainder by 0 panics.
  unfoldable pub do_map : GetFileReply → Disk → Outcome Disk
  do_map reply disk = do
    content ← of_option (job.contents reply.file_name)
    let sorted = job.sort_pairs (job.mapf reply.file_name content)
    (if reply.nreduce == 0 && ltb 0 (length (group sorted))
        then panic
        else ok
            record disk { intermediate = run_map reply.id reply.nreduce sorted disk.intermediate })

  unfoldable pub do_reduce : GetFileReply → Disk → Disk
  do_reduce reply disk =
      let (lines, files) =
        run_reduce job.sort_keys job.reducef reply.nmap reply.id disk.intermediate in
      record { intermediate = files; outputs = update disk.outputs reply.id lines }

  -- A round of the first loop; where there is no task to do it sleeps.
  unfoldable pub map_round : Bool → W → Disk → Outcome (Bool × W × Disk)
  map_round known w disk = do
    (w₁, known') ← ask_finished map_task known w
    (w₂, reply) ← ask_file map_task w₁
    (if str_eq reply.file_name "" then ok (known', w₂, disk) else (do
      disk' ← do_map reply disk
      w₃ ← report map_task reply.id w₂
      ok (known', w₃, disk')))

  unfoldable pub rdc_round : Bool → W → Disk → Outcome (Bool × W × Disk)
  rdc_round known w disk = do
    (w₁, known') ← ask_finished rdc_task known w
    (w₂, reply) ← ask_file rdc_task w₁
    (if leb reply.nreduce reply.id
        then ok (known', w₂, disk)
        else (do w₃ ← report rdc_task reply.id w₂; ok (known', w₃, do_reduce reply disk)))

  -- `for taskFinishedReply.TaskFinished != true`, with fuel for its rounds.
  unfoldable pub rounds_of :
      (Bool → W → Disk → Outcome (Bool × W × Disk))
      → ℕ
      → Bool
      → W
      → Disk
      → Option (Outcome (W × Disk))
  rounds_of round fuel true w disk = some (ok (w, disk))
  rounds_of round zero false w disk = none
  rounds_of round (suc fuel) false w disk = elim (round false w disk) [
    | panic ↦ some panic
    | ok (known, w', disk') ↦ rounds_of round fuel known w' disk'
  ]

  -- One of the loops, with the call before it.
  unfoldable pub phase :
      ℕ → (Bool → W → Disk → Outcome (Bool × W × Disk)) → ℕ → W → Disk → Option (Outcome (W × Disk))
  phase kind round fuel w disk = elim (ask_finished kind false w) [
    | panic ↦ some panic
    | ok (w', known) ↦ rounds_of round fuel known w' disk
  ]

  unfoldable pub worker : ℕ → W → Disk → Option (Outcome (W × Disk))
  worker fuel w disk = elim (phase map_task map_round fuel w disk) [
    | none ↦ none
    | some panic ↦ some panic
    | some (ok (w', disk')) ↦ phase rdc_task rdc_round fuel w' disk'
  ]

-- The calls where this worker is the only one that the master serves, and each call arrives: the
-- master and the number of calls so far, at which `clock` gives the time.
unfoldable pub alone : (ℕ → ℕ) → Rpc (Master × ℕ)
alone clock = record {
  call_task_finished = λ args w. ok ((w.0, w.1 + 1), some (task_finished args w.0));
  call_get_file = λ args w. do
    (m, reply) ← get_file (clock w.1) args w.0
    ok ((m, w.1 + 1), some reply);
  call_set_state = λ args w. do
    (m, reply) ← set_state args w.0
    ok ((m, w.1 + 1), some reply);
}
