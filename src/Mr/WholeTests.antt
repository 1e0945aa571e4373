-- ===== src/Mr/WholeTests.antt =====
-- mr/worker.go with mr/master.go: a worker that is served alone, on two files of words.
use text.Mathlib.Text.{◌==◌ as str_eq}
use m2i8t.Prelude.{
  ℕ, zero, suc, ◌<◌, String, ◌≡◌, refl, true, false, none, some, List, [], ◌∷◌, arith,
  if◌then◌else◌, get_elem?, ok, eq_nat, eq_string, empty_dict,
}
use m2i8t.Mr.Master.{Master, map_task, rdc_task, make_master, task_finished}
use m2i8t.Mr.Worker.{KeyValue, run_reduce}
use m2i8t.Mr.Gather.{run_maps, no_files}
use m2i8t.Mr.Loop.{Job, Disk, alone, worker}
use m2i8t.Mr.Alone.{IsInput}
use m2i8t.Mr.Whole.{worker-alone}

abbrev files : List String
files = "a" ∷ "b" ∷ []

-- The word itself, and the file it is in.
abbrev job : Job
job = record {
  mapf = λ name content.
      record { key = content; value = name } ∷ record { key = "all"; value = name } ∷ [];
  reducef = λ key values. elim values [ [] ↦ "" | v ∷ vs ↦ v ];
  sort_pairs = λ kvs. kvs;
  sort_keys = λ keys. keys;
  contents =
      λ name. if str_eq name "a" then some "x" else if str_eq name "b" then some "y" else none;
}

abbrev input : ℕ → List KeyValue
input zero = job.mapf "a" "x"
input (suc n) = job.mapf "b" "y"

files-IsInput : IsInput job files input
files-IsInput = record { each = λ i below. each_file i below }
  where
    each_file :
        (i : ℕ)
        → i < 2
        → (name : String) × (content : String) × (get_elem? files i ≡ some name)
          × (str_eq name "" ≡ false)
          × (job.contents name ≡ some content)
          × (input i ≡ job.sort_pairs (job.mapf name content))
    each_file zero below = ("a", "x", refl, refl, refl, refl)
    each_file (suc zero) below = ("b", "y", refl, refl, refl, refl)
    each_file (suc (suc i)) below = absurd (omega (arith, below))

abbrev empty_disk : Disk
empty_disk = record { intermediate = no_files; outputs = empty_dict }

worker-alone_example :
    (w : Master × ℕ) × (disk' : Disk) × (worker
        (alone (λ n. n))
        job
        4
        (make_master files 3, 0)
        empty_disk
      ≡ some (ok (w, disk')))
    × ((task_finished (record { task_type = map_task }) w.0).task_finished ≡ true)
    × ((task_finished (record { task_type = rdc_task }) w.0).task_finished ≡ true)
    × ((y : ℕ)
        → y < 3
        → disk'.outputs y
          ≡ some (run_reduce job.sort_keys job.reducef 2 y (run_maps 3 2 0 input no_files)).0)
worker-alone_example =
    worker-alone (λ n. n) job input files 3 4 empty_disk files-IsInput (omega arith) (omega arith)
      (omega arith)
