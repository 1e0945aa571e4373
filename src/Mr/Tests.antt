-- ===== src/Mr/Tests.antt =====
-- mr/: a master of two files, and the words of two map tasks.
use mathlib.Core.List.{Memᴰ}
use m2i8t.Prelude.{
  ℕ, zero, suc, ◌%◌, String, ◌≡◌, refl, ◌≢◌, ◌↔◌, ◌⊎◌, Bool, true, List, [], ◌∷◌, ◌++◌, arith, ok,
  store, eq_nat, eq_string,
}
use m2i8t.Mr.Master.{
  Master, any_unfinished, reclaim, todo, doing, finished, map_task, GetFileReply, zero_reply,
  get_file, set_state, done, make_master,
}
use m2i8t.Mr.Tasks.{IsValid, NoTodo, HandsOutMap, get_file-map, make_master-IsValid}
use m2i8t.Mr.Finish.{AllFinished, Reclaimed, done_lem}
use m2i8t.Mr.Stays.{reports, polls, Reach, here, next, MapFinished, Reach-MapFinished}
use m2i8t.Mr.Worker.{KeyValue, ihash, run_map, run_reduce}
use m2i8t.Mr.Shuffle.{values_of, values_in}
use m2i8t.Mr.Gather.{no_files, rerun_duplicates}
use m2i8t.Mr.Lines.{KeepsMembers, all_values, lines, run_reduce-lines}
use m2i8t.Mr.Rerun.{rerun_writes_nothing}

abbrev master : Master
master = make_master ("a" ∷ "b" ∷ []) 3

valid : IsValid master
valid = make_master-IsValid ("a" ∷ "b" ∷ []) 3

get_file-map_example :
    (m' : Master) × (reply : GetFileReply) × (get_file 5 (record { task_type = map_task }) master
      ≡ ok (m', reply))
    × IsValid m'
    × ((NoTodo master.map_states × (m' ≡ master) × (reply ≡ zero_reply))
        ⊎ HandsOutMap master m' reply)
get_file-map_example = get_file-map 5 master valid

-- Map task 0 is finished and map task 1 is being done since time 5.
abbrev busy : Master
busy = record master { map_states = finished ∷ doing ∷ []; task_time = 0 ∷ 5 ∷ 0 ∷ [] }

busy-IsValid : IsValid busy
unfolding make_master
busy-IsValid = record { maps = refl; rdcs = refl; map_times = omega arith; rdc_times = omega arith }

done_lem_example :
    (m' : Master) × (b : Bool) × (done 11_000_000_000 busy ≡ ok (m', b))
    × IsValid m'
    × ((b ≡ true) ↔ (AllFinished busy.map_states × AllFinished busy.rdc_states))
    × ((k : ℕ) → Reclaimed 11_000_000_000 busy.task_time busy.map_states m'.map_states k)
    × ((k : ℕ) → Reclaimed 11_000_000_000 busy.task_time busy.rdc_states m'.rdc_states k)
done_lem_example = done_lem 11_000_000_000 busy busy-IsValid

-- The time-out gives task 1 back, and a late report finishes it.
abbrev given_back : Master
given_back = record busy { map_states = finished ∷ todo ∷ [] }

abbrev reported : Master
reported = record busy { map_states = finished ∷ finished ∷ [] }

late_report : Reach busy reported
unfolding done set_state any_unfinished reclaim store
late_report =
    next (next here (polls 11_000_000_000 {m' = given_back} refl))
      (reports map_task 1 {m' = reported} refl)

Reach-MapFinished_example : MapFinished 0 reported
Reach-MapFinished_example = Reach-MapFinished 0 (busy-IsValid, refl) late_report

abbrev words : ℕ → List KeyValue
words zero =
    record { key = "x"; value = "1" }
    ∷ record { key = "x"; value = "2" }
    ∷ record { key = "y"; value = "3" }
    ∷ []
words (suc n) = record { key = "x"; value = "4" } ∷ []

rerun_duplicates_example :
    values_in "x" (run_map 0 3 (words 0) (run_map 0 3 (words 0) no_files) 0 (ihash "x" % 3))
    ≡ (values_in "x" (no_files 0 (ihash "x" % 3)) ++ values_of "x" (words 0))
      ++ values_of "x" (words 0)
rerun_duplicates_example = rerun_duplicates "x" 3 0 (words 0) no_files

abbrev no_sort : List String → List String
no_sort xs = xs

abbrev count_of : String → List String → String
count_of key values = key

rerun_writes_nothing_example :
    (run_reduce no_sort count_of 2 1
      (run_reduce no_sort count_of 2 1 (run_map 0 3 (words 0) no_files)).1).0
    ≡ []
rerun_writes_nothing_example =
    rerun_writes_nothing no_sort count_of 2 1 (run_map 0 3 (words 0) no_files) refl

no_sort-KeepsMembers : KeepsMembers no_sort
no_sort-KeepsMembers xs k = (λ m. m, λ m. m)

run_reduce-lines_example :
    ((key out : String)
      → Memᴰ (key, out) (lines no_sort count_of 3 2 1 words)
      → (1 ≡ ihash key % 3)
        × (all_values no_sort count_of 3 2 1 words key ≢ [])
        × (out ≡ count_of key (all_values no_sort count_of 3 2 1 words key)))
    × ((key : String)
        → 1 ≡ ihash key % 3
        → all_values no_sort count_of 3 2 1 words key ≢ []
        → Memᴰ
            (key, count_of key (all_values no_sort count_of 3 2 1 words key))
            (lines no_sort count_of 3 2 1 words))
run_reduce-lines_example = run_reduce-lines no_sort count_of 3 2 1 words no_sort-KeepsMembers
