-- ===== src/Mr/Rerun.antt =====
-- mr/worker.go: a reduce task that is run again.
use m2i8t.Prelude.{ℕ, zero, suc, ◌+◌, ◌<◌, String, ◌≡◌, refl, List, [], arith, eq_nat, eq_string}
use m2i8t.Mr.Worker.{Files, Collected, nothing, read_file, read_files, run_reduce, remove_files}

read_files_none :
    (n i y : ℕ) (files : Files) (c : Collected)
    → ((j : ℕ) → j < i + n → files j y ≡ [])
    → read_files n i y files c ≡ c
unfolding read_files read_file
read_files_none zero i y files c h = refl
read_files_none (suc n) i y files c h =
    rw (h i (omega arith)) (read_files_none n (i + 1) y files c (λ j p. h j (omega arith)))

-- A reduce task that is run again, as after a time-out, finds its files removed and writes no line.
pub rerun_writes_nothing :
    (sort : List String → List String) (reducef : String → List String → String) (nmap y : ℕ)
    (files : Files)
    → sort [] ≡ []
    → (run_reduce sort reducef nmap y (run_reduce sort reducef nmap y files).1).0 ≡ []
unfolding run_reduce remove_files
rerun_writes_nothing sort reducef nmap y files e =
    rw (read_files_none nmap 0 y (remove_files nmap y files) nothing (λ j p. ground arith), e)
