-- ===== src/Mr/Stays.antt =====
-- mr/master.go: what stays finished, whatever the workers ask and report.
use m2i8t.Prelude.{
  ℕ, ◌<◌, ◌≡◌, ◌∙◌, inl, inr, Bool, some, List, arith, ◌==◌, if◌then◌else◌, ==_iff, Bool-cases,
  length, get_elem?, set, length-set, get_elem?-set_self, get_elem?-set_ne, ok, Outcome-cases,
  store, store-eq-ok, eq_nat, eq_string,
}
use m2i8t.Mr.Master.{
  Master, todo, doing, finished, map_task, rdc_task, GetFileReply, SetStateReply, done, get_file,
  set_state,
}
use m2i8t.Mr.Tasks.{IsValid, get_file-map, get_file-rdc}
use m2i8t.Mr.Finish.{Reclaimed, same, expired, done_lem}

-- What the workers' calls and the loop of the main program do to the master.
pub data Step (m : Master) : Master → Type 0 where
  asks_map :
      (now : ℕ) {m' : Master} {reply : GetFileReply}
      → get_file now (record { task_type = map_task }) m ≡ ok (m', reply)
      → Step m m'
  asks_rdc :
      (now : ℕ) {m' : Master} {reply : GetFileReply}
      → get_file now (record { task_type = rdc_task }) m ≡ ok (m', reply)
      → Step m m'
  reports :
      (kind id : ℕ) {m' : Master} {reply : SetStateReply}
      → set_state (record { task_type = kind; id = id; state = finished }) m ≡ ok (m', reply)
      → Step m m'
  polls : (now : ℕ) {m' : Master} {b : Bool} → done now m ≡ ok (m', b) → Step m m'

pub data Reach (m : Master) : Master → Type 0 where
  here : Reach m m
  next : {m' m'' : Master} → Reach m m' → Step m' m'' → Reach m m''

-- The master is valid, and map task `k` is finished.
abbrev pub MapFinished : ℕ → Master → Type 0
MapFinished k m = IsValid m × (get_elem? m.map_states k ≡ some finished)

set-finished :
    (states : List ℕ) (i k : ℕ)
    → get_elem? states i ≡ some todo
    → get_elem? states k ≡ some finished
    → get_elem? (set states i doing) k ≡ some finished
set-finished states i k t f =
    get_elem?-set_ne states i k doing (λ e. absurd (ground (arith, t, f, e))) ∙ f

set-finished_self :
    (states : List ℕ) (i k : ℕ)
    → i < length states
    → get_elem? states k ≡ some finished
    → get_elem? (set states i finished) k ≡ some finished
set-finished_self states i k h f = elim (Bool-cases (i == k)) [
  | inl e ↦ let e' : i ≡ k = (==_iff i k).0 e in rw (← e') (get_elem?-set_self states i finished h)
  | inr ne ↦ get_elem?-set_ne states i k finished (λ e. absurd (ground (arith, e, ne))) ∙ f
]

reported : ℕ → ℕ → Master → Master
reported kind id m =
    if kind == map_task
    then record m { map_states = set m.map_states id finished }
    else record m { rdc_states = set m.rdc_states id finished }

set_state-reported :
    (kind id : ℕ) (m : Master) {m' : Master} {reply : SetStateReply}
    → set_state (record { task_type = kind; id = id; state = finished }) m ≡ ok (m', reply)
    → (m' ≡ reported kind id m) × (kind ≡ map_task → id < length m.map_states)
unfolding set_state reported
set_state-reported kind id m {m'} e = elim (Bool-cases (kind == map_task)) [
  | inl is_map ↦ elim (Outcome-cases (store m.map_states id finished)) [
    | inl p ↦ absurd (ground (arith, e, is_map, p))
    | inr (r, p) ↦
        let (lt, q) = store-eq-ok m.map_states id finished p in
        (ground (arith, e, is_map, p, q), λ _. lt)
  ]
  | inr is_rdc ↦ elim (Outcome-cases (store m.rdc_states id finished)) [
    | inl p ↦ absurd (ground (arith, e, is_rdc, p))
    | inr (r, p) ↦
        let (lt, q) = store-eq-ok m.rdc_states id finished p in
        (ground (arith, e, is_rdc, p, q), λ k. absurd (ground (arith, k, is_rdc)))
  ]
]

reported-IsValid : (kind id : ℕ) (m : Master) → IsValid m → IsValid (reported kind id m)
unfolding reported
reported-IsValid kind id m v =
    ground (arith, length-set m.map_states id finished, length-set m.rdc_states id finished)

set_state-MapFinished :
    (k kind id : ℕ) (m : Master) {m' : Master} {reply : SetStateReply}
    → set_state (record { task_type = kind; id = id; state = finished }) m ≡ ok (m', reply)
    → MapFinished k m
    → MapFinished k m'
unfolding reported
set_state-MapFinished k kind id m e (v, f) =
    let (q, lt) = set_state-reported kind id m e in
    rw q (
      reported-IsValid kind id m v,
      (elim (Bool-cases (kind == map_task)) [
        | inl is_map ↦
            rw is_map (set-finished_self m.map_states id k (lt ((==_iff kind map_task).0 is_map)) f)
        | inr is_rdc ↦ rw is_rdc f
      ]),
    )

asks_map-MapFinished :
    (k now : ℕ) (m : Master) {m' : Master} {reply : GetFileReply}
    → get_file now (record { task_type = map_task }) m ≡ ok (m', reply)
    → MapFinished k m
    → MapFinished k m'
asks_map-MapFinished k now m {m'} e (v, f) =
    let (a, _, b, c, d) = get_file-map now m v in
    let same : m' ≡ a = cc (e, b) in
    rw same (
      c,
      elim d [
        | inl (_, unchanged, _) ↦ rw unchanged f
        | inr out ↦ rw (out.marked) (set-finished m.map_states _ k out.was_todo f)
      ],
    )

asks_rdc-MapFinished :
    (k now : ℕ) (m : Master) {m' : Master} {reply : GetFileReply}
    → get_file now (record { task_type = rdc_task }) m ≡ ok (m', reply)
    → MapFinished k m
    → MapFinished k m'
asks_rdc-MapFinished k now m {m'} e (v, f) =
    let (a, _, b, c, d) = get_file-rdc now m v in
    let same : m' ≡ a = cc (e, b) in
    rw same (c, elim d [ inl (_, unchanged, _) ↦ rw unchanged f | inr out ↦ rw (out.others) f ])

Reclaimed-finished :
    {now : ℕ} {times states states' : List ℕ} {k : ℕ}
    → Reclaimed now times states states' k
    → get_elem? states k ≡ some finished
    → get_elem? states' k ≡ some finished
Reclaimed-finished (same e) f = e ∙ f
Reclaimed-finished (expired t p q lt e) f = absurd (ground (arith, p, f))

polls-MapFinished :
    (k now : ℕ) (m : Master) {m' : Master} {b : Bool}
    → done now m ≡ ok (m', b)
    → MapFinished k m
    → MapFinished k m'
polls-MapFinished k now m {m'} e (v, f) =
    let (a, _, p, c, _, each, _) = done_lem now m v in
    let same : m' ≡ a = cc (e, p) in rw same (c, Reclaimed-finished (each k) f)

Step-MapFinished : (k : ℕ) {m m' : Master} → Step m m' → MapFinished k m → MapFinished k m'
Step-MapFinished k {m} (asks_map now e) f = asks_map-MapFinished k now m e f
Step-MapFinished k {m} (asks_rdc now e) f = asks_rdc-MapFinished k now m e f
Step-MapFinished k {m} (reports kind id e) f = set_state-MapFinished k kind id m e f
Step-MapFinished k {m} (polls now e) f = polls-MapFinished k now m e f

-- A map task that a worker has reported as finished stays finished, and the master valid, whatever
-- requests, reports of finished tasks and rounds of Done come after it.
pub Reach-MapFinished : (k : ℕ) {m m' : Master} → MapFinished k m → Reach m m' → MapFinished k m'
Reach-MapFinished k f here = f
Reach-MapFinished k f (next r s) = Step-MapFinished k s (Reach-MapFinished k f r)
