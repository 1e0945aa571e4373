-- ===== src/Kvraft/Spec.antt =====
-- kvraft/server.go: what the service promises. Of the operations in the order of the Raft log, those
-- that repeat a clerk's command are dropped, and the rest are executed on one map.
use Prim.Native.String.{◌++◌ as concat}
use text.Mathlib.Text.{◌==◌ as str_eq}
use m2i8t.Prelude.{
  ℕ, ◌≤◌, String, ◌≡◌, Bool, true, none, some, List, [], ◌∷◌, ltb, if◌then◌else◌, eq_nat, eq_string,
  Dict, update, get_or_zero,
}
use m2i8t.Kvraft.Types.{Op, get_type, put_type}

abbrev pub Store : Type 0
Store = Dict String String

abbrev pub Latest : Type 0
Latest = Dict ℕ ℕ

unfoldable pub exec : Op → Store → Store
exec op m =
    if str_eq op.command_type get_type
    then m
    else if str_eq op.command_type put_type
    then update m op.command_key op.command_value
    else update m op.command_key (concat (get_or_zero "" m op.command_key) op.command_value)

unfoldable pub exec_all : List Op → Store → Store
exec_all [] m = m
exec_all (op ∷ ops) m = exec_all ops (exec op m)

-- A command is new if the clerk's last one had a lower id, or there was none.
unfoldable pub is_fresh : Op → Latest → Bool
is_fresh op l = elim (l op.clerk_id) [ none ↦ true | some last ↦ ltb last op.command_id ]

unfoldable pub fresh_ops : Latest → List Op → List Op
unfolding is_fresh
fresh_ops l [] = []
fresh_ops l (op ∷ ops) =
    let first = op ∷ fresh_ops (update l op.clerk_id op.command_id) ops in
    let repeated = fresh_ops l ops in if is_fresh op l then first else repeated

-- What the server logs for an operation: a read is logged with the value that it reads.
unfoldable pub recorded : Op → Store → Op
recorded op m =
    if str_eq op.command_type get_type
    then record op { command_value = get_or_zero "" m op.command_key }
    else op

-- The clerk's command `id` or a later one has been applied.
abbrev pub HasSeen : ℕ → ℕ → Latest → Type 0
HasSeen clerk id l = (last : ℕ) × (l clerk ≡ some last) × (id ≤ last)

-- The last command of each clerk after the operations.
unfoldable pub latest_all : List Op → Latest → Latest
unfolding is_fresh
latest_all [] l = l
latest_all (op ∷ ops) l =
    latest_all ops (if is_fresh op l then update l op.clerk_id op.command_id else l)
