-- ===== src/Kvraft/Applied.antt =====
-- kvraft/server.go, `checkApply`: the server against its specification.
use text.Mathlib.TextLemmas.{nil-append}
use m2i8t.Prelude.{
  ℕ, ◌+◌, ◌≡◌, refl, sym, ◌∙◌, inl, inr, true, false, some, List, [], ◌∷◌, ◌++◌, arith,
  if◌then◌else◌, Bool-cases, length, length-append, set-append_last, ok, index-append_last, eq_nat,
  eq_string, update, get_or_zero,
}
use m2i8t.Raft.Types.{ApplyMsg}
use m2i8t.Kvraft.Types.{Op}
use m2i8t.Kvraft.Server.{KvServer, check_dup, execute, apply_op, apply, check_apply}
use m2i8t.Kvraft.Spec.{exec, exec_all, is_fresh, fresh_ops, recorded}

-- One applied operation, with the index arithmetic and the failures gone.
unfoldable pub applied : Op → KvServer → KvServer
applied op s =
    if is_fresh op s.clerk_latest_cmd
    then record s {
      kv = exec op s.kv;
      log = s.log ++ recorded op s.kv ∷ [];
      last_applied = s.last_applied + 1;
      clerk_latest_cmd = update s.clerk_latest_cmd op.clerk_id op.command_id;
    }
    else record s {
      log = s.log ++ record op { is_dup = true } ∷ [];
      last_applied = s.last_applied + 1;
    }

execute_lem :
    (op : Op) (s : KvServer)
    → execute (length s.log) op (record s { log = s.log ++ op ∷ [] })
      ≡ ok (record s { kv = exec op s.kv; log = s.log ++ recorded op s.kv ∷ [] })
unfolding execute exec recorded
execute_lem op s = ground (
  arith,
  index-append_last s.log op,
  set-append_last s.log op (record op { command_value = get_or_zero "" s.kv op.command_key }),
  nil-append op.command_value,
)

abbrev seen : Op → KvServer → KvServer
seen op s = record s { clerk_latest_cmd = update s.clerk_latest_cmd op.clerk_id op.command_id }

check_dup-fresh :
    (op : Op) (s : KvServer)
    → is_fresh op s.clerk_latest_cmd ≡ true
    → check_dup op s ≡ (false, op, seen op s)
unfolding check_dup is_fresh
check_dup-fresh op s h = ground arith

check_dup-repeated :
    (op : Op) (s : KvServer)
    → is_fresh op s.clerk_latest_cmd ≡ false
    → check_dup op s ≡ (true, record op { is_dup = true }, s)
unfolding check_dup is_fresh
check_dup-repeated op s h = ground arith

-- With the message's index at the end of the log, an operation is applied without a panic.
pub apply_op-applied : (op : Op) (s : KvServer) → apply_op (length s.log) op s ≡ ok (applied op s)
unfolding apply_op applied
apply_op-applied op s = elim (Bool-cases (is_fresh op s.clerk_latest_cmd)) [
  | inl new ↦
      rw (check_dup-fresh op s new, new, execute_lem op (seen op s))
        (rw (index-append_last s.log (recorded op s.kv)))
  | inr old ↦
      rw (check_dup-repeated op s old, old, index-append_last s.log (record op { is_dup = true }))
]

-- The messages that Raft sends for operations, the first at index `i`.
unfoldable pub messages_from : ℕ → List Op → List (ApplyMsg Op)
messages_from i [] = []
messages_from i (op ∷ ops) =
    record { command_valid = true; command = some op; command_index = i }
    ∷ messages_from (i + 1) ops

unfoldable pub applied_all : List Op → KvServer → KvServer
applied_all [] s = s
applied_all (op ∷ ops) s = applied_all ops (applied op s)

pub length-applied : (op : Op) (s : KvServer) → length (applied op s).log ≡ length s.log + 1
unfolding applied
length-applied op s = ground (
  arith,
  length-append s.log (recorded op s.kv ∷ []),
  length-append s.log (record op { is_dup = true } ∷ []),
)

pub check_apply-applied_all :
    (ops : List Op) (i : ℕ) (s : KvServer)
    → i ≡ length s.log
    → check_apply (messages_from i ops) s ≡ ok (applied_all ops s)
unfolding check_apply apply messages_from applied_all
check_apply-applied_all [] i s e = refl
check_apply-applied_all (op ∷ ops) i s e =
    rw (e, apply_op-applied op s)
      (check_apply-applied_all ops (length s.log + 1) (applied op s) (sym (length-applied op s)))

pub kv-applied_all :
    (ops : List Op) (s : KvServer)
    → (applied_all ops s).kv ≡ exec_all (fresh_ops s.clerk_latest_cmd ops) s.kv
unfolding applied_all applied exec_all fresh_ops
kv-applied_all [] s = refl
kv-applied_all (op ∷ ops) s = elim (Bool-cases (is_fresh op s.clerk_latest_cmd)) [
  | inl new ↦ rw new (kv-applied_all ops (applied op s) ∙ rw new)
  | inr old ↦ rw old (kv-applied_all ops (applied op s) ∙ rw old)
]
