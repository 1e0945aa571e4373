-- ===== src/Kvraft/Server.antt =====
-- kvraft/server.go: the apply loop and the two handlers. `rf` is the server's Raft peer.
use Prim.Native.String.{◌++◌ as concat}
use text.Mathlib.Text.{◌==◌ as str_eq}
use m2i8t.Prelude.{
  ℕ, ◌+◌, String, Bool, true, false, not, Option, none, some, List, [], ◌∷◌, ◌++◌, leb,
  if◌then◌else◌, set, Outcome, ok, panic, ◌>>=◌, index, eq_nat, eq_string, Dict, empty_dict, update,
  ℤ,
}
use m2i8t.Raft.Types.{Raft, ApplyMsg, Persister}
use m2i8t.Raft.Node.{start, kill, make}
use m2i8t.Kvraft.Types.{
  Op, equals, zero_op, GetArgs, GetReply, PutAppendArgs, PutAppendReply, get_type, put_type, ok_err,
  err_wrong_leader,
}

pub record KvServer : Type 0 where
  pub me : ℕ
  pub rf : Raft Op
  pub dead : Bool
  pub maxraftstate : ℤ
  pub kv : Dict String String
  pub log : List Op
  pub last_applied : ℕ
  pub clerk_latest_cmd : Dict ℕ ℕ

-- checkApply: the test for a repeated request, which marks `op` and records the clerk's command.
unfoldable pub check_dup : Op → KvServer → Bool × Op × KvServer
check_dup op s = elim (s.clerk_latest_cmd op.clerk_id) [
  | none ↦ (
    false,
    op,
    record s { clerk_latest_cmd = update s.clerk_latest_cmd op.clerk_id op.command_id },
  )
  | some last ↦ if leb op.command_id last then (true, record op { is_dup = true }, s) else (
    false,
    op,
    record s { clerk_latest_cmd = update s.clerk_latest_cmd op.clerk_id op.command_id },
  )
]

unfoldable pub store_value : ℕ → String → KvServer → Outcome KvServer
store_value i val s = do
  op ← index s.log i
  ok (record s { log = set s.log i (record op { command_value = val }) })

-- The branches for GET, PUT and, for any other type, APPEND.
unfoldable pub execute : ℕ → Op → KvServer → Outcome KvServer
unfolding store_value
execute i op s =
    if str_eq op.command_type get_type
    then elim (s.kv op.command_key) [ none ↦ store_value i "" s | some val ↦ store_value i val s ]
    else if str_eq op.command_type put_type
    then ok (record s { kv = update s.kv op.command_key op.command_value })
    else elim (s.kv op.command_key) [
      | none ↦ ok (record s { kv = update s.kv op.command_key op.command_value })
      | some val ↦ ok (record s { kv = update s.kv op.command_key (concat val op.command_value) })
    ]

-- One round of checkApply on a command. The last print reads `kv.log[CommandIndex]`.
unfoldable pub apply_op : ℕ → Op → KvServer → Outcome KvServer
apply_op i op s = do
  let (dup, op', s₁) = check_dup op s
  let s₂ = record s₁ { log = s₁.log ++ op' ∷ [] }
  s₃ ← if dup then ok s₂ else execute i op' s₂
  _ ← index s₃.log i
  ok (record s₃ { last_applied = s₃.last_applied + 1 })

-- `applyMsg.Command.(Op)` panics on nil.
unfoldable pub apply : ApplyMsg Op → KvServer → Outcome KvServer
apply msg s = elim msg.command [ none ↦ panic | some op ↦ apply_op msg.command_index op s ]

-- checkApply: `for applyMsg := range kv.applyCh`.
unfoldable pub check_apply : List (ApplyMsg Op) → KvServer → Outcome KvServer
check_apply [] s = ok s
check_apply (m ∷ ms) s = do s' ← apply m s; check_apply ms s'

-- Get and PutAppend, the call of Start: the index to wait for, or none on a peer that does not lead.
unfoldable pub submit : Op → KvServer → KvServer × Option ℤ
submit op s =
    let (rf, i, _, is_leader) = start op s.rf in
    (record s { rf = rf }, if is_leader then some i else none)

unfoldable pub get_op : GetArgs → Op
get_op args = record {
  command_type = get_type;
  command_key = args.key;
  command_value = "";
  clerk_id = args.clerk_id;
  command_id = args.command_id;
  is_dup = false;
}

unfoldable pub put_append_op : PutAppendArgs → Op
put_append_op args = record {
  command_type = args.op;
  command_key = args.key;
  command_value = args.value;
  clerk_id = args.clerk_id;
  command_id = args.command_id;
  is_dup = false;
}

-- `for _, v := range kv.log { if v.equals(logOp) { reply.Value = v.CommandValue; break } }`
unfoldable pub first_value : Op → List Op → String
unfolding equals
first_value op [] = ""
first_value op (v ∷ vs) = if equals v op then v.command_value else first_value op vs

-- One round of Get's waiting loop; `none` is another round after a sleep.
unfoldable pub get_poll : Op → ℕ → KvServer → Outcome (Option GetReply)
unfolding first_value equals
get_poll op i s =
    if leb i s.last_applied
    then (do
      log_op ← index s.log i
      ok (
          some (
            if not (equals op log_op)
            then record { err = err_wrong_leader; value = "" }
            else record {
              err = ok_err;
              value = if not log_op.is_dup then log_op.command_value else first_value log_op s.log;
            })))
    else ok none

-- One round of PutAppend's waiting loop.
unfoldable pub put_append_poll : Op → ℕ → KvServer → Outcome (Option PutAppendReply)
unfolding equals
put_append_poll op i s =
    if leb i s.last_applied
    then (do
      log_op ← index s.log i
      ok (some (record { err = if not (equals op log_op) then err_wrong_leader else ok_err })))
    else ok none

unfoldable pub kill_server : KvServer → KvServer
kill_server s = record s { dead = true; rf = kill s.rf }

unfoldable pub killed : KvServer → Bool
killed s = s.dead

-- `r` and `now` are what Make draws and reads.
unfoldable pub start_kv_server : ℕ → ℕ → Persister Op → ℤ → ℕ → ℕ → Outcome KvServer
start_kv_server servers me persister maxraftstate r now = do
  rf ← make servers me persister r now
  ok (record {
    me = me;
    rf = rf;
    dead = false;
    maxraftstate = maxraftstate;
    kv = empty_dict;
    log = zero_op ∷ [];
    last_applied = 0;
    clerk_latest_cmd = empty_dict;
  })
