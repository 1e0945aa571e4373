-- ===== src/Kvraft/Tests.antt =====
-- Runs of kvraft/server.go on small inputs, and the theorems at inputs that meet their hypotheses.
use m2i8t.Prelude.{
  ◌+◌, ◌≡◌, refl, ◌↔◌, true, false, none, some, List, [], ◌∷◌, ◌++◌, arith, length, get_elem?, ok,
  eq_nat, eq_string, empty_dict, update, get_or_zero, pos, minus_one,
}
use m2i8t.Raft.Types.{Raft, Persister}
use m2i8t.Raft.Node.{make}
use m2i8t.Kvraft.Types.{
  Op, equals, get_type, put_type, append_type, PutAppendReply, ok_err, err_wrong_leader, zero_op,
}
use m2i8t.Kvraft.Server.{
  KvServer, start_kv_server, check_dup, execute, apply_op, apply, check_apply, get_poll,
  put_append_poll,
}
use m2i8t.Kvraft.Spec.{exec, exec_all, fresh_ops, is_fresh, latest_all}
use m2i8t.Kvraft.Applied.{messages_from}
use m2i8t.Kvraft.Service.{IsAligned, check_apply-exec_all, retry_applies_once}
use m2i8t.Kvraft.Reads.{read_at_log_position, put_append_ok_iff}

program : Unit {0}
unfolding start_kv_server make check_dup execute apply_op apply check_apply get_poll put_append_poll
    messages_from equals
program = tt

abbrev put_x : Op
put_x = record {
  command_type = put_type;
  command_key = "x";
  command_value = "a";
  clerk_id = 5;
  command_id = 0;
  is_dup = false;
}

abbrev append_x : Op
append_x = record put_x { command_type = append_type; command_value = "b"; command_id = 1 }

abbrev get_x : Op
get_x = record put_x { command_type = get_type; command_value = ""; command_id = 2 }

abbrev no_persister : Persister Op
no_persister = record { raftstate = []; snapshot = [] }

abbrev raft₀ : Raft Op
raft₀ = record {
  peers = 1;
  persister = no_persister;
  me = 0;
  dead = false;
  election_timeout = 500_000_000;
  last_heartbeat = 0;
  state = pos 1;
  current_term = 0;
  voted_for = minus_one;
  log = record { command = none; term = 0 } ∷ [];
  commit_index = 0;
  last_applied = 0;
  next_index = 1 ∷ [];
  match_index = 0 ∷ [];
}

abbrev pub server : KvServer
server = record {
  me = 0;
  rf = raft₀;
  dead = false;
  maxraftstate = minus_one;
  kv = empty_dict;
  log = zero_op ∷ [];
  last_applied = 0;
  clerk_latest_cmd = empty_dict;
}

starts : start_kv_server 1 0 no_persister minus_one 0 0 ≡ ok server
unfolding program
starts = refl

-- The append is sent twice, and the read sees it once.
abbrev ops : List Op
ops = put_x ∷ append_x ∷ append_x ∷ get_x ∷ []

runs :
    (s : KvServer) × (check_apply (messages_from 1 ops) server ≡ ok s)
    × (get_poll get_x 4 s ≡ ok (some (record { err = ok_err; value = "ab" })))
    × (get_poll get_x 5 s ≡ ok none)
    × (put_append_poll append_x 4 s ≡ ok (some (record { err = err_wrong_leader })))
unfolding program
runs = (_, refl, refl, refl, refl)

check_apply-exec_all_example :
    (s' : KvServer) × (check_apply (messages_from (0 + 1) ops) server ≡ ok s')
    × (s'.kv ≡ exec_all (fresh_ops empty_dict ops) empty_dict)
    × (s'.last_applied ≡ 0 + length ops)
    × IsAligned s'
check_apply-exec_all_example = check_apply-exec_all ops server refl

retry_applies_once_example :
    (s₁ s₂ : KvServer) × (check_apply (messages_from (0 + 1) (append_x ∷ get_x ∷ [])) server
      ≡ ok s₁)
    × (check_apply (messages_from (0 + 1) ((append_x ∷ get_x ∷ []) ++ append_x ∷ [])) server
        ≡ ok s₂)
    × (s₁.kv ≡ exec_all (fresh_ops (update empty_dict 5 1) (get_x ∷ [])) (exec append_x empty_dict))
    × (s₂.kv ≡ s₁.kv)
retry_applies_once_example =
    retry_applies_once append_x (get_x ∷ []) server refl (unfold is_fresh in refl)

fresh_get : is_fresh get_x (latest_all (put_x ∷ append_x ∷ []) empty_dict) ≡ true
unfolding is_fresh latest_all
fresh_get = refl

read_at_log_position_example :
    (s' : KvServer) × (check_apply
        (messages_from (0 + 1) ((put_x ∷ append_x ∷ []) ++ get_x ∷ put_x ∷ []))
        server
      ≡ ok s')
    × (get_poll get_x (0 + 1 + 2) s'
        ≡ ok (
            some (record {
              err = ok_err;
              value =
                  get_or_zero ""
                    (exec_all (fresh_ops empty_dict (put_x ∷ append_x ∷ [])) empty_dict)
                    "x";
            })))
read_at_log_position_example =
    read_at_log_position (put_x ∷ append_x ∷ []) (put_x ∷ []) get_x server refl refl refl fresh_get

abbrev served : KvServer
served = record server { log = zero_op ∷ put_x ∷ append_x ∷ []; last_applied = 2 }

put_append_ok_iff_example :
    (v : Op) × (reply : PutAppendReply) × (get_elem? served.log 2 ≡ some v)
    × (put_append_poll append_x 2 served ≡ ok (some reply))
    × ((reply.err ≡ ok_err) ↔ ((5 ≡ v.clerk_id) × (1 ≡ v.command_id)))
put_append_ok_iff_example = put_append_ok_iff append_x 2 served refl (omega arith)
