-- ===== src/Kvraft/ClerkTests.antt =====
-- kvraft/client.go: a Get of three servers, where the first one does not lead and the second answers.
use m2i8t.Prelude.{
  ℕ, ◌<◌, ◌≡◌, refl, none, some, List, [], ◌∷◌, arith, take, ok, eq_nat, eq_string, empty_dict,
  update,
}
use m2i8t.Kvraft.Types.{
  Op, zero_op, put_type, append_type, GetReply, PutAppendReply, ok_err, err_wrong_leader,
}
use m2i8t.Kvraft.Clerk.{
  get_args, put_append_args, Clerk, Pending, begin_call, spawn, begin_retry, work, after_call,
  finish_retry, end_call, get_protocol, put_append_protocol, decode_string, Run, here, next, waits,
  begins, gets_reply, gets_none, finishes,
}
use m2i8t.Kvraft.Calls.{
  no_get_reply, no_put_append_reply, IsApplied, FromGet, refuses, ends, FromPutAppend, ends_put,
  get_answers, put_append_answers,
}
use m2i8t.Kvraft.Applied.{messages_from}
use m2i8t.Kvraft.Server.{
  KvServer, check_dup, execute, apply_op, apply, check_apply, get_poll, put_append_poll, get_op,
  put_append_op,
}
use m2i8t.Kvraft.Tests.{server}

abbrev clerk : Clerk
clerk = record { servers = 3; clerk_id = 7; comand_id = 4; pre_leader_id = 2 }

abbrev refused : GetReply
refused = record { err = err_wrong_leader; value = "" }

abbrev answers : GetReply
answers = record { err = ok_err; value = "v" }

abbrev asked : Op
asked = get_op (get_args "x" clerk)

abbrev put_v : Op
put_v = record asked { command_type = put_type; command_value = "v"; command_id = 3 }

-- A server that has applied the command at position 2.
abbrev applied : KvServer
applied = record server {
  kv = update empty_dict "x" "v";
  log = zero_op ∷ put_v ∷ record asked { command_value = "v" } ∷ [];
  last_applied = 2;
  clerk_latest_cmd = update (update empty_dict 7 3) 7 4;
}

applies : check_apply (messages_from 1 (put_v ∷ asked ∷ [])) server ≡ ok applied
unfolding check_apply apply apply_op check_dup execute messages_from get_op get_args
applies = refl

answered : get_poll asked 2 applied ≡ ok (some answers)
unfolding get_poll get_op get_args
answered = refl

-- The servers are in the states that they reach by applying what they have of one log.
abbrev Serving : List Op → ℕ → KvServer → Type 0
Serving ops i s = (n : ℕ) × (check_apply (messages_from 1 (take n ops)) server ≡ ok s)

abbrev Sends : ℕ → GetReply → Type 0
Sends i r = FromGet (Serving (put_v ∷ asked ∷ [])) asked i r

abbrev c0 : Pending GetReply
c0 = begin_call clerk no_get_reply

abbrev c1 : Pending GetReply
c1 = begin_retry 0 (spawn c0)

abbrev c2 : Pending GetReply
c2 = after_call get_protocol 3 0 2 no_get_reply (some refused) c1

abbrev c3 : Pending GetReply
c3 = after_call get_protocol 3 0 0 refused (some answers) c2

abbrev c4 : Pending GetReply
c4 = finish_retry get_protocol 0 0 answers c3

run : Run get_protocol 3 Sends c0 c4
unfolding begin_call spawn begin_retry after_call work finish_retry get_protocol decode_string
run =
    next
      (next
        (next (next (next here (waits refl)) (begins 0 refl))
          (gets_reply 0 2 no_get_reply refused refl (refuses refl)))
        (gets_reply 0 0 refused answers refl (ends 2 applied (2, applies) answered)))
      (finishes 0 0 answers refl)

get_answers_example :
    ((end_call c4 clerk).0.pre_leader_id < 3)
    × ((i : ℕ) × (at : ℕ) × (s : KvServer) × Serving (put_v ∷ asked ∷ []) i s
        × IsApplied asked at s
        × (get_poll asked at s
            ≡ ok (some (record { err = ok_err; value = (end_call c4 clerk).1.value }))))
get_answers_example =
    get_answers (Serving (put_v ∷ asked ∷ [])) clerk "x" (omega arith) run
      (unfold finish_retry in refl)

abbrev stored : PutAppendReply
stored = record { err = ok_err }

abbrev command : Op
command = put_append_op (put_append_args "x" "v" append_type clerk)

abbrev appended : KvServer
appended = record server {
  kv = update empty_dict "x" "v";
  log = zero_op ∷ command ∷ [];
  last_applied = 1;
  clerk_latest_cmd = update empty_dict 7 4;
}

appends : check_apply (messages_from 1 (command ∷ [])) server ≡ ok appended
unfolding check_apply apply apply_op check_dup execute messages_from put_append_op put_append_args
appends = refl

answered_put : put_append_poll command 1 appended ≡ ok (some stored)
unfolding put_append_poll put_append_op put_append_args
answered_put = refl

abbrev Stores : ℕ → PutAppendReply → Type 0
Stores i r = FromPutAppend (Serving (command ∷ [])) command i r

abbrev d0 : Pending PutAppendReply
d0 = begin_call clerk no_put_append_reply

abbrev d1 : Pending PutAppendReply
d1 = begin_retry 0 (spawn d0)

abbrev d2 : Pending PutAppendReply
d2 = after_call put_append_protocol 3 0 2 no_put_append_reply none d1

abbrev d3 : Pending PutAppendReply
d3 = after_call put_append_protocol 3 0 0 no_put_append_reply (some stored) d2

abbrev d4 : Pending PutAppendReply
d4 = finish_retry put_append_protocol 0 0 stored d3

-- Server 2 gives no reply.
put_append_run : Run put_append_protocol 3 Stores d0 d4
unfolding begin_call spawn begin_retry after_call work finish_retry put_append_protocol
    decode_string
put_append_run =
    next
      (next
        (next (next (next here (waits refl)) (begins 0 refl))
          (gets_none 0 2 no_put_append_reply refl))
        (gets_reply 0 0 no_put_append_reply stored refl
          (ends_put 1 appended (1, appends) answered_put)))
      (finishes 0 0 stored refl)

put_append_answers_example :
    ((end_call d4 clerk).0.pre_leader_id < 3)
    × ((i : ℕ) × (at : ℕ) × (s : KvServer) × Serving (command ∷ []) i s
        × IsApplied command at s
        × (put_append_poll command at s ≡ ok (some (record { err = ok_err }))))
put_append_answers_example =
    put_append_answers (Serving (command ∷ [])) clerk "x" "v" append_type (omega arith)
      put_append_run (unfold finish_retry in refl)
