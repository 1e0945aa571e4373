-- ===== src/Kvraft/Types.antt =====
-- The data of kvraft/common.go and kvraft/server.go. A Go string is a text, an id a number.
use m2i8t.Prelude.{ℕ, String, Bool, false, ◌&&◌, ◌==◌, eq_nat, eq_string}

-- The values of CommandType.
abbrev pub put_type : String
put_type = "Put"

abbrev pub get_type : String
get_type = "Get"

abbrev pub append_type : String
append_type = "Append"

-- The values of Err.
abbrev pub ok_err : String
ok_err = "OK"

abbrev pub err_no_key : String
err_no_key = "ErrNoKey"

abbrev pub err_wrong_leader : String
err_wrong_leader = "ErrWrongLeader"

pub record PutAppendArgs : Type 0 where
  pub key : String
  pub value : String
  pub op : String
  pub clerk_id : ℕ
  pub command_id : ℕ

pub record PutAppendReply : Type 0 where
  pub err : String

pub record GetArgs : Type 0 where
  pub key : String
  pub clerk_id : ℕ
  pub command_id : ℕ

pub record GetReply : Type 0 where
  pub err : String
  pub value : String

pub record Op : Type 0 where
  pub command_type : String
  pub command_key : String
  pub command_value : String
  pub clerk_id : ℕ
  pub command_id : ℕ
  pub is_dup : Bool

unfoldable pub equals : Op → Op → Bool
equals op1 op2 = op1.clerk_id == op2.clerk_id && op1.command_id == op2.command_id

abbrev pub zero_op : Op
zero_op = record {
  command_type = "";
  command_key = "";
  command_value = "";
  clerk_id = 0;
  command_id = 0;
  is_dup = false;
}
