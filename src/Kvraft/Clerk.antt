-- ===== src/Kvraft/Clerk.antt =====
-- kvraft/client.go: a clerk, and the goroutines that retry one of its calls. What Call returns, and
-- the order in which the goroutines and the clerk go on, are arguments.
use text.Mathlib.Text.{◌==◌ as str_eq}
use m2i8t.Prelude.{
  ℕ, ◌+◌, ◌%◌, String, ◌≡◌, Bool, true, false, ◌||◌, Option, none, some, List, [], ◌∷◌, ◌++◌,
  if◌then◌else◌, get_elem?, set, eq_nat, eq_string,
}
use m2i8t.Kvraft.Types.{
  GetArgs, GetReply, PutAppendArgs, PutAppendReply, ok_err, err_no_key, put_type, append_type,
}

-- `servers` is the number of them.
pub record Clerk : Type 0 where
  pub servers : ℕ
  pub clerk_id : ℕ
  pub comand_id : ℕ
  pub pre_leader_id : ℕ

-- `id` is what nrand draws.
unfoldable pub make_clerk : ℕ → ℕ → Clerk
make_clerk servers id = record {
  servers = servers;
  clerk_id = id;
  comand_id = 0;
  pre_leader_id = 0;
}

unfoldable pub get_args : String → Clerk → GetArgs
get_args key ck = record { key = key; clerk_id = ck.clerk_id; command_id = ck.comand_id }

unfoldable pub put_append_args : String → String → String → Clerk → PutAppendArgs
put_append_args key value op ck = record {
  key = key;
  value = value;
  op = op;
  clerk_id = ck.clerk_id;
  command_id = ck.comand_id;
}

unfoldable pub put_args : String → String → Clerk → PutAppendArgs
unfolding put_append_args
put_args key value ck = put_append_args key value put_type ck

unfoldable pub append_args : String → String → Clerk → PutAppendArgs
unfolding put_append_args
append_args key value ck = put_append_args key value append_type ck

-- A goroutine: not yet begun, in its loop with the next server and its reply, behind the loop, or
-- at its end.
pub data Retry (R : Type 0) : Type 0 where
  created : Retry R
  calling : ℕ → R → Retry R
  leaving : ℕ → R → Retry R
  ended : Retry R

-- One Get or PutAppend: the variables that the clerk and its goroutines share.
pub record Pending (R : Type 0) : Type 0 where
  pub j : ℕ
  pub reply : R
  pub is_done : Bool
  pub retries : List (Retry R)

-- Which replies end the loop, what decoding into an old reply gives, and what a goroutine that ends
-- the call writes to the clerk's reply.
pub record Protocol (R : Type 0) : Type 0 where
  pub accepts : R → Bool
  pub decode : R → R → R
  pub keep : R → R → R

-- A zero field is not sent, so that the old value stays.
unfoldable pub decode_string : String → String → String
decode_string old sent = if str_eq sent "" then old else sent

unfoldable pub get_protocol : Protocol GetReply
unfolding decode_string
get_protocol = record {
  accepts = λ r. str_eq r.err ok_err || str_eq r.err err_no_key;
  decode = λ old sent. record {
    err = decode_string old.err sent.err;
    value = decode_string old.value sent.value;
  };
  keep = λ shared r. record shared { value = r.value };
}

unfoldable pub put_append_protocol : Protocol PutAppendReply
unfolding decode_string
put_append_protocol = record {
  accepts = λ r. str_eq r.err ok_err;
  decode = λ old sent. record { err = decode_string old.err sent.err };
  keep = λ shared r. shared;
}

module _ {R : Type 0} where
  unfoldable pub begin_call : Clerk → R → Pending R
  begin_call ck zero_reply = record {
    j = ck.pre_leader_id;
    reply = zero_reply;
    is_done = false;
    retries = [];
  }

  -- A round of the clerk's loop that goes on.
  unfoldable pub spawn : Pending R → Pending R
  spawn c = record c { retries = c.retries ++ created ∷ [] }

  -- The k-th goroutine reads the shared variables.
  unfoldable pub begin_retry : ℕ → Pending R → Pending R
  begin_retry k c = record c { retries = set c.retries k (calling c.j c.reply) }

  -- The rest of a goroutine's round, once Call has returned: none is that it returned false.
  unfoldable pub work : Protocol R → ℕ → Bool → ℕ → R → Option R → Retry R
  work p servers is_done i reply result =
      let got : R = elim result [ none ↦ reply | some sent ↦ p.decode reply sent ] in
      if is_done
      then ended
      else if p.accepts got
      then leaving i got
      else calling ((i + 1) % servers) got

  unfoldable pub after_call : Protocol R → ℕ → ℕ → ℕ → R → Option R → Pending R → Pending R
  unfolding work
  after_call p servers k i reply result c = record c {
    retries = set c.retries k (work p servers c.is_done i reply result);
  }

  unfoldable pub finish_retry : Protocol R → ℕ → ℕ → R → Pending R → Pending R
  finish_retry p k i reply c = record {
    j = i;
    reply = p.keep c.reply reply;
    is_done = true;
    retries = set c.retries k ended;
  }

  -- The clerk behind its loop.
  unfoldable pub end_call : Pending R → Clerk → Clerk × R
  end_call c ck = (record ck { pre_leader_id = c.j; comand_id = ck.comand_id + 1 }, c.reply)

  -- What may happen while a call is pending. `Sent i r` says that server `i` sends the reply `r`.
  pub data Step (p : Protocol R) (servers : ℕ) (Sent : ℕ → R → Type 0) (c : Pending R)
      : Pending R → Type 0 where
    waits : c.is_done ≡ false → Step p servers Sent c (spawn c)
    begins :
        (k : ℕ) → get_elem? c.retries k ≡ some created → Step p servers Sent c (begin_retry k c)
    gets_reply :
        (k i : ℕ) (reply sent : R)
        → get_elem? c.retries k ≡ some (calling i reply)
        → Sent i sent
        → Step p servers Sent c (after_call p servers k i reply (some sent) c)
    gets_none :
        (k i : ℕ) (reply : R)
        → get_elem? c.retries k ≡ some (calling i reply)
        → Step p servers Sent c (after_call p servers k i reply none c)
    finishes :
        (k i : ℕ) (reply : R)
        → get_elem? c.retries k ≡ some (leaving i reply)
        → Step p servers Sent c (finish_retry p k i reply c)

  pub data Run (p : Protocol R) (servers : ℕ) (Sent : ℕ → R → Type 0) (c : Pending R)
      : Pending R → Type 0 where
    here : Run p servers Sent c c
    next :
        {c' c'' : Pending R}
        → Run p servers Sent c c'
        → Step p servers Sent c' c''
        → Run p servers Sent c c''
