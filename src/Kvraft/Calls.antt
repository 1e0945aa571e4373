-- ===== src/Kvraft/Calls.antt =====
-- kvraft/client.go: what Get and PutAppend rely on and return.
use text.Mathlib.TextEquality.{eq_iff}
use text.Mathlib.Text.{◌==◌ as str_eq}
use m2i8t.Prelude.{
  ℕ, zero, suc, ◌≤◌, ◌<◌, String, ◌≡◌, refl, sym, ap, ◌∙◌, subst, ◌⊎◌, inl, inr, true, false, some,
  List, [], ◌∷◌, arith, Bool-cases, get_elem?, ok, panic, index, Outcome-cases, eq_nat, eq_string,
}
use m2i8t.Kvraft.Types.{Op, equals, err_wrong_leader, GetReply, PutAppendReply, ok_err}
use m2i8t.Kvraft.Server.{KvServer, get_poll, put_append_poll, get_op, put_append_op}
use m2i8t.Kvraft.Clerk.{
  get_args, put_append_args, Clerk, Pending, decode_string, get_protocol, put_append_protocol,
  begin_call, end_call, Run,
}
use m2i8t.Kvraft.Retries.{Laws, call_answers}

abbrev pub no_get_reply : GetReply
no_get_reply = record { err = ""; value = "" }

abbrev pub no_put_append_reply : PutAppendReply
no_put_append_reply = record { err = "" }

abbrev pub GetsAnswer : (ℕ → GetReply → Type 0) → String → Type 0
GetsAnswer Sent value =
    (i : ℕ) × (r : GetReply) × Sent i r × (get_protocol.accepts r ≡ true) × (value ≡ r.value)

refused_value :
    (r s : GetReply)
    → get_protocol.accepts (get_protocol.decode r s) ≡ false
    → (get_protocol.accepts s ≡ false → s.value ≡ "")
    → s.value ≡ ""
unfolding get_protocol
refused_value r s e blank = elim (Bool-cases (str_eq s.err "")) [
  | inl absent ↦
      let q : s.err ≡ "" = (eq_iff s.err "").0 absent in
      let t : get_protocol.accepts s ≡ false = rw q in blank t
  | inr present ↦ let t : get_protocol.accepts s ≡ false = ground (arith, present, e) in blank t
]

decoded_value :
    (r s : GetReply) → r.value ≡ "" → s.value ≡ "" → (get_protocol.decode r s).value ≡ ""
unfolding get_protocol
decoded_value r s e q = rw (q, decode_string) (ground (arith, e))

get_laws :
    (Sent : ℕ → GetReply → Type 0)
    → ((i : ℕ) (r : GetReply) → Sent i r → get_protocol.accepts r ≡ false → r.value ≡ "")
    → Laws get_protocol Sent
        (λ r. (get_protocol.accepts r ≡ false) × (r.value ≡ ""))
        (λ r. GetsAnswer Sent r.value)
unfolding get_protocol
get_laws Sent blank = record {
  silent = λ r idle. idle.0;
  accepted = λ i r s idle sent e.
      let a = eq_iff s.err "" in
      let b = eq_iff s.value "" in (i, s, sent, ground (arith, idle), ground (arith, idle));
  refused = λ i r s idle sent e.
      let same = decoded_value r s idle.1 (refused_value r s e (blank i s sent)) in (e, same);
  kept = λ c r a. a;
}

-- A reply of the handler Get of server `i` to the operation: it does not lead, or its waiting loop has
-- ended. `Served i s` says that `s` is a state that server `i` goes through.
pub data FromGet (Served : ℕ → KvServer → Type 0) (op : Op) (i : ℕ) (r : GetReply) : Type 0 where
  refuses : r ≡ record { err = err_wrong_leader; value = "" } → FromGet Served op i r
  ends :
      (at : ℕ) (s : KvServer) → Served i s → get_poll op at s ≡ ok (some r) → FromGet Served op i r

-- The server has applied, at position `at`, a command of the operation's clerk and command id.
pub record IsApplied (op : Op) (at : ℕ) (s : KvServer) : Type 0 where
  pub reached : at ≤ s.last_applied
  pub entry : Op
  pub logged : get_elem? s.log at ≡ some entry
  pub own_clerk : op.clerk_id ≡ entry.clerk_id
  pub own_command : op.command_id ≡ entry.command_id

get_poll-blank :
    (op : Op) (i : ℕ) (s : KvServer) (r : GetReply)
    → get_poll op i s ≡ ok (some r)
    → get_protocol.accepts r ≡ false
    → r.value ≡ ""
unfolding get_poll get_protocol
get_poll-blank op i s r e h = elim (Outcome-cases (index s.log i)) [
  | inl p ↦ absurd (ground (arith, p, e))
  | inr (log_op, p) ↦ elim (Bool-cases (equals op log_op)) [
    | inl own ↦
        let answered : r.err ≡ ok_err = ground (arith, p, e, own) in
        let z : get_protocol.accepts r ≡ true = rw answered in absurd (cc (z, h))
    | inr other ↦ ground (arith, p, e, other)
  ]
]

index_cases :
    {A : Type 0} (xs : List A) (i : ℕ)
    → (index xs i ≡ panic) ⊎ ((x : A) × (index xs i ≡ ok x) × (get_elem? xs i ≡ some x))
index_cases [] i = inl refl
index_cases (x ∷ xs) zero = inr (x, refl, refl)
index_cases (x ∷ xs) (suc i) = index_cases xs i

get_poll-IsApplied :
    (op : Op) (at : ℕ) (s : KvServer) (r : GetReply)
    → get_poll op at s ≡ ok (some r)
    → get_protocol.accepts r ≡ true
    → (r.err ≡ ok_err) × IsApplied op at s
unfolding get_poll get_protocol equals
get_poll-IsApplied op at s r e h = elim (index_cases s.log at) [
  | inl missing ↦ absurd (ground (arith, e, missing))
  | inr (v, there, got) ↦ elim (Bool-cases (equals op v)) [
    | inr other ↦
        let q : r ≡ record { err = err_wrong_leader; value = "" } =
          ground (arith, e, there, other) in
        let z : get_protocol.accepts (record { err = err_wrong_leader; value = "" }) ≡ true =
          subst (λ x. get_protocol.accepts x ≡ true) q h in
        absurd (cc z)
    | inl own ↦ (
      ground (arith, e, there, own),
      record {
        reached = ground (arith, e);
        entry = v;
        logged = got;
        own_clerk = ground (arith, own);
        own_command = ground (arith, own);
      },
    )
  ]
]

module _ (Served : ℕ → KvServer → Type 0) where
  FromGet-blank :
      (op : Op) (i : ℕ) (r : GetReply)
      → FromGet Served op i r
      → get_protocol.accepts r ≡ false
      → r.value ≡ ""
  FromGet-blank op i r (refuses e) h = ap (λ x. x.value) e
  FromGet-blank op i r (ends at s w e) h = get_poll-blank op at s r e h

  FromGet-accepted :
      (op : Op) (i : ℕ) (r : GetReply)
      → FromGet Served op i r
      → get_protocol.accepts r ≡ true
      → (at : ℕ) × (s : KvServer) × Served i s × (get_poll op at s ≡ ok (some r))
  unfolding get_protocol
  FromGet-accepted op i r (refuses e) h =
      let z : get_protocol.accepts (record { err = err_wrong_leader; value = "" }) ≡ true =
        subst (λ x. get_protocol.accepts x ≡ true) e h in
      absurd (cc z)
  FromGet-accepted op i r (ends at s w e) h = (at, s, w, e)

  -- The servers answer with the handler Get, in states that they go through. When a clerk's Get leaves its
  -- loop, in whatever order its goroutines ran and whatever calls got no reply: a server, in a state that
  -- it goes through, has applied this very command and its waiting loop has ended with OK and the value
  -- that Get returns; and the next call begins at a server there is.
  pub get_answers :
      (ck : Clerk) (key : String) {c : Pending GetReply}
      → ck.pre_leader_id < ck.servers
      → Run get_protocol ck.servers
          (FromGet Served (get_op (get_args key ck)))
          (begin_call ck no_get_reply)
          c
      → c.is_done ≡ true
      → ((end_call c ck).0.pre_leader_id < ck.servers)
        × ((i : ℕ) × (at : ℕ) × (s : KvServer) × Served i s
            × IsApplied (get_op (get_args key ck)) at s
            × (get_poll (get_op (get_args key ck)) at s
                ≡ ok (some (record { err = ok_err; value = (end_call c ck).1.value }))))
  get_answers ck key lt run e =
      let op : Op = get_op (get_args key ck) in
      let (lt', answer) =
        call_answers get_protocol ck.servers (FromGet Served op)
          (λ r. (get_protocol.accepts r ≡ false) × (r.value ≡ ""))
          (λ r. GetsAnswer (FromGet Served op) r.value)
          (get_laws (FromGet Served op) (FromGet-blank op)) ck no_get_reply lt
          (unfold get_protocol in (refl, refl)) run e in
      let (i, r, sent, ok_r, same) = answer in
      let (at, s, served, polled) = FromGet-accepted op i r sent ok_r in
      let (no_error, applied) = get_poll-IsApplied op at s r polled ok_r in
      (
        lt',
        (
          i,
          at,
          s,
          served,
          applied,
          polled
              ∙ ap (λ x. ok (some (record { err = x; value = r.value }))) no_error
              ∙ ap (λ x. ok (some (record { err = ok_err; value = x }))) (sym same),
        ),
      )

put_append_laws :
    (Sent : ℕ → PutAppendReply → Type 0)
    → Laws put_append_protocol Sent
        (λ r. put_append_protocol.accepts r ≡ false)
        (λ r. (i : ℕ) × (s : PutAppendReply) × Sent i s × (s.err ≡ ok_err))
unfolding put_append_protocol
put_append_laws Sent = record {
  silent = λ r idle. idle;
  accepted = λ i r s idle sent e.
      let a = eq_iff s.err "" in let b = eq_iff s.err ok_err in (i, s, sent, ground arith);
  refused = λ i r s idle sent e. e;
  kept = λ c r a. a;
}

-- The same for the handler PutAppend.
pub data FromPutAppend (Served : ℕ → KvServer → Type 0) (op : Op) (i : ℕ) (r : PutAppendReply)
    : Type 0 where
  refuses_put : r ≡ record { err = err_wrong_leader } → FromPutAppend Served op i r
  ends_put :
      (at : ℕ) (s : KvServer)
      → Served i s
      → put_append_poll op at s ≡ ok (some r)
      → FromPutAppend Served op i r

put_append_poll-IsApplied :
    (op : Op) (at : ℕ) (s : KvServer) (r : PutAppendReply)
    → put_append_poll op at s ≡ ok (some r)
    → r.err ≡ ok_err
    → IsApplied op at s
unfolding put_append_poll equals
put_append_poll-IsApplied op at s r e h = elim (index_cases s.log at) [
  | inl missing ↦ absurd (ground (arith, e, missing))
  | inr (v, there, got) ↦ elim (Bool-cases (equals op v)) [
    | inr other ↦
        let q : r.err ≡ err_wrong_leader = ground (arith, e, there, other) in
        let y : false ≡ true = ap (λ x. str_eq x ok_err) (sym q ∙ h) in absurd (cc y)
    | inl own ↦ record {
      reached = ground (arith, e);
      entry = v;
      logged = got;
      own_clerk = ground (arith, own);
      own_command = ground (arith, own);
    }
  ]
]

-- The servers answer with the handler PutAppend, in states that they go through. When a clerk's PutAppend
-- leaves its loop, in whatever order its goroutines ran, a server, in a state that it goes through, has
-- applied this very command and its waiting loop has ended with OK; and the next call begins at a server
-- there is.
pub put_append_answers :
    (Served : ℕ → KvServer → Type 0) (ck : Clerk) (key value op : String)
    {c : Pending PutAppendReply}
    → ck.pre_leader_id < ck.servers
    → Run put_append_protocol ck.servers
        (FromPutAppend Served (put_append_op (put_append_args key value op ck)))
        (begin_call ck no_put_append_reply)
        c
    → c.is_done ≡ true
    → ((end_call c ck).0.pre_leader_id < ck.servers)
      × ((i : ℕ) × (at : ℕ) × (s : KvServer) × Served i s
          × IsApplied (put_append_op (put_append_args key value op ck)) at s
          × (put_append_poll (put_append_op (put_append_args key value op ck)) at s
              ≡ ok (some (record { err = ok_err }))))
put_append_answers Served ck key value op lt run e =
    let cmd : Op = put_append_op (put_append_args key value op ck) in
    let (lt', answer) =
      call_answers put_append_protocol ck.servers (FromPutAppend Served cmd)
        (λ r. put_append_protocol.accepts r ≡ false)
        (λ r. (i : ℕ) × (s : PutAppendReply) × FromPutAppend Served cmd i s × (s.err ≡ ok_err))
        (put_append_laws (FromPutAppend Served cmd)) ck no_put_append_reply lt
        (unfold put_append_protocol in refl) run e in
    let (i, r, sent, ok_r) = answer in
    let (at, s, served, applied, polled) = stored cmd i r sent ok_r in
    (lt', (i, at, s, served, applied, polled))
  where
    stored :
        (cmd : Op) (i : ℕ) (r : PutAppendReply)
        → FromPutAppend Served cmd i r
        → r.err ≡ ok_err
        → (at : ℕ) × (s : KvServer) × Served i s
          × IsApplied cmd at s
          × (put_append_poll cmd at s ≡ ok (some (record { err = ok_err })))
    stored cmd i r (refuses_put q) h =
        let z : err_wrong_leader ≡ ok_err = sym (ap (λ x. x.err) q) ∙ h in
        let y : false ≡ true = ap (λ x. str_eq x ok_err) z in absurd (cc y)
    stored cmd i r (ends_put at s w q) h = (
      at,
      s,
      w,
      put_append_poll-IsApplied cmd at s r q h,
      q ∙ ap (λ x. ok (some (record { err = x }))) h,
    )
