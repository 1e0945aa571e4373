-- ===== src/Kvraft/Reads.antt =====
-- kvraft/server.go: what Get and PutAppend answer once their command has been applied.
use text.Mathlib.Text.{◌==◌ as str_eq}
use text.Mathlib.TextEquality.{eq_iff}
use m2i8t.Prelude.{
  ℕ, ◌+◌, ◌≤◌, ◌<◌, ◌≡◌, refl, sym, ap, ◌∙◌, ◌≢◌, ◌↔◌, true, false, not, some, List, [], ◌∷◌, ◌++◌,
  arith, if◌then◌else◌, ==_refl, length, get_elem?, get_elem?-append_left, get_elem?-append_last,
  ok, index-eq, index_in_range, eq_nat, eq_string, get_or_zero,
}
use m2i8t.Kvraft.Types.{Op, equals, get_type, PutAppendReply, ok_err, err_wrong_leader}
use m2i8t.Kvraft.Server.{KvServer, check_apply, get_poll, put_append_poll}
use m2i8t.Kvraft.Spec.{Store, exec_all, is_fresh, fresh_ops, recorded, latest_all}
use m2i8t.Kvraft.Applied.{
  applied, applied_all, messages_from, length-applied, check_apply-applied_all, kv-applied_all,
}
use m2i8t.Kvraft.Service.{IsAligned, applied_all-IsAligned, applied_all-append}

-- Entries of the log stay as they are.
applied-log :
    (op : Op) (s : KvServer) (j : ℕ)
    → j < length s.log
    → get_elem? (applied op s).log j ≡ get_elem? s.log j
unfolding applied
applied-log op s j h = ground (
  arith,
  get_elem?-append_left j s.log (recorded op s.kv ∷ []),
  get_elem?-append_left j s.log (record op { is_dup = true } ∷ []),
)

applied_all-log :
    (ops : List Op) (s : KvServer) (j : ℕ)
    → j < length s.log
    → get_elem? (applied_all ops s).log j ≡ get_elem? s.log j
unfolding applied_all
applied_all-log [] s j h = refl
applied_all-log (op ∷ ops) s j h =
    applied_all-log ops (applied op s) j (omega (arith, length-applied op s)) ∙ applied-log op s j h

applied_fresh :
    (op : Op) (s : KvServer)
    → is_fresh op s.clerk_latest_cmd ≡ true
    → get_elem? (applied op s).log (length s.log) ≡ some (recorded op s.kv)
unfolding applied
applied_fresh op s h = rw h (get_elem?-append_last s.log (recorded op s.kv))

latest-applied_all :
    (ops : List Op) (s : KvServer)
    → (applied_all ops s).clerk_latest_cmd ≡ latest_all ops s.clerk_latest_cmd
unfolding applied_all applied latest_all
latest-applied_all [] s = refl
latest-applied_all (op ∷ ops) s =
    latest-applied_all ops (applied op s) ∙ ap (latest_all ops) (ground arith)

get_poll-recorded :
    (op : Op) (i : ℕ) (s : KvServer) (m : Store)
    → op.command_type ≡ get_type
    → op.is_dup ≡ false
    → i ≤ s.last_applied
    → get_elem? s.log i ≡ some (recorded op m)
    → get_poll op i s ≡ ok (some (record { err = ok_err; value = get_or_zero "" m op.command_key }))
unfolding get_poll recorded equals
get_poll-recorded op i s m get new le e =
    let is_get : str_eq op.command_type get_type ≡ true = (eq_iff op.command_type get_type).1 get in
    ground (arith, is_get, index-eq s.log i e, ==_refl op.clerk_id, ==_refl op.command_id)

-- A Get that is not a repeated command, at a position of the Raft log: once the log is applied, with
-- whatever follows it, its handler answers OK with the key's value in the map that results from the
-- operations before that position (the empty string for a missing key).
pub read_at_log_position :
    (pre post : List Op) (op : Op) (s : KvServer)
    → IsAligned s
    → op.command_type ≡ get_type
    → op.is_dup ≡ false
    → is_fresh op (latest_all pre s.clerk_latest_cmd) ≡ true
    → (s' : KvServer) × (check_apply (messages_from (s.last_applied + 1) (pre ++ op ∷ post)) s
        ≡ ok s')
      × (get_poll op (s.last_applied + 1 + length pre) s'
          ≡ ok (
              some (record {
                err = ok_err;
                value =
                    get_or_zero ""
                      (exec_all (fresh_ops s.clerk_latest_cmd pre) s.kv)
                      op.command_key;
              })))
unfolding applied_all
read_at_log_position pre post op s h get new fresh =
    let s₁ = applied_all pre s in
    let (a, n) = applied_all-IsAligned pre s h in
    let i : length s₁.log ≡ s.last_applied + 1 + length pre = omega (arith, a, n) in
    let s' = applied_all post (applied op s₁) in
    let all : applied_all (pre ++ op ∷ post) s ≡ s' = applied_all-append pre (op ∷ post) s in
    let entry : get_elem? s'.log (length s₁.log) ≡ some (recorded op s₁.kv) =
      applied_all-log post (applied op s₁) (length s₁.log) (omega (arith, length-applied op s₁))
      ∙ applied_fresh op s₁ (rw (latest-applied_all pre s) fresh) in
    (
      s',
      check_apply-applied_all (pre ++ op ∷ post) (s.last_applied + 1) s (sym h) ∙ ap ok all,
      rw (← i, ← kv-applied_all pre s)
          (get_poll-recorded op (length s₁.log) s' s₁.kv get new
            (omega (arith, a, (applied_all-IsAligned (op ∷ post) s₁ a).1)) entry),
    )

ok-ne-wrong_leader : ok_err ≢ err_wrong_leader
ok-ne-wrong_leader e = cc

-- On an aligned server whose log has reached index `i`, PutAppend answers, without a panic, and with
-- OK exactly when the command applied at `i` has its own clerk and command id.
pub put_append_ok_iff :
    (op : Op) (i : ℕ) (s : KvServer)
    → IsAligned s
    → i ≤ s.last_applied
    → (v : Op) × (reply : PutAppendReply) × (get_elem? s.log i ≡ some v)
      × (put_append_poll op i s ≡ ok (some reply))
      × ((reply.err ≡ ok_err) ↔ ((op.clerk_id ≡ v.clerk_id) × (op.command_id ≡ v.command_id)))
unfolding put_append_poll equals
put_append_ok_iff op i s h le =
    let (v, found, got) = index_in_range s.log i (omega (arith, h)) in
    (
      v,
      record { err = if not (equals op v) then err_wrong_leader else ok_err },
      got,
      ground (arith, found),
      (ground (arith, ok-ne-wrong_leader), ground arith),
    )
