-- ===== src/Kvraft/Service.antt =====
-- kvraft/server.go: what a server does with the operations of the Raft log, and what it answers.
use m2i8t.Prelude.{
  ℕ, ◌+◌, ◌≡◌, refl, sym, ap, ◌∙◌, inl, inr, true, List, [], ◌∷◌, ◌++◌, arith, ltb, ◌==◌, ==_refl,
  tests, Bool-cases, Option-cases, length, ok, eq_nat, eq_string, update,
}
use m2i8t.Kvraft.Types.{Op}
use m2i8t.Kvraft.Server.{KvServer, check_apply}
use m2i8t.Kvraft.Spec.{exec, exec_all, is_fresh, fresh_ops, HasSeen}
use m2i8t.Kvraft.Applied.{
  applied, applied_all, messages_from, length-applied, check_apply-applied_all, kv-applied_all,
}

-- The log has the sentinel and one entry for each applied command.
abbrev pub IsAligned : KvServer → Type 0
IsAligned s = length s.log ≡ s.last_applied + 1

pub applied-IsAligned :
    (op : Op) (s : KvServer)
    → IsAligned s
    → IsAligned (applied op s) × ((applied op s).last_applied ≡ s.last_applied + 1)
unfolding applied
applied-IsAligned op s h = ground (arith, length-applied op s)

pub applied_all-IsAligned :
    (ops : List Op) (s : KvServer)
    → IsAligned s
    → IsAligned (applied_all ops s)
      × ((applied_all ops s).last_applied ≡ s.last_applied + length ops)
unfolding applied_all
applied_all-IsAligned [] s h = (h, omega arith)
applied_all-IsAligned (op ∷ ops) s h =
    let (a, n) = applied-IsAligned op s h in
    let (b, m) = applied_all-IsAligned ops (applied op s) a in (b, omega arith)

pub applied_all-append :
    (ops ops' : List Op) (s : KvServer)
    → applied_all (ops ++ ops') s ≡ applied_all ops' (applied_all ops s)
unfolding applied_all
applied_all-append [] ops' s = refl
applied_all-append (op ∷ ops) ops' s = applied_all-append ops ops' (applied op s)

-- The operations of the log, sent in order from the server's next index on, are applied without a
-- panic. The map is then the one that results from executing only the commands that repeat none of
-- their clerk's, in log order; every message has counted, and the log has an entry for each.
pub check_apply-exec_all :
    (ops : List Op) (s : KvServer)
    → IsAligned s
    → (s' : KvServer) × (check_apply (messages_from (s.last_applied + 1) ops) s ≡ ok s')
      × (s'.kv ≡ exec_all (fresh_ops s.clerk_latest_cmd ops) s.kv)
      × (s'.last_applied ≡ s.last_applied + length ops)
      × IsAligned s'
check_apply-exec_all ops s h =
    let (a, n) = applied_all-IsAligned ops s h in
    (
      applied_all ops s,
      check_apply-applied_all ops (s.last_applied + 1) s (sym h),
      kv-applied_all ops s,
      n,
      a,
    )

module _ (clerk id : ℕ) where
  applied-HasSeen :
      (op : Op) (s : KvServer)
      → HasSeen clerk id s.clerk_latest_cmd
      → HasSeen clerk id (applied op s).clerk_latest_cmd
  unfolding applied is_fresh
  applied-HasSeen op s (last, e, h) = elim (Bool-cases (is_fresh op s.clerk_latest_cmd)) [
    | inr old ↦ rw old (last, e, h)
    | inl new ↦ rw new (elim (Bool-cases (op.clerk_id == clerk)) [
      | inl same ↦ (op.command_id, rw same, ground (arith, e))
      | inr other ↦ (last, rw other e, h)
    ])
  ]

  applied_all-HasSeen :
      (ops : List Op) (s : KvServer)
      → HasSeen clerk id s.clerk_latest_cmd
      → HasSeen clerk id (applied_all ops s).clerk_latest_cmd
  unfolding applied_all
  applied_all-HasSeen [] s h = h
  applied_all-HasSeen (op ∷ ops) s h =
      applied_all-HasSeen ops (applied op s) (applied-HasSeen op s h)

applied-HasSeen_self :
    (op : Op) (s : KvServer) → HasSeen op.clerk_id op.command_id (applied op s).clerk_latest_cmd
unfolding applied is_fresh
applied-HasSeen_self op s = elim (Option-cases (s.clerk_latest_cmd op.clerk_id)) [
  | inl none' ↦ (op.command_id, ground (arith, none', ==_refl op.clerk_id), omega arith)
  | inr (last, e) ↦ elim (Bool-cases (ltb last op.command_id)) [
    | inl new ↦ (op.command_id, ground (arith, e, new, ==_refl op.clerk_id), omega arith)
    | inr old ↦ (last, ground (arith, e, old), omega (tests, old))
  ]
]

seen_applied :
    (op : Op) (s : KvServer)
    → HasSeen op.clerk_id op.command_id s.clerk_latest_cmd
    → (applied op s).kv ≡ s.kv
unfolding applied is_fresh
seen_applied op s (last, e, h) = ground (arith, e)

applied-exec :
    (op : Op) (s : KvServer)
    → is_fresh op s.clerk_latest_cmd ≡ true
    → ((applied op s).kv ≡ exec op s.kv)
      × ((applied op s).clerk_latest_cmd ≡ update s.clerk_latest_cmd op.clerk_id op.command_id)
unfolding applied
applied-exec op s h = ground (arith, h)

-- A command that is new when it reaches the log, and reaches it a second time with any other commands
-- between, has its effect exactly once: at its first place it is executed on the map, before the others
-- that are new, and the second copy leaves the map as it is.
pub retry_applies_once :
    (op : Op) (ops : List Op) (s : KvServer)
    → IsAligned s
    → is_fresh op s.clerk_latest_cmd ≡ true
    → (s₁ s₂ : KvServer) × (check_apply (messages_from (s.last_applied + 1) (op ∷ ops)) s ≡ ok s₁)
      × (check_apply (messages_from (s.last_applied + 1) ((op ∷ ops) ++ op ∷ [])) s ≡ ok s₂)
      × (s₁.kv
          ≡ exec_all
              (fresh_ops (update s.clerk_latest_cmd op.clerk_id op.command_id) ops)
              (exec op s.kv))
      × (s₂.kv ≡ s₁.kv)
unfolding applied_all
retry_applies_once op ops s h fresh =
    let s₁ = applied_all (op ∷ ops) s in
    let (map_after, latest) = applied-exec op s fresh in
    (
      s₁,
      applied op s₁,
      check_apply-applied_all (op ∷ ops) (s.last_applied + 1) s (sym h),
      check_apply-applied_all ((op ∷ ops) ++ op ∷ []) (s.last_applied + 1) s (sym h)
          ∙ ap ok (applied_all-append (op ∷ ops) (op ∷ []) s),
      kv-applied_all ops (applied op s)
          ∙ ap (λ l. exec_all (fresh_ops l ops) (applied op s).kv) latest
          ∙ ap (exec_all (fresh_ops (update s.clerk_latest_cmd op.clerk_id op.command_id) ops))
              map_after,
      seen_applied op s₁ (
          applied_all-HasSeen op.clerk_id op.command_id ops (applied op s)
            (applied-HasSeen_self op s)),
    )
