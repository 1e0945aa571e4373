-- ===== src/Harness/Kv.antt =====
-- kvraft/config.go: connecting, partitioning and restarting servers, and the clerks' ends.
use m2i8t.Prelude.{
  ℕ, ◌+◌, ◌-◌, ◌/◌, Bool, true, false, Option, none, some, List, [], ◌∷◌, ltb, ◌==◌, if◌then◌else◌,
  length, replicate, Outcome, ok, panic, ◌>>=◌, index, store, eq_nat, eq_string, Dict, get_or_zero,
  of_option,
}
use m2i8t.Labrpc.Network.{Network}
use m2i8t.Harness.Ends.{EndNames, end_name, all_from, set_each}
use m2i8t.Raft.Types.{Raft}
use m2i8t.Raft.Node.{get_state}

-- `clerks` maps a clerk to its ends' names; a missing clerk has nil.
pub record KvConfig (C Args Reply State : Type 0) : Type 0 where
  pub net : Network Args Reply State
  pub n : ℕ
  pub kvservers : List (Option (Raft C))
  pub endnames : EndNames
  pub clerks : Dict ℕ (List ℕ)

-- The end of server `i` to server `x`, and of `x` to `i`.
unfoldable pub outgoing : EndNames → ℕ → ℕ → ℕ → Outcome (Option ℕ)
unfolding end_name
outgoing endnames i j x = do e ← end_name endnames i x; ok (some e)

unfoldable pub incoming : EndNames → ℕ → ℕ → ℕ → Outcome (Option ℕ)
unfolding end_name
incoming endnames i j x = do e ← end_name endnames x i; ok (some e)

-- The name where the server tested has names: for the incoming ends of disconnectUnlocked it is the
-- server of the loop's index, not the one at that index.
unfoldable pub outgoing_if : EndNames → ℕ → ℕ → ℕ → Outcome (Option ℕ)
unfolding outgoing
outgoing_if endnames i j x = do
  row ← index endnames i
  elim row [ none ↦ ok none | some _ ↦ outgoing endnames i j x ]

unfoldable pub incoming_if : EndNames → ℕ → ℕ → ℕ → Outcome (Option ℕ)
unfolding incoming
incoming_if endnames i j x = do
  row ← index endnames j
  elim row [ none ↦ ok none | some _ ↦ incoming endnames i j x ]

-- The loop of make_partition: `j` is the number of servers put into a part so far.
unfoldable pub part_from : ℕ → List ℕ → ℕ → List ℕ → List ℕ → Outcome (List ℕ × List ℕ)
unfolding store
part_from l [] j p1 p2 = ok (p1, p2)
part_from l (i ∷ is) j p1 p2 =
    if i == l
    then part_from l is j p1 p2
    else if ltb j (length p1)
    then (do p1' ← store p1 j i; part_from l is (j + 1) p1' p2)
    else (do p2' ← store p2 (j - length p1) i; part_from l is (j + 1) p1 p2')

-- `p2[len(p2)-1] = l` panics where p2 is empty.
abbrev pub store_last : List ℕ → ℕ → Outcome (List ℕ)
store_last [] l = panic
store_last (x ∷ xs) l = store (x ∷ xs) (length xs) l

module _ {Args Reply State : Type 0} where
  unfoldable pub connect_unlocked :
      EndNames → ℕ → List ℕ → Network Args Reply State → Outcome (Network Args Reply State)
  unfolding outgoing incoming set_each
  connect_unlocked endnames i to net = do
    net₁ ← set_each true (outgoing endnames i) 0 to net
    set_each true (incoming endnames i) 0 to net₁

  unfoldable pub disconnect_unlocked :
      EndNames → ℕ → List ℕ → Network Args Reply State → Outcome (Network Args Reply State)
  unfolding outgoing_if incoming_if set_each
  disconnect_unlocked endnames i from net = do
    net₁ ← set_each false (outgoing_if endnames i) 0 from net
    set_each false (incoming_if endnames i) 0 from net₁

  unfoldable pub connect_each :
      EndNames → List ℕ → List ℕ → Network Args Reply State → Outcome (Network Args Reply State)
  unfolding connect_unlocked
  connect_each endnames all [] net = ok net
  connect_each endnames all (i ∷ is) net = do
    net₁ ← connect_unlocked endnames i all net
    connect_each endnames all is net₁

  -- A loop of partition over the servers `is` of the part `own`.
  unfoldable pub part_each :
      EndNames
      → List ℕ
      → List ℕ
      → List ℕ
      → Network Args Reply State
      → Outcome (Network Args Reply State)
  unfolding connect_unlocked disconnect_unlocked
  part_each endnames own other [] net = ok net
  part_each endnames own other (i ∷ is) net = do
    net₁ ← disconnect_unlocked endnames i other net
    net₂ ← connect_unlocked endnames i own net₁
    part_each endnames own other is net₂

  -- The loops of ConnectClientUnlocked and DisconnectClientUnlocked.
  unfoldable pub set_client :
      Bool → List ℕ → List ℕ → Network Args Reply State → Outcome (Network Args Reply State)
  unfolding set_each
  set_client b names to net = set_each b (λ j x. do s ← index names x; ok (some s)) 0 to net

module _ {C : Type 0} where
  -- The loop of Leader, over the indices `is`.
  unfoldable pub leader_among : List (Option (Raft C)) → List ℕ → Outcome (Bool × ℕ)
  unfolding get_state
  leader_among kvservers [] = ok (false, 0)
  leader_among kvservers (i ∷ is) = do
    found ← index kvservers i
    rf ← of_option found
    let rest = leader_among kvservers is
    (if (get_state rf).1 then ok (true, i) else rest)

module _ {C Args Reply State : Type 0} where
  unfoldable pub all_servers : KvConfig C Args Reply State → List ℕ
  unfolding all_from
  all_servers cfg = all_from 0 cfg.n

  unfoldable pub connect_all : KvConfig C Args Reply State → Outcome (KvConfig C Args Reply State)
  unfolding connect_each all_servers
  connect_all cfg = do
    net ← connect_each cfg.endnames (all_servers cfg) (all_servers cfg) cfg.net
    ok record cfg { net = net }

  unfoldable pub partition :
      List ℕ → List ℕ → KvConfig C Args Reply State → Outcome (KvConfig C Args Reply State)
  unfolding part_each
  partition p1 p2 cfg = do
    net₁ ← part_each cfg.endnames p1 p2 p1 cfg.net
    net₂ ← part_each cfg.endnames p2 p1 p2 net₁
    ok record cfg { net = net₂ }

  unfoldable pub connect_client :
      ℕ → List ℕ → KvConfig C Args Reply State → Outcome (KvConfig C Args Reply State)
  unfolding set_client
  connect_client ck to cfg = do
    net ← set_client true (get_or_zero [] cfg.clerks ck) to cfg.net
    ok record cfg { net = net }

  unfoldable pub disconnect_client :
      ℕ → List ℕ → KvConfig C Args Reply State → Outcome (KvConfig C Args Reply State)
  unfolding set_client
  disconnect_client ck from cfg = do
    net ← set_client false (get_or_zero [] cfg.clerks ck) from cfg.net
    ok record cfg { net = net }

  unfoldable pub find_leader : KvConfig C Args Reply State → Outcome (Bool × ℕ)
  unfolding leader_among all_servers
  find_leader cfg = leader_among cfg.kvservers (all_servers cfg)

  unfoldable pub make_partition : KvConfig C Args Reply State → Outcome (List ℕ × List ℕ)
  unfolding find_leader part_from
  make_partition cfg = do
    (found, l) ← find_leader cfg
    (p1, p2) ←
        part_from l (all_servers cfg) 0 (replicate (cfg.n / 2 + 1) 0) (replicate (cfg.n / 2) 0)
    p2' ← store_last p2 l
    ok (p1, p2')
