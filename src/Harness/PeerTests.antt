-- ===== src/Harness/PeerTests.antt =====
-- raft/config.go: three peers, and what two of them have committed.
use m2i8t.Prelude.{
  ℕ, zero, suc, ◌≡◌, refl, sym, ap, ◌∙◌, inl, inr, Bool, true, false, Option, none, some, List, [],
  ◌∷◌, arith, ◌==◌, ==_iff, Bool-cases, get_elem?, ok, eq_nat, eq_string, Dict, empty_dict, update,
  ℤ, minus_one,
}
use m2i8t.Labrpc.Network.{make_network}
use m2i8t.Raft.Types.{Raft, ApplyMsg, sentinel, leader, follower}
use m2i8t.Raft.Node.{get_state}
use m2i8t.Raft.Apply.{check_apply}
use m2i8t.Harness.Ends.{all_from}
use m2i8t.Harness.Peers.{RaftConfig, newest, leaders_in, states_of, check_one_leader}
use m2i8t.Harness.Leaders.{IsOnlyLeader, check_one_leader-IsOnlyLeader}
use m2i8t.Harness.Committed.{read_messages}
use m2i8t.Harness.Accepted.{IsTaken, check_apply-read_messages}

-- A peer with two commands, of which the first has been applied.
abbrev peer : ℤ → ℕ → Raft ℕ
peer st t = record {
  peers = 3;
  persister = record { raftstate = []; snapshot = [] };
  me = 1;
  dead = false;
  election_timeout = 500;
  last_heartbeat = 0;
  state = st;
  current_term = t;
  voted_for = minus_one;
  log =
      sentinel ∷ record { command = some 7; term = 1 } ∷ record { command = some 8; term = 1 } ∷ [];
  commit_index = 2;
  last_applied = 1;
  next_index = [];
  match_index = [];
}

abbrev connected : List Bool
connected = true ∷ true ∷ false ∷ []

-- At the first look nobody leads; the third server is cut off.
abbrev tries : List (List (Option (Raft ℕ)))
tries =
    (some (peer follower 1) ∷ some (peer follower 1) ∷ some (peer leader 1) ∷ [])
    ∷ (some (peer follower 2) ∷ some (peer leader 2) ∷ none ∷ [])
    ∷ []

one_found : check_one_leader connected 3 tries ≡ ok 1
unfolding check_one_leader newest leaders_in get_state
one_found = refl

check_one_leader-IsOnlyLeader_example :
    (k : ℕ) × (rafts : List (Option (Raft ℕ))) × (states : List (ℕ × ℕ × Bool)) × (get_elem? tries k
      ≡ some rafts)
    × (states_of connected rafts (all_from 0 3) ≡ ok states)
    × IsOnlyLeader states 1
check_one_leader-IsOnlyLeader_example = check_one_leader-IsOnlyLeader connected 3 tries 1 one_found

abbrev applied_one : Dict ℕ (Option ℕ)
applied_one = update empty_dict 1 (some 7)

-- Two servers have applied the first command.
abbrev two : RaftConfig ℕ ℕ ℕ ℕ
two = record {
  net = make_network;
  n = 2;
  rafts = [];
  connected = true ∷ true ∷ [];
  endnames = [];
  logs = applied_one ∷ applied_one ∷ [];
  max_index = 1;
}

the_copies :
    (j : ℕ) (copy : Dict ℕ (Option ℕ)) → get_elem? two.logs j ≡ some copy → applied_one ≡ copy
the_copies zero copy f = cc f
the_copies (suc zero) copy f = cc f
the_copies (suc (suc j)) copy f = absurd (ground (arith, f))

one_command : (i : ℕ) (v : Option ℕ) → applied_one i ≡ some v → (i ≡ 1) × (some 7 ≡ v)
one_command i v g = elim (Bool-cases (1 == i)) [
  | inl same ↦ (sym ((==_iff 1 i).0 same), ground (arith, same, g))
  | inr other ↦ absurd (ground (arith, other, g))
]

two-IsTaken : IsTaken (peer follower 1).log 1 1 two
two-IsTaken = record {
  mirrors = λ j i copy v f g.
      let (at, same) = one_command i v (ap (λ c. c i) (the_copies j copy f) ∙ g) in
      (record { command = some 7; term = 1 }, ap (λ z. get_elem? (peer follower 1).log z) at, same);
  copy = applied_one;
  own = refl;
  known = inr (some 7, refl);
}

check_apply-read_messages_example :
    (rf' : Raft ℕ) × (sent : List (ApplyMsg ℕ)) × (cfg' : RaftConfig ℕ ℕ ℕ ℕ) × (check_apply
        (peer follower 1)
      ≡ ok (rf', sent))
    × (read_messages 1 sent two ≡ ok cfg')
    × (rf'.last_applied ≡ 2)
    × IsTaken (peer follower 1).log 1 2 cfg'
check_apply-read_messages_example =
    check_apply-read_messages (peer follower 1) 1 two (omega arith) (omega arith) two-IsTaken
