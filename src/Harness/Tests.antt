-- ===== src/Harness/Tests.antt =====
-- kvraft/config.go: three servers, of which the first two are parted from the third.
use m2i8t.Prelude.{
  ℕ, zero, suc, ◌+◌, ◌*◌, ◌<◌, ◌≡◌, refl, ap, true, false, some, List, [], ◌∷◌, arith, ok, index,
  store, eq_nat, eq_string, empty_dict, ℤ, minus_one,
}
use m2i8t.Labrpc.Network.{Network, make_network}
use m2i8t.Raft.Types.{Raft, sentinel, leader, follower}
use m2i8t.Raft.Node.{get_state}
use m2i8t.Harness.Kv.{KvConfig, partition, all_servers, find_leader, make_partition}
use m2i8t.Harness.Wiring.{IsNamed, IsPart}
use m2i8t.Harness.Peers.{RaftConfig, disconnect_peer}
use m2i8t.Harness.Isolation.{Isolated, disconnect_peer-Isolated}
use m2i8t.Harness.Partition.{Apart, Split, partition-Split}
use m2i8t.Harness.Halves.{IsHalves}
use m2i8t.Harness.Minority.{make_partition-Split}

abbrev three : KvConfig ℕ ℕ ℕ ℕ
three = record {
  net = make_network;
  n = 3;
  kvservers = [];
  endnames = some (0 ∷ 1 ∷ 2 ∷ []) ∷ some (3 ∷ 4 ∷ 5 ∷ []) ∷ some (6 ∷ 7 ∷ 8 ∷ []) ∷ [];
  clerks = empty_dict;
}

three_columns : (k b : ℕ) → b < 3 → index (k ∷ (k + 1) ∷ (k + 2) ∷ []) b ≡ ok (k + b)
three_columns k zero l = ap ok (omega arith)
three_columns k (suc zero) l = ap ok (omega arith)
three_columns k (suc (suc zero)) l = ap ok (omega arith)
three_columns k (suc (suc (suc b))) l = absurd (omega (arith, l))

three_rows :
    (a : ℕ)
    → a < 3
    → (names : List ℕ) × (index three.endnames a ≡ ok (some names))
      × ((b : ℕ) → b < 3 → index names b ≡ ok (3 * a + b))
three_rows zero l = (0 ∷ 1 ∷ 2 ∷ [], refl, three_columns 0)
three_rows (suc zero) l = (3 ∷ 4 ∷ 5 ∷ [], refl, three_columns 3)
three_rows (suc (suc zero)) l = (6 ∷ 7 ∷ 8 ∷ [], refl, three_columns 6)
three_rows (suc (suc (suc a))) l = absurd (omega (arith, l))

three-IsNamed : IsNamed three.endnames 3
three-IsNamed = record {
  name = λ a b. 3 * a + b;
  row = three_rows;
  apart = λ a b a' b' la lb la' lb' e.
      (omega (arith, la, lb, la', lb', e), omega (arith, la, lb, la', lb', e));
}

two-IsPart : IsPart 3 (0 ∷ 1 ∷ [])
two-IsPart = record { below = λ x i. ground (arith, i); short = omega arith }

one-IsPart : IsPart 3 (2 ∷ [])
one-IsPart = record { below = λ x i. ground (arith, i); short = omega arith }

two_one : Apart (0 ∷ 1 ∷ []) (2 ∷ [])
two_one x i j = ground (arith, i, j)

partition-Split_example :
    (net : Network ℕ ℕ ℕ) × (partition (0 ∷ 1 ∷ []) (2 ∷ []) three ≡ ok record three { net = net })
    × Split three.endnames 3 three-IsNamed (0 ∷ 1 ∷ []) (2 ∷ []) three.net net
partition-Split_example =
    partition-Split (0 ∷ 1 ∷ []) (2 ∷ []) three three-IsNamed two-IsPart one-IsPart two_one

-- The same ends, in a configuration of peers.
abbrev three_peers : RaftConfig ℕ ℕ ℕ ℕ
three_peers = record {
  net = make_network;
  n = 3;
  rafts = [];
  connected = true ∷ true ∷ true ∷ [];
  endnames = three.endnames;
  logs = [];
  max_index = 0;
}

disconnect_peer-Isolated_example :
    (cfg' : RaftConfig ℕ ℕ ℕ ℕ) × (disconnect_peer 1 three_peers ≡ ok cfg')
    × Isolated 1 three_peers cfg' three-IsNamed
disconnect_peer-Isolated_example =
    disconnect_peer-Isolated 1 three_peers three-IsNamed (omega arith) refl

abbrev server : ℤ → Raft ℕ
server st = record {
  peers = 3;
  persister = record { raftstate = []; snapshot = [] };
  me = 0;
  dead = false;
  election_timeout = 500;
  last_heartbeat = 0;
  state = st;
  current_term = 1;
  voted_for = minus_one;
  log = sentinel ∷ [];
  commit_index = 0;
  last_applied = 0;
  next_index = [];
  match_index = [];
}

-- The second of the three leads.
abbrev three_led : KvConfig ℕ ℕ ℕ ℕ
three_led = record three {
  kvservers = some (server follower) ∷ some (server leader) ∷ some (server follower) ∷ [];
}

three_found : find_leader three_led ≡ ok (true, 1)
unfolding find_leader get_state
three_found = refl

three_parts : make_partition three_led ≡ ok (0 ∷ 2 ∷ [], 1 ∷ [])
unfolding make_partition find_leader get_state store
three_parts = refl

make_partition-Split_example :
    (p1 : List ℕ) × (p2 : List ℕ) × (net : Network ℕ ℕ ℕ) × (make_partition three_led ≡ ok (p1, p2))
    × IsHalves 1 1 (all_servers three_led) p1 p2
    × (partition p1 p2 three_led ≡ ok record three_led { net = net })
    × Split three.endnames 3 three-IsNamed p1 p2 three.net net
make_partition-Split_example = make_partition-Split three_led three-IsNamed 0 refl three_found

-- For an even number of servers, a place that no server is written to stays 0.
abbrev four_led : KvConfig ℕ ℕ ℕ ℕ
four_led = record three {
  n = 4;
  kvservers =
      some (server follower)
      ∷ some (server follower)
      ∷ some (server follower)
      ∷ some (server leader)
      ∷ [];
}

four_parts : make_partition four_led ≡ ok (0 ∷ 1 ∷ 2 ∷ [], 0 ∷ 3 ∷ [])
unfolding make_partition find_leader get_state store
four_parts = refl
