-- ===== src/Shardkv/Client.antt =====
-- shardkv/client.go, with the configurations of shardmaster/common.go, and the loops of
-- shardmaster/client.go. `R` is the type of replies, and what a call returns is an argument.
use m2i8t.Prelude.{
  ℕ, ◌+◌, ◌%◌, String, Bool, false, not, Option, none, some, List, [], ◌∷◌, if◌then◌else◌, Outcome,
  ok, panic, ◌>>=◌, index, eq_nat, eq_string, Dict, bytes,
}

abbrev pub nshards : ℕ
nshards = 10

-- `shards` is an array of NShards group ids.
pub record Config : Type 0 where
  pub num : ℕ
  pub shards : List ℕ
  pub groups : Dict ℕ (List String)

unfoldable pub first_byte : List ℕ → ℕ
first_byte [] = 0
first_byte (b ∷ bs) = b

unfoldable pub key2shard : String → ℕ
unfolding first_byte
key2shard key = first_byte (bytes key) % nshards

-- How the loop over the servers of a round ends: with a reply to return, or not.
pub data Tried (R : Type 0) : Type 0 where
  returned : R → Tried R
  no_reply : Tried R

module _ {R : Type 0} where
  -- The loop over the servers, from index `si` on: `calls si` is what the call of that server returns,
  -- none where it fails. `wrong_group` ends the loop.
  unfoldable pub try_servers :
      (accepts wrong_group : R → Bool) → ℕ → List String → (ℕ → Option R) → Tried R
  try_servers accepts wrong_group si [] calls = no_reply
  try_servers accepts wrong_group si (server ∷ servers) calls =
      let rest = try_servers accepts wrong_group (si + 1) servers calls in
      elim (calls si) [
        | none ↦ rest
        | some reply ↦
            if accepts reply then returned reply else if wrong_group reply then no_reply else rest
      ]

  -- A round of Get or PutAppend, on the clerk's configuration.
  unfoldable pub client_round :
      (accepts wrong_group : R → Bool) → String → Config → (ℕ → Option R) → Outcome (Tried R)
  unfolding try_servers key2shard
  client_round accepts wrong_group key config calls = do
    gid ← index config.shards (key2shard key)
    ok (elim (config.groups gid) [
      | none ↦ no_reply
      | some servers ↦ try_servers accepts wrong_group 0 servers calls
    ])

  -- The rounds, each with the configuration that the clerk has in it; none is that the loop goes on.
  unfoldable pub client_loop :
      (accepts wrong_group : R → Bool)
      → String
      → List (Config × (ℕ → Option R))
      → Option (Outcome R)
  unfolding client_round
  client_loop accepts wrong_group key [] = none
  client_loop accepts wrong_group key (r ∷ rounds) =
      let rest = client_loop accepts wrong_group key rounds in
      elim (client_round accepts wrong_group key r.0 r.1) [
        | panic ↦ some panic
        | ok (returned reply) ↦ some (ok reply)
        | ok no_reply ↦ rest
      ]

  -- A round of the shardmaster's clerk: every server is tried, and an answer of a leader is accepted.
  unfoldable pub master_round : (wrong_leader : R → Bool) → List String → (ℕ → Option R) → Tried R
  unfolding try_servers
  master_round wrong_leader servers calls =
      try_servers (λ r. not (wrong_leader r)) (λ r. false) 0 servers calls
