-- ===== src/Shardkv/Answers.antt =====
-- shardkv/client.go: whose reply a clerk's call returns.
use native.Mathlib.Nat.{mod-lt}
use m2i8t.Prelude.{
  ℕ, suc, ◌+◌, ◌%◌, ◌<◌, String, ◌≡◌, refl, sym, ap, ◌∙◌, subst, ◌≢◌, ◌⊎◌, inl, inr, Bool, true,
  Option, none, some, List, [], ◌∷◌, arith, Bool-cases, Option-cases, length, get_elem?, ok, panic,
  index, index_in_range, Outcome-cases, eq_nat, eq_string, bytes,
}
use m2i8t.Shardkv.Client.{
  nshards, Config, first_byte, key2shard, returned, no_reply, try_servers, client_round,
  client_loop,
}

module _ {R : Type 0} (accepts wrong_group : R → Bool) where
  -- One of the `n` calls from index `si` on returned the reply, which is accepted.
  abbrev FromServer : ℕ → ℕ → (ℕ → Option R) → R → Type 0
  FromServer si n calls reply =
      (k : ℕ) × (k < n) × (calls (si + k) ≡ some reply) × (accepts reply ≡ true)

  FromServer-suc :
      (si n : ℕ) (calls : ℕ → Option R) (reply : R)
      → FromServer (si + 1) n calls reply
      → FromServer si (suc n) calls reply
  FromServer-suc si n calls reply (k, lt, got, accepted) =
      let shift : si + suc k ≡ si + 1 + k = omega arith in
      (suc k, omega (arith, lt), ap calls shift ∙ got, accepted)

  try_servers-FromServer :
      (si : ℕ) (servers : List String) (calls : ℕ → Option R) (reply : R)
      → try_servers accepts wrong_group si servers calls ≡ returned reply
      → FromServer si (length servers) calls reply
  unfolding try_servers
  try_servers-FromServer si [] calls reply e = absurd (cc e)
  try_servers-FromServer si (server ∷ servers) calls reply e =
      let later = λ (h : try_servers accepts wrong_group (si + 1) servers calls ≡ returned reply).
        FromServer-suc si (length servers) calls reply
          (try_servers-FromServer (si + 1) servers calls reply h) in
      elim (Option-cases (calls si)) [
        | inl a ↦ later (ground (arith, a, e))
        | inr (r, a) ↦ elim (Bool-cases (accepts r)) [
          | inl yes_it ↦
              let same : r ≡ reply = ground (arith, a, yes_it, e) in
              let first : si + 0 ≡ si = omega arith in
              (
                0,
                omega arith,
                ap calls first ∙ a ∙ ap some same,
                subst (λ x. accepts x ≡ true) same yes_it,
              )
          | inr no_it ↦ elim (Bool-cases (wrong_group r)) [
            | inl wrong ↦ absurd (ground (arith, a, no_it, wrong, e))
            | inr other ↦ later (ground (arith, a, no_it, other, e))
          ]
        ]
      ]

  -- What the loop's answer comes from: a round, its configuration's group for the key's shard, and a
  -- server of the group whose call returned the reply.
  pub record Answered (key : String) (rounds : List (Config × (ℕ → Option R))) (reply : R)
      : Type 0 where
    pub config : Config
    pub calls : ℕ → Option R
    pub servers : List String
    pub round : ℕ
    pub gid : ℕ
    pub server : ℕ
    pub took : get_elem? rounds round ≡ some (config, calls)
    pub shard : get_elem? config.shards (key2shard key) ≡ some gid
    pub group : config.groups gid ≡ some servers
    pub asked : server < length servers
    pub replied : calls server ≡ some reply
    pub accepted : accepts reply ≡ true

  -- Every configuration assigns all the shards.
  unfoldable pub HasShards : List (Config × (ℕ → Option R)) → Type 0
  HasShards [] = Unit
  HasShards (r ∷ rounds) = (length r.0.shards ≡ nshards) × HasShards rounds

  key2shard_in_range :
      (key : String) (config : Config)
      → length config.shards ≡ nshards
      → key2shard key < length config.shards
  unfolding key2shard
  key2shard_in_range key config h =
      let lt : first_byte (bytes key) % nshards < nshards =
        mod-lt (first_byte (bytes key)) (omega arith) in
      omega (arith, lt, h)

  Answered-later :
      (key : String) (r : Config × (ℕ → Option R)) (rounds : List (Config × (ℕ → Option R)))
      (reply : R)
      → Answered key rounds reply
      → Answered key (r ∷ rounds) reply
  Answered-later key r rounds reply a = record {
    config = a.config;
    calls = a.calls;
    servers = a.servers;
    round = suc a.round;
    gid = a.gid;
    server = a.server;
    took = a.took;
    shard = a.shard;
    group = a.group;
    asked = a.asked;
    replied = a.replied;
    accepted = a.accepted;
  }

  client_round_no_panic :
      (key : String) (config : Config) (calls : ℕ → Option R) (gid : ℕ)
      → index config.shards (key2shard key) ≡ ok gid
      → client_round accepts wrong_group key config calls ≢ panic
  unfolding client_round
  client_round_no_panic key config calls gid a e = ground (arith, a, e)

  client_round-Answered :
      (key : String) (config : Config) (calls : ℕ → Option R)
      (rounds : List (Config × (ℕ → Option R))) (reply : R)
      → client_round accepts wrong_group key config calls ≡ ok (returned reply)
      → (gid : ℕ) → index config.shards (key2shard key) ≡ ok gid
      → get_elem? config.shards (key2shard key) ≡ some gid
      → Answered key ((config, calls) ∷ rounds) reply
  unfolding client_round
  client_round-Answered key config calls rounds reply e gid a b =
      elim (Option-cases (config.groups gid)) [
        | inl g ↦ absurd (ground (arith, a, g, e))
        | inr (servers, g) ↦
            let t : try_servers accepts wrong_group 0 servers calls ≡ returned reply =
              ground (arith, a, g, e) in
            let (k, lt, got, good) = try_servers-FromServer 0 servers calls reply t in
            let at : 0 + k ≡ k = omega arith in
            record {
              config = config;
              calls = calls;
              servers = servers;
              round = 0;
              gid = gid;
              server = k;
              took = refl;
              shard = b;
              group = g;
              asked = lt;
              replied = sym (ap calls at) ∙ got;
              accepted = good;
            }
      ]

  -- Every configuration of the rounds assigns all shards. The loop of a sharded clerk's call does not
  -- panic, and where it returns, the reply is an accepted one of a server of the group that one of
  -- those configurations assigns the key's shard to.
  pub client_loop-Answered :
      (key : String) (rounds : List (Config × (ℕ → Option R)))
      → HasShards rounds
      → (client_loop accepts wrong_group key rounds ≡ none)
        ⊎ ((reply : R) × (client_loop accepts wrong_group key rounds ≡ some (ok reply))
            × Answered key rounds reply)
  unfolding client_loop HasShards
  client_loop-Answered key [] h = inl refl
  client_loop-Answered key ((config, calls) ∷ rounds) (h, hs) =
      let (gid, a, b) =
        index_in_range config.shards (key2shard key) (key2shard_in_range key config h) in
      let later = client_loop-Answered key rounds hs in
      elim (Outcome-cases (client_round accepts wrong_group key config calls)) [
        | inl p ↦ absurd (client_round_no_panic key config calls gid a p)
        | inr (returned reply, e) ↦ inr (
          reply,
          rw (e, client_loop),
          client_round-Answered key config calls rounds reply e gid a b,
        )
        | inr (no_reply, e) ↦ elim later [
          | inl waits ↦ inl (rw (e, client_loop) waits)
          | inr (reply, q, d) ↦
              inr (reply, rw (e, client_loop) q, Answered-later key (config, calls) rounds reply d)
        ]
      ]
