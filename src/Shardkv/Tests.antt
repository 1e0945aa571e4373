-- ===== src/Shardkv/Tests.antt =====
-- shardkv/client.go: a clerk that has no configuration at first.
use text.Mathlib.Text.{◌==◌ as str_eq}
use m2i8t.Prelude.{
  ℕ, zero, suc, String, ◌≡◌, refl, ◌⊎◌, Bool, Option, none, some, List, [], ◌∷◌, replicate, ok,
  eq_nat, eq_string, empty_dict, update, bytes,
}
use m2i8t.Shardkv.Client.{Config, client_loop, client_round, key2shard, try_servers, first_byte}
use m2i8t.Shardkv.Answers.{Answered, HasShards, client_loop-Answered}

-- Replies are their Err.
abbrev is_ok : String → Bool
is_ok r = str_eq r "OK"

abbrev is_wrong_group : String → Bool
is_wrong_group r = str_eq r "ErrWrongGroup"

abbrev zero_config : Config
zero_config = record { num = 0; shards = replicate 10 0; groups = empty_dict }

abbrev config : Config
config = record {
  num = 1;
  shards = replicate 10 3;
  groups = update empty_dict 3 ("s1" ∷ "s2" ∷ []);
}

-- In the second round the first server does not lead.
abbrev calls : ℕ → Option String
calls zero = some "ErrWrongLeader"
calls (suc n) = some "OK"

abbrev rounds : List (Config × (ℕ → Option String))
rounds = (zero_config, calls) ∷ (config, calls) ∷ []

returns : client_loop is_ok is_wrong_group "a" rounds ≡ some (ok "OK")
unfolding client_loop client_round key2shard try_servers first_byte bytes
returns = refl

client_loop-Answered_example :
    (client_loop is_ok is_wrong_group "a" rounds ≡ none)
    ⊎ ((reply : String) × (client_loop is_ok is_wrong_group "a" rounds ≡ some (ok reply))
        × Answered is_ok is_wrong_group "a" rounds reply)
client_loop-Answered_example =
    client_loop-Answered is_ok is_wrong_group "a" rounds (unfold HasShards in (refl, (refl, tt)))
