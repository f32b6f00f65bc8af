-- ===== src/ShardKv/Group.antt =====
-- src/shardkv/client.go: one round of the clerk over the servers of a group.
use Prim.Native.String.{String}
use code2go.Prelude.{ℕ, Option, none, some, List, [], ◌∷◌, ◌>>=◌}
use code2go.ShardMaster.{Config}

-- What the clerk does on a reply: return, leave the group, or try its next server.
pub data Verdict (A : Type 0) : Type 0 where
  served : A → Verdict A
  wrong_group : Verdict A
  go_on : Verdict A

unfoldable pub decide : {A : Type 0} → Verdict A → Option A → Option A
decide (served a) rest = some a
decide wrong_group rest = none
decide go_on rest = rest

-- for si := 0; si < len(servers); si++
unfoldable pub ask_group : {A : Type 0} → (String → Verdict A) → List String → Option A
unfolding decide
ask_group ask [] = none
ask_group ask (srv ∷ servers) = decide (ask srv) (ask_group ask servers)

-- if servers, ok := ck.config.Groups[gid]; ok
unfoldable pub ask_config : {A : Type 0} → (String → Verdict A) → (shard : ℕ) → Config → Option A
unfolding ask_group
ask_config ask shard config = do
  servers ← config.groups (config.shards shard)
  ask_group ask servers
