-- ===== src/ShardKv/Disk.antt =====
-- src/diskv/client.go and src/paxos-shardkv/client.go: the clerks on the Paxos shard master. Their
-- replies name no leader; the two files differ only in the name of the call.
use Prim.Native.String.{String}
use text.Mathlib.Text.{◌==◌ as str_eq}
use code2go.Prelude.{ℕ, zero, suc, ◌+◌, ◌||◌, Option, none, some, if◌then◌else◌, ◌>>=◌}
use code2go.ShardMaster.{Config, QueryArgs}
use code2go.ShardMaster.Paxos.{paxos_query}
use code2go.ShardKv.{PutAppendArgs, Stored, stored, key2shard}
use code2go.ShardKv.Group.{Verdict, served, wrong_group, go_on, ask_config}

pub record DiskGetReply : Type 0 where
  pub err : String
  pub value : String

-- The only field is Err.
pub record DiskPutReply : Type 0 where
  pub err : String

unfoldable pub disk_get_verdict : Option DiskGetReply → Verdict String
disk_get_verdict none = go_on
disk_get_verdict (some reply) =
    if str_eq reply.err "OK" || str_eq reply.err "ErrNoKey"
    then served reply.value
    else if str_eq reply.err "ErrWrongGroup"
    then wrong_group
    else go_on

unfoldable pub disk_put_verdict : Option DiskPutReply → Verdict Stored
disk_put_verdict none = go_on
disk_put_verdict (some reply) =
    if str_eq reply.err "OK"
    then served stored
    else if str_eq reply.err "ErrWrongGroup"
    then wrong_group
    else go_on

abbrev pub DiskMasters : Type 0
DiskMasters = (round : ℕ) → (tries server : ℕ) → QueryArgs → Option Config

unfoldable pub disk_get :
    (calls : (round : ℕ) → String → Option DiskGetReply)
    → DiskMasters
    → (masters tries : ℕ) → (key : String) → (round fuel : ℕ) → Config
    → Option (String × Config)
unfolding ask_config paxos_query
disk_get calls ask masters tries key round zero config = none
disk_get calls ask masters tries key round (suc fuel) config =
    let rest = λ (c : Config). disk_get calls ask masters tries key (round + 1) fuel c in
    elim (ask_config (λ srv. disk_get_verdict (calls round srv)) (key2shard key) config) [
      | some value ↦ some (value, config)
      | none ↦ do config' ← paxos_query (ask round) masters tries none; rest config'
    ]

unfoldable pub disk_put_append :
    (calls : (round : ℕ) → String → PutAppendArgs → Option DiskPutReply)
    → DiskMasters
    → (masters tries : ℕ) → PutAppendArgs
    → (round fuel : ℕ) → Config
    → Option Config
unfolding ask_config paxos_query
disk_put_append calls ask masters tries args round zero config = none
disk_put_append calls ask masters tries args round (suc fuel) config =
    let rest = λ (c : Config). disk_put_append calls ask masters tries args (round + 1) fuel c in
    elim (ask_config (λ srv. disk_put_verdict (calls round srv args)) (key2shard args.key) config) [
      | some done ↦ some config
      | none ↦ do config' ← paxos_query (ask round) masters tries none; rest config'
    ]
