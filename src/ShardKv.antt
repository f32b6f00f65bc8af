-- ===== src/ShardKv.antt =====
-- src/shardkv/client.go: a clerk that asks the group which its configuration gives for a key, and the
-- shard master for a new configuration whenever that fails. What the calls return is an argument.
pub mod Group
pub mod Disk
pub mod Paxos
pub mod PaxosServer
pub mod Answers
mod Tests
use Prim.Native.Char.{code}
use Prim.Native.String.{String}
use text.Mathlib.Text.{◌==◌ as str_eq}
use code2go.Prelude.{
  ℕ, zero, suc, ◌+◌, ◌/◌, ◌%◌, Bool, true, false, not, ◌&&◌, ◌||◌, Option, none, some, List, ltb,
  if◌then◌else◌, ◌>>=◌,
}
use code2go.ShardMaster.{n_shards, Config, QueryArgs, QueryReply, query}
use code2go.ShardKv.Group.{Verdict, served, wrong_group, go_on, ask_config}

pub record GetReply : Type 0 where
  pub wrong_leader : Bool
  pub err : String
  pub value : String

pub record PutAppendArgs : Type 0 where
  pub key : String
  pub value : String
  pub op : String

pub record PutAppendReply : Type 0 where
  pub wrong_leader : Bool
  pub err : String

-- key[0]: the first byte of the UTF-8 form of a character.
unfoldable pub first_byte : ℕ → ℕ
first_byte c =
    if ltb c 128
    then c
    else if ltb c 2048
    then 192 + c / 64
    else if ltb c 65536
    then 224 + c / 4096
    else 240 + c / 262144

unfoldable pub key2shard : String → ℕ
unfolding first_byte
key2shard String.[] = 0
key2shard (String.◌∷◌ c key) = first_byte (code c) % n_shards

unfoldable pub get_verdict : Option GetReply → Verdict String
get_verdict none = go_on
get_verdict (some reply) =
    if not reply.wrong_leader && (str_eq reply.err "OK" || str_eq reply.err "ErrNoKey")
    then served reply.value
    else if str_eq reply.err "ErrWrongGroup"
    then wrong_group
    else go_on

pub data Stored : Type 0 where
  stored : Stored

unfoldable pub put_verdict : Option PutAppendReply → Verdict Stored
put_verdict none = go_on
put_verdict (some reply) =
    if not reply.wrong_leader && str_eq reply.err "OK"
    then served stored
    else if str_eq reply.err "ErrWrongGroup"
    then wrong_group
    else go_on

-- What the shard master says in each round, through its own clerk.
abbrev pub Masters : Type 0
Masters = (round : ℕ) → (tries server : ℕ) → QueryArgs → Option QueryReply

-- for {...}: a round over the servers of the group, then a new configuration. The configuration that
-- the clerk keeps is returned with the result.
unfoldable pub get_loop :
    (calls : (round : ℕ) → String → Option GetReply)
    → Masters
    → (masters tries : ℕ) → (shard round fuel : ℕ) → Config
    → Option (String × Config)
unfolding ask_config query
get_loop calls ask masters tries shard round zero config = none
get_loop calls ask masters tries shard round (suc fuel) config =
    let rest = λ (c : Config). get_loop calls ask masters tries shard (round + 1) fuel c in
    elim (ask_config (λ srv. get_verdict (calls round srv)) shard config) [
      | some value ↦ some (value, config)
      | none ↦ do config' ← query (ask round) masters tries none; rest config'
    ]

unfoldable pub shard_get :
    (calls : (round : ℕ) → String → Option GetReply)
    → Masters
    → (masters tries fuel : ℕ) → (key : String) → Config
    → Option (String × Config)
unfolding get_loop key2shard
shard_get calls ask masters tries fuel key config =
    get_loop calls ask masters tries (key2shard key) 0 fuel config

unfoldable pub put_loop :
    (calls : (round : ℕ) → String → PutAppendArgs → Option PutAppendReply)
    → Masters
    → (masters tries : ℕ) → PutAppendArgs
    → (shard round fuel : ℕ) → Config
    → Option Config
unfolding ask_config query
put_loop calls ask masters tries args shard round zero config = none
put_loop calls ask masters tries args shard round (suc fuel) config =
    let rest = λ (c : Config). put_loop calls ask masters tries args shard (round + 1) fuel c in
    elim (ask_config (λ srv. put_verdict (calls round srv args)) shard config) [
      | some done ↦ some config
      | none ↦ do config' ← query (ask round) masters tries none; rest config'
    ]

unfoldable pub shard_put_append :
    (calls : (round : ℕ) → String → PutAppendArgs → Option PutAppendReply)
    → Masters
    → (masters tries fuel : ℕ) → (key value op : String) → Config
    → Option Config
unfolding put_loop key2shard
shard_put_append calls ask masters tries fuel key value op config =
    put_loop calls ask masters tries (record { key = key; value = value; op = op }) (key2shard key)
      0 fuel config
