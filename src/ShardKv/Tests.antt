-- ===== src/ShardKv/Tests.antt =====
-- Tests of src/shardkv, and the theorems at concrete inputs.
use Prim.Native.String.{String}
use code2go.Prelude.{
  ℕ, ◌+◌, ◌<◌, ◌≡◌, refl, false, not, ◌&&◌, Option, none, some, [], ◌∷◌, ◌==◌, if◌then◌else◌, arith,
}
use text.Mathlib.Text.{◌==◌ as str_eq}
use mathlib.Core.Path.{subst}
use code2go.ShardMaster.{n_shards, Config, query}
use code2go.ShardKv.{GetReply, get_verdict, key2shard, Masters, shard_get}
use code2go.ShardKv.Group.{ask_config}
use code2go.ShardKv.Answers.{asked, Answered, shard_get_answers, shard_get_returns}

-- The clerk starts without groups; then group 100 has two servers.
abbrev config : ℕ → Config
config round = record {
  num = round;
  shards = λ s. 100;
  groups = λ g. if (g == 100) && not (round == 0) then some ("a" ∷ "b" ∷ []) else none;
}

abbrev masters : Masters
masters round tries server args =
    some (record { wrong_leader = false; config = config (round + 1) })

abbrev calls : ℕ → String → Option GetReply
calls round srv =
    if str_eq srv "b"
    then some (record { wrong_leader = false; err = "ErrNoKey"; value = "" })
    else none

shard_of_k : key2shard "k" ≡ 7
unfolding key2shard
shard_of_k = refl

got : shard_get calls masters 3 4 5 "k" (config 0) ≡ some ("", config 1)
unfolding shard_get get_verdict
got = refl

shard_get_answers_example :
    (key2shard "k" < n_shards) × Answered calls masters 3 4 (key2shard "k") ("", config 1)
shard_get_answers_example = shard_get_answers calls masters 3 4 5 "k" (config 0) ("", config 1) got

shard_get_returns_example : shard_get calls masters 3 4 5 "k" (config 0) ≡ some ("", config 1)
unfolding ask_config query key2shard get_verdict
shard_get_returns_example =
    shard_get_returns calls masters 3 4 config 1 5 "k" "" (omega arith) first_fails refl
  where
    FailsAt : ℕ → Type 0
    FailsAt j =
        (asked calls masters 3 4 (key2shard "k") j (config j) ≡ none)
        × (query (masters j) 3 4 none ≡ some (config (j + 1)))

    first_fails : (j : ℕ) → j < 1 → FailsAt j
    first_fails j lt = let zero_th : 0 ≡ j = omega arith in subst FailsAt zero_th (refl, refl)
