-- ===== src/ShardMaster/Tests.antt =====
-- Tests of src/shardmaster, and the theorems at concrete inputs.
use code2go.Prelude.{
  ℕ, ◌≡◌, refl, ◌&&◌, not, Option, none, some, [], ◌∷◌, ◌==◌, if◌then◌else◌, arith,
}
use code2go.ShardMaster.{Config, QueryArgs, QueryReply, retry, query}
use code2go.ShardMaster.Retry.{retry_first}

abbrev config : Config
config = record {
  num = 3;
  shards = λ s. 100;
  groups = λ g. if g == 100 then some ("a" ∷ []) else none;
}

-- Server 2 leads from the second round on.
abbrev calls : (round server : ℕ) → QueryArgs → Option QueryReply
calls round server args =
    if server == 0
    then none
    else some (record { wrong_leader = not ((server == 2) && (round == 1)); config = config })

queried : query calls 3 5 none ≡ some config
unfolding query
queried = refl

abbrev numbers : (round server : ℕ) → Option ℕ
numbers round server = if (server == 2) && (round == 1) then some 7 else none

retry_first_example : retry numbers 3 0 5 ≡ some 7
retry_first_example =
    retry_first numbers 3 0 5 1 2 7 (omega arith) (omega arith) (omega arith)
      (λ r k rlt klt. ground arith) (λ k klt. ground arith) refl
