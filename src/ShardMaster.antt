-- ===== src/ShardMaster.antt =====
-- src/shardmaster: configurations, and the clerk of client.go. What a call of a server returns is an
-- argument, a function of the round and the server, `none` where the call fails. The loops go on
-- until a server answers: they take the number of rounds as fuel.
pub mod Retry
pub mod Paxos
pub mod PaxosServer
mod Tests
use Prim.Native.String.{String}
use code2go.Prelude.{
  ℕ, zero, suc, ◌+◌, Bool, true, false, Option, none, some, List, if◌then◌else◌, ◌>>=◌,
}

abbrev pub n_shards : ℕ
n_shards = 10

-- `shards` stands for an array of `n_shards` group ids.
pub record Config : Type 0 where
  pub num : ℕ
  pub shards : ℕ → ℕ
  pub groups : ℕ → Option (List String)

pub record JoinArgs : Type 0 where
  pub servers : List (ℕ × List String)

pub record LeaveArgs : Type 0 where
  pub gids : List ℕ

pub record MoveArgs : Type 0 where
  pub shard : ℕ
  pub gid : ℕ

-- The number -1, for the latest configuration, is `none`.
pub record QueryArgs : Type 0 where
  pub num : Option ℕ

pub record QueryReply : Type 0 where
  pub wrong_leader : Bool
  pub config : Config

-- The reply to Join, Leave and Move.
pub record DoneReply : Type 0 where
  pub wrong_leader : Bool

-- Join, Leave and Move return nothing.
pub data Done : Type 0 where
  done : Done

-- The result of a call, where it ends the loop.
unfoldable pub query_result : Option QueryReply → Option Config
query_result none = none
query_result (some reply) = if reply.wrong_leader then none else some reply.config

unfoldable pub done_result : Option DoneReply → Option Done
done_result none = none
done_result (some reply) = if reply.wrong_leader then none else some done

-- `return` at a result, else what comes after.
unfoldable pub or_else : {A : Type 0} → Option A → Option A → Option A
or_else none rest = rest
or_else (some a) rest = some a

-- The first result from server `i` on.
unfoldable pub first_result : {A : Type 0} → (calls : ℕ → Option A) → (i left : ℕ) → Option A
unfolding or_else
first_result calls i zero = none
first_result calls i (suc left) = or_else (calls i) (first_result calls (i + 1) left)

-- Rounds over all servers, up to the first result.
unfoldable pub retry :
    {A : Type 0} → (calls : (round server : ℕ) → Option A) → (servers round fuel : ℕ) → Option A
unfolding first_result
retry calls servers round zero = none
retry calls servers round (suc fuel) =
    or_else (first_result (calls round) 0 servers) (retry calls servers (round + 1) fuel)

unfoldable pub query :
    (calls : (round server : ℕ) → QueryArgs → Option QueryReply)
    → (servers fuel : ℕ) → (num : Option ℕ) → Option Config
unfolding retry query_result
query calls servers fuel num =
    retry (λ round server. query_result (calls round server (record { num = num }))) servers 0 fuel

unfoldable pub join :
    (calls : (round server : ℕ) → JoinArgs → Option DoneReply)
    → (servers fuel : ℕ) → List (ℕ × List String)
    → Option Done
unfolding retry done_result
join calls servers fuel new =
    retry (λ round server. done_result (calls round server (record { servers = new }))) servers 0
      fuel

unfoldable pub leave :
    (calls : (round server : ℕ) → LeaveArgs → Option DoneReply)
    → (servers fuel : ℕ) → List ℕ
    → Option Done
unfolding retry done_result
leave calls servers fuel gids =
    retry (λ round server. done_result (calls round server (record { gids = gids }))) servers 0 fuel

unfoldable pub move :
    (calls : (round server : ℕ) → MoveArgs → Option DoneReply)
    → (servers fuel shard gid : ℕ) → Option Done
unfolding retry done_result
move calls servers fuel shard gid =
    retry (λ round server. done_result (calls round server (record { shard = shard; gid = gid })))
      servers 0 fuel
