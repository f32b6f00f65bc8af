-- ===== src/ShardMaster/Paxos.antt =====
-- src/paxos-shardmaster/client.go: the clerk of the other shard master. Any answer ends its loops.
-- Group ids are natural numbers.
use Prim.Native.String.{String}
use code2go.Prelude.{ℕ, Option, List}
use code2go.ShardMaster.{Config, Done, QueryArgs, retry}

pub record PaxosJoinArgs : Type 0 where
  pub gid : ℕ
  pub servers : List String

pub record PaxosLeaveArgs : Type 0 where
  pub gid : ℕ

pub record PaxosMoveArgs : Type 0 where
  pub shard : ℕ
  pub gid : ℕ

unfoldable pub paxos_query :
    (calls : (round server : ℕ) → QueryArgs → Option Config)
    → (servers fuel : ℕ) → (num : Option ℕ) → Option Config
unfolding retry
paxos_query calls servers fuel num =
    retry (λ round server. calls round server (record { num = num })) servers 0 fuel

unfoldable pub paxos_join :
    (calls : (round server : ℕ) → PaxosJoinArgs → Option Done)
    → (servers fuel gid : ℕ) → List String
    → Option Done
unfolding retry
paxos_join calls servers fuel gid group =
    retry (λ round server. calls round server (record { gid = gid; servers = group })) servers 0
      fuel

unfoldable pub paxos_leave :
    (calls : (round server : ℕ) → PaxosLeaveArgs → Option Done)
    → (servers fuel gid : ℕ) → Option Done
unfolding retry
paxos_leave calls servers fuel gid =
    retry (λ round server. calls round server (record { gid = gid })) servers 0 fuel

unfoldable pub paxos_move :
    (calls : (round server : ℕ) → PaxosMoveArgs → Option Done)
    → (servers fuel shard gid : ℕ) → Option Done
unfolding retry
paxos_move calls servers fuel shard gid =
    retry (λ round server. calls round server (record { shard = shard; gid = gid })) servers 0 fuel
