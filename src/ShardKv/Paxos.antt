-- ===== src/ShardKv/Paxos.antt =====
-- src/paxos-shardkv/client.go: the clerk of the Paxos service. Its key2shard, its replies and its two
-- loops are those of src/diskv/client.go, with another name in the call.
use Prim.Native.String.{String}
use code2go.Prelude.{ℕ, Option}
use code2go.ShardMaster.{Config}
use code2go.ShardKv.{PutAppendArgs}
use code2go.ShardKv.Disk.{DiskGetReply, DiskPutReply, DiskMasters, disk_get, disk_put_append}

unfoldable pub paxos_get :
    (calls : (round : ℕ) → String → Option DiskGetReply)
    → DiskMasters
    → (masters tries fuel : ℕ) → (key : String) → Config
    → Option (String × Config)
unfolding disk_get
paxos_get calls ask masters tries fuel key config =
    disk_get calls ask masters tries key 0 fuel config

unfoldable pub paxos_put_append :
    (calls : (round : ℕ) → String → PutAppendArgs → Option DiskPutReply)
    → DiskMasters
    → (masters tries fuel : ℕ) → (key value op : String) → Config
    → Option Config
unfolding disk_put_append
paxos_put_append calls ask masters tries fuel key value op config =
    disk_put_append calls ask masters tries (record { key = key; value = value; op = op }) 0 fuel
      config

unfoldable pub paxos_put :
    (calls : (round : ℕ) → String → PutAppendArgs → Option DiskPutReply)
    → DiskMasters
    → (masters tries fuel : ℕ) → (key value : String) → Config
    → Option Config
unfolding paxos_put_append
paxos_put calls ask masters tries fuel key value =
    paxos_put_append calls ask masters tries fuel key value "Put"

unfoldable pub paxos_append :
    (calls : (round : ℕ) → String → PutAppendArgs → Option DiskPutReply)
    → DiskMasters
    → (masters tries fuel : ℕ) → (key value : String) → Config
    → Option Config
unfolding paxos_put_append
paxos_append calls ask masters tries fuel key value =
    paxos_put_append calls ask masters tries fuel key value "Append"
