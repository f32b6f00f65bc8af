-- ===== src/Lib.antt =====
-- code2go: a Go repository of the MIT 6.824 labs. Raft elects a leader and replicates a log
-- (src/raft), kvraft keeps a key/value store on top of it, labrpc simulates the network between
-- clients and servers, and mapreduce, lockservice and rpc are programs of their own. The servers of
-- paxos, kvpaxos, diskv, pbservice and viewservice take connections in one common loop.
--
-- State is passed explicitly and a run-time panic is `none`. A mutex that a function holds from its
-- first to its last line makes the function one step. Numbers are natural where the code only
-- counts up from 0.
--
-- Prelude: Boolean tests, lists with native lengths, the monad of `Option`.
-- Persister: src/raft/persister.go, byte slices an abstract type.
-- Raft: src/raft/raft.go. State (the `Raft` struct, `persist`, `Start`, `Make`), Vote
--   (`RequestVote`, `sendRequestVote`, `doVote`, the timer of `Make`), Append (`AppendEntries`),
--   Submit (`doSubmit`, `sendAppendEntries`, and in Reorder requests that overtake each other),
--   Durable (what is saved), Run (all steps of a peer in any order, and crashes; in Run/Races what the
--   source reads before it locks is a step of its own). encoding/gob is the parameter `Gob` with the
--   hypothesis `IsGob`. A goroutine is split where it gives up the lock. The clock
--   and the random timeouts are arguments.
--   Cluster puts the peers, their calls and their goroutines in one state: the handlers, timers and
--   goroutines of all peers run in any order, calls are lost or late, peers crash. There, a heart beat
--   is built by a peer that leads at that moment, and the term of a reply is compared under the lock;
--   the source does neither for sure, and Vote/Race and Cluster/Stale are about what then happens.
-- Itoa: `strconv.Itoa` on numbers that are not negative, which the packages use to build names.
-- KvRaft: src/kvraft. Store (the database that `Get` rebuilds from the log), Server (`Get`,
--   `PutAppend` and the goroutine of `StartKVServer`), Clerk (client.go), Partition and Minority (the
--   links of a test cluster in config.go, and its division into two groups). While a handler polls,
--   the other goroutines go on: what it sees at each poll is an argument. Its loops end by themselves
--   after 30 and 500 polls. The loops of the clerk end when a server answers: they run on fuel, and
--   what the calls return is an argument.
-- Labrpc: src/labrpc/labrpc.go. The `Network`, `ProcessReq` and its loop, and in Dispatch the servers
--   and their services. What each `select` gets, the network at each test, and the random numbers
--   are arguments; the fuel is the number of selects.
-- ShardMaster: the clerks of src/shardmaster/client.go, and in Paxos those of
--   src/paxos-shardmaster/client.go. ShardKv: the clerk of src/shardkv/client.go, and in Disk those of
--   src/diskv/client.go, in Paxos those of src/paxos-shardkv/client.go. The calls are arguments, and
--   the loops run on fuel, one unit for each round.
-- MapReduce: src/mapreduce, the names of its files, `CleanupFiles`, `Register` and `killWorkers`; Merge
--   (`merge`), Run (`run`, `Sequential`) and Worker (the counters of `RunWorker`).
-- Accept: the loop of connections. Paxos, KvPaxos, PbService, ViewService/Server,
--   ShardMaster/PaxosServer, ShardKv/PaxosServer and DiskKv/Server: the servers that run it.
-- DiskKv: src/diskv/server.go, the files of a shard. encoding/base32 is the parameter `Base32` with the
--   hypothesis `IsBase32`; which system calls fail, and what they then leave, is an argument.
-- LockService: Lock in src/lockservice, and in Server its loop of connections. ViewService: the clerk
--   in src/viewservice/client.go.
-- RpcArith: src/rpc, the two methods of its demo.
-- Harness: src/raft/config.go, the checks that the tests of Raft make of a cluster, in Applier the
--   readers of applyCh and the history of what was applied, in Links the connections and restarts, in
--   Wait `wait` and `one`, where the rounds and looks that the clock leaves time for are fuel.
--
-- Not modelled: the handlers and clerks with empty bodies (paxos, kvpaxos, pbservice, and the servers
--   of viewservice, shardmaster, shardkv and diskv), the rest of the harness of kvraft, those of shardkv
--   and shardmaster, net/rpc, reflection, and the demo program in src/newnius.com.
pub mod Prelude
pub mod Persister
pub mod Raft
pub mod Itoa
pub mod KvRaft
pub mod Labrpc
pub mod ShardMaster
pub mod ShardKv
pub mod MapReduce
pub mod Harness
pub mod LockService
pub mod ViewService
pub mod Paxos
pub mod KvPaxos
pub mod DiskKv
pub mod PbService
pub mod Accept
pub mod RpcArith
