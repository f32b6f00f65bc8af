-- ===== src/Raft.antt =====
-- src/raft/raft.go: one Raft peer.
pub mod State
pub mod Vote
pub mod Append
pub mod Submit
pub mod Durable
pub mod Run
pub mod Cluster
pub mod Tests
