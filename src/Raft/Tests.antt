-- ===== src/Raft/Tests.antt =====
-- Tests of src/raft/raft.go, and the theorems at concrete inputs.
pub mod Peers
mod Elections
mod Replication
