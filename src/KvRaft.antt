-- ===== src/KvRaft.antt =====
-- src/kvraft: a key/value service on Raft, its server and its clerk.
pub mod Store
pub mod Partition
pub mod Minority
pub mod Server
pub mod Clerk
mod Tests
