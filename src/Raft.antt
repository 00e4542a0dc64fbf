-- ===== src/Raft.antt =====
-- The Raft peer of src/raft.
pub mod Log
pub mod Peer
pub mod Election
pub mod Compaction
pub mod Replication
pub mod Application
pub mod Step
pub mod Group
pub mod Storage
pub mod Node
mod Tests
