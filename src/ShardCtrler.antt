-- ===== src/ShardCtrler.antt =====
-- The controller of src/shardctrler, which assigns shards to replica groups.
pub mod Config
pub mod StateMachine
pub mod Server
pub mod Client
pub mod Rebalance
pub mod History
pub mod Duplicates
pub mod Joining
pub mod Leaving
mod Tests
