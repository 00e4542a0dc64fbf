-- ===== src/ShardKv.antt =====
-- The sharded key/value service of src/shardkv: one server of a replica group.
pub mod Keys
pub mod Operations
pub mod Shards
pub mod Changes
pub mod Server
pub mod Tasks
pub mod Statuses
pub mod Operating
pub mod Configuring
pub mod Stepping
pub mod Commands
pub mod Starting
pub mod History
pub mod Migration
pub mod Applying
pub mod Client
mod Tests
