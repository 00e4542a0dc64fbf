-- ===== src/Service.antt =====
-- What the servers of src/kvraft, src/shardctrler and src/shardkv have in common: the channels on
-- which their handlers wait for the apply task, and the check for duplicates.
pub mod Channels
pub mod Notifying
pub mod Duplicates
pub mod Snapshots
pub mod Clerks
