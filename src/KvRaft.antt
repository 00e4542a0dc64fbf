-- ===== src/KvRaft.antt =====
-- The key/value service of src/kvraft, a replicated state machine on top of src/raft.
pub mod StateMachine
pub mod Server
pub mod Client
mod Tests
