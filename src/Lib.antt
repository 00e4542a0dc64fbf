-- ===== src/Lib.antt =====
-- A model of Multi-Raft: a Raft library in Go and the replicated services that stand on it.
--
-- The parts of the program, and the modules that model them:
--   * src/raft: one peer of a Raft group. A service calls `Start` and `Snapshot` and reads committed
--     commands from `applyCh`; peers call one another by RPC.
--     Raft.Log is raft_log.go (`RaftLog`); Raft.Peer is the state `Raft` of raft.go with the role
--     changes, persister.go and raft_persistence.go; Raft.Election is raft_election.go,
--     Raft.Replication raft_replication.go, Raft.Compaction raft_compaction.go and Raft.Application
--     raft_application.go. Raft.Step puts them together: a step of a peer is any one of these
--     operations, or a crash with the restart by `Make`. Raft.Group is a whole group of such peers,
--     with the votes that they have given and the replies that the elections have counted.
--     Raft.Storage is storage.go and storage_memory.go. Raft.Node is node.go, a second
--     implementation of a peer on that storage: Raft.Node.Handlers its RPC handlers,
--     Raft.Node.Leading elections and replication, and Raft.Node.Applying its apply loop.
--   * src/kvraft: a key/value store on one Raft group. KvRaft.StateMachine is common.go and
--     state_machine.go, KvRaft.Server server.go, on a `Raft` of Raft.Peer, and KvRaft.Client
--     client.go.
--   * src/shardctrler: a controller on one Raft group that assigns ten shards to replica groups.
--     ShardCtrler.Config is common.go, ShardCtrler.StateMachine state_machine.go,
--     ShardCtrler.Server server.go and ShardCtrler.Client client.go; ShardCtrler.Rebalance,
--     ShardCtrler.Joining, ShardCtrler.Leaving, ShardCtrler.History and ShardCtrler.Duplicates hold
--     the proofs.
--   * src/shardkv: the key/value store spread over replica groups, which hand shards to one another as
--     the controller's configurations change. ShardKv.Operations is common.go, ShardKv.Keys and
--     ShardKv.Client client.go, ShardKv.Shards state_machine.go with the operations on shards,
--     ShardKv.Changes conf_change.go, ShardKv.Server server.go and ShardKv.Tasks task.go;
--     ShardKv.Statuses, ShardKv.Operating, ShardKv.Configuring, ShardKv.Stepping, ShardKv.Commands,
--     ShardKv.Starting, ShardKv.History, ShardKv.Migration and ShardKv.Applying hold the proofs.
--   * Service is what the three servers and their clerks have in the same words: the notify channels
--     (Service.Channels, and Service.Notifying for when a send blocks), the check for duplicates
--     against the log (Service.Duplicates, for any state machine), their snapshots
--     (Service.Snapshots), and the loop of a clerk (Service.Clerks).
-- Modules below these hold the lemmas and theorems, each named for what it is about. Common holds
-- what all share: Boolean tests, lists measured by native numbers, Go maps as association lists,
-- and sorting.
--
-- How the code is written down:
--   * One function per method, on the state as a record, with the lock held: what a method does
--     between two points where it gives up the lock is one function, so every interleaving of the
--     goroutines is a sequence of such calls. An RPC is the handler on one side and the function on
--     its reply on the other; a lost reply is `none`.
--   * A panic (an index out of range, a failed assertion) and a send that would block with the lock
--     held are `none`. The time and the random numbers that the code asks for are arguments.
--   * Go's `int` is ℕ where no negative number is made: positions, terms, indexes, identifiers.
--     Numbers stay far below 2 ^ 63: each step adds at most one to a term or an index.
--   * `votedFor` and `maxraftstate` are Options, for -1. Stable storage is the list of the values
--     that were encoded, in order; `readPersist` takes them back one by one.
--   * A `range` over a map goes over an association list, in whichever order it has.
--   * Loops over slices are structural recursion. `for` loops without a bound are cut at one round
--     (the tickers and apply tasks), or run on the outcomes of their calls (the clerks).
--     The loop of `Join` that moves shards runs on fuel, 156 rounds: each round lowers a measure of
--     the table that is at most 155 at the start.
--
-- Not modelled: the transports of node.go and its storage on Badger, which pass bytes on, and the
-- generated code in src/raft/pb; src/models, the loggers and the test harnesses. The libraries
-- labgob, labrpc and porcupine come from elsewhere. The codecs, labgob and encoding/gob, are
-- parameters where a snapshot of a service or the state of a node passes through them. How the logs
-- of a group agree with one another over a whole run is not stated: the theorems on logs are about
-- one peer, or about a leader and a follower.
mod Common
pub mod Raft
pub mod Service
pub mod KvRaft
pub mod ShardCtrler
pub mod ShardKv
