-- ===== src/ShardKv/Operations.antt =====
-- src/shardkv/common.go: the operations of clients, the commands that go through the log, and what
-- the groups send each other.
use multi_raft.Common.{
  ℕ, Option, none, some, List, String, nat_key, string_key, if◌then◌else◌, is_key, Map,
}
use multi_raft.Service.Duplicates.{LastOperation}
use multi_raft.ShardCtrler.Config.{Config}

pub data Err : Type 0 where
  ok no_key wrong_group wrong_leader timeout wrong_config not_ready : Err

pub data OperationType : Type 0 where
  op_get op_put op_append : OperationType

-- `none` is the panic on an unknown name.
unfoldable pub get_operation_type : String → Option OperationType
get_operation_type v =
    if is_key v "Put" then some op_put else if is_key v "Append" then some op_append else none

pub record Op : Type 0 where
  pub key : String
  pub value : String
  pub op_type : OperationType
  pub client_id : ℕ
  pub seq_id : ℕ

pub record OpReply : Type 0 where
  pub value : String
  pub err : Err

abbrev pub DuplicateTable : Type 0
DuplicateTable = Map ℕ (LastOperation OpReply)

pub data ShardStatus : Type 0 where
  normal move_in move_out gc : ShardStatus

pub record ShardOperationArgs : Type 0 where
  pub config_num : ℕ
  pub shard_ids : List ℕ

-- The order of the association list stands for the order in which a `range` takes the shards.
pub record ShardOperationReply : Type 0 where
  pub err : Err
  pub config_num : ℕ
  pub shard_data : Map ℕ (Map String String)
  pub duplicate_table : DuplicateTable

-- A command with its data, by its type.
pub data RaftCommand : Type 0 where
  client_operation : Op → RaftCommand
  config_change : Config → RaftCommand
  shard_migration : ShardOperationReply → RaftCommand
  shard_gc : ShardOperationArgs → RaftCommand
