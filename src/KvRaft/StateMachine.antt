-- ===== src/KvRaft/StateMachine.antt =====
-- src/kvraft/common.go and src/kvraft/state_machine.go: the operations, their replies, the map that
-- they work on, and the table that remembers each client's last operation.
use Prim.Native.String.{◌++◌}
use multi_raft.Common.{
  nat_key, string_key, ℕ, String, Map, Option, some, none, Bool, true, false, is_key, if◌then◌else◌,
  lookup, put,
}
use multi_raft.Service.Duplicates.{LastOperation, Service}

pub data Err : Type 0 where
  ok no_key wrong_leader timeout : Err

pub data OperationType : Type 0 where
  op_get op_put op_append : OperationType

-- `none` is the panic on an unknown name.
unfoldable pub get_operation_type : String → Option OperationType
get_operation_type v =
    if is_key v "Put" then some op_put else if is_key v "Append" then some op_append else none

-- Client ids are below 2 ^ 62 and sequence numbers start from 0.
pub record Op : Type 0 where
  pub key : String
  pub value : String
  pub op_type : OperationType
  pub client_id : ℕ
  pub seq_id : ℕ

pub record OpReply : Type 0 where
  pub value : String
  pub err : Err

abbrev pub LastOperationInfo : Type 0
LastOperationInfo = LastOperation OpReply

-- `MemoryKVStateMachine`
abbrev pub StateMachine : Type 0
StateMachine = Map String String

abbrev pub DuplicateTable : Type 0
DuplicateTable = Map ℕ LastOperationInfo

unfoldable pub get : StateMachine → String → String × Err
get mkv key = elim (lookup mkv key) [ some value ↦ (value, ok) | none ↦ ("", no_key) ]

unfoldable pub put_value : StateMachine → String → String → StateMachine × Err
put_value mkv key value = (put mkv key value, ok)

-- `mkv.KV[key] += value`: a missing key reads as the empty string.
unfoldable pub append_value : StateMachine → String → String → StateMachine × Err
append_value mkv key value =
    (put mkv key (elim (lookup mkv key) [ some old ↦ old | none ↦ "" ] ++ value), ok)

unfoldable pub apply_to_state_machine : StateMachine → Op → StateMachine × OpReply
apply_to_state_machine mkv op = elim op.op_type [
  | op_get ↦ (mkv, record { value = (get mkv op.key).0; err = (get mkv op.key).1 })
  | op_put ↦ (
    (put_value mkv op.key op.value).0,
    record { value = ""; err = (put_value mkv op.key op.value).1 },
  )
  | op_append ↦ (
    (append_value mkv op.key op.value).0,
    record { value = ""; err = (append_value mkv op.key op.value).1 },
  )
]

abbrev pub is_get : Op → Bool
is_get op = elim op.op_type [ op_get ↦ true | _ ↦ false ]

-- What the check for duplicates needs; no operation panics.
abbrev pub kv_service : Service Op OpReply StateMachine
kv_service = record {
  is_read = is_get;
  client = λ op. op.client_id;
  number = λ op. op.seq_id;
  run = λ mkv op. some (apply_to_state_machine mkv op);
}
