-- ===== src/KvRaft/Server.antt =====
-- src/kvraft/server.go: the server, its RPC handlers cut at the points where they give up the lock
-- or wait, and one round of the apply task. `none` is a panic, or a send that blocks with the lock
-- held. The labgob codec is a parameter: it encodes the state machine and the table, and fixes the
-- size of Raft's encoded state.
pub mod Duplicates
pub mod Applying
pub mod Snapshots
use multi_raft.Common.{
  ℕ, ◌⊎◌, inl, inr, Bool, true, false, Option, none, some, List, [], String, lookup, nat_key,
  string_key, leb, ◌==◌, if◌then◌else◌, ◌>>=◌, length,
}
use multi_raft.KvRaft.StateMachine.{
  Err, wrong_leader, timeout, op_get, get_operation_type, Op, OpReply, StateMachine, DuplicateTable,
  kv_service,
}
use multi_raft.Raft.Application.{ApplyMsg, command_msg, snapshot_msg}
use multi_raft.Raft.Compaction.{snapshot}
use multi_raft.Raft.Log.{Bytes}
use multi_raft.Raft.Peer.{Item, Persister, Raft, get_state, start, kill, make}
use multi_raft.Service.Channels.{
  Channels, no_channels, get_notify_channel, remove_notify_channel, receive, notify,
}
use multi_raft.Service.Duplicates.{request_duplicated, execute}

-- `max_raft_state` is `none` for -1; `notices` are `notifyChans` with the channels.
pub record KvServer : Type 0 where
  pub me : ℕ
  pub rf : Raft Op
  pub dead : Bool
  pub max_raft_state : Option ℕ
  pub last_applied : ℕ
  pub state_machine : StateMachine
  pub notices : Channels OpReply
  pub duplicate_table : DuplicateTable

pub record GetArgs : Type 0 where
  pub key : String

pub record PutAppendArgs : Type 0 where
  pub key : String
  pub value : String
  pub op : String
  pub client_id : ℕ
  pub seq_id : ℕ

-- A handler that waits takes the channel of its index, then what it receives there, and then
-- removes the channel.
unfoldable pub await : KvServer → ℕ → KvServer × ℕ
await kv index =
    let got = get_notify_channel kv.notices index in (record kv { notices = got.0 }, got.1)

unfoldable pub answer : KvServer → ℕ → Bool → KvServer × Option OpReply
answer kv ch timed_out =
    let late : OpReply = record { value = ""; err = timeout } in
    let got = receive kv.notices ch late timed_out in (record kv { notices = got.0 }, got.1)

unfoldable pub stop_waiting : KvServer → ℕ → KvServer
stop_waiting kv index = record kv { notices = remove_notify_channel kv.notices index }

-- `Start` on the peer: the index to wait at, or the error of a peer that does not lead.
unfoldable pub submit : KvServer → Op → KvServer × (Err ⊎ ℕ)
submit kv op =
    let started = start kv.rf op in
    (record kv { rf = started.0 }, if started.1.2 then inr started.1.0 else inl wrong_leader)

unfoldable pub submit_get : KvServer → GetArgs → KvServer × (Err ⊎ ℕ)
submit_get kv args =
    submit kv (record { key = args.key; value = ""; op_type = op_get; client_id = 0; seq_id = 0 })

-- `PutAppend` with the lock held: the answer, where the request was answered before.
unfoldable pub answer_duplicate : KvServer → PutAppendArgs → Option Err
answer_duplicate kv args =
    if request_duplicated kv.duplicate_table args.client_id args.seq_id
    then (lookup kv.duplicate_table args.client_id >>= λ info. some info.reply.err)
    else none

-- `PutAppend` after it has given up the lock, where it did not answer.
unfoldable pub submit_put_append : KvServer → PutAppendArgs → Option (KvServer × (Err ⊎ ℕ))
submit_put_append kv args = get_operation_type args.op >>= λ op_type. some (
    submit kv (record {
      key = args.key;
      value = args.value;
      op_type = op_type;
      client_id = args.client_id;
      seq_id = args.seq_id;
    }))

-- The operation of a message, as `applyTask` handles it, with the check for duplicates.
abbrev pub execute_op :
    StateMachine → DuplicateTable → Op → Option (StateMachine × DuplicateTable × OpReply)
execute_op = execute kv_service

module _ (encode : StateMachine → DuplicateTable → Bytes)
    (decode : Bytes → Option (StateMachine × DuplicateTable))
    (raft_state_size : List (Item Op) → ℕ) where
  unfoldable pub make_snapshot : KvServer → ℕ → Option KvServer
  make_snapshot kv index =
      snapshot kv.rf index (encode kv.state_machine kv.duplicate_table) >>= λ rf.
      some (record kv { rf = rf })

  unfoldable pub restore_from_snapshot : KvServer → Bytes → Option KvServer
  restore_from_snapshot kv bytes =
      if length bytes == 0
      then some kv
      else (decode bytes >>= λ s. some (record kv { state_machine = s.0; duplicate_table = s.1 }))

  unfoldable pub needs_snapshot : KvServer → Bool
  needs_snapshot kv = elim kv.max_raft_state [
    | none ↦ false
    | some max ↦ leb max (raft_state_size kv.rf.persister.raftstate)
  ]

  -- A command that was not applied before.
  unfoldable pub apply_command : KvServer → ℕ → Op → Option KvServer
  apply_command kv index op = do
    done ← execute_op kv.state_machine kv.duplicate_table op
    notices ← notify kv.notices (get_state kv.rf).1 index done.2
    let kv' : KvServer = record kv {
      last_applied = index;
      state_machine = done.0;
      duplicate_table = done.1;
      notices = notices;
    }
    if needs_snapshot kv' then make_snapshot kv' index else some kv'

  -- One message in `applyTask`. A command that is no `Op` panics.
  unfoldable pub apply_message : KvServer → ApplyMsg Op → Option KvServer
  apply_message kv (command_msg false command index) = some kv
  apply_message kv (command_msg true command index) =
      if leb index kv.last_applied then some kv else (command >>= λ op. apply_command kv index op)
  apply_message kv (snapshot_msg bytes term index) =
      restore_from_snapshot kv bytes >>= λ kv'. some (record kv' { last_applied = index })

  unfoldable pub start_kv_server : ℕ → ℕ → Persister Op → Option ℕ → Option KvServer
  start_kv_server servers me persister max_raft_state =
      restore_from_snapshot
        (record {
          me = me;
          rf = make servers me persister;
          dead = false;
          max_raft_state = max_raft_state;
          last_applied = 0;
          state_machine = [];
          notices = no_channels;
          duplicate_table = [];
        })
        persister.snapshot

unfoldable pub kill_server : KvServer → KvServer
kill_server kv = record kv { dead = true; rf = kill kv.rf }
