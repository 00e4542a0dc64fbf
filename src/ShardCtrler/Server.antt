-- ===== src/ShardCtrler/Server.antt =====
-- src/shardctrler/server.go: the server, its RPC handlers cut at the points where they give up the
-- lock or wait, and one round of the apply task. `none` is a panic, or a send that blocks with the
-- lock held.
use multi_raft.Common.{
  ℕ, ◌⊎◌, inl, inr, Bool, true, false, not, ◌&&◌, Option, none, some, List, [], lookup, nat_key,
  string_key, leb, if◌then◌else◌, ◌>>=◌,
}
use multi_raft.Raft.Application.{ApplyMsg, command_msg, snapshot_msg}
use multi_raft.Raft.Peer.{Persister, Raft, get_state, start, kill, make}
use multi_raft.Service.Channels.{
  Channels, no_channels, get_notify_channel, remove_notify_channel, receive, notify,
}
use multi_raft.Service.Duplicates.{Service, execute}
use multi_raft.ShardCtrler.Config.{
  Gid, gid, gid_key, Groups, Err, wrong_leader, timeout, OperationType, op_join, op_leave, op_move,
  op_query, Op, OpReply, DuplicateTable, no_config,
}
use multi_raft.ShardCtrler.StateMachine.{StateMachine, new_state_machine, query, join, leave, move}

-- `notices` are `notifyChans` with the channels.
pub record ShardCtrler : Type 0 where
  pub me : ℕ
  pub rf : Raft Op
  pub dead : Bool
  pub last_applied : ℕ
  pub state_machine : StateMachine
  pub notices : Channels OpReply
  pub duplicate_table : DuplicateTable

abbrev pub is_query : Op → Bool
is_query op = elim op.op_type [ op_query ↦ true | _ ↦ false ]

unfoldable pub apply_to_state_machine : StateMachine → Op → Option (StateMachine × OpReply)
apply_to_state_machine csm op = elim op.op_type [
  | op_query ↦ (query csm op.num >>= λ r. some (csm, record { controller_config = r.0; err = r.1 }))
  | op_join ↦
      (join csm op.servers >>= λ r. some (r.0, record { controller_config = no_config; err = r.1 }))
  | op_leave ↦
      (leave csm op.gids >>= λ r. some (r.0, record { controller_config = no_config; err = r.1 }))
  | op_move ↦
      (move csm op.shard op.gid >>= λ r.
      some (r.0, record { controller_config = no_config; err = r.1 }))
]

-- What the check for duplicates needs.
abbrev pub ctrler_service : Service Op OpReply StateMachine
ctrler_service = record {
  is_read = is_query;
  client = λ op. op.client_id;
  number = λ op. op.seq_id;
  run = apply_to_state_machine;
}

-- `command` waits at the channel of its index, answers with what it receives there, and then removes
-- the channel.
unfoldable pub await_reply : ShardCtrler → ℕ → ShardCtrler × ℕ
await_reply sc index =
    let got = get_notify_channel sc.notices index in (record sc { notices = got.0 }, got.1)

unfoldable pub answer_command : ShardCtrler → ℕ → Bool → ShardCtrler × Option OpReply
answer_command sc ch timed_out =
    let late : OpReply = record { controller_config = no_config; err = timeout } in
    let got = receive sc.notices ch late timed_out in (record sc { notices = got.0 }, got.1)

unfoldable pub forget_channel : ShardCtrler → ℕ → ShardCtrler
forget_channel sc index = record sc { notices = remove_notify_channel sc.notices index }

-- `command` with the lock held: the answer, where a write was answered before.
unfoldable pub check_command : ShardCtrler → Op → Option Err
check_command sc op = elim (lookup sc.duplicate_table op.client_id) [
  | some info ↦
      (if not (is_query op) && leb op.seq_id info.seq_id then some info.reply.err else none)
  | none ↦ none
]

-- `command` after it has given up the lock, where it did not answer, up to the wait: the index to
-- wait at, or the error of a peer that does not lead.
unfoldable pub submit_command : ShardCtrler → Op → ShardCtrler × (Err ⊎ ℕ)
submit_command sc op =
    let started = start sc.rf op in
    (record sc { rf = started.0 }, if started.1.2 then inr started.1.0 else inl wrong_leader)

abbrev pub blank : OperationType → ℕ → ℕ → Op
blank op_type client_id seq_id = record {
  servers = [];
  gids = [];
  shard = 0;
  gid = gid 0;
  num = some 0;
  op_type = op_type;
  client_id = client_id;
  seq_id = seq_id;
}

-- The operations that the four RPCs hand to `command`.
unfoldable pub join_rpc : Groups → ℕ → ℕ → Op
join_rpc servers client_id seq_id = record (blank op_join client_id seq_id) { servers = servers }

unfoldable pub leave_rpc : List Gid → ℕ → ℕ → Op
leave_rpc gids client_id seq_id = record (blank op_leave client_id seq_id) { gids = gids }

unfoldable pub move_rpc : ℕ → Gid → ℕ → ℕ → Op
move_rpc shard g client_id seq_id = record (blank op_move client_id seq_id) {
  shard = shard;
  gid = g;
}

unfoldable pub query_rpc : Option ℕ → Op
query_rpc num = record (blank op_query 0 0) { num = num }

-- The operation of a message, as `applyTask` handles it, with the check for duplicates.
abbrev pub execute_command :
    StateMachine → DuplicateTable → Op → Option (StateMachine × DuplicateTable × OpReply)
execute_command = execute ctrler_service

unfoldable pub apply_command : ShardCtrler → ℕ → Op → Option ShardCtrler
apply_command sc index op = do
  done ← execute_command sc.state_machine sc.duplicate_table op
  notices ← notify sc.notices (get_state sc.rf).1 index done.2
  some (record sc {
    last_applied = index;
    state_machine = done.0;
    duplicate_table = done.1;
    notices = notices;
  })

-- One message in `applyTask`. A command that is no `Op` panics.
unfoldable pub apply_message : ShardCtrler → ApplyMsg Op → Option ShardCtrler
apply_message sc (command_msg false command index) = some sc
apply_message sc (command_msg true command index) =
    if leb index sc.last_applied then some sc else (command >>= λ op. apply_command sc index op)
apply_message sc (snapshot_msg bytes term index) = some sc

unfoldable pub start_server : ℕ → ℕ → Persister Op → ShardCtrler
start_server servers me persister = record {
  me = me;
  rf = make servers me persister;
  dead = false;
  last_applied = 0;
  state_machine = new_state_machine;
  notices = no_channels;
  duplicate_table = [];
}

unfoldable pub kill_ctrler : ShardCtrler → ShardCtrler
kill_ctrler sc = record sc { dead = true; rf = kill sc.rf }
