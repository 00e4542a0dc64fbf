-- ===== src/ShardKv/Server.antt =====
-- src/shardkv/server.go and the apply task of src/shardkv/task.go: the server, its RPC handlers cut
-- at the points where they give up the lock or wait, and one round of the apply task. `none` is a
-- panic, or a send that blocks with the lock held. The labgob codec is a parameter.
use multi_raft.Common.{
  ℕ, ◌⊎◌, inl, inr, Bool, true, false, Option, none, some, List, [], ◌∷◌, String, lookup, put,
  nat_key, string_key, ltb, leb, ◌==◌, if◌then◌else◌, ◌>>=◌, length, Map,
}
use multi_raft.Raft.Application.{ApplyMsg, command_msg, snapshot_msg}
use multi_raft.Raft.Compaction.{snapshot}
use multi_raft.Raft.Log.{Bytes}
use multi_raft.Raft.Peer.{Item, Persister, Raft, get_state, start, kill, make}
use multi_raft.Service.Channels.{
  Channels, no_channels, get_notify_channel, remove_notify_channel, receive, notify,
}
use multi_raft.Service.Duplicates.{request_duplicated}
use multi_raft.ShardCtrler.Config.{shard_count, Gid, Config, default_config}
use multi_raft.ShardKv.Changes.{reply_of, count_up, apply_raft_command}
use multi_raft.ShardKv.Operations.{
  Err, ok, wrong_group, wrong_leader, timeout, not_ready, op_get, get_operation_type, OpReply,
  DuplicateTable, ShardOperationArgs, ShardOperationReply, RaftCommand, client_operation, shard_gc,
}
use multi_raft.ShardKv.Shards.{new_shard, copy_data, Shards, Store, match_group}

-- `max_raft_state` is `none` for -1; `notices` are `notifyChans` with the channels; `store` is the
-- group's id, the shards and the two configurations.
pub record ShardKv : Type 0 where
  pub me : ℕ
  pub rf : Raft RaftCommand
  pub dead : Bool
  pub max_raft_state : Option ℕ
  pub last_applied : ℕ
  pub store : Store
  pub notices : Channels OpReply
  pub duplicate_table : DuplicateTable

pub record GetArgs : Type 0 where
  pub key : String

pub record PutAppendArgs : Type 0 where
  pub key : String
  pub value : String
  pub op : String
  pub client_id : ℕ
  pub seq_id : ℕ

-- `Start` on the peer, as `ConfigCommand` and the handlers of clients call it: the index to wait at,
-- or the error of a peer that does not lead.
unfoldable pub config_command : ShardKv → RaftCommand → ShardKv × (Err ⊎ ℕ)
config_command kv command =
    let started = start kv.rf command in
    (record kv { rf = started.0 }, if started.1.2 then inr started.1.0 else inl wrong_leader)

-- A handler that waits takes the channel of its index, then what it receives there, and then
-- removes the channel.
unfoldable pub subscribe : ShardKv → ℕ → ShardKv × ℕ
subscribe kv index =
    let got = get_notify_channel kv.notices index in (record kv { notices = got.0 }, got.1)

unfoldable pub take_reply : ShardKv → ℕ → Bool → ShardKv × Option OpReply
take_reply kv ch timed_out =
    let got = receive kv.notices ch (reply_of timeout) timed_out in
    (record kv { notices = got.0 }, got.1)

unfoldable pub unsubscribe : ShardKv → ℕ → ShardKv
unsubscribe kv index = record kv { notices = remove_notify_channel kv.notices index }

-- `Get` and `PutAppend` with the lock held: the answer that they give at once; an outer `none` is a
-- panic.
unfoldable pub check_get : ShardKv → GetArgs → Option (Option Err)
check_get kv args =
    match_group kv.store args.key >>= λ matches. some (if matches then none else some wrong_group)

unfoldable pub check_put_append : ShardKv → PutAppendArgs → Option (Option Err)
check_put_append kv args = match_group kv.store args.key >>= λ matches.
    let own =
      if request_duplicated kv.duplicate_table args.client_id args.seq_id
      then (lookup kv.duplicate_table args.client_id >>= λ info. some (some info.reply.err))
      else some none in
    if matches then own else some (some wrong_group)

-- And after they have given up the lock, where they did not answer, up to the wait.
unfoldable pub shard_kv_get : ShardKv → GetArgs → ShardKv × (Err ⊎ ℕ)
shard_kv_get kv args = config_command kv (
    client_operation
      (record { key = args.key; value = ""; op_type = op_get; client_id = 0; seq_id = 0 }))

unfoldable pub shard_kv_put_append : ShardKv → PutAppendArgs → Option (ShardKv × (Err ⊎ ℕ))
shard_kv_put_append kv args = get_operation_type args.op >>= λ op_type. some (
    config_command kv (
      client_operation (record {
        key = args.key;
        value = args.value;
        op_type = op_type;
        client_id = args.client_id;
        seq_id = args.seq_id;
      })))

-- The data of shards for another group. Whether the peer leads is read at the same point as the data.
abbrev pub has_key : Map ℕ (Map String String) → ℕ → Bool
has_key m i = elim (lookup m i) [ some entries ↦ true | none ↦ false ]

unfoldable pub copy_shards : Shards → List ℕ → Option (Map ℕ (Map String String))
copy_shards shards [] = some []
copy_shards shards (i ∷ is) = do
  shard ← lookup shards i
  rest ← copy_shards shards is
  some (if has_key rest i then rest else (i, copy_data shard) ∷ rest)

abbrev pub refusal : Err → ShardOperationReply
refusal err = record { err = err; config_num = 0; shard_data = []; duplicate_table = [] }

unfoldable pub get_shards_data : ShardKv → ShardOperationArgs → Option ShardOperationReply
get_shards_data kv args =
    let copied = copy_shards kv.store.shards args.shard_ids >>= λ data'. some (record {
      err = ok;
      config_num = args.config_num;
      shard_data = data';
      duplicate_table = kv.duplicate_table;
    }) in
    let ready =
      if ltb kv.store.current_config.num args.config_num
      then some (refusal not_ready)
      else copied in
    if (get_state kv.rf).1 then ready else some (refusal wrong_leader)

-- `DeleteShardsData` up to where it gives up the lock, and from there, where it did not answer. Whether
-- the peer leads is read at the same point as the configuration.
unfoldable pub check_delete : ShardKv → ShardOperationArgs → Option Err
check_delete kv args =
    let current = if ltb args.config_num kv.store.current_config.num then some ok else none in
    if (get_state kv.rf).1 then current else some wrong_leader

unfoldable pub delete_shards_data : ShardKv → ShardOperationArgs → ShardKv × (Err ⊎ ℕ)
delete_shards_data kv args = config_command kv (shard_gc args)

-- The shards that are missing, made empty.
unfoldable pub fill_shards : Shards → List ℕ → Shards
fill_shards shards [] = shards
fill_shards shards (i ∷ is) = elim (lookup shards i) [
  | some shard ↦ fill_shards shards is
  | none ↦ fill_shards (put shards i new_shard) is
]

abbrev pub Saved : Type 0
Saved = Shards × DuplicateTable × Config × Config

abbrev pub saved : ShardKv → Saved
saved kv = (kv.store.shards, kv.duplicate_table, kv.store.current_config, kv.store.prev_config)

module _ (encode : Saved → Bytes) (decode : Bytes → Option Saved)
    (raft_state_size : List (Item RaftCommand) → ℕ) where
  unfoldable pub make_snapshot : ShardKv → ℕ → Option ShardKv
  make_snapshot kv index =
      snapshot kv.rf index (encode (saved kv)) >>= λ rf. some (record kv { rf = rf })

  unfoldable pub restore_from_snapshot : ShardKv → Bytes → Option ShardKv
  restore_from_snapshot kv bytes =
      if length bytes == 0
      then some (record kv {
        store = record kv.store { shards = fill_shards kv.store.shards (count_up 0 shard_count) };
      })
      else (decode bytes >>= λ s. some (record kv {
        store = record kv.store { shards = s.0; current_config = s.2; prev_config = s.3 };
        duplicate_table = s.1;
      }))

  unfoldable pub needs_snapshot : ShardKv → Bool
  needs_snapshot kv = elim kv.max_raft_state [
    | none ↦ false
    | some max ↦ leb max (raft_state_size kv.rf.persister.raftstate)
  ]

  -- A command that was not applied before.
  unfoldable pub apply_command : ShardKv → ℕ → RaftCommand → Option ShardKv
  apply_command kv index command = do
    done ← apply_raft_command kv.store kv.duplicate_table command
    notices ← notify kv.notices (get_state kv.rf).1 index done.2
    let kv' : ShardKv = record kv {
      last_applied = index;
      store = done.0;
      duplicate_table = done.1;
      notices = notices;
    }
    if needs_snapshot kv' then make_snapshot kv' index else some kv'

  -- One message in `applyTask`. A command that is no `RaftCommand` panics.
  unfoldable pub apply_message : ShardKv → ApplyMsg RaftCommand → Option ShardKv
  apply_message kv (command_msg false command index) = some kv
  apply_message kv (command_msg true command index) =
      if leb index kv.last_applied
      then some kv
      else (command >>= λ raft_command. apply_command kv index raft_command)
  apply_message kv (snapshot_msg bytes term index) =
      restore_from_snapshot kv bytes >>= λ kv'. some (record kv' { last_applied = index })

  unfoldable pub start_shard_kv : ℕ → ℕ → Persister RaftCommand → Option ℕ → Gid → Option ShardKv
  start_shard_kv servers me persister max_raft_state g =
      restore_from_snapshot
        (record {
          me = me;
          rf = make servers me persister;
          dead = false;
          max_raft_state = max_raft_state;
          last_applied = 0;
          store = record {
            gid = g;
            shards = [];
            current_config = default_config;
            prev_config = default_config;
          };
          notices = no_channels;
          duplicate_table = [];
        })
        persister.snapshot

unfoldable pub kill_shard_kv : ShardKv → ShardKv
kill_shard_kv kv = record kv { dead = true; rf = kill kv.rf }
