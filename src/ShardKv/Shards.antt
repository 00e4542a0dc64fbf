-- ===== src/ShardKv/Shards.antt =====
-- src/shardkv/state_machine.go: the data of one shard; and the shards of a server, with the
-- operations of clients on them, of src/shardkv/server.go.
use Prim.Native.String.{◌++◌}
use multi_raft.Common.{
  ℕ, Bool, true, false, ◌&&◌, Option, none, some, [], String, lookup, put, nat_key, string_key,
  if◌then◌else◌, ◌>>=◌, get_elem?, is_key, Map,
}
use multi_raft.Service.Duplicates.{Service, execute}
use multi_raft.ShardCtrler.Config.{gid_key, Gid, Config}
use multi_raft.ShardKv.Keys.{key2shard}
use multi_raft.ShardKv.Operations.{
  Err, ok, no_key, wrong_group, op_get, op_put, op_append, Op, OpReply, DuplicateTable, ShardStatus,
  normal, gc,
}

-- `MemoryKVStateMachine`
pub record Shard : Type 0 where
  pub kv : Map String String
  pub status : ShardStatus

unfoldable pub new_shard : Shard
new_shard = record { kv = []; status = normal }

unfoldable pub shard_get : Shard → String → String × Err
shard_get mkv key = elim (lookup mkv.kv key) [ some value ↦ (value, ok) | none ↦ ("", no_key) ]

unfoldable pub shard_put : Shard → String → String → Shard × Err
shard_put mkv key value = (record mkv { kv = put mkv.kv key value }, ok)

-- `mkv.KV[key] += value`: a missing key reads as the empty string.
unfoldable pub shard_append : Shard → String → String → Shard × Err
shard_append mkv key value = (
  record mkv {
    kv = put mkv.kv key (elim (lookup mkv.kv key) [ some old ↦ old | none ↦ "" ] ++ value);
  },
  ok,
)

-- The keys and values, copied.
unfoldable pub copy_data : Shard → Map String String
copy_data mkv = mkv.kv

abbrev pub Shards : Type 0
Shards = Map ℕ Shard

-- What the commands of the log work on, the duplicate table aside.
pub record Store : Type 0 where
  pub gid : Gid
  pub shards : Shards
  pub current_config : Config
  pub prev_config : Config

-- `none` is the panic on a shard that the map does not have.
unfoldable pub match_group : Store → String → Option Bool
match_group st key = do
  shard ← lookup st.shards (key2shard key)
  owner ← get_elem? st.current_config.shards (key2shard key)
  some (is_key owner st.gid && elim shard.status [ normal ↦ true | gc ↦ true | _ ↦ false ])

unfoldable pub apply_to_state_machine : Shards → Op → Option (Shards × OpReply)
apply_to_state_machine shards op = lookup shards (key2shard op.key) >>= λ shard. elim op.op_type [
  | op_get ↦
      let got = shard_get shard op.key in some (shards, record { value = got.0; err = got.1 })
  | op_put ↦
      let done = shard_put shard op.key op.value in
      some (put shards (key2shard op.key) done.0, record { value = ""; err = done.1 })
  | op_append ↦
      let done = shard_append shard op.key op.value in
      some (put shards (key2shard op.key) done.0, record { value = ""; err = done.1 })
]

abbrev pub is_get : Op → Bool
is_get op = elim op.op_type [ op_get ↦ true | _ ↦ false ]

-- What the check for duplicates needs.
abbrev pub shard_service : Service Op OpReply Shards
shard_service = record {
  is_read = is_get;
  client = λ op. op.client_id;
  number = λ op. op.seq_id;
  run = apply_to_state_machine;
}

abbrev pub wrong_group_reply : OpReply
wrong_group_reply = record { value = ""; err = wrong_group }

unfoldable pub apply_client_operation :
    Store → DuplicateTable → Op → Option (Store × DuplicateTable × OpReply)
apply_client_operation st table op = match_group st op.key >>= λ matches.
    if matches
    then (execute shard_service st.shards table op >>= λ done.
        some (record st { shards = done.0 }, done.1, done.2))
    else some (st, table, wrong_group_reply)
