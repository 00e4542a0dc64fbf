-- ===== src/ShardKv/Changes.antt =====
-- src/shardkv/conf_change.go as the apply task runs it: a new configuration, shards that come from
-- another group, and shards that are cleaned up. `none` is a panic.
use multi_raft.Common.{
  ℕ, zero, suc, ◌+◌, Bool, not, ◌&&◌, Option, none, some, List, [], ◌∷◌, String, lookup, put,
  nat_key, string_key, ltb, ◌==◌, if◌then◌else◌, ◌>>=◌, get_elem?, is_key, Map,
}
use multi_raft.ShardCtrler.Config.{shard_count, Gid, gid, gid_key, Config}
use multi_raft.ShardKv.Operations.{
  Err, ok, wrong_config, OpReply, DuplicateTable, ShardStatus, normal, move_in, move_out, gc,
  ShardOperationArgs, ShardOperationReply, RaftCommand, client_operation, config_change,
  shard_migration, shard_gc,
}
use multi_raft.ShardKv.Shards.{new_shard, Shards, Store, apply_client_operation}

abbrev pub reply_of : Err → OpReply
reply_of err = record { value = ""; err = err }

-- `kv.shards[i].Status = status`
unfoldable pub set_status : Shards → ℕ → ShardStatus → Option Shards
set_status shards i status =
    lookup shards i >>= λ shard. some (put shards i (record shard { status = status }))

-- The two tests of the loop of `applyNewConfig`, for one shard: to be moved in, and to be moved out.
abbrev pub comes : Gid → Gid → Gid → Bool
comes me old new = not (is_key old me) && is_key new me && not (is_key old (gid 0))

abbrev pub goes : Gid → Gid → Gid → Bool
goes me old new = is_key old me && not (is_key new me) && not (is_key new (gid 0))

unfoldable pub mark_shard : Gid → Gid → Gid → ℕ → Shards → Option Shards
mark_shard me old new i shards = do
  in_marked ← (if comes me old new then set_status shards i move_in else some shards)
  if goes me old new then set_status in_marked i move_out else some in_marked

-- The loop, over the indexes in their order.
unfoldable pub mark_shards : Gid → Config → Config → List ℕ → Shards → Option Shards
mark_shards me current new [] shards = some shards
mark_shards me current new (i ∷ is) shards = do
  old_owner ← get_elem? current.shards i
  new_owner ← get_elem? new.shards i
  marked ← mark_shard me old_owner new_owner i shards
  mark_shards me current new is marked

abbrev pub count_up : ℕ → ℕ → List ℕ
count_up i zero = []
count_up i (suc n) = i ∷ count_up (i + 1) n

unfoldable pub apply_new_config : Store → Config → Option (Store × OpReply)
apply_new_config st new =
    if st.current_config.num + 1 == new.num
    then (mark_shards st.gid st.current_config new (count_up 0 shard_count) st.shards >>= λ marked.
        some (
          record st { shards = marked; prev_config = st.current_config; current_config = new },
          reply_of ok,
        ))
    else some (st, reply_of wrong_config)

-- `shard.KV[k] = v` for the data that was sent. The order of a `range` over a map is open, here and
-- in `merge_tables`.
unfoldable pub put_all : Map String String → Map String String → Map String String
put_all kv [] = kv
put_all kv ((k, v) ∷ rest) = put (put_all kv rest) k v

-- The shards in turn, up to the first that is not to be moved in.
unfoldable pub take_shards : Shards → Map ℕ (Map String String) → Option Shards
take_shards shards [] = some shards
take_shards shards ((i, entries) ∷ rest) = lookup shards i >>= λ shard. elim shard.status [
  | move_in ↦
      take_shards (put shards i (record { kv = put_all shard.kv entries; status = gc })) rest
  | _ ↦ some shards
]

-- The later of what two tables know of a client.
unfoldable pub merge_tables : DuplicateTable → DuplicateTable → DuplicateTable
merge_tables table [] = table
merge_tables table ((c, info) ∷ rest) =
    let merged = merge_tables table rest in
    elim (lookup merged c) [
      | none ↦ put merged c info
      | some old ↦ if ltb old.seq_id info.seq_id then put merged c info else merged
    ]

unfoldable pub apply_shard_migration :
    Store → DuplicateTable → ShardOperationReply → Option (Store × DuplicateTable × OpReply)
apply_shard_migration st table sent =
    if sent.config_num == st.current_config.num
    then (take_shards st.shards sent.shard_data >>= λ shards. some (
      record st { shards = shards },
      merge_tables table sent.duplicate_table,
      reply_of wrong_config,
    ))
    else some (st, table, reply_of wrong_config)

-- The shards in turn, up to the first that is not to be cleaned up.
unfoldable pub clean_shards : Shards → List ℕ → Option Shards
clean_shards shards [] = some shards
clean_shards shards (i ∷ is) = lookup shards i >>= λ shard. elim shard.status [
  | gc ↦ clean_shards (put shards i (record shard { status = normal })) is
  | move_out ↦ clean_shards (put shards i new_shard) is
  | _ ↦ some shards
]

unfoldable pub apply_shard_gc : Store → ShardOperationArgs → Option (Store × OpReply)
apply_shard_gc st args =
    if args.config_num == st.current_config.num
    then (clean_shards st.shards args.shard_ids >>= λ shards.
        some (record st { shards = shards }, reply_of ok))
    else some (st, reply_of ok)

-- One command of the log, the message and the reply aside.
unfoldable pub apply_raft_command :
    Store → DuplicateTable → RaftCommand → Option (Store × DuplicateTable × OpReply)
apply_raft_command st table (client_operation op) = apply_client_operation st table op
apply_raft_command st table (config_change new) =
    apply_new_config st new >>= λ done. some (done.0, table, done.1)
apply_raft_command st table (shard_migration sent) = apply_shard_migration st table sent
apply_raft_command st table (shard_gc args) =
    apply_shard_gc st args >>= λ done. some (done.0, table, done.1)
