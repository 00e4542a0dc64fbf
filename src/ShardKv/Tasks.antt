-- ===== src/ShardKv/Tasks.antt =====
-- The tasks of src/shardkv/task.go that a leader runs: fetching the next configuration, pulling the
-- shards that move in, and having the shards that moved cleaned up. Each is cut where it gives up
-- the lock or calls another server; the answer of a call is `none` where the call failed.
use multi_raft.Common.{
  ℕ, ◌+◌, ◌⊎◌, inl, Bool, true, false, ◌&&◌, Option, none, some, List, [], ◌∷◌, ◌++◌, String,
  lookup, put, nat_key, string_key, ◌==◌, if◌then◌else◌, ◌>>=◌, get_elem?, is_key, Map,
}
use multi_raft.Raft.Peer.{get_state}
use multi_raft.ShardCtrler.Config.{Gid, gid, gid_key, Config}
use multi_raft.ShardKv.Operations.{
  Err, ok, wrong_config, ShardStatus, normal, move_in, move_out, gc, ShardOperationArgs,
  ShardOperationReply, config_change, shard_migration, shard_gc,
}
use multi_raft.ShardKv.Server.{ShardKv, config_command}
use multi_raft.ShardKv.Shards.{Shards, Store}

abbrev pub is_status : ShardStatus → ShardStatus → Bool
is_status normal normal = true
is_status move_in move_in = true
is_status move_out move_out = true
is_status gc gc = true
is_status _ _ = false

-- No configuration change is under way.
unfoldable pub all_normal : Shards → Bool
all_normal [] = true
all_normal ((i, shard) ∷ shards) = is_status shard.status normal && all_normal shards

-- The number to ask the controller for.
unfoldable pub wanted_config : ShardKv → Option ℕ
wanted_config kv =
    if (get_state kv.rf).1 && all_normal kv.store.shards
    then some (kv.store.current_config.num + 1)
    else none

-- The controller's answer, on the server as it is by then; `num` is the number asked for.
unfoldable pub fetched_config : ShardKv → ℕ → Config → ShardKv × (Err ⊎ ℕ)
fetched_config kv num new =
    if new.num == num then config_command kv (config_change new) else (kv, inl wrong_config)

-- The shards of this status by the group that had them; `none` is the panic on a shard out of range.
unfoldable pub group_shards :
    Config → ShardStatus → Map Gid (List ℕ) → Shards → Option (Map Gid (List ℕ))
group_shards prev status found [] = some found
group_shards prev status found ((i, shard) ∷ rest) =
    let skipped = group_shards prev status found rest in
    let grouped = get_elem? prev.shards i >>= λ owner.
    let ids : List ℕ = elim (lookup found owner) [ some ids ↦ ids | none ↦ [] ] in
    let more = if is_key owner (gid 0) then found else put found owner (ids ++ (i ∷ [])) in
    group_shards prev status more rest in
    if is_status shard.status status then grouped else skipped

abbrev pub get_shard_by_status : Store → ShardStatus → Option (Map Gid (List ℕ))
get_shard_by_status st status = group_shards st.prev_config status [] st.shards

-- A request for each of these groups, with the group's servers.
unfoldable pub requests : Store → Map Gid (List ℕ) → List (List String × ShardOperationArgs)
requests st [] = []
requests st ((g, ids) ∷ groups) =
    let servers : List String = elim (lookup st.prev_config.groups g) [ some s ↦ s | none ↦ [] ] in
    let args : ShardOperationArgs = record {
      config_num = st.current_config.num;
      shard_ids = ids;
    } in
    (servers, args) ∷ requests st groups

-- One round of `shardMigrationTask`, `GetShardsData` to be called at each of the servers, and of
-- `shardGCTask`, `DeleteShardsData` to be called there.
unfoldable pub shard_migration_task : ShardKv → Option (List (List String × ShardOperationArgs))
shard_migration_task kv =
    if (get_state kv.rf).1
    then (get_shard_by_status kv.store move_in >>= λ groups. some (requests kv.store groups))
    else some []

unfoldable pub shard_gc_task : ShardKv → Option (List (List String × ShardOperationArgs))
shard_gc_task kv =
    if (get_state kv.rf).1
    then (get_shard_by_status kv.store gc >>= λ groups. some (requests kv.store groups))
    else some []

abbrev pub is_ok : Err → Bool
is_ok err = elim err [ ok ↦ true | _ ↦ false ]

-- A server's answer, on the server as it is by then: with `OK` it goes into the log, else nothing does.
unfoldable pub shards_arrived : ShardKv → Option ShardOperationReply → Option (ShardKv × (Err ⊎ ℕ))
shards_arrived kv answer = answer >>= λ reply.
    if is_ok reply.err then some (config_command kv (shard_migration reply)) else none

unfoldable pub shards_deleted :
    ShardKv → ShardOperationArgs → Option Err → Option (ShardKv × (Err ⊎ ℕ))
shards_deleted kv args answer =
    answer >>= λ err. if is_ok err then some (config_command kv (shard_gc args)) else none
