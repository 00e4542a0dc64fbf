-- ===== src/ShardKv/Stepping.antt =====
-- One command of the log of src/shardkv: it never panics on a server with all shards, and either moves
-- statuses on or brings a new configuration (src/shardkv/conf_change.go and task.go).
use multi_raft.Common.{
  ◌+◌, ◌<◌, ◌≡◌, refl, ◌⊎◌, inl, inr, some, arith, nat_key, string_key, ◌==◌, Bool-cases, length,
  All,
}
use multi_raft.ShardCtrler.Config.{shard_count, gid_key, Config}
use multi_raft.ShardKv.Changes.{
  reply_of, apply_new_config, merge_tables, apply_shard_migration, apply_shard_gc,
  apply_raft_command,
}
use multi_raft.ShardKv.Configuring.{Configures, apply_new_config_lem}
use multi_raft.ShardKv.Keys.{key2shard}
use multi_raft.ShardKv.Operating.{IsComplete, OnlyShard-Becomes, apply_client_operation_lem}
use multi_raft.ShardKv.Operations.{
  ok, wrong_config, OpReply, DuplicateTable, RaftCommand, client_operation, config_change,
  shard_migration, shard_gc,
}
use multi_raft.ShardKv.Shards.{Shards, Store}
use multi_raft.ShardKv.Statuses.{
  Becomes, Becomes-self, Becomes-Held, InRange, take_shards-Becomes, clean_shards-Becomes,
}

-- A command that names no shard out of range.
abbrev pub IsWellSent : RaftCommand → Type 0
IsWellSent (client_operation op) = Unit
IsWellSent (config_change new) = length new.shards ≡ shard_count
IsWellSent (shard_migration sent) = InRange sent.shard_data
IsWellSent (shard_gc args) = All (λ i. i < shard_count) args.shard_ids

-- A new configuration, or only statuses that move on.
abbrev pub Stays : Store → Store → Type 0
Stays st st' =
    (st'.gid ≡ st.gid)
    × (st'.prev_config ≡ st.prev_config)
    × (st'.current_config ≡ st.current_config)
    × Becomes st.shards st'.shards

abbrev pub Changes : Store → RaftCommand → Store → Type 0
Changes st command st' =
    (new : Config) × (command ≡ config_change new)
    × (st.current_config.num + 1 ≡ new.num)
    × Configures st new st'

abbrev pub Commands : Store → DuplicateTable → RaftCommand → Type 0
Commands st table command =
    (done : Store × DuplicateTable × OpReply) × (apply_raft_command st table command ≡ some done)
    × IsComplete done.0
    × (Stays st done.0 ⊎ Changes st command done.0)

stays :
    (st : Store) (shards : Shards)
    → IsComplete st
    → Becomes st.shards shards
    → IsComplete (record st { shards = shards })
stays st shards c b = record {
  held = Becomes-Held st.shards shards b c.held;
  current_full = c.current_full;
  prev_full = c.prev_full;
}

abbrev unchanged : (st : Store) → Stays st st
unchanged st = (refl, refl, refl, Becomes-self st.shards)

pub apply_raft_command_lem :
    (st : Store) (table : DuplicateTable) (command : RaftCommand)
    → IsComplete st
    → IsWellSent command
    → Commands st table command
unfolding apply_raft_command apply_shard_migration apply_shard_gc
apply_raft_command_lem st table (client_operation op) c w =
    let (owner, _, (shard, _, (done, e, only, _))) = apply_client_operation_lem st table op c in
    let b = OnlyShard-Becomes (key2shard op.key) st.shards done.0 only in
    (
      (record st { shards = done.0 }, done.1, done.2),
      e,
      stays st done.0 c b,
      inl (refl, refl, refl, b),
    )
apply_raft_command_lem st table (config_change new) c w =
    elim (Bool-cases (st.current_config.num + 1 == new.num)) [
      | inl next ↦
          let (st', e, configured) = apply_new_config_lem st new c w (ground arith) in
          (
            (st', table, reply_of ok),
            ground (arith, e),
            configured.0,
            inr (new, refl, ground arith, configured),
          )
      | inr other ↦ (
        (st, table, reply_of wrong_config),
        unfold apply_new_config in ground arith,
        c,
        inl (unchanged st),
      )
    ]
apply_raft_command_lem st table (shard_migration sent) c w =
    let (shards, e, b) = take_shards-Becomes st.shards sent.shard_data c.held w in
    elim (Bool-cases (sent.config_num == st.current_config.num)) [
      | inl now ↦ (
        (
          record st { shards = shards },
          merge_tables table sent.duplicate_table,
          reply_of wrong_config,
        ),
        ground (arith, e, now),
        stays st shards c b,
        inl (refl, refl, refl, b),
      )
      | inr other ↦ ((st, table, reply_of wrong_config), ground arith, c, inl (unchanged st))
    ]
apply_raft_command_lem st table (shard_gc args) c w =
    let (shards, e, b) = clean_shards-Becomes st.shards args.shard_ids c.held w in
    elim (Bool-cases (args.config_num == st.current_config.num)) [
      | inl now ↦ (
        (record st { shards = shards }, table, reply_of ok),
        ground (arith, e, now),
        stays st shards c b,
        inl (refl, refl, refl, b),
      )
      | inr other ↦ ((st, table, reply_of ok), ground arith, c, inl (unchanged st))
    ]
