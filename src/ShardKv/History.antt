-- ===== src/ShardKv/History.antt =====
-- The histories of a server of src/shardkv: its state from the start on, a command of the log at a
-- time.
use mathlib.Core.Path.{subst}
use multi_raft.Common.{
  Option, length, All, sym, ap, ◌∙◌, ◌<◌, ℕ, ◌+◌, ◌≡◌, refl, inl, inr, some, List, [], arith,
  nat_key, string_key, ◌==◌, Bool-cases, ◌>>=◌, >>=-eq-some, IsMap,
}
use multi_raft.Raft.Log.{Bytes}
use multi_raft.Raft.Peer.{Item}
use multi_raft.Service.Duplicates.{execute-IsMap, execute}
use multi_raft.ShardCtrler.Config.{Config, shard_count, Gid}
use multi_raft.ShardKv.Changes.{
  reply_of, merge_tables, take_shards, apply_shard_gc, apply_new_config, apply_shard_migration,
  apply_raft_command,
}
use multi_raft.ShardKv.Commands.{
  run_commands, wanted_config-AllNormal, Configures-IsConsistent, Stays-IsConsistent, AllNormal,
  IsConsistent,
}
use multi_raft.ShardKv.Migration.{merge_tables-IsMap}
use multi_raft.ShardKv.Operating.{IsComplete}
use multi_raft.ShardKv.Operations.{
  wrong_config, Op, OpReply, DuplicateTable, RaftCommand, client_operation, config_change,
  shard_migration, shard_gc,
}
use multi_raft.ShardKv.Server.{ShardKv, Saved, restore_from_snapshot}
use multi_raft.ShardKv.Shards.{shard_service, match_group, apply_client_operation, Store}
use multi_raft.ShardKv.Starting.{first_store, first_store-IsComplete, first_store-IsConsistent}
use multi_raft.ShardKv.Stepping.{IsWellSent, apply_raft_command_lem}
use multi_raft.ShardKv.Tasks.{wanted_config}

-- A command other than a new configuration.
abbrev pub IsOther : RaftCommand → Type 0
IsOther (config_change new) = ⊥
IsOther _ = Unit

-- The states of a server of a group: as it starts; behind any command of the log that is no new
-- configuration; behind a new configuration that a leader asked for, as it was at some such point, and
-- that has the number it asked for, whatever came between; and what the snapshot of such a point gives
-- back, after a restart or from another server.
pub data History : Store → DuplicateTable → Type 0 where
  started : (g : Gid) → History (first_store g) []
  applied :
      {st st' : Store} {table table' : DuplicateTable} (command : RaftCommand) (reply : OpReply)
      → History st table
      → IsWellSent command
      → IsOther command
      → apply_raft_command st table command ≡ some (st', table', reply)
      → History st' table'
  configured :
      {st st' : Store} {table table' : DuplicateTable} (kv : ShardKv) (num : ℕ)
      (commands : List RaftCommand) (new : Config) (reply : OpReply)
      → History kv.store kv.duplicate_table
      → wanted_config kv ≡ some num
      → new.num ≡ num
      → length new.shards ≡ shard_count
      → All IsWellSent commands
      → run_commands kv.store kv.duplicate_table commands ≡ some (st, table)
      → History st table
      → apply_raft_command st table (config_change new) ≡ some (st', table', reply)
      → History st' table'
  restored :
      {st : Store} {table : DuplicateTable} (encode : Saved → Bytes) (decode : Bytes → Option Saved)
      (raft_state_size : List (Item RaftCommand) → ℕ) (kv kv' : ShardKv) (bytes : Bytes)
      → History st table
      → kv.store.gid ≡ st.gid
      → 0 < length bytes
      → decode bytes ≡ some (st.shards, table, st.current_config, st.prev_config)
      → restore_from_snapshot encode decode raft_state_size kv bytes ≡ some kv'
      → History kv'.store kv'.duplicate_table

apply_client_operation-IsMap :
    (st : Store) (table : DuplicateTable) (op : Op) (done : Store × DuplicateTable × OpReply)
    → IsMap table
    → apply_client_operation st table op ≡ some done
    → IsMap done.1
unfolding apply_client_operation
apply_client_operation-IsMap st table op done d h =
    let (matches, _, h') = >>=-eq-some (match_group st op.key) _ h in
    elim (Bool-cases matches) [
      | inl on ↦
          let executes : (execute shard_service st.shards table op >>= λ ran.
          some (record st { shards = ran.0 }, ran.1, ran.2))
              ≡ some done =
            ground (arith, on) in
          let (ran, e, last) = >>=-eq-some (execute shard_service st.shards table op) _ executes in
          subst IsMap (ground (arith, last))
            (execute-IsMap shard_service st.shards table op ran d e)
      | inr off ↦ subst IsMap (ground (arith, off)) d
    ]

apply_raft_command-IsMap :
    (st : Store) (table : DuplicateTable) (command : RaftCommand)
    (done : Store × DuplicateTable × OpReply)
    → IsMap table
    → apply_raft_command st table command ≡ some done
    → IsMap done.1
unfolding apply_raft_command apply_shard_migration
apply_raft_command-IsMap st table (client_operation op) done d h =
    apply_client_operation-IsMap st table op done d h
apply_raft_command-IsMap st table (config_change new) done d h =
    let (r, _, last) = >>=-eq-some (apply_new_config st new) _ h in
    subst IsMap (ground (arith, last)) d
apply_raft_command-IsMap st table (shard_gc args) done d h =
    let (r, _, last) = >>=-eq-some (apply_shard_gc st args) _ h in
    subst IsMap (ground (arith, last)) d
apply_raft_command-IsMap st table (shard_migration sent) done d h =
    elim (Bool-cases (sent.config_num == st.current_config.num)) [
      | inl now ↦
          let taken : (take_shards st.shards sent.shard_data >>= λ shards. some (
            record st { shards = shards },
            merge_tables table sent.duplicate_table,
            reply_of wrong_config,
          ))
              ≡ some done =
            ground (arith, now) in
          let (r, _, last) = >>=-eq-some (take_shards st.shards sent.shard_data) _ taken in
          subst IsMap (ground (arith, last)) (merge_tables-IsMap table sent.duplicate_table d)
      | inr other ↦ subst IsMap (ground (arith, other)) d
    ]

abbrev IsFitting : Store → DuplicateTable → Type 0
IsFitting st table = IsComplete st × IsConsistent st × IsMap table

applied-IsFitting :
    (st st' : Store) (table table' : DuplicateTable) (command : RaftCommand) (reply : OpReply)
    → IsFitting st table
    → IsWellSent command
    → ((new : Config)
        → command ≡ config_change new
        → st.current_config.num + 1 ≡ new.num
        → AllNormal st)
    → apply_raft_command st table command ≡ some (st', table', reply)
    → IsFitting st' table'
applied-IsFitting st st' table table' command reply (c, fit, d) w calm e =
    let (done, e', c', cases) = apply_raft_command_lem st table command c w in
    let same : done.0 ≡ st' = ground arith in
    let d' = apply_raft_command-IsMap st table command (st', table', reply) d e in
    elim cases [
      | inl s ↦ (
        subst IsComplete same c',
        subst IsConsistent same (Stays-IsConsistent st done.0 c s fit),
        d',
      )
      | inr (new, is_new, num, configures) ↦ (
        subst IsComplete same c',
        subst IsConsistent same
            (Configures-IsConsistent st new done.0 c (calm new is_new num) configures),
        d',
      )
    ]

restored-IsFitting :
    (st : Store) (table : DuplicateTable) (encode : Saved → Bytes) (decode : Bytes → Option Saved)
    (raft_state_size : List (Item RaftCommand) → ℕ) (kv kv' : ShardKv) (bytes : Bytes)
    → IsFitting st table
    → kv.store.gid ≡ st.gid
    → 0 < length bytes
    → decode bytes ≡ some (st.shards, table, st.current_config, st.prev_config)
    → restore_from_snapshot encode decode raft_state_size kv bytes ≡ some kv'
    → IsFitting kv'.store kv'.duplicate_table
unfolding restore_from_snapshot
restored-IsFitting st table encode decode raft_state_size kv kv' bytes (c, fit, d) g full reads e =
    let back : record kv { store = record st { gid = kv.store.gid }; duplicate_table = table }
        ≡ kv' =
      ground (arith, reads, full) in
    let same : st ≡ kv'.store = ap (λ n. record st { gid = n }) (sym g) ∙ ap (λ k. k.store) back in
    (
      subst IsComplete same c,
      subst IsConsistent same fit,
      subst IsMap (ap (λ k. k.duplicate_table) back) d,
    )

-- In every state that a server of a group goes through it has all ten shards and two
-- configurations that say of each whose it is; a shard that is moved in or waits for its cleaning
-- up belongs to this group and comes from another one, and a shard that is moved out belongs to
-- another group now and comes from this one; and the duplicate table has each client once. These
-- states are: the start without a snapshot; what a command other than a new configuration leaves,
-- where it names no shard out of range; what a snapshot of such a state gives back, read back as
-- it was written, by a server of the same group; and what a new configuration leaves that is of
-- full length and has the number that a leader asked for, in such a state of its own in which it
-- saw all its shards Normal, and from which any commands that name no shard out of range lead to
-- the state that the configuration meets.
pub History-IsConsistent :
    {st : Store} {table : DuplicateTable}
    → History st table
    → IsComplete st × IsConsistent st × IsMap table
History-IsConsistent (started g) = (first_store-IsComplete g, first_store-IsConsistent g, refl)
History-IsConsistent (applied {st} {st'} {table} {table'} command reply before w other e) =
    applied-IsFitting st st' table table' command reply (History-IsConsistent before) w
      (λ new is_new num. absurd (subst IsOther is_new other)) e
History-IsConsistent
      (configured {st} {st'} {table} {table'} kv num commands new reply then' wanted asked full w
        ran before e) =
    let (c, _, _) = History-IsConsistent then' in
    applied-IsFitting st st' table table' (config_change new) reply (History-IsConsistent before)
      full
      (λ other same next.
        wanted_config-AllNormal kv num commands st table c wanted w ran (ground arith))
      e
History-IsConsistent
      (restored {st} {table} encode decode raft_state_size kv kv' bytes before g full reads e) =
    restored-IsFitting st table encode decode raft_state_size kv kv' bytes
      (History-IsConsistent before) g full reads e
