-- ===== src/ShardKv/Applying.antt =====
-- The apply task of src/shardkv/task.go on the commands that the peer hands it, and the snapshots of
-- src/shardkv/server.go.
use mathlib.Core.Path.{subst}
use multi_raft.Common.{
  sym, none, ℕ, ◌≤◌, ◌<◌, ◌≡◌, refl, ap, ◌∙◌, ◌⊎◌, inl, inr, true, false, Option, some, List, arith,
  nat_key, string_key, leb, Bool-cases, length,
}
use multi_raft.Raft.Application.{command_msg}
use multi_raft.Raft.Log.{Bytes, size}
use multi_raft.Raft.Peer.{Item, Raft, get_state}
use multi_raft.Raft.Step.Invariant.{Inv}
use multi_raft.Raft.Step.Safety.{restart, make_restores}
use multi_raft.Service.Channels.{Channels, notify, Waits, no_channels}
use multi_raft.Service.Notifying.{IsPlaced, IsFull, IsFree, notify_lem}
use multi_raft.Service.Snapshots.{snapshot-total}
use multi_raft.ShardKv.Changes.{apply_raft_command}
use multi_raft.ShardKv.Operating.{IsComplete}
use multi_raft.ShardKv.Operations.{DuplicateTable, OpReply, RaftCommand}
use multi_raft.ShardKv.Server.{
  ShardKv, Saved, saved, make_snapshot, restore_from_snapshot, needs_snapshot, apply_command,
  apply_message, start_shard_kv,
}
use multi_raft.ShardKv.Shards.{Store}
use multi_raft.ShardKv.Stepping.{IsWellSent, apply_raft_command_lem}

-- A server whose peer has its storage up to date, whose table names only channels that exist, and
-- which has all shards and configurations of full length.
pub record IsSound (kv : ShardKv) : Type 0 where
  pub kept : Inv kv.rf
  pub placed : IsPlaced kv.notices
  pub complete : IsComplete kv.store

module _ (encode : Saved → Bytes) (decode : Bytes → Option Saved)
    (raft_state_size : List (Item RaftCommand) → ℕ) where
  make_snapshot-total :
      (kv : ShardKv) (index : ℕ)
      → Inv kv.rf
      → (rf : Raft RaftCommand) × (make_snapshot encode decode raft_state_size kv index
          ≡ some (record kv { rf = rf }))
        × Inv rf
  unfolding make_snapshot
  make_snapshot-total kv index kept =
      let (rf, done, taken) = snapshot-total kv.rf index (encode (saved kv)) kept in
      (rf, ground (arith, done), taken.0)

  -- What a new command leaves, where its reply is sent.
  abbrev Leaves : ℕ → Store → DuplicateTable → Channels OpReply → ShardKv → Type 0
  Leaves index st table notices kv' =
      Inv kv'.rf
      × (kv'.last_applied ≡ index)
      × (kv'.store ≡ st)
      × (kv'.duplicate_table ≡ table)
      × (kv'.notices ≡ notices)

  -- A command goes through where its reply is sent, and blocks where the send blocks.
  apply_command-lem :
      (kv : ShardKv) (index : ℕ) (command : RaftCommand) (st : Store) (table : DuplicateTable)
      (reply : OpReply)
      → Inv kv.rf
      → apply_raft_command kv.store kv.duplicate_table command ≡ some (st, table, reply)
      → (notify kv.notices (get_state kv.rf).1 index reply ≡ none
          → apply_command encode decode raft_state_size kv index command ≡ none)
        × ((notices : Channels OpReply)
            → notify kv.notices (get_state kv.rf).1 index reply ≡ some notices
            → (kv' : ShardKv) × (apply_command encode decode raft_state_size kv index command
                ≡ some kv')
              × Leaves index st table notices kv')
  unfolding apply_command
  apply_command-lem kv index command st table reply kept applied = (
    λ blocks. ground (arith, applied, blocks),
    λ notices sent.
        let kv₁ : ShardKv = record kv {
          last_applied = index;
          store = st;
          duplicate_table = table;
          notices = notices;
        } in
        let (rf, snapped, kept') = make_snapshot-total kv₁ index kept in
        elim (Bool-cases (needs_snapshot encode decode raft_state_size kv₁)) [
          | inl full ↦ (
            record kv₁ { rf = rf },
            ground (arith, applied, sent, snapped),
            (kept', refl, refl, refl, refl),
          )
          | inr small ↦ (kv₁, ground (arith, applied, sent), (kept, refl, refl, refl, refl))
        ],
  )

  -- The server has applied the command, and where this peer leads, the reply waits in the channel of
  -- the index.
  abbrev pub Applied : ShardKv → ℕ → RaftCommand → ShardKv → Type 0
  Applied kv index command kv' =
      IsSound kv'
      × (kv'.last_applied ≡ index)
      × ((reply : OpReply) × (apply_raft_command kv.store kv.duplicate_table command
            ≡ some (kv'.store, kv'.duplicate_table, reply))
          × Waits kv'.notices (get_state kv.rf).1 index reply)

  abbrev pub Handles : ShardKv → RaftCommand → ℕ → Type 0
  Handles kv command index =
      let out =
        apply_message encode decode raft_state_size kv (command_msg true (some command) index) in
      (index ≤ kv.last_applied) × (out ≡ some kv)
      ⊎ (kv.last_applied < index)
        × ((get_state kv.rf).1 ≡ true)
        × IsFull kv.notices index
        × (out ≡ none)
      ⊎ (kv.last_applied < index)
        × ((get_state kv.rf).1 ≡ true → IsFree kv.notices index)
        × ((kv' : ShardKv) × (out ≡ some kv') × Applied kv index command kv')

  -- What `applyTask` does with a command that names no shard out of range, on a server whose peer has
  -- its storage up to date, whose table names only channels that exist, and which has all ten shards
  -- and configurations of that length. One at or below the last index applied changes nothing. A new
  -- one is applied to shards, configurations and table, counts as applied, and has its reply waiting
  -- in the channel of its index where this peer leads; the server stays such a server. The one
  -- exception is a peer that leads while the channel of the index still holds a reply: there the send
  -- blocks, with the lock held.
  pub apply_task_lem :
      (kv : ShardKv) (command : RaftCommand) (index : ℕ)
      → IsSound kv
      → IsWellSent command
      → Handles kv command index
  unfolding apply_message
  apply_task_lem kv command index sound w = elim (Bool-cases (leb index kv.last_applied)) [
    | inl old ↦ inl (ground arith, ground arith)
    | inr new ↦
        let ((st, table, reply), applied, complete, _) =
          apply_raft_command_lem kv.store kv.duplicate_table command sound.complete w in
        let (stuck, goes) = apply_command-lem kv index command st table reply sound.kept applied in
        elim (notify_lem kv.notices (get_state kv.rf).1 index reply sound.placed) [
          | inl (leads, full, blocks) ↦
              inr (inl (ground arith, leads, full, ground (arith, stuck blocks)))
          | inr (free, (notices, sent, placed, waits)) ↦
              let (kv', done, (kept, at_index, same_st, same_table, same)) = goes notices sent in
              let sound' : IsSound kv' = record {
                kept = kept;
                placed = subst IsPlaced (sym same) placed;
                complete = subst IsComplete (sym same_st) complete;
              } in
              let held = subst (λ c. Waits c (get_state kv.rf).1 index reply) (sym same) waits in
              let applied' : apply_raft_command kv.store kv.duplicate_table command
                  ≡ some (kv'.store, kv'.duplicate_table, reply) =
                ground (arith, applied, same_st, same_table) in
              inr (
                inr (
                  ground arith,
                  free,
                  (kv', ground (arith, done), (sound', at_index, (reply, applied', held))),
                ))
        ]
  ]

  -- What comes back after a snapshot, a crash and a restart.
  abbrev pub Restores : ShardKv → ℕ → Option ℕ → Type 0
  Restores kv index max =
      (kv' kv'' : ShardKv) × (make_snapshot encode decode raft_state_size kv index ≡ some kv')
      × (start_shard_kv encode decode raft_state_size kv'.rf.peers kv'.rf.me kv'.rf.persister max
            kv.store.gid
          ≡ some kv'')
      × (kv''.store ≡ kv.store)
      × (kv''.duplicate_table ≡ kv.duplicate_table)
      × (kv''.rf.last_applied ≡ index)

  -- With a codec that reads back, from a nonempty encoding, the shards, the table and the two
  -- configurations: a snapshot at an index that is committed, in the log and not covered yet, and then
  -- a crash and a restart of the group's server on the persister: the new server has all of them as
  -- they were, the statuses of shards on their way included, and its peer goes on to apply behind that
  -- index.
  pub start_shard_kv-Restores :
      (kv : ShardKv) (index : ℕ) (max : Option ℕ)
      → Inv kv.rf
      → kv.rf.log.snap_last_idx < index
      → index ≤ kv.rf.commit_index
      → index < size kv.rf.log
      → decode (encode (saved kv)) ≡ some (saved kv)
      → 0 < length (encode (saved kv))
      → Restores kv index max
  unfolding make_snapshot start_shard_kv restore_from_snapshot
  start_shard_kv-Restores kv index max v new committed inside reads_back nonempty =
      let data' = encode (saved kv) in
      let (rf, done, (v', c, a, taken)) = snapshot-total kv.rf index data' v in
      let (kept, stored, base) = taken new committed inside in
      let restored = make_restores rf v' in
      (
        record kv { rf = rf },
        (record {
          me = rf.me;
          rf = restart rf;
          dead = false;
          max_raft_state = max;
          last_applied = 0;
          store = kv.store;
          notices = no_channels;
          duplicate_table = kv.duplicate_table;
        }),
        ground (arith, done),
        ground (arith, ap (λ p. p.snapshot) kept, stored, reads_back, nonempty),
        refl,
        refl,
        restored.applied ∙ base,
      )
