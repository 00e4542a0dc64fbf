-- ===== src/KvRaft/Server/Snapshots.antt =====
-- Snapshots of src/kvraft/server.go, through the peer and its stable storage.
use multi_raft.Common.{
  ℕ, ◌≤◌, ◌<◌, ◌≡◌, refl, ap, ◌∙◌, false, Option, some, List, arith, nat_key, string_key, length,
}
use multi_raft.KvRaft.Server.{KvServer, make_snapshot, restore_from_snapshot, start_kv_server}
use multi_raft.KvRaft.StateMachine.{Op, DuplicateTable, StateMachine}
use multi_raft.Raft.Log.{Bytes, size}
use multi_raft.Raft.Peer.{Item}
use multi_raft.Raft.Step.Invariant.{Inv}
use multi_raft.Raft.Step.Safety.{restart, make_restores}
use multi_raft.Service.Channels.{no_channels}
use multi_raft.Service.Snapshots.{snapshot-total}

module _ (encode : StateMachine → DuplicateTable → Bytes)
    (decode : Bytes → Option (StateMachine × DuplicateTable))
    (raft_state_size : List (Item Op) → ℕ) where
  -- What comes back after a snapshot, a crash and a restart.
  abbrev pub Restores : KvServer → ℕ → Option ℕ → Type 0
  Restores kv index max =
      (kv' kv'' : KvServer) × (make_snapshot encode decode raft_state_size kv index ≡ some kv')
      × (start_kv_server encode decode raft_state_size kv'.rf.peers kv'.rf.me kv'.rf.persister max
          ≡ some kv'')
      × (kv''.state_machine ≡ kv.state_machine)
      × (kv''.duplicate_table ≡ kv.duplicate_table)
      × (kv''.rf.last_applied ≡ index)

  -- With a codec that reads back, from a nonempty encoding, the state machine and the table: a
  -- snapshot at an index that is committed, in the log and not covered yet, and then a crash and
  -- a restart on the persister: the new server has the state machine and the table of the snapshot,
  -- and its peer goes on to apply behind that index.
  pub start_kv_server-Restores :
      (kv : KvServer) (index : ℕ) (max : Option ℕ)
      → Inv kv.rf
      → kv.rf.log.snap_last_idx < index
      → index ≤ kv.rf.commit_index
      → index < size kv.rf.log
      → decode (encode kv.state_machine kv.duplicate_table)
        ≡ some (kv.state_machine, kv.duplicate_table)
      → 0 < length (encode kv.state_machine kv.duplicate_table)
      → Restores kv index max
  unfolding make_snapshot start_kv_server restore_from_snapshot
  start_kv_server-Restores kv index max v new committed inside reads_back nonempty =
      let data' = encode kv.state_machine kv.duplicate_table in
      let (rf, done, (v', c, a, taken)) = snapshot-total kv.rf index data' v in
      let (saved, stored, base) = taken new committed inside in
      let kv' : KvServer = record kv { rf = rf } in
      let restored = make_restores rf v' in
      (
        kv',
        (record {
          me = rf.me;
          rf = restart rf;
          dead = false;
          max_raft_state = max;
          last_applied = 0;
          state_machine = kv.state_machine;
          notices = no_channels;
          duplicate_table = kv.duplicate_table;
        }),
        ground (arith, done),
        ground (arith, ap (λ p. p.snapshot) saved, stored, reads_back, nonempty),
        refl,
        refl,
        restored.applied ∙ base,
      )
