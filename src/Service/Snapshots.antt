-- ===== src/Service/Snapshots.antt =====
-- `Snapshot` of src/raft/raft_compaction.go as a service calls it.
use multi_raft.Common.{
  ℕ, ◌≤◌, ◌<◌, ◌≡◌, refl, inl, inr, ◌||◌, some, arith, nat_key, string_key, ltb, leb, Bool-cases,
}
use multi_raft.Raft.Compaction.{snapshot}
use multi_raft.Raft.Log.{Bytes, size}
use multi_raft.Raft.Log.Compaction.{do_snapshot_lem}
use multi_raft.Raft.Peer.{Raft, persist_locked}
use multi_raft.Raft.Step.Invariant.{image, Inv, persist_log-Kept}

module _ {C : Type 0} where
  -- What the service's call leaves in the peer: the invariant, and the new snapshot where the index
  -- is committed, in the log and not covered yet.
  abbrev pub TakesSnapshot : Raft C → ℕ → Bytes → Raft C → Type 0
  TakesSnapshot rf index data' rf' =
      Inv rf'
      × (rf'.commit_index ≡ rf.commit_index)
      × (rf'.last_applied ≡ rf.last_applied)
      × (rf.log.snap_last_idx < index
          → index ≤ rf.commit_index
          → index < size rf.log
          → (rf'.persister ≡ image rf')
            × (rf'.log.snapshot ≡ data')
            × (rf'.log.snap_last_idx ≡ index))

  pub snapshot-total :
      (rf : Raft C) (index : ℕ) (data' : Bytes)
      → Inv rf
      → (rf' : Raft C) × (snapshot rf index data' ≡ some rf') × TakesSnapshot rf index data' rf'
  unfolding snapshot persist_locked
  snapshot-total rf index data' v =
      let (log, done, w, sized, cases) = do_snapshot_lem rf.log index data' v.formed in
      let (v', x) = persist_log-Kept rf log v w in
      elim (Bool-cases (ltb rf.commit_index index || leb index rf.log.snap_last_idx)) [
        | inl skip ↦ (rf, ground arith, (v, refl, refl, ground arith))
        | inr go ↦ (
          persist_locked (record rf { log = log }),
          ground arith,
          (v', refl, refl, λ below committed inside. ground arith),
        )
      ]
