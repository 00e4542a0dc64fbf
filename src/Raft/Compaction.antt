-- ===== src/Raft/Compaction.antt =====
-- src/raft/raft_compaction.go: `Snapshot` from the service, and the RPC that installs a snapshot.
use multi_raft.Common.{
  ℕ, ◌+◌, true, ◌||◌, Option, none, some, ltb, leb, if◌then◌else◌, ◌>>=◌, get_elem?, assign,
}
use multi_raft.Raft.Log.{Bytes, do_snapshot, install_snapshot}
use multi_raft.Raft.Peer.{leader, Raft, persist_locked, become_follower, context_lost}

pub record InstallSnapshotArgs : Type 0 where
  pub term : ℕ
  pub leader_id : ℕ
  pub last_included_index : ℕ
  pub last_included_term : ℕ
  pub snapshot : Bytes

pub record InstallSnapshotReply : Type 0 where
  pub term : ℕ

module _ {C : Type 0} where
  unfoldable pub snapshot : Raft C → ℕ → Bytes → Option (Raft C)
  unfolding persist_locked
  snapshot rf index data' =
      if ltb rf.commit_index index || leb index rf.log.snap_last_idx
      then some rf
      else (do_snapshot rf.log index data' >>= λ log.
          some (persist_locked (record rf { log = log })))

  -- `InstallSnapshot`, once the terms are aligned.
  unfoldable pub install : Raft C → InstallSnapshotArgs → Option (Raft C)
  unfolding persist_locked
  install rf args =
      if leb args.last_included_index rf.log.snap_last_idx
      then some rf
      else (install_snapshot rf.log args.last_included_index args.last_included_term args.snapshot
          >>= λ log.
              some (record (persist_locked (record rf { log = log })) { snap_pending = true }))

  -- The reply carries the term from before the call.
  unfoldable pub handle_install_snapshot :
      Raft C → InstallSnapshotArgs → Option (Raft C × InstallSnapshotReply)
  handle_install_snapshot rf args =
      let reply : InstallSnapshotReply = record { term = rf.current_term } in
      if ltb args.term rf.current_term
      then some (rf, reply)
      else (install (become_follower rf args.term) args >>= λ rf'. some (rf', reply))

  -- `installToPeer`, from the reply on: `nextIndex` and `matchIndex` only move forward.
  unfoldable pub handle_install_reply :
      Raft C → ℕ → ℕ → InstallSnapshotArgs → Option InstallSnapshotReply → Option (Raft C)
  unfolding become_follower context_lost
  handle_install_reply rf peer term args none = some rf
  handle_install_reply rf peer term args (some reply) =
      if ltb rf.current_term reply.term
      then some (become_follower rf reply.term)
      else if context_lost rf leader term
      then some rf
      else (do
        matched ← get_elem? rf.match_index peer
        if ltb matched args.last_included_index
            then (do
              match_index ← assign rf.match_index peer args.last_included_index
              next_index ← assign rf.next_index peer (args.last_included_index + 1)
              some (record rf { match_index = match_index; next_index = next_index }))
            else some rf)
