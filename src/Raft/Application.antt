-- ===== src/Raft/Application.antt =====
-- src/raft/raft_application.go: one round of the apply loop, in the two parts that hold the lock.
-- What it sends on `applyCh` between them is the list of messages.

-- `ApplyMsg`: a command with its index, or a snapshot with its index and term.
pub mod Delivery
use multi_raft.Common.{
  ℕ, zero, suc, ◌+◌, ◌-◌, Bool, true, false, Option, some, List, [], ◌∷◌, ltb, leb, if◌then◌else◌,
  ◌>>=◌, length,
}
use multi_raft.Raft.Log.{LogEntry, Bytes, RaftLog, size, at}
use multi_raft.Raft.Peer.{Raft}

pub data ApplyMsg (C : Type 0) : Type 0 where
  command_msg : (command_valid : Bool) → Option C → (command_index : ℕ) → ApplyMsg C
  snapshot_msg : Bytes → (snapshot_term snapshot_index : ℕ) → ApplyMsg C

module _ {C : Type 0} where
  -- `for i := start; i <= end; i++ { entries = append(entries, rf.log.at(i)) }`, `left` rounds.
  unfoldable pub read_entries : RaftLog C → ℕ → ℕ → Option (List (LogEntry C))
  read_entries rl zero i = some []
  read_entries rl (suc left) i = do e ← at rl i; es ← read_entries rl left (i + 1); some (e ∷ es)

  -- The last index to apply: the commit index, held within the log.
  unfoldable pub apply_end : Raft C → ℕ
  apply_end rf = if leb (size rf.log) rf.commit_index then size rf.log - 1 else rf.commit_index

  -- What the snapshot holds counts as applied.
  unfoldable pub skip_snapshot : Raft C → Raft C
  skip_snapshot rf = record rf {
    last_applied =
        if ltb rf.last_applied rf.log.snap_last_idx then rf.log.snap_last_idx else rf.last_applied;
  }

  -- The first part: the entries to apply are read; none, where a snapshot is pending.
  unfoldable pub collect : Raft C → Option (Raft C × List (LogEntry C))
  collect rf =
      let rf' = skip_snapshot rf in
      if rf.snap_pending
      then some (rf, [])
      else (read_entries rf'.log (apply_end rf' - rf'.last_applied) (rf'.last_applied + 1) >>= λ es.
          some (rf', es))

  -- The messages of the entries; `i` is the index of the first of them.
  unfoldable pub command_msgs : List (LogEntry C) → ℕ → List (ApplyMsg C)
  command_msgs [] i = []
  command_msgs (e ∷ es) i = command_msg e.command_valid e.command i ∷ command_msgs es (i + 1)

  -- What is sent, without the lock: the state is that of the time of sending.
  unfoldable pub messages : Raft C → Bool → List (LogEntry C) → List (ApplyMsg C)
  messages rf false es = command_msgs es (rf.last_applied + 1)
  messages rf true es = snapshot_msg rf.log.snapshot rf.log.snap_last_term rf.log.snap_last_idx ∷ []

  -- The second part.
  unfoldable pub finish : Raft C → Bool → List (LogEntry C) → Raft C
  finish rf false es = record rf { last_applied = rf.last_applied + length es }
  finish rf true es = record rf {
    last_applied = rf.log.snap_last_idx;
    commit_index =
        if ltb rf.commit_index rf.log.snap_last_idx then rf.log.snap_last_idx else rf.commit_index;
    snap_pending = false;
  }
