-- ===== src/Raft/Node/Applying.antt =====
-- `applicationTicker` of src/raft/node.go: one round of the loop.
use multi_raft.Common.{
  ℕ, zero, suc, ◌+◌, ◌-◌, Bool, true, false, Option, some, List, [], ◌∷◌, ◌++◌, nat_key, string_key,
  ltb, if◌then◌else◌, ◌>>=◌,
}
use multi_raft.Raft.Application.{ApplyMsg, command_msg, snapshot_msg}
use multi_raft.Raft.Log.{RaftLog, at}
use multi_raft.Raft.Node.{Node}

module _ {C : Type 0} where
  -- The entries from `index` on, `left` of them. `CommandValid` is set for each.
  unfoldable pub gather : RaftLog C → ℕ → ℕ → Option (List (ApplyMsg C))
  gather log zero index = some []
  gather log (suc left) index = do
    entry ← at log index
    rest ← gather log left (index + 1)
    some (command_msg true entry.command index ∷ rest)

  -- What a round takes, with the lock held; it waits while there is nothing to take.
  unfoldable pub application_round : Node C → Option (Node C × List (ApplyMsg C))
  application_round n =
      let pending : List (ApplyMsg C) =
        if n.snap_pending
        then snapshot_msg n.log.snapshot n.log.snap_last_term n.log.snap_last_idx ∷ []
        else [] in
      let from = if n.snap_pending then n.log.snap_last_idx else n.last_applied in
      let to = if ltb from n.commit_index then n.commit_index else from in
      gather n.log (to - from) (from + 1) >>= λ msgs.
      some (record n { snap_pending = false; last_applied = to }, pending ++ msgs)

  -- Without the lock, a message is sent where the service is ready to take it at once, and dropped
  -- elsewhere.
  unfoldable pub deliver : List (ApplyMsg C) → List Bool → List (ApplyMsg C)
  deliver (msg ∷ msgs) (true ∷ ready) = msg ∷ deliver msgs ready
  deliver (msg ∷ msgs) (false ∷ ready) = deliver msgs ready
  deliver _ _ = []
