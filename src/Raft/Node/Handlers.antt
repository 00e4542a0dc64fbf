-- ===== src/Raft/Node/Handlers.antt =====
-- The RPC handlers of src/raft/node.go. `none` is a panic.
use multi_raft.Common.{
  ℕ, Bool, true, false, not, ◌||◌, Option, none, some, nat_key, string_key, ltb, leb, ◌==◌,
  if◌then◌else◌, ◌>>=◌,
}
use multi_raft.Raft.Compaction.{InstallSnapshotArgs, InstallSnapshotReply}
use multi_raft.Raft.Election.{RequestVoteArgs, RequestVoteReply}
use multi_raft.Raft.Log.{invalid_term, size, at, last, first_for, append_from, install_snapshot}
use multi_raft.Raft.Node.{Node, Codec, reset_timer, is_newer, save_node, follow_term}
use multi_raft.Raft.Replication.{AppendEntriesArgs, AppendEntriesReply}

abbrev pub vote_reply : ℕ → Bool → RequestVoteReply
vote_reply term granted = record { term = term; vote_granted = granted }

abbrev pub append_reply : ℕ → Bool → ℕ → ℕ → AppendEntriesReply
append_reply term success index conflict = record {
  term = term;
  success = success;
  confilict_index = index;
  confilict_term = conflict;
}

module _ {C : Type 0} where
  -- The commit index follows the leader's, as far as the log goes.
  unfoldable pub follow_commit : Node C → ℕ → Node C
  follow_commit n leader_commit =
      let last_index = (last n.log).0 in
      if ltb n.commit_index leader_commit
      then record n {
        commit_index = if ltb last_index leader_commit then last_index else leader_commit;
      }
      else n

module _ {C : Type 0} (codec : Codec C) where
  -- The rest of `HandleRequestVote`, once the terms are aligned.
  unfoldable pub give_vote : Node C → RequestVoteArgs → ℕ → ℕ → Option (Node C × RequestVoteReply)
  give_vote n req now random =
      let taken : Bool = elim n.voted_for [ none ↦ false | some c ↦ not (c == req.candidate_id) ] in
      if taken || is_newer n req.last_log_index req.last_log_term
      then some (n, vote_reply n.current_term false)
      else (reset_timer (save_node codec (record n { voted_for = some req.candidate_id })) now
            random
          >>= λ n'. some (n', vote_reply n.current_term true))

  unfoldable pub handle_request_vote :
      Node C → RequestVoteArgs → ℕ → ℕ → Option (Node C × RequestVoteReply)
  handle_request_vote n req now random =
      if ltb req.term n.current_term
      then some (n, vote_reply n.current_term false)
      else give_vote (if ltb n.current_term req.term then follow_term codec n req.term else n) req
          now random

  -- `HandleAppendEntries`, once the terms are aligned; `term` is the one to reply with.
  unfoldable pub match_entries :
      Node C → ℕ → AppendEntriesArgs C → Option (Node C × AppendEntriesReply)
  match_entries n term req =
      if leb (size n.log) req.prev_log_index
      then some (n, append_reply term false (size n.log) invalid_term)
      else if ltb req.prev_log_index n.log.snap_last_idx
      then some (n, append_reply term false n.log.snap_last_idx n.log.snap_last_term)
      else (do
        e ← at n.log req.prev_log_index
        if e.term == req.prev_log_term
            then (do
              log ← append_from n.log req.prev_log_index req.entries
              some (
                follow_commit (save_node codec (record n { log = log })) req.leader_commit,
                append_reply term true 0 0,
              ))
            else some (n, append_reply term false (first_for n.log e.term) e.term))

  -- The reply carries the term from before the call.
  unfoldable pub handle_append_entries :
      Node C → AppendEntriesArgs C → ℕ → ℕ → Option (Node C × AppendEntriesReply)
  handle_append_entries n req now random =
      if ltb req.term n.current_term
      then some (n, append_reply n.current_term false 0 0)
      else (match_entries (follow_term codec n req.term) n.current_term req >>= λ (n', reply).
          reset_timer n' now random >>= λ n''. some (n'', reply))

  unfoldable pub take_over : Node C → InstallSnapshotArgs → Option (Node C)
  take_over n req = if leb req.last_included_index n.log.snap_last_idx then some n else (do
    log ← install_snapshot n.log req.last_included_index req.last_included_term req.snapshot
    let saved : Node C = save_node codec (record n { log = log })
    some (record saved {
      snap_pending = true;
      commit_index =
          if ltb saved.commit_index req.last_included_index
          then req.last_included_index
          else saved.commit_index;
    }))

  unfoldable pub node_install_snapshot :
      Node C → InstallSnapshotArgs → ℕ → ℕ → Option (Node C × InstallSnapshotReply)
  node_install_snapshot n req now random =
      if ltb req.term n.current_term then some (n, record { term = n.current_term }) else (do
        n' ← take_over (follow_term codec n req.term) req
        n'' ← reset_timer n' now random
        some (n'', record { term = n''.current_term }))
