-- ===== src/Raft/Replication.antt =====
-- src/raft/raft_replication.go: the RPC that appends entries, on both of its sides.
pub mod Follower
pub mod Leader
use multi_raft.Common.{
  ℕ, zero, suc, ◌+◌, ◌-◌, ◌/◌, Bool, true, false, Option, none, some, List, [], ◌∷◌, ◌++◌, sort,
  ltb, leb, ◌==◌, if◌then◌else◌, ◌>>=◌, length, get_elem?, take, replicate, assign,
}
use multi_raft.Raft.Compaction.{InstallSnapshotArgs}
use multi_raft.Raft.Election.{reset_election_timer}
use multi_raft.Raft.Log.{
  RaftLog, invalid_term, invalid_index, LogEntry, size, at, first_for, tail, append_from,
}
use multi_raft.Raft.Peer.{leader, Raft, persist_locked, become_follower, context_lost}

pub record AppendEntriesArgs (C : Type 0) : Type 0 where
  pub term : ℕ
  pub leader_id : ℕ
  pub prev_log_index : ℕ
  pub prev_log_term : ℕ
  pub entries : List (LogEntry C)
  pub leader_commit : ℕ

-- `confilict`, as the source spells it.
pub record AppendEntriesReply : Type 0 where
  pub term : ℕ
  pub success : Bool
  pub confilict_index : ℕ
  pub confilict_term : ℕ

-- What the leader sends to one peer.
pub data Request (C : Type 0) : Type 0 where
  append_request : AppendEntriesArgs C → Request C
  install_request : InstallSnapshotArgs → Request C

-- `copy` into `make([]int, n)`.
abbrev pub copy_into : ℕ → List ℕ → List ℕ
copy_into n xs = take n (xs ++ replicate n 0)

abbrev pub rejected : ℕ → ℕ → ℕ → AppendEntriesReply
rejected term index conflict = record {
  term = term;
  success = false;
  confilict_index = index;
  confilict_term = conflict;
}

module _ {C : Type 0} where
  -- The state and the reply once `log` has taken the entries over: it is saved, and the commit
  -- index follows the leader's.
  unfoldable pub accepted :
      Raft C → ℕ → AppendEntriesArgs C → RaftLog C → Raft C × AppendEntriesReply
  unfolding persist_locked
  accepted rf term args log =
      let rf' = persist_locked (record rf { log = log }) in
      let reply : AppendEntriesReply = record {
        term = term;
        success = true;
        confilict_index = 0;
        confilict_term = 0;
      } in
      (
        (if ltb rf'.commit_index args.leader_commit
            then record rf' { commit_index = args.leader_commit }
            else rf'),
        reply,
      )

  -- The leader's entries replace all that follows `PrevLogIndex`.
  unfoldable pub accept : Raft C → ℕ → AppendEntriesArgs C → Option (Raft C × AppendEntriesReply)
  unfolding accepted
  accept rf term args = append_from rf.log args.prev_log_index args.entries >>= λ log.
      some (accepted rf term args log)

  -- `AppendEntries`, once the terms are aligned; `term` is the one to reply with.
  unfoldable pub follow : Raft C → ℕ → AppendEntriesArgs C → Option (Raft C × AppendEntriesReply)
  follow rf term args =
      if leb (size rf.log) args.prev_log_index
      then some (rf, rejected term (size rf.log) invalid_term)
      else if ltb args.prev_log_index rf.log.snap_last_idx
      then some (rf, rejected term rf.log.snap_last_idx rf.log.snap_last_term)
      else (do
        e ← at rf.log args.prev_log_index
        if e.term == args.prev_log_term
            then accept rf term args
            else some (rf, rejected term (first_for rf.log e.term) e.term))

  -- The reply carries the term from before the call; the timer is reset on every way out but the
  -- first.
  unfoldable pub append_entries :
      Raft C → AppendEntriesArgs C → ℕ → ℕ → Option (Raft C × AppendEntriesReply)
  unfolding reset_election_timer
  append_entries rf args now random =
      if ltb args.term rf.current_term
      then some (rf, rejected rf.current_term 0 0)
      else (follow (become_follower rf args.term) rf.current_term args >>= λ (rf', reply).
          some (reset_election_timer rf' now random, reply))

  unfoldable pub get_majority_index : Raft C → Option ℕ
  unfolding sort
  get_majority_index rf = get_elem? (sort (copy_into rf.peers rf.match_index)) ((rf.peers - 1) / 2)

  -- The leader's new commit index, after a peer has caught up.
  unfoldable pub advance_commit : Raft C → Option (Raft C)
  advance_commit rf = do
    majority ← get_majority_index rf
    if ltb rf.commit_index majority
        then (do
          e ← at rf.log majority
          if e.term == rf.current_term
              then some (record rf { commit_index = majority })
              else some rf)
        else some rf

  -- The leader's next guess for a peer that refused; never above the guess before it.
  unfoldable pub probe : Raft C → ℕ → AppendEntriesReply → ℕ
  probe rf prev_index reply =
      let first_index = first_for rf.log reply.confilict_term in
      let guess =
        if reply.confilict_term == invalid_term
        then reply.confilict_index
        else if first_index == invalid_index
        then reply.confilict_index
        else first_index in
      if ltb prev_index guess then prev_index else guess

  -- A refusal. The entry before the new guess is read for the log message, where it is in the log.
  unfoldable pub handle_refusal : Raft C → ℕ → AppendEntriesReply → Option (Raft C)
  handle_refusal rf peer reply = do
    prev_index ← get_elem? rf.next_index peer
    let next = probe rf prev_index reply
    next_index ← assign rf.next_index peer next
    let rf' = record rf { next_index = next_index }
    if leb (rf.log.snap_last_idx + 1) next
        then (at rf.log (next - 1) >>= λ _. some rf')
        else some rf'

  unfoldable pub handle_success : Raft C → ℕ → AppendEntriesArgs C → Option (Raft C)
  handle_success rf peer args = do
    let matched = args.prev_log_index + length args.entries
    match_index ← assign rf.match_index peer matched
    next_index ← assign rf.next_index peer (matched + 1)
    advance_commit (record rf { match_index = match_index; next_index = next_index })

  -- `replicateToPeer`, from the reply on; `term` is the one of the leadership.
  unfoldable pub handle_append_reply :
      Raft C → ℕ → ℕ → AppendEntriesArgs C → Option AppendEntriesReply → Option (Raft C)
  handle_append_reply rf peer term args none = some rf
  handle_append_reply rf peer term args (some reply) =
      if ltb rf.current_term reply.term
      then some (become_follower rf reply.term)
      else if context_lost rf leader term
      then some rf
      else if reply.success
      then handle_success rf peer args
      else handle_refusal rf peer reply

  -- The body of the loop of `startReplication`: the leader's own slots, or a request. `prevIdx` is
  -- `nextIndex[peer] - 1` there; the test is `prevIdx < snapLastIdx`.
  unfoldable pub replicate_to : Raft C → ℕ → Option (Raft C × List (ℕ × Request C))
  replicate_to rf peer =
      if peer == rf.me
      then (do
        match_index ← assign rf.match_index peer (size rf.log - 1)
        next_index ← assign rf.next_index peer (size rf.log)
        some (record rf { match_index = match_index; next_index = next_index }, []))
      else (do
        next ← get_elem? rf.next_index peer
        if leb next rf.log.snap_last_idx
            then (let args : InstallSnapshotArgs = record {
              term = rf.current_term;
              leader_id = rf.me;
              last_included_index = rf.log.snap_last_idx;
              last_included_term = rf.log.snap_last_term;
              snapshot = rf.log.snapshot;
            } in
                some (rf, (peer, install_request args) ∷ []))
            else (do
              e ← at rf.log (next - 1)
              es ← tail rf.log next
              let args : AppendEntriesArgs C = record {
                term = rf.current_term;
                leader_id = rf.me;
                prev_log_index = next - 1;
                prev_log_term = e.term;
                entries = es;
                leader_commit = rf.commit_index;
              }
              some (rf, (peer, append_request args) ∷ [])))

  -- The loop over the peers from `peer` on, `left` of them.
  unfoldable pub replicate_loop : Raft C → ℕ → ℕ → Option (Raft C × List (ℕ × Request C))
  replicate_loop rf zero peer = some (rf, [])
  replicate_loop rf (suc left) peer = replicate_to rf peer >>= λ (rf', sent).
      replicate_loop rf' left (peer + 1) >>= λ (rf'', more). some (rf'', sent ++ more)

  -- `startReplication`: whether the leadership of `term` still stands, and the requests.
  unfoldable pub start_replication : Raft C → ℕ → Option (Raft C × Bool × List (ℕ × Request C))
  start_replication rf term =
      if context_lost rf leader term
      then some (rf, false, [])
      else (replicate_loop rf rf.peers 0 >>= λ (rf', sent). some (rf', true, sent))
