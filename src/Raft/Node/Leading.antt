-- ===== src/Raft/Node/Leading.antt =====
-- Elections and replication of src/raft/node.go: the tickers, cut at one round, and the goroutines
-- that they start, cut at the call. The answer of a call is `none` where the call failed, or where
-- the transport has no endpoint. `none` as a result is a panic.
use multi_raft.Common.{
  ℕ, zero, suc, ◌+◌, ◌-◌, ◌/◌, Bool, true, false, not, ◌&&◌, Option, none, some, List, [], ◌∷◌,
  ◌++◌, nat_key, string_key, ltb, leb, ◌==◌, if◌then◌else◌, ◌>>=◌, length, get_elem?, assign,
}
use multi_raft.Raft.Compaction.{InstallSnapshotArgs, InstallSnapshotReply}
use multi_raft.Raft.Election.{RequestVoteArgs, RequestVoteReply}
use multi_raft.Raft.Log.{invalid_term, invalid_index, size, at, last, first_for, tail}
use multi_raft.Raft.Node.{
  Node, Codec, reset_timer, timer_expired, lost_context, lead, follow_term, stand,
}
use multi_raft.Raft.Peer.{candidate, leader, same_role}
use multi_raft.Raft.Replication.{
  AppendEntriesArgs, AppendEntriesReply, Request, append_request, install_request, copy_into,
}

-- `tmpIndexes[i], tmpIndexes[j] = tmpIndexes[j], tmpIndexes[i]` where the first is greater, for all
-- `j` behind `i`: what ends up at `i`, and what behind it.
unfoldable pub exchange : ℕ → List ℕ → ℕ × List ℕ
exchange x [] = (x, [])
exchange x (y ∷ ys) =
    let low = if ltb y x then y else x in
    let high = if ltb y x then x else y in let rest = exchange low ys in (rest.0, high ∷ rest.1)

-- The two loops: one round of the outer loop for each element.
unfoldable pub exchange_sort : ℕ → List ℕ → List ℕ
exchange_sort zero xs = xs
exchange_sort (suc rounds) [] = []
exchange_sort (suc rounds) (x ∷ xs) =
    let least = exchange x xs in least.0 ∷ exchange_sort rounds least.1

module _ {C : Type 0} where
  unfoldable pub update_commit_index : Node C → Option (Node C)
  update_commit_index n = do
    majority ←
        get_elem? (exchange_sort (n.peers - 1) (copy_into n.peers n.match_index))
          ((n.peers - 1) / 2)
    if ltb n.commit_index majority && leb n.log.snap_last_idx majority
        then (do
          e ← at n.log majority
          if e.term == n.current_term then some (record n { commit_index = majority }) else some n)
        else some n

  -- The next index for a node that refused a request with `prev_index`.
  unfoldable pub retreat : Node C → ℕ → AppendEntriesReply → ℕ
  retreat n prev_index resp =
      let first_index = first_for n.log resp.confilict_term in
      let guess =
        if resp.confilict_term == invalid_term
        then resp.confilict_index
        else if first_index == invalid_index
        then resp.confilict_index
        else first_index in
      let bounded = if ltb (prev_index + 1) guess then prev_index + 1 else guess in
      if ltb bounded (n.log.snap_last_idx + 1) then n.log.snap_last_idx + 1 else bounded

  -- One round over the nodes for `startReplication`: the leader's own slots, or a request.
  unfoldable pub replicate_node : Node C → ℕ → Option (Node C × List (ℕ × Request C))
  replicate_node n peer =
      if peer == n.me
      then (do
        match_index ← assign n.match_index peer (size n.log - 1)
        next_index ← assign n.next_index peer (size n.log)
        some (record n { match_index = match_index; next_index = next_index }, []))
      else (do
        next ← get_elem? n.next_index peer
        if leb next n.log.snap_last_idx
            then (let req : InstallSnapshotArgs = record {
              term = n.current_term;
              leader_id = n.me;
              last_included_index = n.log.snap_last_idx;
              last_included_term = n.log.snap_last_term;
              snapshot = n.log.snapshot;
            } in
                some (n, (peer, install_request req) ∷ []))
            else (do
              e ← at n.log (next - 1)
              entries ← tail n.log next
              let req : AppendEntriesArgs C = record {
                term = n.current_term;
                leader_id = n.me;
                prev_log_index = next - 1;
                prev_log_term = e.term;
                entries = entries;
                leader_commit = n.commit_index;
              }
              some (n, (peer, append_request req) ∷ [])))

  unfoldable pub replicate_nodes : Node C → ℕ → ℕ → Option (Node C × List (ℕ × Request C))
  replicate_nodes n zero peer = some (n, [])
  replicate_nodes n (suc left) peer = replicate_node n peer >>= λ (n', sent).
      replicate_nodes n' left (peer + 1) >>= λ (n'', more). some (n'', sent ++ more)

  -- `startReplication` and the test of `replicationTicker` before it.
  unfoldable pub replication_tick : Node C → ℕ → Option (Node C × List (ℕ × Request C))
  replication_tick n term =
      if lost_context n leader term then some (n, []) else replicate_nodes n n.peers 0

  -- The requests of `startElection`, from the node `peer` on, `left` of them.
  unfoldable pub request_votes : Node C → RequestVoteArgs → ℕ → ℕ → List (ℕ × RequestVoteArgs)
  request_votes n req zero peer = []
  request_votes n req (suc left) peer =
      let rest = request_votes n req left (peer + 1) in
      if peer == n.me then rest else (peer, req) ∷ rest

  unfoldable pub campaign : Node C → ℕ → ℕ → ℕ → Option (Node C × List (ℕ × RequestVoteArgs))
  campaign n term now random =
      let (last_index, last_term) = last n.log in
      let req : RequestVoteArgs = record {
        term = term;
        candidate_id = n.me;
        last_log_index = last_index;
        last_log_term = last_term;
      } in
      if lost_context n candidate term
      then some (n, [])
      else (reset_timer n now random >>= λ n'. some (n', request_votes n' req n.peers 0))

module _ {C : Type 0} (codec : Codec C) where
  -- One round of `electionTicker`: whether `startElection` begins.
  unfoldable pub election_round : Node C → ℕ → ℕ → Option (Node C × Bool)
  election_round n now random =
      if not (same_role n.role leader) && timer_expired n now
      then (stand codec n now random >>= λ n'. some (n', true))
      else some (n, false)

  -- An answer in `startElection`: the node up to the first time that it gives up the lock, and
  -- whether the answer is looked at.
  unfoldable pub vote_arrived : Node C → ℕ → Option RequestVoteReply → Node C × Bool
  vote_arrived n term none = (n, false)
  vote_arrived n term (some resp) =
      if ltb n.current_term resp.term
      then (follow_term codec n resp.term, false)
      else (n, not (lost_context n candidate term) && resp.vote_granted)

  -- The vote is counted, and with a majority the node leads, if it is still the candidate: the node,
  -- the votes, and whether `replicationTicker` begins.
  unfoldable pub count_vote : Node C → ℕ → ℕ → Node C × ℕ × Bool
  count_vote n term votes =
      let won = ltb (n.peers / 2) (votes + 1) && not (lost_context n candidate term) in
      (if won then lead n else n, votes + 1, won)

  -- `sendAppendEntries`, from the answer on.
  unfoldable pub append_answered :
      Node C → ℕ → ℕ → AppendEntriesArgs C → Option AppendEntriesReply → Option (Node C)
  append_answered n peer term req none = some n
  append_answered n peer term req (some resp) =
      let matched = req.prev_log_index + length req.entries in
      let refused = assign n.next_index peer (retreat n req.prev_log_index resp) >>= λ next_index.
      some (record n { next_index = next_index }) in
      let succeeded = assign n.match_index peer matched >>= λ match_index.
      assign n.next_index peer (matched + 1) >>= λ next_index.
      update_commit_index (record n { match_index = match_index; next_index = next_index }) in
      if ltb n.current_term resp.term
      then some (follow_term codec n resp.term)
      else if lost_context n leader term
      then some n
      else if resp.success
      then succeeded
      else refused

  -- `sendInstallSnapshot`, from the answer on: the indexes are those of the present snapshot.
  unfoldable pub snapshot_answered : Node C → ℕ → ℕ → Option InstallSnapshotReply → Option (Node C)
  snapshot_answered n peer term none = some n
  snapshot_answered n peer term (some resp) =
      if ltb n.current_term resp.term
      then some (follow_term codec n resp.term)
      else if lost_context n leader term
      then some n
      else (do
        match_index ← assign n.match_index peer n.log.snap_last_idx
        next_index ← assign n.next_index peer (n.log.snap_last_idx + 1)
        some (record n { match_index = match_index; next_index = next_index }))
