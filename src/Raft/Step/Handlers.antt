-- ===== src/Raft/Step/Handlers.antt =====
-- The handlers of src/raft/raft_election.go and src/raft/raft_compaction.go keep the invariant.
use multi_raft.Common.{
  if_cases, ℕ, ◌+◌, ◌≡◌, Bool, true, false, Option, none, some, List, arith, ltb, length-set,
}
use multi_raft.Raft.Application.{skip_snapshot, collect, finish}
use multi_raft.Raft.Compaction.{
  InstallSnapshotArgs, InstallSnapshotReply, snapshot, install, handle_install_snapshot,
  handle_install_reply,
}
use multi_raft.Raft.Election.{
  RequestVoteArgs, RequestVoteReply, vote, request_vote, handle_vote_reply, election_tick,
}
use multi_raft.Raft.Log.{LogEntry, Bytes}
use multi_raft.Raft.Log.Compaction.{do_snapshot_lem, install_snapshot_lem}
use multi_raft.Raft.Peer.{Raft, become_follower}
use multi_raft.Raft.Step.Invariant.{
  Inv, Kept, Kept-self, Kept-trans, persist_log-Kept, become_follower-Kept, become_candidate-Kept,
  become_leader-Kept,
}

module _ {C : Type 0} where
  pub election_tick-Kept : (rf : Raft C) (now : ℕ) → Inv rf → Kept rf (election_tick rf now)
  unfolding election_tick
  election_tick-Kept rf now v = ground (arith, become_candidate-Kept rf v, Kept-self v)

  vote-Kept :
      (rf : Raft C) (term : ℕ) (args : RequestVoteArgs) (now random : ℕ)
      → Inv rf
      → Kept rf (vote rf term args now random).0
  unfolding vote
  vote-Kept rf term args now random v = ground (arith, Kept-self v)

  pub request_vote-Kept :
      (rf : Raft C) (args : RequestVoteArgs) (now random : ℕ)
      → Inv rf
      → Kept rf (request_vote rf args now random).0
  unfolding request_vote
  request_vote-Kept rf args now random v =
      if_cases (λ (out : Raft C × RequestVoteReply). Kept rf out.0) (ltb args.term rf.current_term)
        _ _ (λ _. Kept-self v)
        λ _.
          if_cases (λ (rf' : Raft C). Kept rf (vote rf' rf.current_term args now random).0)
            (ltb rf.current_term args.term) _ _
            (λ _.
              Kept-trans (become_follower-Kept rf args.term v)
                (vote-Kept (become_follower rf args.term) rf.current_term args now random))
            (λ _. vote-Kept rf rf.current_term args now random v)

  pub handle_vote_reply-Kept :
      (rf : Raft C) (term votes : ℕ) (reply : Option RequestVoteReply)
      → Inv rf
      → Kept rf (handle_vote_reply rf term votes reply).0
  unfolding handle_vote_reply
  handle_vote_reply-Kept rf term votes none v = Kept-self v
  handle_vote_reply-Kept rf term votes (some reply) v =
      ground (arith, Kept-self v, become_follower-Kept rf reply.term v, become_leader-Kept rf v)

  pub snapshot-Kept :
      (rf rf' : Raft C) (index : ℕ) (data' : Bytes)
      → Inv rf
      → snapshot rf index data' ≡ some rf'
      → Kept rf rf'
  unfolding snapshot
  snapshot-Kept rf rf' index data' v h =
      let (log, done, w, sized, cases) = do_snapshot_lem rf.log index data' v.formed in
      ground (arith, done, persist_log-Kept rf log v w, Kept-self v)

  pub finish-Kept :
      (rf : Raft C) (pending : Bool) (es : List (LogEntry C))
      → Inv rf
      → Kept rf (finish rf pending es)
  unfolding finish
  finish-Kept rf false es v = ground arith
  finish-Kept rf true es v = ground arith

  skip_snapshot-Kept : (rf : Raft C) → Inv rf → Kept rf (skip_snapshot rf)
  unfolding skip_snapshot
  skip_snapshot-Kept rf v = ground arith

  pub collect-Kept :
      (rf rf' : Raft C) (es : List (LogEntry C))
      → Inv rf
      → collect rf ≡ some (rf', es)
      → Kept rf rf'
  unfolding collect
  collect-Kept rf rf' es v h = ground (arith, Kept-self v, skip_snapshot-Kept rf v)

  install-Kept :
      (rf rf' : Raft C) (args : InstallSnapshotArgs)
      → Inv rf
      → install rf args ≡ some rf'
      → Kept rf rf'
  unfolding install
  install-Kept rf rf' args v h =
      let (log, done, w, cases) =
        install_snapshot_lem rf.log args.last_included_index args.last_included_term args.snapshot
          v.formed in
      ground (arith, done, persist_log-Kept rf log v w, Kept-self v)

  follow_install-Kept :
      (rf rf' : Raft C) (args : InstallSnapshotArgs)
      → Inv rf
      → install (become_follower rf args.term) args ≡ some rf'
      → Kept rf rf'
  follow_install-Kept rf rf' args v h =
      Kept-trans (become_follower-Kept rf args.term v)
        (λ w. install-Kept (become_follower rf args.term) rf' args w h)

  pub handle_install_snapshot-Kept :
      (rf rf' : Raft C) (args : InstallSnapshotArgs) (reply : InstallSnapshotReply)
      → Inv rf
      → handle_install_snapshot rf args ≡ some (rf', reply)
      → Kept rf rf'
  unfolding handle_install_snapshot
  handle_install_snapshot-Kept rf rf' args reply v h =
      ground (arith, Kept-self v, follow_install-Kept rf rf' args v)

  pub handle_install_reply-Kept :
      (rf rf' : Raft C) (peer term : ℕ) (args : InstallSnapshotArgs)
      (reply : Option InstallSnapshotReply)
      → Inv rf
      → handle_install_reply rf peer term args reply ≡ some rf'
      → Kept rf rf'
  unfolding handle_install_reply
  handle_install_reply-Kept rf rf' peer term args none v h = ground (arith, Kept-self v)
  handle_install_reply-Kept rf rf' peer term args (some reply) v h = ground (
    arith,
    Kept-self v,
    become_follower-Kept rf reply.term v,
    length-set rf.match_index peer args.last_included_index,
    length-set rf.next_index peer (args.last_included_index + 1),
  )
