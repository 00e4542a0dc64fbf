-- ===== src/Raft/Step/Safety.antt =====
-- What holds of a peer of src/raft in every state that it can reach, crashes included.
use mathlib.Core.Path.{subst}
use multi_raft.Common.{some, [], ℕ, ◌≡◌, arith, length-replicate}
use multi_raft.Raft.Log.{Bytes}
use multi_raft.Raft.Peer.{kill, follower, Raft, make}
use multi_raft.Raft.Step.{
  Step, starts, kills, elects, is_asked, gets_vote, appends, replicates, gets_append, snapshots,
  installs, gets_install, collects, finishes, restarts, Reach, boots, later,
}
use multi_raft.Raft.Step.Handlers.{
  election_tick-Kept, request_vote-Kept, handle_vote_reply-Kept, snapshot-Kept, finish-Kept,
  collect-Kept, handle_install_snapshot-Kept, handle_install_reply-Kept,
}
use multi_raft.Raft.Step.Invariant.{start-Kept, Extends, Kept-trans, Kept-self, Kept, Inv}
use multi_raft.Raft.Step.Replicating.{
  append_entries-Kept, handle_append_reply-Kept, start_replication-Kept,
}

module _ {C : Type 0} where
  -- The state after a restart from what is stored: term, vote and log as they were.
  pub record IsRestored (rf rf' : Raft C) : Type 0 where
    pub same_term : rf'.current_term ≡ rf.current_term
    pub same_vote : rf'.voted_for ≡ rf.voted_for
    pub same_log : rf'.log ≡ rf.log
    pub as_follower : rf'.role ≡ follower
    pub committed : rf'.commit_index ≡ rf.log.snap_last_idx
    pub applied : rf'.last_applied ≡ rf.log.snap_last_idx

  abbrev pub restart : Raft C → Raft C
  restart rf = make rf.peers rf.me rf.persister

  -- Restart round trip: `Make` on the persister of a peer whose storage is up to date gives back
  -- its term, its vote and its whole log, as a follower; exactly what the snapshot covers counts as
  -- committed and as applied.
  pub make_restores : (rf : Raft C) → Inv rf → IsRestored rf (restart rf)
  unfolding make
  make_restores rf v = ground arith

  make-Kept : (rf : Raft C) → Inv rf → Kept rf (restart rf)
  unfolding make
  make-Kept rf v = ground (arith, length-replicate {0} rf.peers (let z : ℕ = 0 in z))

  kill-Kept : (rf : Raft C) → Inv rf → Kept rf (kill rf)
  unfolding kill
  kill-Kept rf v = ground arith

  pub boot-Inv :
      (peers me : ℕ) (snapshot : Bytes)
      → Inv (make {C = C} peers me (record { raftstate = []; snapshot = snapshot }))
  unfolding make
  boot-Inv peers me snapshot = ground (arith, length-replicate {0} peers (let z : ℕ = 0 in z))

  -- Every step of a peer, a crash with restart included, keeps stable storage up to date with term,
  -- vote and log, keeps the log anchored at its snapshot and a slot for each peer; and from one
  -- state to the next the term does not fall, and within a term a vote once given is not changed.
  pub Step-Kept : {rf rf' : Raft C} → Inv rf → Step rf rf' → Inv rf' × Extends rf rf'
  Step-Kept {rf} v (starts command e) = subst (Kept rf) e (start-Kept rf command v)
  Step-Kept {rf} v (kills e) = subst (Kept rf) e (kill-Kept rf v)
  Step-Kept {rf} v (elects now e) = subst (Kept rf) e (election_tick-Kept rf now v)
  Step-Kept {rf} v (is_asked args now random e) =
      subst (Kept rf) e (request_vote-Kept rf args now random v)
  Step-Kept {rf} v (gets_vote term votes reply e) =
      subst (Kept rf) e (handle_vote_reply-Kept rf term votes reply v)
  Step-Kept {rf} {rf'} v (appends args now random reply e) =
      append_entries-Kept rf rf' args now random reply v e
  Step-Kept {rf} {rf'} v (replicates term going sent e) =
      start_replication-Kept rf rf' term going sent v e
  Step-Kept {rf} {rf'} v (gets_append peer term args reply e) =
      handle_append_reply-Kept rf rf' peer term args reply v e
  Step-Kept {rf} {rf'} v (snapshots index data' e) = snapshot-Kept rf rf' index data' v e
  Step-Kept {rf} {rf'} v (installs args reply e) =
      handle_install_snapshot-Kept rf rf' args reply v e
  Step-Kept {rf} {rf'} v (gets_install peer term args reply e) =
      handle_install_reply-Kept rf rf' peer term args reply v e
  Step-Kept {rf} {rf'} v (collects es e) = collect-Kept rf rf' es v e
  Step-Kept {rf} v (finishes pending es e) = subst (Kept rf) e (finish-Kept rf pending es v)
  Step-Kept {rf} v (restarts e) = subst (Kept rf) e (make-Kept rf v)

  pub Reach-Inv : {peers me : ℕ} {rf : Raft C} → Reach peers me rf → Inv rf
  Reach-Inv {peers} {me} (boots snapshot) = boot-Inv peers me snapshot
  Reach-Inv (later r st) = (Step-Kept (Reach-Inv r) st).0

  -- From one state to a later one, by any number of steps.
  pub data Steps (rf : Raft C) : Raft C → Type 0 where
    here : Steps rf rf
    then' : {rf' rf'' : Raft C} → Steps rf rf' → Step rf' rf'' → Steps rf rf''

  pub Steps-Kept : {rf rf' : Raft C} → Inv rf → Steps rf rf' → Kept rf rf'
  Steps-Kept v here = Kept-self v
  Steps-Kept v (then' r st) = Kept-trans (Steps-Kept v r) (λ w. Step-Kept w st)

  -- A peer votes at most once in a term: in two states of one history that have the same term, two
  -- votes are for the same candidate, whatever happens between them, crashes included.
  pub vote_once :
      {peers me : ℕ} {rf rf' : Raft C} (a b : ℕ)
      → Reach peers me rf
      → Steps rf rf'
      → rf'.current_term ≡ rf.current_term
      → rf.voted_for ≡ some a
      → rf'.voted_for ≡ some b
      → a ≡ b
  vote_once a b r steps same va vb =
      let kept = (Steps-Kept (Reach-Inv r) steps).1.vote_stands a same va in cc
