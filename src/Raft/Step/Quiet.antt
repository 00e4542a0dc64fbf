-- ===== src/Raft/Step/Quiet.antt =====
-- Only a counted vote makes a leader of src/raft, and every candidate has voted for itself.
use mathlib.Core.Path.{subst}
use multi_raft.Common.{
  ℕ, ◌≡◌, Bool, true, false, Option, none, some, List, arith, nat_key, string_key,
}
use multi_raft.Raft.Application.{skip_snapshot, collect, finish}
use multi_raft.Raft.Compaction.{
  InstallSnapshotArgs, InstallSnapshotReply, snapshot, install, handle_install_snapshot,
  handle_install_reply,
}
use multi_raft.Raft.Election.{
  RequestVoteArgs, reset_election_timer, vote, request_vote, election_tick,
}
use multi_raft.Raft.Log.{LogEntry, Bytes}
use multi_raft.Raft.Peer.{Raft, persist_locked, become_follower, become_candidate, start, kill}
use multi_raft.Raft.Step.{
  Step, starts, kills, elects, is_asked, gets_vote, appends, replicates, gets_append, snapshots,
  installs, gets_install, collects, finishes, restarts,
}
use multi_raft.Raft.Step.Invariant.{Inv}
use multi_raft.Raft.Step.Leading.{IsQuiet, appends-IsQuiet, gets_append-IsQuiet, replicates-IsQuiet}
use multi_raft.Raft.Step.Safety.{restart, make_restores}

module _ {C : Type 0} where
  -- Any step but the reply to a request for a vote.
  abbrev pub IsOwn : {rf rf' : Raft C} → Step rf rf' → Type 0
  IsOwn (gets_vote _ _ _ _) = ⊥
  IsOwn _ = Unit

  start-IsQuiet : (rf : Raft C) (command : C) → IsQuiet rf (start rf command).0
  unfolding start persist_locked
  start-IsQuiet rf command = (λ l. ground arith, λ s c. ground arith)

  kill-IsQuiet : (rf : Raft C) → IsQuiet rf (kill rf)
  unfolding kill
  kill-IsQuiet rf = (λ l. ground arith, λ s c. ground arith)

  tick-IsQuiet : (rf : Raft C) (now : ℕ) → IsQuiet rf (election_tick rf now)
  unfolding election_tick become_candidate persist_locked
  tick-IsQuiet rf now = (λ l. ground arith, λ s c. ground arith)

  asked-IsQuiet :
      (rf : Raft C) (args : RequestVoteArgs) (now random : ℕ)
      → IsQuiet rf (request_vote rf args now random).0
  unfolding request_vote vote become_follower persist_locked reset_election_timer
  asked-IsQuiet rf args now random = (λ l. ground arith, λ s c. ground arith)

  snapshots-IsQuiet :
      (rf rf' : Raft C) (index : ℕ) (data' : Bytes)
      → snapshot rf index data' ≡ some rf'
      → IsQuiet rf rf'
  unfolding snapshot persist_locked
  snapshots-IsQuiet rf rf' index data' h = (λ l. ground arith, λ s c. ground arith)

  installs-IsQuiet :
      (rf rf' : Raft C) (args : InstallSnapshotArgs) (reply : InstallSnapshotReply)
      → handle_install_snapshot rf args ≡ some (rf', reply)
      → IsQuiet rf rf'
  unfolding handle_install_snapshot install become_follower persist_locked
  installs-IsQuiet rf rf' args reply h = (λ l. ground arith, λ s c. ground arith)

  gets_install-IsQuiet :
      (rf rf' : Raft C) (peer term : ℕ) (args : InstallSnapshotArgs)
      (reply : Option InstallSnapshotReply)
      → handle_install_reply rf peer term args reply ≡ some rf'
      → IsQuiet rf rf'
  unfolding handle_install_reply become_follower persist_locked
  gets_install-IsQuiet rf rf' peer term args none h = (λ l. ground arith, λ s c. ground arith)
  gets_install-IsQuiet rf rf' peer term args (some reply) h =
      (λ l. ground arith, λ s c. ground arith)

  collects-IsQuiet :
      (rf rf' : Raft C) (es : List (LogEntry C)) → collect rf ≡ some (rf', es) → IsQuiet rf rf'
  unfolding collect skip_snapshot
  collects-IsQuiet rf rf' es h = (λ l. ground arith, λ s c. ground arith)

  finishes-IsQuiet :
      (rf : Raft C) (pending : Bool) (es : List (LogEntry C)) → IsQuiet rf (finish rf pending es)
  unfolding finish
  finishes-IsQuiet rf true es = (λ l. ground arith, λ s c. ground arith)
  finishes-IsQuiet rf false es = (λ l. ground arith, λ s c. ground arith)

  make-IsQuiet : (rf : Raft C) → Inv rf → IsQuiet rf (restart rf)
  make-IsQuiet rf v =
      (λ l. ground (arith, make_restores rf v), λ s c. ground (arith, make_restores rf v))

  -- Only the reply to a request for a vote makes a leader: any other step leaves a leader in the
  -- term it leads, or makes none.
  pub Step-IsQuiet : {rf rf' : Raft C} (st : Step rf rf') → Inv rf → IsOwn st → IsQuiet rf rf'
  Step-IsQuiet {rf} (starts command e) v o = subst (IsQuiet rf) e (start-IsQuiet rf command)
  Step-IsQuiet {rf} (kills e) v o = subst (IsQuiet rf) e (kill-IsQuiet rf)
  Step-IsQuiet {rf} (elects now e) v o = subst (IsQuiet rf) e (tick-IsQuiet rf now)
  Step-IsQuiet {rf} (is_asked args now random e) v o =
      subst (IsQuiet rf) e (asked-IsQuiet rf args now random)
  Step-IsQuiet (gets_vote term votes reply e) v o = absurd o
  Step-IsQuiet {rf} {rf'} (appends args now random reply e) v o =
      appends-IsQuiet rf rf' args now random reply e
  Step-IsQuiet {rf} {rf'} (replicates term going sent e) v o =
      replicates-IsQuiet rf rf' term going sent e
  Step-IsQuiet {rf} {rf'} (gets_append peer term args reply e) v o =
      gets_append-IsQuiet rf rf' peer term args reply e
  Step-IsQuiet {rf} {rf'} (snapshots index data' e) v o = snapshots-IsQuiet rf rf' index data' e
  Step-IsQuiet {rf} {rf'} (installs args reply e) v o = installs-IsQuiet rf rf' args reply e
  Step-IsQuiet {rf} {rf'} (gets_install peer term args reply e) v o =
      gets_install-IsQuiet rf rf' peer term args reply e
  Step-IsQuiet {rf} {rf'} (collects es e) v o = collects-IsQuiet rf rf' es e
  Step-IsQuiet {rf} (finishes pending es e) v o =
      subst (IsQuiet rf) e (finishes-IsQuiet rf pending es)
  Step-IsQuiet {rf} (restarts e) v o = subst (IsQuiet rf) e (make-IsQuiet rf v)
