-- ===== src/Raft/Step.antt =====
-- Everything that can happen to one peer of src/raft: a call from the service, an RPC, a reply, a
-- timer, a round of the apply loop in its two parts, and a crash with the restart by `Make`.
pub mod Invariant
pub mod Handlers
pub mod Replicating
pub mod Safety
pub mod Leading
pub mod Quiet
use multi_raft.Common.{ℕ, ◌≡◌, Bool, Option, some, List, []}
use multi_raft.Raft.Application.{collect, finish}
use multi_raft.Raft.Compaction.{
  InstallSnapshotArgs, InstallSnapshotReply, snapshot, handle_install_snapshot,
  handle_install_reply,
}
use multi_raft.Raft.Election.{
  RequestVoteArgs, RequestVoteReply, request_vote, handle_vote_reply, election_tick,
}
use multi_raft.Raft.Log.{LogEntry, Bytes}
use multi_raft.Raft.Peer.{Raft, start, kill, make}
use multi_raft.Raft.Replication.{
  AppendEntriesArgs, AppendEntriesReply, Request, append_entries, handle_append_reply,
  start_replication,
}

pub data Step {C : Type 0} (rf rf' : Raft C) : Type 0 where
  starts : (command : C) → (start rf command).0 ≡ rf' → Step rf rf'
  kills : kill rf ≡ rf' → Step rf rf'
  elects : (now : ℕ) → election_tick rf now ≡ rf' → Step rf rf'
  is_asked :
      (args : RequestVoteArgs) (now random : ℕ)
      → (request_vote rf args now random).0 ≡ rf'
      → Step rf rf'
  gets_vote :
      (term votes : ℕ) (reply : Option RequestVoteReply)
      → (handle_vote_reply rf term votes reply).0 ≡ rf'
      → Step rf rf'
  appends :
      (args : AppendEntriesArgs C) (now random : ℕ) (reply : AppendEntriesReply)
      → append_entries rf args now random ≡ some (rf', reply)
      → Step rf rf'
  replicates :
      (term : ℕ) (going : Bool) (sent : List (ℕ × Request C))
      → start_replication rf term ≡ some (rf', going, sent)
      → Step rf rf'
  gets_append :
      (peer term : ℕ) (args : AppendEntriesArgs C) (reply : Option AppendEntriesReply)
      → handle_append_reply rf peer term args reply ≡ some rf'
      → Step rf rf'
  snapshots : (index : ℕ) (data' : Bytes) → snapshot rf index data' ≡ some rf' → Step rf rf'
  installs :
      (args : InstallSnapshotArgs) (reply : InstallSnapshotReply)
      → handle_install_snapshot rf args ≡ some (rf', reply)
      → Step rf rf'
  gets_install :
      (peer term : ℕ) (args : InstallSnapshotArgs) (reply : Option InstallSnapshotReply)
      → handle_install_reply rf peer term args reply ≡ some rf'
      → Step rf rf'
  collects : (es : List (LogEntry C)) → collect rf ≡ some (rf', es) → Step rf rf'
  finishes : (pending : Bool) (es : List (LogEntry C)) → finish rf pending es ≡ rf' → Step rf rf'
  restarts : make rf.peers rf.me rf.persister ≡ rf' → Step rf rf'

-- The states of a peer that started with an empty persister.
pub data Reach {C : Type 0} (peers me : ℕ) : Raft C → Type 0 where
  boots :
      (snapshot : Bytes)
      → Reach peers me (make peers me (record { raftstate = []; snapshot = snapshot }))
  later : {rf rf' : Raft C} → Reach peers me rf → Step rf rf' → Reach peers me rf'
