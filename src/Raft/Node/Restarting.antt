-- ===== src/Raft/Node/Restarting.antt =====
-- A crash of a node of src/raft/node.go, and `NewNode` on the storage that is left.
use multi_raft.Common.{
  ℕ, ◌+◌, ◌%◌, ◌<◌, ◌≡◌, refl, inr, false, Option, none, some, List, [], arith, nat_key, string_key,
  ltb, if◌then◌else◌, length, replicate,
}
use multi_raft.Raft.Log.{LogEntry, Bytes, new_log}
use multi_raft.Raft.Node.{
  default_election_timeout_min, default_node_config, validate, Node, Codec, reset_timer,
  serialize_log, save_node, load_state, load_from_storage, new_node,
}
use multi_raft.Raft.Peer.{follower}
use multi_raft.Raft.Storage.{
  RaftState, Snapshot, load, save_raft_state, load_raft_state, save_snapshot, load_snapshot,
}

load_lem :
    {A : Type 0} (decode : Bytes → Option A) (bytes : Bytes) (a : A)
    → 0 < length bytes
    → decode bytes ≡ some a
    → load decode bytes ≡ inr a
unfolding load
load_lem decode bytes a full back = ground (arith, back)

module _ {C : Type 0} where
  -- encoding/gob does not fail on these values, writes something, and reads back what it wrote.
  pub record IsCodec (codec : Codec C) : Type 0 where
    pub log_written : (i t : ℕ) (es : List (LogEntry C)) → 0 < length (codec.encode_log i t es)
    pub log_back :
        (i t : ℕ) (es : List (LogEntry C))
        → codec.decode_log (codec.encode_log i t es) ≡ some (i, t, es)
    pub state_back :
        (s : RaftState)
        → (bytes : Bytes) × (codec.encode_state s ≡ some bytes)
          × (0 < length bytes)
          × (codec.decode_state bytes ≡ some s)
    pub snapshot_back :
        (s : Snapshot)
        → (bytes : Bytes) × (codec.encode_snapshot s ≡ some bytes)
          × (0 < length bytes)
          × (codec.decode_snapshot bytes ≡ some s)

  -- What is saved.
  abbrev state_of : Codec C → Node C → RaftState
  state_of codec n = record {
    current_term = n.current_term;
    voted_for = n.voted_for;
    log = serialize_log codec n.log;
  }

  abbrev snapshot_of : Node C → Snapshot
  snapshot_of n = record {
    index = n.log.snap_last_idx;
    term = n.log.snap_last_term;
    data' = n.log.snapshot;
  }

  -- What comes up after the crash.
  abbrev pub Restarts : Codec C → Node C → ℕ → ℕ → Type 0
  Restarts codec n now random =
      (n' : Node C) × (new_node codec none n.peers n.me (save_node codec n).storage now random
        ≡ some n')
      × (n'.current_term ≡ n.current_term)
      × (n'.voted_for ≡ n.voted_for)
      × (n'.log ≡ new_log n.log.snap_last_idx n.log.snap_last_term n.log.snapshot [])
      × (n'.commit_index ≡ n.log.snap_last_idx)
      × (n'.last_applied ≡ n.log.snap_last_idx)

  save_node-storage :
      (codec : Codec C) (n : Node C) (bs bt : Bytes)
      → codec.encode_state (state_of codec n) ≡ some bs
      → codec.encode_snapshot (snapshot_of n) ≡ some bt
      → (save_node codec n).storage ≡ record n.storage { raft_state = bs; snapshot = bt }
  unfolding save_node save_raft_state save_snapshot
  save_node-storage codec n bs bt es et = ground (arith, es, et)

  -- A node that has saved its state, crashes, and starts again with the default configuration on the
  -- storage, has its term, its vote and its snapshot, and not one entry of the log behind the
  -- snapshot, committed or not: the snapshot, which is saved along each time, takes the place of the
  -- log that was read before it.
  pub restart_forgets :
      (codec : Codec C) (n : Node C) (now random : ℕ) → IsCodec codec → Restarts codec n now random
  unfolding new_node load_from_storage load_state load_raft_state load_snapshot reset_timer validate
      default_node_config
  restart_forgets codec n now random c =
      let (bs, es, fs, ds) = c.state_back (state_of codec n) in
      let (bt, et, ft, dt) = c.snapshot_back (snapshot_of n) in
      let stored = save_node-storage codec n bs bt es et in
      let ls = load_lem codec.decode_state bs (state_of codec n) fs ds in
      let lt = load_lem codec.decode_snapshot bt (snapshot_of n) ft dt in
      let idx = n.log.snap_last_idx in
      (
        record {
          peers = n.peers;
          storage = record n.storage { raft_state = bs; snapshot = bt };
          config = default_node_config;
          me = n.me;
          dead = false;
          role = follower;
          current_term = n.current_term;
          voted_for = n.voted_for;
          log = new_log n.log.snap_last_idx n.log.snap_last_term n.log.snapshot [];
          next_index = replicate n.peers 0;
          match_index = replicate n.peers 0;
          commit_index = if ltb 0 idx then idx else 0;
          last_applied = if ltb 0 idx then idx else 0;
          snap_pending = false;
          election_start = now;
          election_timeout = default_election_timeout_min + random % 150_000_000;
        },
        rw stored (ground (arith, ls, lt)),
        refl,
        refl,
        refl,
        ground arith,
        ground arith,
      )
