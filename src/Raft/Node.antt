-- ===== src/Raft/Node.antt =====
-- src/raft/node.go: the second implementation of a peer, on a `RaftStorage` and a `Transport`; its
-- state, what it saves and reads back, its changes of role and the calls of the service. The
-- storage is the one in memory, with the codec of encoding/gob as a parameter; the transport is the
-- number of peers and the answers of calls. A method that holds `n.mu` is a function of the state.
pub mod Handlers
pub mod Leading
pub mod Applying
pub mod Committing
pub mod Restarting
pub mod Following
mod Tests
use multi_raft.Common.{
  ℕ, zero, suc, ◌+◌, ◌-◌, ◌*◌, ◌/◌, ◌%◌, ◌≤◌, ◌<◌, ◌≡◌, refl, sym, ap, ◌∙◌, ◌≢◌, ◌↔◌, ◌⊎◌, inl, inr,
  Bool, true, false, not, ◌&&◌, ◌||◌, Option, none, some, List, [], ◌∷◌, ◌++◌, map, String, arith,
  sort, lookup, put, delete, nat_key, string_key, dec_lt, dec_le, ℕ_discrete, ltb, leb, ◌==◌,
  if◌then◌else◌, ltb→lt, ltb→ge, lt→ltb, ge→ltb, leb→le, leb→gt, ==_iff, tests, Bool-cases,
  Option-cases, ◌>>=◌, >>=-eq-some, if_cases, length, get_elem?, set, get_or, take, drop, replicate,
  assign, All, length-append, length-set, length-drop, length-take, length-replicate,
  get_elem?-below, get_elem?-above, get_elem?-bound, get_elem?-append_left, get_elem?-append_right,
  get_elem?-take, get_elem?-drop, get_elem?-set_self, get_elem?-set_ne, All-get, length-assign,
  All-mono, drop-set, replicate-append_cons, drop-length, take-append, insert, count_ge, IsSorted,
  count_ge-sort, length-sort, sort-IsSorted, count_ge-get, count_ge-above, Key, is_key, Map,
  lookup-put_self, lookup-put_ne, lookup-delete_self, lookup-delete_ne, IsMap, put-IsMap,
}
use multi_raft.Raft.Log.{
  invalid_term, invalid_index, LogEntry, Bytes, RaftLog, mock, new_log, size, idx, at, last,
  first_for_loop, first_for, tail, append, append_from, do_snapshot, install_snapshot, IsAnchored,
  IsWellFormed,
}
use multi_raft.Raft.Peer.{Role, follower, candidate, leader, same_role, fill}
use multi_raft.Raft.Storage.{
  StorageError, not_found, corrupted, closed, MemoryStorage, Write, new_memory_storage, get,
  set_value, delete_key, has, write_all, batch_write, close, RaftState, Snapshot, MemoryRaftStorage,
  new_memory_raft_storage, load, save_raft_state, load_raft_state, save_snapshot, load_snapshot,
  raft_state_size, snapshot_size, close_raft_storage,
}

-- Times are in nanoseconds.
pub record NodeConfig : Type 0 where
  pub election_timeout_min : ℕ
  pub election_timeout_max : ℕ
  pub replicate_interval : ℕ

abbrev pub default_election_timeout_min : ℕ
default_election_timeout_min = 250_000_000

abbrev pub default_election_timeout_max : ℕ
default_election_timeout_max = 400_000_000

abbrev pub default_replicate_interval : ℕ
default_replicate_interval = 30_000_000

unfoldable pub default_node_config : NodeConfig
default_node_config = record {
  election_timeout_min = default_election_timeout_min;
  election_timeout_max = default_election_timeout_max;
  replicate_interval = default_replicate_interval;
}

-- A duration that is negative is as one that is 0 here.
unfoldable pub validate : NodeConfig → NodeConfig
validate c =
    let low =
      if c.election_timeout_min == 0
      then default_election_timeout_min
      else c.election_timeout_min in
    record {
      election_timeout_min = low;
      election_timeout_max =
          if leb c.election_timeout_max low
          then default_election_timeout_max
          else c.election_timeout_max;
      replicate_interval =
          if c.replicate_interval == 0 then default_replicate_interval else c.replicate_interval;
    }

-- `peers` is `transport.GetPeerCount()`, `voted_for` is `none` for -1.
pub record Node (C : Type 0) : Type 0 where
  pub peers : ℕ
  pub storage : MemoryRaftStorage
  pub config : NodeConfig
  pub me : ℕ
  pub dead : Bool
  pub role : Role
  pub current_term : ℕ
  pub voted_for : Option ℕ
  pub log : RaftLog C
  pub next_index : List ℕ
  pub match_index : List ℕ
  pub commit_index : ℕ
  pub last_applied : ℕ
  pub snap_pending : Bool
  pub election_start : ℕ
  pub election_timeout : ℕ

-- encoding/gob on the values that are saved: `none` is its error. The encoded log is the snapshot's
-- index and term, and the tail.
pub record Codec (C : Type 0) : Type 0 where
  pub encode_log : ℕ → ℕ → List (LogEntry C) → Bytes
  pub decode_log : Bytes → Option (ℕ × ℕ × List (LogEntry C))
  pub encode_state : RaftState → Option Bytes
  pub decode_state : Bytes → Option RaftState
  pub encode_snapshot : Snapshot → Option Bytes
  pub decode_snapshot : Bytes → Option Snapshot

module _ {C : Type 0} where
  -- The timer takes the time and a random number; the panic of `rand.Int63n` on 0 is `none`.
  unfoldable pub reset_timer : Node C → ℕ → ℕ → Option (Node C)
  reset_timer n now random =
      let timeout = n.config.election_timeout_max - n.config.election_timeout_min in
      if timeout == 0
      then none
      else some (record n {
        election_start = now;
        election_timeout = n.config.election_timeout_min + random % timeout;
      })

  unfoldable pub timer_expired : Node C → ℕ → Bool
  timer_expired n now = ltb (n.election_start + n.election_timeout) now

  unfoldable pub node_state : Node C → ℕ × Bool
  node_state n = (n.current_term, same_role n.role leader)

  unfoldable pub lost_context : Node C → Role → ℕ → Bool
  lost_context n role term = not (n.current_term == term && same_role n.role role)

  unfoldable pub kill_node : Node C → Node C
  kill_node n = record n { dead = true }

  unfoldable pub lead : Node C → Node C
  lead n =
      if same_role n.role candidate
      then record n {
        role = leader;
        next_index = fill n.peers (size n.log) n.next_index;
        match_index = fill n.peers 0 n.match_index;
      }
      else n

  -- Whether this node's last entry is newer than the candidate's.
  unfoldable pub is_newer : Node C → ℕ → ℕ → Bool
  is_newer n candidate_index candidate_term =
      let (last_index, last_term) = last n.log in
      if not (last_term == candidate_term)
      then ltb candidate_term last_term
      else ltb candidate_index last_index

module _ {C : Type 0} (codec : Codec C) where
  open codec use {
    encode_log, decode_log, encode_state, decode_state, encode_snapshot, decode_snapshot,
  }

  unfoldable pub serialize_log : RaftLog C → Bytes
  serialize_log log = encode_log log.snap_last_idx log.snap_last_term log.tail_log

  -- A log that does not decode leaves the old one.
  unfoldable pub deserialize_log : RaftLog C → Bytes → RaftLog C
  deserialize_log log bytes = elim (decode_log bytes) [
    | none ↦ log
    | some (idx, term, tail_log) ↦ record {
      snap_last_idx = idx;
      snap_last_term = term;
      snapshot = [];
      tail_log = tail_log;
    }
  ]

  -- An error of the storage is not looked at, and leaves it as it is.
  unfoldable pub save_node : Node C → Node C
  save_node n =
      let state : RaftState = record {
        current_term = n.current_term;
        voted_for = n.voted_for;
        log = serialize_log n.log;
      } in
      let snapshot : Snapshot = record {
        index = n.log.snap_last_idx;
        term = n.log.snap_last_term;
        data' = n.log.snapshot;
      } in
      let with_state : MemoryRaftStorage = elim (save_raft_state encode_state n.storage state) [
        | none ↦ n.storage
        | some saved ↦ saved
      ] in
      let with_snapshot : MemoryRaftStorage =
        elim (save_snapshot encode_snapshot with_state snapshot) [
          | none ↦ with_state
          | some saved ↦ saved
        ] in
      record n { storage = with_snapshot }

  unfoldable pub load_state : Node C → Node C
  load_state n = elim (load_raft_state decode_state n.storage) [
    | inl _ ↦ n
    | inr state ↦ record n {
      current_term = state.current_term;
      voted_for = state.voted_for;
      log = if length state.log == 0 then n.log else deserialize_log n.log state.log;
    }
  ]

  -- A snapshot that was saved takes the place of the log, which then has no entries behind it.
  unfoldable pub load_from_storage : Node C → Node C
  load_from_storage n =
      let loaded = load_state n in
      elim (load_snapshot decode_snapshot n.storage) [
        | inl _ ↦ loaded
        | inr s ↦
            let n' : Node C = record loaded { log = new_log s.index s.term s.data' [] } in
            if ltb loaded.commit_index s.index
            then record n' { commit_index = s.index; last_applied = s.index }
            else n'
      ]

  -- `NewNode`, up to the goroutines; `config` is `none` for nil.
  unfoldable pub new_node : Option NodeConfig → ℕ → ℕ → MemoryRaftStorage → ℕ → ℕ → Option (Node C)
  new_node config peers me storage now random =
      let chosen : NodeConfig = elim config [ some c ↦ c | none ↦ default_node_config ] in
      reset_timer
        (load_from_storage (record {
          peers = peers;
          storage = storage;
          config = validate chosen;
          me = me;
          dead = false;
          role = follower;
          current_term = 1;
          voted_for = none;
          log = new_log invalid_index invalid_term [] [];
          next_index = replicate peers 0;
          match_index = replicate peers 0;
          commit_index = 0;
          last_applied = 0;
          snap_pending = false;
          election_start = 0;
          election_timeout = 0;
        }))
        now random

  unfoldable pub follow_term : Node C → ℕ → Node C
  follow_term n term =
      let n' : Node C = record n {
        role = follower;
        voted_for = if ltb n.current_term term then none else n.voted_for;
        current_term = term;
      } in
      if ltb term n.current_term then n else if n.current_term == term then n' else save_node n'

  unfoldable pub stand : Node C → ℕ → ℕ → Option (Node C)
  stand n now random =
      if same_role n.role leader
      then some n
      else (reset_timer
            (record n {
              current_term = n.current_term + 1;
              role = candidate;
              voted_for = some n.me;
            })
            now random
          >>= λ n'. some (save_node n'))

  -- `Start`: position, term, and whether this node is the leader.
  unfoldable pub start_command : Node C → C → Node C × (ℕ × ℕ × Bool)
  start_command n command =
      let n' : Node C = record n {
        log =
            append n.log
              (record { term = n.current_term; command_valid = true; command = some command });
      } in
      if same_role n.role leader
      then (save_node n', (size n'.log - 1, n'.current_term, true))
      else (n, (0, 0, false))

  -- `Snapshot`, as the service calls it.
  unfoldable pub take_snapshot : Node C → ℕ → Bytes → Option (Node C)
  take_snapshot n index data' =
      if ltb n.commit_index index || leb index n.log.snap_last_idx
      then some n
      else (do_snapshot n.log index data' >>= λ log. some (save_node (record n { log = log })))
