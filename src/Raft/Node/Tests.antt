-- ===== src/Raft/Node/Tests.antt =====
-- Runs of the model of src/raft/node.go at concrete states, and its theorems applied to them.
use multi_raft.Common.{
  ℕ, zero, suc, ◌≡◌, refl, true, false, Option, none, some, List, [], ◌∷◌, arith, nat_key,
  string_key, ◌==◌, if◌then◌else◌, ◌>>=◌,
}
use multi_raft.Raft.Log.{LogEntry, Bytes, mock}
use multi_raft.Raft.Node.{default_node_config, Node, Codec}
use multi_raft.Raft.Node.Committing.{raft_of, update_commit_index_lem}
use multi_raft.Raft.Node.Following.{FollowsCall, handle_append_entries_lem}
use multi_raft.Raft.Node.Leading.{exchange, exchange_sort, update_commit_index}
use multi_raft.Raft.Node.Restarting.{IsCodec, Restarts, restart_forgets}
use multi_raft.Raft.Peer.{leader, Persister}
use multi_raft.Raft.Replication.{AppendEntriesArgs, advance_commit}
use multi_raft.Raft.Storage.{RaftState, Snapshot, new_memory_raft_storage}

exchange_sort_run : exchange_sort 3 (4 ∷ 1 ∷ 3 ∷ 2 ∷ []) ≡ 1 ∷ 2 ∷ 3 ∷ 4 ∷ []
unfolding exchange_sort exchange
exchange_sort_run = refl

-- A codec for commands that are numbers.
abbrev option_number : Option ℕ → ℕ
option_number none = 0
option_number (some n) = suc n

abbrev number_option : ℕ → Option ℕ
number_option zero = none
number_option (suc n) = some n

number_option-option_number : (o : Option ℕ) → number_option (option_number o) ≡ o
number_option-option_number none = refl
number_option-option_number (some n) = refl

abbrev encode_entries : List (LogEntry ℕ) → Bytes
encode_entries [] = []
encode_entries (e ∷ es) =
    e.term ∷ (if e.command_valid then 1 else 0) ∷ option_number e.command ∷ encode_entries es

unfoldable decode_entries : Bytes → Option (List (LogEntry ℕ))
decode_entries (t ∷ v ∷ c ∷ rest) = decode_entries rest >>= λ es.
    some (record { term = t; command_valid = v == 1; command = number_option c } ∷ es)
decode_entries _ = some []

entries_back : (es : List (LogEntry ℕ)) → decode_entries (encode_entries es) ≡ some es
unfolding decode_entries
entries_back [] = refl
entries_back (e ∷ es) = ground (arith, entries_back es, number_option-option_number e.command)

abbrev decode_log : Bytes → Option (ℕ × ℕ × List (LogEntry ℕ))
decode_log (i ∷ t ∷ rest) = decode_entries rest >>= λ es. some (i, t, es)
decode_log _ = none

abbrev decode_state : Bytes → Option RaftState
decode_state (term ∷ vote ∷ log) =
    some (record { current_term = term; voted_for = number_option vote; log = log })
decode_state _ = none

abbrev decode_snapshot : Bytes → Option Snapshot
decode_snapshot (index ∷ term ∷ rest) = some (record { index = index; term = term; data' = rest })
decode_snapshot _ = none

abbrev numbers : Codec ℕ
numbers = record {
  encode_log = λ i t es. i ∷ t ∷ encode_entries es;
  decode_log = decode_log;
  encode_state = λ s. some (s.current_term ∷ option_number s.voted_for ∷ s.log);
  decode_state = decode_state;
  encode_snapshot = λ s. some (s.index ∷ s.term ∷ s.data');
  decode_snapshot = decode_snapshot;
}

numbers-IsCodec : IsCodec numbers
numbers-IsCodec = record {
  log_written = λ i t es. omega arith;
  log_back = λ i t es. ground (arith, entries_back es);
  state_back = λ s. (
    s.current_term ∷ option_number s.voted_for ∷ s.log,
    refl,
    omega arith,
    ground (arith, number_option-option_number s.voted_for),
  );
  snapshot_back = λ s. (s.index ∷ s.term ∷ s.data', refl, omega arith, refl);
}

-- A leader with a committed entry behind its snapshot.
abbrev some_node : Node ℕ
some_node = record {
  peers = 3;
  storage = new_memory_raft_storage;
  config = default_node_config;
  me = 0;
  dead = false;
  role = leader;
  current_term = 2;
  voted_for = some 0;
  log = record {
    snap_last_idx = 4;
    snap_last_term = 1;
    snapshot = 9 ∷ [];
    tail_log =
        mock 1
        ∷ record { term = 2; command_valid = true; command = some 7 }
        ∷ record { term = 2; command_valid = true; command = some 8 }
        ∷ [];
  };
  next_index = 7 ∷ 7 ∷ 5 ∷ [];
  match_index = 6 ∷ 6 ∷ 4 ∷ [];
  commit_index = 5;
  last_applied = 5;
  snap_pending = false;
  election_start = 0;
  election_timeout = 0;
}

restart_forgets_example : Restarts numbers some_node 17 3
restart_forgets_example = restart_forgets numbers some_node 17 3 numbers-IsCodec

abbrev no_persister : Persister ℕ
no_persister = record { raftstate = []; snapshot = [] }

update_commit_index_lem_example :
    (update_commit_index some_node >>= λ n. some (raft_of n no_persister))
    ≡ advance_commit (raft_of some_node no_persister)
update_commit_index_lem_example = update_commit_index_lem some_node no_persister (omega arith)

abbrev some_call : AppendEntriesArgs ℕ
some_call = record {
  term = 3;
  leader_id = 1;
  prev_log_index = 6;
  prev_log_term = 2;
  entries = record { term = 3; command_valid = true; command = some 9 } ∷ [];
  leader_commit = 9;
}

handle_append_entries_lem_example : FollowsCall numbers some_node some_call 17 3
unfolding default_node_config
handle_append_entries_lem_example =
    handle_append_entries_lem numbers some_node some_call 17 3 refl (omega arith)
