-- ===== src/KvRaft/Tests.antt =====
-- Runs of the model of src/kvraft at concrete states, and its theorems applied to them.
use multi_raft.Common.{
  ℕ, ◌≡◌, refl, inl, true, false, Option, none, some, List, [], ◌∷◌, String, arith, lookup, put,
  nat_key, string_key, ℕ_discrete, ◌>>=◌, length,
}
use multi_raft.KvRaft.Client.{Sends, put_append_lem}
use multi_raft.KvRaft.Server.{
  KvServer, restore_from_snapshot, needs_snapshot, apply_command, apply_message,
}
use multi_raft.KvRaft.Server.Applying.{
  IsSound, IsReady, Handles, apply_messages, apply_message_lem, AppliesLog, apply_messages_lem,
}
use multi_raft.KvRaft.Server.Duplicates.{run, exactly_once}
use multi_raft.KvRaft.Server.Snapshots.{Restores, start_kv_server-Restores}
use multi_raft.KvRaft.StateMachine.{
  kv_service, ok, wrong_leader, OperationType, op_put, op_append, Op, OpReply, StateMachine,
  DuplicateTable, put_value, append_value, apply_to_state_machine,
}
use multi_raft.Raft.Application.{command_msg, snapshot_msg}
use multi_raft.Raft.Log.{LogEntry, Bytes, RaftLog, mock}
use multi_raft.Raft.Peer.{get_state, leader, Item, int, Raft, persist}
use multi_raft.Service.Channels.{
  no_channels, get_notify_channel, send, notify, no_channels-OpenFrom,
}
use multi_raft.Service.Clerks.{Clerk}
use multi_raft.Service.Duplicates.{request_duplicated, execute, execute_all, first_only, state_of}

abbrev write : OperationType → String → ℕ → ℕ → Op
write op value client seq = record {
  key = "k";
  value = value;
  op_type = op;
  client_id = client;
  seq_id = seq;
}

-- The second client's write stands in the log twice.
abbrev some_ops : List Op
some_ops = write op_put "a" 7 0 ∷ write op_append "b" 8 0 ∷ write op_append "b" 8 0 ∷ []

abbrev deduplicated : List Op
deduplicated = write op_put "a" 7 0 ∷ write op_append "b" 8 0 ∷ []

some_ops_value :
    (state_of kv_service (execute_all kv_service [] [] some_ops) >>= λ mkv. lookup mkv "k")
    ≡ some "ab"
unfolding execute_all execute apply_to_state_machine append_value put_value request_duplicated
    lookup put nat_key string_key ℕ_discrete
some_ops_value = refl

exactly_once_example :
    state_of kv_service (execute_all kv_service [] [] some_ops)
    ≡ some (run [] (first_only kv_service [] some_ops))
exactly_once_example = exactly_once [] some_ops

abbrev entry : ℕ → Op → LogEntry Op
entry t op = record { term = t; command_valid = true; command = some op }

abbrev some_log : RaftLog Op
some_log = record {
  snap_last_idx = 0;
  snap_last_term = 0;
  snapshot = [];
  tail_log = mock 0 ∷ entry 1 (write op_put "a" 7 0) ∷ entry 1 (write op_append "b" 8 0) ∷ [];
}

abbrev some_peer : Raft Op
some_peer = record {
  peers = 3;
  persister = record { raftstate = int (some 1) ∷ int (some 0) ∷ persist some_log; snapshot = [] };
  me = 0;
  dead = false;
  role = leader;
  current_term = 1;
  voted_for = some 0;
  log = some_log;
  next_index = 3 ∷ 3 ∷ 3 ∷ [];
  match_index = 2 ∷ 2 ∷ 2 ∷ [];
  commit_index = 2;
  last_applied = 2;
  snap_pending = false;
  election_start = 0;
  election_timeout = 0;
}

abbrev some_server : KvServer
some_server = record {
  me = 0;
  rf = some_peer;
  dead = false;
  max_raft_state = some 0;
  last_applied = 0;
  state_machine = [];
  notices = no_channels;
  duplicate_table = [];
}

-- A codec for the one state of these runs.
abbrev encode : StateMachine → DuplicateTable → Bytes
encode mkv table = 1 ∷ []

abbrev decode : Bytes → Option (StateMachine × DuplicateTable)
decode bytes = some ([], [])

abbrev state_size : List (Item Op) → ℕ
state_size items = length items

some_server-IsReady : IsReady some_server
some_server-IsReady = record {
  opened = no_channels-OpenFrom 0;
  saved = record { saved = inl refl; formed = refl; next_slots = refl; match_slots = refl };
}

some_server-IsSound : IsSound some_server
some_server-IsSound = record {
  saved = some_server-IsReady.saved;
  placed = some_server-IsReady.opened.placed;
}

apply_message_lem_example : Handles encode decode state_size some_server (write op_put "a" 7 0) 1
apply_message_lem_example =
    apply_message_lem encode decode state_size some_server (write op_put "a" 7 0) 1
      some_server-IsSound

-- After a snapshot of an earlier index, the command at the index 2 comes again, and its channel is
-- full: nobody waits for it.
sends_again :
    apply_messages encode decode state_size
      (record some_server { max_raft_state = none })
      (command_msg true (some (write op_put "a" 7 0)) 1
        ∷ command_msg true (some (write op_append "b" 8 0)) 2
        ∷ snapshot_msg (1 ∷ []) 1 1
        ∷ command_msg true (some (write op_append "b" 8 0)) 2
        ∷ [])
    ≡ none
unfolding apply_messages apply_message apply_command restore_from_snapshot needs_snapshot notify
    send get_notify_channel execute apply_to_state_machine append_value put_value request_duplicated
    lookup put nat_key string_key ℕ_discrete get_state
sends_again = refl

apply_messages_lem_example : AppliesLog encode decode state_size some_server some_ops
apply_messages_lem_example =
    apply_messages_lem encode decode state_size some_server some_ops some_server-IsReady refl refl

abbrev stored_data : StateMachine
stored_data = ("k", "ab") ∷ []

abbrev stored_table : DuplicateTable
stored_table = (8, record { seq_id = 3; reply = record { value = ""; err = ok } }) ∷ []

-- A codec that tells this state from the empty one.
abbrev write_out : StateMachine → DuplicateTable → Bytes
write_out mkv table = elim mkv [ [] ↦ 1 ∷ [] | pair ∷ rest ↦ 1 ∷ 1 ∷ [] ]

abbrev read_back : Bytes → Option (StateMachine × DuplicateTable)
read_back [] = none
read_back (b ∷ []) = some ([], [])
read_back (b ∷ c ∷ bytes) = some (stored_data, stored_table)

abbrev stored_server : KvServer
stored_server = record some_server { state_machine = stored_data; duplicate_table = stored_table }

start_kv_server-Restores_example : Restores write_out read_back state_size stored_server 2 (some 9)
start_kv_server-Restores_example =
    start_kv_server-Restores write_out read_back state_size stored_server 2 (some 9)
      (record { saved = inl refl; formed = refl; next_slots = refl; match_slots = refl })
      (omega arith) (omega arith) (omega arith) refl (omega arith)

abbrev some_clerk : Clerk
some_clerk = record { servers = 3; leader_id = 2; client_id = 7; seq_id = 4 }

-- A lost call, a peer that does not lead, and an answer.
abbrev some_outcomes : List (Option OpReply)
some_outcomes =
    none
    ∷ some (record { value = ""; err = wrong_leader })
    ∷ some (record { value = ""; err = ok })
    ∷ []

put_append_lem_example : Sends some_clerk "k" "a" "Put" some_outcomes
put_append_lem_example = put_append_lem some_clerk "k" "a" "Put" some_outcomes (omega arith)
