-- ===== src/ShardKv/Tests.antt =====
-- Runs of the model of src/shardkv at concrete states, and its theorems applied to them.
use mathlib.Core.Path.{subst}
use multi_raft.Common.{
  none, ℕ, ◌≡◌, refl, ◌∙◌, inl, true, false, Option, some, List, [], ◌∷◌, arith, lookup, put,
  nat_key, string_key, ℕ_discrete, length, replicate, lookup-put_self, lookup-put_ne, IsMap,
}
use multi_raft.Raft.Log.{Bytes, RaftLog, mock}
use multi_raft.Raft.Peer.{get_state, leader, Item, int, Raft, persist}
use multi_raft.Service.Channels.{no_channels, no_channels-OpenFrom}
use multi_raft.Service.Duplicates.{LastOperation}
use multi_raft.ShardCtrler.Config.{shard_count, gid, gid_key, Config, default_config}
use multi_raft.ShardKv.Applying.{
  IsSound, Handles, apply_task_lem, Restores, start_shard_kv-Restores,
}
use multi_raft.ShardKv.Changes.{
  reply_of, set_status, mark_shard, mark_shards, apply_new_config, apply_raft_command,
}
use multi_raft.ShardKv.Client.{
  ShardClerk, configured, replied, panicked, shard_clerk_get, run_call, step_call, look_up,
}
use multi_raft.ShardKv.Commands.{run_commands, IsConsistent, MeetsSettled, fetched_config_lem}
use multi_raft.ShardKv.History.{started, configured, History-IsConsistent}
use multi_raft.ShardKv.Keys.{lead_byte, key2shard}
use multi_raft.ShardKv.Migration.{
  HandsOver, get_shards_data-HandsOver, SameEffect, take_shards-any_order,
}
use multi_raft.ShardKv.Operating.{IsComplete, Serves, apply_client_operation_lem}
use multi_raft.ShardKv.Operations.{
  ok, op_put, Op, OpReply, DuplicateTable, normal, move_in, move_out, ShardOperationArgs,
  RaftCommand, client_operation, config_change, shard_gc,
}
use multi_raft.ShardKv.Server.{ShardKv, fill_shards, Saved, saved}
use multi_raft.ShardKv.Shards.{Shard, new_shard, Shards, Store}
use multi_raft.ShardKv.Starting.{first_store, first_store-IsComplete}
use multi_raft.ShardKv.Statuses.{Held}
use multi_raft.ShardKv.Tasks.{all_normal, wanted_config}

-- Byte 107 of "k".
key2shard_k : key2shard "k" ≡ 7
unfolding key2shard lead_byte
key2shard_k = refl

abbrev config_of : ℕ → ℕ → Config
config_of num owner = record { num = num; shards = replicate shard_count (gid owner); groups = [] }

put-Held : (shards : Shards) (i : ℕ) (s : Shard) → Held shards → Held (put shards i s)
put-Held shards i s held j lt = elim (ℕ_discrete i j) [
  | yes e ↦ (s, subst (λ k. lookup (put shards i s) k ≡ some s) e (lookup-put_self shards i s))
  | no n ↦ let (t, h) = held j lt in (t, lookup-put_ne shards i j s n ∙ h)
]

-- The group `g` with one shard changed, and the configurations in which `prev` and then `current`
-- have all shards.
abbrev store_of : ℕ → Shard → ℕ → ℕ → Store
store_of g shard prev current = record {
  gid = gid g;
  shards = put (first_store (gid g)).shards 7 shard;
  current_config = config_of 2 current;
  prev_config = config_of 1 prev;
}

store_of-IsComplete :
    (g : ℕ) (shard : Shard) (prev current : ℕ) → IsComplete (store_of g shard prev current)
store_of-IsComplete g shard prev current = record {
  held = put-Held (first_store (gid g)).shards 7 shard (first_store-IsComplete (gid g)).held;
  current_full = refl;
  prev_full = refl;
}

abbrev empty_shard : Shard
empty_shard = record { kv = []; status = normal }

abbrev put_op : Op
put_op = record { key = "k"; value = "v"; op_type = op_put; client_id = 5; seq_id = 1 }

apply_client_operation_lem_example : Serves (store_of 1 empty_shard 1 1) [] put_op
apply_client_operation_lem_example =
    apply_client_operation_lem (store_of 1 empty_shard 1 1) [] put_op
      (store_of-IsComplete 1 empty_shard 1 1)

abbrev some_log : RaftLog RaftCommand
some_log = record {
  snap_last_idx = 0;
  snap_last_term = 0;
  snapshot = [];
  tail_log =
      mock 0
      ∷ record { term = 1; command_valid = true; command = some (client_operation put_op) }
      ∷ record { term = 1; command_valid = true; command = some (config_change (config_of 3 2)) }
      ∷ [];
}

abbrev some_peer : Raft RaftCommand
some_peer = record {
  peers = 3;
  persister = record { raftstate = int (some 1) ∷ int (some 0) ∷ persist some_log; snapshot = [] };
  me = 0;
  dead = false;
  role = leader;
  current_term = 1;
  voted_for = some 0;
  log = some_log;
  next_index = 3 ∷ 3 ∷ 3 ∷ [];
  match_index = 2 ∷ 2 ∷ 2 ∷ [];
  commit_index = 2;
  last_applied = 2;
  snap_pending = false;
  election_start = 0;
  election_timeout = 0;
}

abbrev server_of : Store → DuplicateTable → ShardKv
server_of st table = record {
  me = 0;
  rf = some_peer;
  dead = false;
  max_raft_state = some 0;
  last_applied = 0;
  store = st;
  notices = no_channels;
  duplicate_table = table;
}

abbrev some_commands : List RaftCommand
some_commands =
    client_operation put_op ∷ shard_gc (record { config_num = 2; shard_ids = 7 ∷ [] }) ∷ []

fetched_config_lem_example :
    MeetsSettled (server_of (store_of 1 empty_shard 1 1) []) some_commands (config_of 3 2)
fetched_config_lem_example =
    fetched_config_lem (server_of (store_of 1 empty_shard 1 1) []) 3 (config_of 3 2) some_commands
      (store_of-IsComplete 1 empty_shard 1 1)
      (unfold wanted_config get_state all_normal fill_shards new_shard lookup put nat_key
          ℕ_discrete in
        refl)
      refl refl (tt, ((omega arith, tt), tt))

-- The group 1 gets all shards as the first of all groups.
first_change :
    apply_raft_command (first_store (gid 1)) [] (config_change (config_of 1 1))
    ≡ some (record (first_store (gid 1)) { current_config = config_of 1 1 }, [], reply_of ok)
unfolding apply_raft_command apply_new_config mark_shards mark_shard set_status fill_shards
    new_shard default_config lookup put nat_key gid_key ℕ_discrete
first_change = refl

wants_first : wanted_config (server_of (first_store (gid 1)) []) ≡ some 1
unfolding wanted_config get_state all_normal fill_shards new_shard default_config lookup put nat_key
    ℕ_discrete
wants_first = refl

runs_none : run_commands (first_store (gid 1)) [] [] ≡ some (first_store (gid 1), [])
unfolding run_commands
runs_none = refl

History-IsConsistent_example :
    IsComplete (record (first_store (gid 1)) { current_config = config_of 1 1 })
    × IsConsistent (record (first_store (gid 1)) { current_config = config_of 1 1 })
    × IsMap {K = ℕ} {V = LastOperation OpReply} []
History-IsConsistent_example = History-IsConsistent (
    configured (server_of (first_store (gid 1)) []) 1 [] (config_of 1 1) (reply_of ok)
      (started (gid 1)) wants_first refl refl tt runs_none (started (gid 1)) first_change)

-- The shard 7 goes from the group 1 to the group 2.
abbrev leaving_shard : Shard
leaving_shard = record { kv = ("k", "v") ∷ []; status = move_out }

abbrev coming_shard : Shard
coming_shard = record { kv = []; status = move_in }

abbrev some_args : ShardOperationArgs
some_args = record { config_num = 2; shard_ids = 7 ∷ [] }

abbrev known_put : DuplicateTable
known_put = (5, record { seq_id = 1; reply = reply_of ok }) ∷ []

get_shards_data-HandsOver_example :
    HandsOver
      (server_of (store_of 1 leaving_shard 1 2) known_put)
      some_args
      (store_of 2 coming_shard 1 2)
      []
unfolding lookup get_state
get_shards_data-HandsOver_example =
    get_shards_data-HandsOver (server_of (store_of 1 leaving_shard 1 2) known_put) some_args
      (store_of 2 coming_shard 1 2) [] (store_of-IsComplete 1 leaving_shard 1 2) (refl, refl) refl
      (omega arith) (omega arith, tt) refl
      (λ i m. (
        coming_shard,
        subst (λ j. lookup (put (first_store (gid 2)).shards 7 coming_shard) j ≡ some coming_shard)
            (let e : 7 ≡ i = ground arith in e)
            (lookup-put_self (first_store (gid 2)).shards 7 coming_shard),
        refl,
      ))

take_shards-any_order_example :
    SameEffect
      (put (put [] 3 coming_shard) 7 coming_shard)
      ((3, []) ∷ (7, ("k", "v") ∷ []) ∷ [])
      ((7, ("k", "v") ∷ []) ∷ (3, []) ∷ [])
unfolding lookup put nat_key ℕ_discrete
take_shards-any_order_example =
    take_shards-any_order (put (put [] 3 coming_shard) 7 coming_shard)
      ((3, []) ∷ (7, ("k", "v") ∷ []) ∷ []) ((7, ("k", "v") ∷ []) ∷ (3, []) ∷ [])
      (refl, (refl, refl)) (refl, (refl, refl)) (λ i. ground arith)
      (λ i entries h. (coming_shard, ground arith, refl))

-- A codec for the one state of these runs.
abbrev encode : Saved → Bytes
encode s = 1 ∷ []

abbrev decode : Saved → Bytes → Option Saved
decode s bytes = some s

abbrev state_size : List (Item RaftCommand) → ℕ
state_size items = length items

abbrev some_server : ShardKv
some_server = server_of (store_of 1 empty_shard 1 1) []

some_server-IsSound : IsSound some_server
some_server-IsSound = record {
  placed = (no_channels-OpenFrom {R = OpReply} 0).placed;
  kept = record { saved = inl refl; formed = refl; next_slots = refl; match_slots = refl };
  complete = store_of-IsComplete 1 empty_shard 1 1;
}

apply_task_lem_example :
    Handles encode
      (decode (saved some_server))
      state_size
      some_server
      (config_change (config_of 3 2))
      1
apply_task_lem_example =
    apply_task_lem encode (decode (saved some_server)) state_size some_server
      (config_change (config_of 3 2)) 1 some_server-IsSound refl

start_shard_kv-Restores_example :
    Restores encode (decode (saved some_server)) state_size some_server 2 (some 9)
start_shard_kv-Restores_example =
    start_shard_kv-Restores encode (decode (saved some_server)) state_size some_server 2 (some 9)
      some_server-IsSound.kept (omega arith) (omega arith) (omega arith) refl (omega arith)

-- A clerk that took the third server of a group for its leader, and then learns that the group has
-- only one.
abbrev small_group : Config
small_group = record {
  num = 4;
  shards = replicate shard_count (gid 1);
  groups = (gid 1, "a" ∷ []) ∷ [];
}

abbrev stale_clerk : ShardClerk
stale_clerk = record {
  config = default_config;
  leader_ids = (gid 1, 2) ∷ [];
  client_id = 7;
  seq_id = 0;
}

stale_clerk_run :
    shard_clerk_get stale_clerk "k" (configured small_group ∷ replied none ∷ []) ≡ panicked
unfolding shard_clerk_get run_call step_call look_up key2shard lead_byte default_config lookup
    gid_key ℕ_discrete
stale_clerk_run = refl
