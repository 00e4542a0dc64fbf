-- ===== src/ShardKv/Client.antt =====
-- src/shardkv/client.go: the clerk of the sharded service, a step for each answer that it waits for:
-- the reply of a server, `none` where the call failed, or a configuration from the controller.
use multi_raft.Common.{
  ℕ, ◌+◌, ◌%◌, Bool, true, false, Option, none, some, List, [], ◌∷◌, String, lookup, put, nat_key,
  string_key, ◌==◌, if◌then◌else◌, length, get_elem?, Map,
}
use multi_raft.ShardCtrler.Config.{Gid, gid_key, Config, default_config}
use multi_raft.ShardKv.Keys.{key2shard}
use multi_raft.ShardKv.Operations.{Err, ok, no_key, wrong_group, wrong_leader, timeout, OpReply}
use multi_raft.ShardKv.Server.{PutAppendArgs}

pub record ShardClerk : Type 0 where
  pub config : Config
  pub leader_ids : Map Gid ℕ
  pub client_id : ℕ
  pub seq_id : ℕ

-- `nrand` is the argument `random`.
unfoldable pub make_shard_clerk : ℕ → ShardClerk
make_shard_clerk random = record {
  config = default_config;
  leader_ids = [];
  client_id = random;
  seq_id = 0;
}

-- The loop of a call: waiting for a configuration, or for the server that is taken for the leader of
-- a group, `old` being the first of its servers that was tried; or done; or panicked.
pub data Progress : Type 0 where
  asking : ShardClerk → Progress
  calling : ShardClerk → Gid → (servers : List String) → (old : ℕ) → Progress
  returned : ShardClerk → OpReply → Progress
  panicked : Progress

pub data Answer : Type 0 where
  replied : Option OpReply → Answer
  configured : Config → Answer

-- The head of the outer loop: the group of the key's shard, and the server to begin with.
unfoldable pub look_up : ShardClerk → String → Progress
look_up ck key = elim (get_elem? ck.config.shards (key2shard key)) [
  | none ↦ panicked
  | some g ↦ elim (lookup ck.config.groups g) [
    | none ↦ asking ck
    | some servers ↦ elim (lookup ck.leader_ids g) [
      | some old ↦ calling ck g servers old
      | none ↦ calling (record ck { leader_ids = put ck.leader_ids g 0 }) g servers 0
    ]
  ]
]

-- The next server of the group, up to the one that was tried first. `% len(servers)` panics on 0.
unfoldable pub try_next : ShardClerk → Gid → List String → ℕ → ℕ → Progress
try_next ck g servers old leader =
    let next = (leader + 1) % length servers in
    let ck' : ShardClerk = record ck { leader_ids = put ck.leader_ids g next } in
    if length servers == 0
    then panicked
    else if next == old
    then asking ck'
    else calling ck' g servers old

-- A reply in the inner loop; `answers` are the errors with which the call returns. Any reply that is
-- not tested for has the same server called again.
unfoldable pub on_reply :
    (Err → Bool) → ShardClerk → Gid → List String → ℕ → ℕ → Option OpReply → Progress
on_reply answers ck g servers old leader none = try_next ck g servers old leader
on_reply answers ck g servers old leader (some reply) =
    let other = elim reply.err as (λ e. Progress) [
      | wrong_group ↦ asking ck
      | wrong_leader ↦ try_next ck g servers old leader
      | timeout ↦ try_next ck g servers old leader
      | _ ↦ calling ck g servers old
    ] in
    if answers reply.err then returned ck reply else other

-- A step of the call. The server's index is read from the clerk again for each call; one that is out
-- of range panics.
unfoldable pub step_call : (Err → Bool) → String → Progress → Answer → Progress
step_call answers key (asking ck) (configured c) = look_up (record ck { config = c }) key
step_call answers key (calling ck g servers old) (replied reply) = elim (lookup ck.leader_ids g) [
  | none ↦ panicked
  | some leader ↦ elim (get_elem? servers leader) [
    | none ↦ panicked
    | some server ↦ on_reply answers ck g servers old leader reply
  ]
]
step_call answers key progress answer = progress

unfoldable pub run_call : (Err → Bool) → String → Progress → List Answer → Progress
run_call answers key progress [] = progress
run_call answers key progress (answer ∷ rest) =
    run_call answers key (step_call answers key progress answer) rest

-- `Get`
unfoldable pub shard_clerk_get : ShardClerk → String → List Answer → Progress
shard_clerk_get ck key rest =
    run_call (λ err. elim err [ ok ↦ true | no_key ↦ true | _ ↦ false ]) key (look_up ck key) rest

unfoldable pub shard_put_append_args : ShardClerk → String → String → String → PutAppendArgs
shard_put_append_args ck key value op = record {
  key = key;
  value = value;
  op = op;
  client_id = ck.client_id;
  seq_id = ck.seq_id;
}

-- `PutAppend`: the number goes up when the call returns.
unfoldable pub shard_clerk_put_append : ShardClerk → String → List Answer → Progress
shard_clerk_put_append ck key rest =
    elim (run_call (λ err. elim err [ ok ↦ true | _ ↦ false ]) key (look_up ck key) rest) [
      | returned ck' reply ↦ returned (record ck' { seq_id = ck'.seq_id + 1 }) reply
      | asking ck' ↦ asking ck'
      | calling ck' g servers old ↦ calling ck' g servers old
      | panicked ↦ panicked
    ]
