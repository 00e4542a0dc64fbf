-- ===== src/ShardCtrler/Client.antt =====
-- src/shardctrler/client.go: the controller's clerk, on the outcomes of its calls.
use multi_raft.Common.{ℕ, Bool, true, false, Option, some, List, nat_key, string_key, ◌>>=◌}
use multi_raft.Service.Clerks.{Clerk, keep_calling, call_once}
use multi_raft.ShardCtrler.Config.{Gid, Groups, Config, wrong_leader, timeout, OpReply}

unfoldable pub tries_again : OpReply → Bool
tries_again reply = elim reply.err [ wrong_leader ↦ true | timeout ↦ true | _ ↦ false ]

-- The arguments of the four calls; `num` is `none` for a negative number.
pub record JoinArgs : Type 0 where
  pub servers : Groups
  pub client_id : ℕ
  pub seq_id : ℕ

pub record LeaveArgs : Type 0 where
  pub gids : List Gid
  pub client_id : ℕ
  pub seq_id : ℕ

pub record MoveArgs : Type 0 where
  pub shard : ℕ
  pub gid : Gid
  pub client_id : ℕ
  pub seq_id : ℕ

pub record QueryArgs : Type 0 where
  pub num : Option ℕ

-- `Query` does not count: the clerk, and the configuration once a call is answered.
unfoldable pub clerk_query : Clerk → Option ℕ → List (Option OpReply) → Clerk × Option Config
clerk_query ck num outcomes =
    let args : QueryArgs = record { num = num } in
    let called = keep_calling tries_again ck args outcomes in
    (called.0, called.1 >>= λ reply. some reply.controller_config)

unfoldable pub clerk_join :
    Clerk → Groups → List (Option OpReply) → Clerk × Bool × List (ℕ × JoinArgs)
clerk_join ck servers outcomes =
    call_once tries_again ck
      (record { servers = servers; client_id = ck.client_id; seq_id = ck.seq_id }) outcomes

unfoldable pub clerk_leave :
    Clerk → List Gid → List (Option OpReply) → Clerk × Bool × List (ℕ × LeaveArgs)
clerk_leave ck gids outcomes =
    call_once tries_again ck (record { gids = gids; client_id = ck.client_id; seq_id = ck.seq_id })
      outcomes

unfoldable pub clerk_move :
    Clerk → ℕ → Gid → List (Option OpReply) → Clerk × Bool × List (ℕ × MoveArgs)
clerk_move ck shard group outcomes =
    call_once tries_again ck
      (record { shard = shard; gid = group; client_id = ck.client_id; seq_id = ck.seq_id }) outcomes
