-- ===== src/ShardCtrler/Config.antt =====
-- src/shardctrler/common.go: configurations, operations and replies.
use mathlib.Core.Logic.{dite}
use multi_raft.Service.Duplicates.{LastOperation}
use multi_raft.Common.{
  nat_key, ℕ, suc, ◌≡◌, ap, Option, List, [], String, arith, string_key, ℕ_discrete, replicate, Key,
  Map,
}

abbrev pub shard_count : ℕ
shard_count = 10

-- A group's id as the code computes it: -1 stands for no group at all. The group 0 is the invalid
-- one. The ids that clients send are not negative.
pub data Gid : Type 0 where
  no_gid : Gid
  gid : ℕ → Gid

-- The order of `sort.Ints`.
abbrev pub rank : Gid → ℕ
rank no_gid = 0
rank (gid n) = suc n

pub rank-injective : (a b : Gid) → rank a ≡ rank b → a ≡ b
rank-injective a b e = ground arith

instance unfoldable pub gid_key : Key Gid
unfolding ℕ_discrete
gid_key = record {
  dec = λ a b.
      dite (ℕ_discrete (rank a) (rank b)) (λ e. yes (rank-injective a b e))
        (λ n. no (λ p. n (ap rank p)));
}

abbrev pub Groups : Type 0
Groups = Map Gid (List String)

pub record Config : Type 0 where
  pub num : ℕ
  pub shards : List Gid
  pub groups : Groups

unfoldable pub default_config : Config
default_config = record { num = 0; shards = replicate shard_count (gid 0); groups = [] }

pub data Err : Type 0 where
  ok wrong_leader timeout : Err

pub data OperationType : Type 0 where
  op_join op_leave op_move op_query : OperationType

-- `num` is `none` for a negative number.
pub record Op : Type 0 where
  pub servers : Groups
  pub gids : List Gid
  pub shard : ℕ
  pub gid : Gid
  pub num : Option ℕ
  pub op_type : OperationType
  pub client_id : ℕ
  pub seq_id : ℕ

pub record OpReply : Type 0 where
  pub controller_config : Config
  pub err : Err

abbrev pub LastOperationInfo : Type 0
LastOperationInfo = LastOperation OpReply

abbrev pub DuplicateTable : Type 0
DuplicateTable = Map ℕ LastOperationInfo

-- `Config{}`, in a reply that carries none.
abbrev pub no_config : Config
no_config = default_config
