-- ===== src/ShardCtrler/Tests.antt =====
-- Runs of the model of src/shardctrler at concrete states, and its theorems applied to them.
use multi_raft.Common.{
  ℕ, zero, suc, ◌≡◌, refl, inl, inr, some, [], ◌∷◌, arith, lookup, put, nat_key, string_key,
  ℕ_discrete, ◌>>=◌, get_elem?, replicate,
}
use multi_raft.Service.Duplicates.{execute_all, execute, request_duplicated}
use multi_raft.ShardCtrler.Config.{
  default_config, shard_count, Gid, gid, gid_key, Groups, Config, ok, op_move, Op, no_config,
}
use multi_raft.ShardCtrler.Duplicates.{OneConfigEach, configs_once}
use multi_raft.ShardCtrler.History.{
  IsNumbered, KeepsHistory, apply_to_state_machine-KeepsHistory, Finds, query_lem,
}
use multi_raft.ShardCtrler.Joining.{IsAssigned, Joins, join-Joins}
use multi_raft.ShardCtrler.Leaving.{Leaves, leave-Leaves}
use multi_raft.ShardCtrler.Rebalance.Loop.{Rebalances, rebalance_lem}
use multi_raft.ShardCtrler.Rebalance.Measure.{triangle, measure, IsTable}
use multi_raft.ShardCtrler.Server.{apply_to_state_machine, blank}
use multi_raft.ShardCtrler.StateMachine.{
  new_state_machine, latest, copy_groups, add_groups, GidToShards, empty_groups, add_shards,
  gid_to_shards, insert_gid, sorted_gids, max_loop, gid_with_max_shards, min_loop,
  gid_with_min_shards, move_shard, rebalance, give, assign_shards, join, move,
}

abbrev first_config : Config
first_config = record { num = 0; shards = replicate shard_count (gid 0); groups = [] }

abbrev some_groups : Groups
some_groups = (gid 1, "a" ∷ []) ∷ (gid 2, "b" ∷ []) ∷ []

first_config-IsAssigned : IsAssigned first_config
first_config-IsAssigned = record { full = refl; owned = λ s g h. inl (go shard_count s g h) }
  where
    go : (n s : ℕ) (g : Gid) → get_elem? (replicate n (gid 0)) s ≡ some g → g ≡ gid 0
    go zero s g h = absurd (cc)
    go (suc n) zero g h = ground arith
    go (suc n) (suc s) g h = go n s g h

joined_shards :
    (join (first_config ∷ []) some_groups >>= λ r. latest r.0 >>= λ c. some c.shards)
    ≡ some (gid 1 ∷ gid 2 ∷ gid 1 ∷ gid 2 ∷ gid 1 ∷ gid 2 ∷ gid 1 ∷ gid 2 ∷ gid 1 ∷ gid 2 ∷ [])
unfolding join add_groups copy_groups gid_to_shards add_shards empty_groups rebalance assign_shards
    give move_shard gid_with_max_shards gid_with_min_shards max_loop min_loop sorted_gids insert_gid
    lookup put gid_key ℕ_discrete
joined_shards = refl

join-Joins_example : Joins (first_config ∷ []) some_groups first_config
join-Joins_example =
    join-Joins (first_config ∷ []) some_groups first_config (gid 1) refl first_config-IsAssigned
      (λ z. unfold lookup gid_key ℕ_discrete in cc) (λ z. cc)

abbrev some_table : GidToShards
some_table = (gid 1, 0 ∷ 1 ∷ 2 ∷ []) ∷ (gid 2, []) ∷ []

some_table-IsTable : IsTable some_table
unfolding lookup gid_key ℕ_discrete
some_table-IsTable = record {
  bounded = omega arith;
  group = gid 1;
  there = λ z. cc;
  valid = λ z. cc;
  owner = gid 1;
  owns = omega arith;
}

rebalance_lem_example : Rebalances 9 some_table
unfolding measure triangle lookup gid_key ℕ_discrete
rebalance_lem_example = rebalance_lem 9 some_table some_table-IsTable (omega arith)

one_config-IsNumbered : IsNumbered (first_config ∷ [])
one_config-IsNumbered = record { nonempty = omega arith; numbered = λ i c h. go i c h }
  where
    go : (i : ℕ) (c : Config) → get_elem? (first_config ∷ []) i ≡ some c → c.num ≡ i
    go zero c h = ground arith
    go (suc i) c h = absurd (cc)

abbrev move_op : Op
move_op = record (blank op_move 7 0) { shard = 3; gid = gid 5 }

abbrev moved_config : Config
moved_config = record {
  num = 1;
  shards = gid 0 ∷ gid 0 ∷ gid 0 ∷ gid 5 ∷ gid 0 ∷ gid 0 ∷ gid 0 ∷ gid 0 ∷ gid 0 ∷ gid 0 ∷ [];
  groups = [];
}

apply_to_state_machine-KeepsHistory_example :
    KeepsHistory (first_config ∷ []) move_op (first_config ∷ moved_config ∷ [])
unfolding apply_to_state_machine move copy_groups
apply_to_state_machine-KeepsHistory_example =
    apply_to_state_machine-KeepsHistory (first_config ∷ []) (first_config ∷ moved_config ∷ [])
      move_op (record { controller_config = no_config; err = ok }) one_config-IsNumbered refl

query_lem_example : Finds (first_config ∷ []) (some 3)
query_lem_example = query_lem (first_config ∷ []) (some 3) one_config-IsNumbered

-- All shards belong to the group 1, which then leaves.
abbrev full_config : Config
full_config = record { num = 1; shards = replicate shard_count (gid 1); groups = some_groups }

full_config-IsAssigned : IsAssigned full_config
unfolding lookup gid_key ℕ_discrete
full_config-IsAssigned = record {
  full = refl;
  owned = λ s g h. inr (λ z. (let e = go shard_count s g h in ground arith));
}
  where
    go : (n s : ℕ) (g : Gid) → get_elem? (replicate n (gid 1)) s ≡ some g → g ≡ gid 1
    go zero s g h = absurd (cc)
    go (suc n) zero g h = ground arith
    go (suc n) (suc s) g h = go n s g h

leave-Leaves_example : Leaves (first_config ∷ full_config ∷ []) (gid 1 ∷ []) full_config
leave-Leaves_example =
    leave-Leaves (first_config ∷ full_config ∷ []) (gid 1 ∷ []) full_config refl
      full_config-IsAssigned (unfold lookup gid_key ℕ_discrete in refl)

-- The move twice, as a clerk sends it again.
configs_once_example : OneConfigEach (move_op ∷ move_op ∷ []) (first_config ∷ moved_config ∷ [])
configs_once_example =
    configs_once (move_op ∷ move_op ∷ []) (first_config ∷ moved_config ∷ [])
      ((7, record { seq_id = 0; reply = record { controller_config = no_config; err = ok } }) ∷ [])
      (unfold execute_all execute request_duplicated apply_to_state_machine move copy_groups
          new_state_machine default_config lookup put nat_key ℕ_discrete in
        refl)
