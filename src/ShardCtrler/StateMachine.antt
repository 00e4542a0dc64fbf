-- ===== src/ShardCtrler/StateMachine.antt =====
-- src/shardctrler/state_machine.go: the list of configurations, and the four operations on it.
-- `none` is a panic, or a rebalancing that runs out of fuel. A `range` over a map takes its entries
-- in the order of the list; what the code makes of them does not depend on the order.
use multi_raft.Common.{
  ℕ, zero, suc, ◌+◌, ◌-◌, not, ◌&&◌, Option, none, some, List, [], ◌∷◌, ◌++◌, lookup, put, delete,
  nat_key, string_key, ltb, leb, ◌==◌, if◌then◌else◌, ◌>>=◌, length, get_elem?, drop, replicate,
  assign, is_key, Map,
}
use multi_raft.ShardCtrler.Config.{
  shard_count, Gid, no_gid, gid, rank, gid_key, Groups, Config, default_config, Err, ok,
}

abbrev pub StateMachine : Type 0
StateMachine = List Config

unfoldable pub new_state_machine : StateMachine
new_state_machine = default_config ∷ []

-- The last configuration.
abbrev pub latest : StateMachine → Option Config
latest csm = get_elem? csm (length csm - 1)

unfoldable pub query : StateMachine → Option ℕ → Option (Config × Err)
query csm none = latest csm >>= λ c. some (c, ok)
query csm (some num) =
    (if leb (length csm) num then latest csm else get_elem? csm num) >>= λ c. some (c, ok)

-- The lists of servers are values here, so a copy of the map is the map.
unfoldable pub copy_groups : Groups → Groups
copy_groups [] = []
copy_groups ((g, servers) ∷ groups) = (g, servers) ∷ copy_groups groups

-- Groups that are there already stay as they are.
unfoldable pub add_groups : Groups → Groups → Groups
add_groups known [] = known
add_groups known ((g, servers) ∷ groups) = elim (lookup known g) [
  | some _ ↦ add_groups known groups
  | none ↦ add_groups (put known g servers) groups
]

abbrev pub GidToShards : Type 0
GidToShards = Map Gid (List ℕ)

-- `gidToShards[gid]`, nil for a missing key.
abbrev pub shards_at : GidToShards → Gid → List ℕ
shards_at m g = elim (lookup m g) [ some shards ↦ shards | none ↦ [] ]

-- Every group with no shards.
unfoldable pub empty_groups : Groups → GidToShards → GidToShards
empty_groups [] m = m
empty_groups ((g, _) ∷ groups) m = empty_groups groups (put m g [])

-- `for shard, gid := range newConfig.Shards`, from the position `i` on.
unfoldable pub add_shards : List Gid → ℕ → GidToShards → GidToShards
add_shards [] i m = m
add_shards (g ∷ shards) i m = add_shards shards (i + 1) (put m g (shards_at m g ++ (i ∷ [])))

unfoldable pub gid_to_shards : Groups → List Gid → GidToShards
gid_to_shards groups shards = add_shards shards 0 (empty_groups groups [])

unfoldable pub insert_gid : Gid → List Gid → List Gid
insert_gid g [] = g ∷ []
insert_gid g (h ∷ gids) =
    let rest = insert_gid g gids in if leb (rank g) (rank h) then g ∷ h ∷ gids else h ∷ rest

-- The keys, sorted.
unfoldable pub sorted_gids : GidToShards → List Gid
unfolding insert_gid
sorted_gids [] = []
sorted_gids ((g, _) ∷ m) = insert_gid g (sorted_gids m)

-- The loop of `gidWithMaxShards`; `least` is `maxShards + 1`, and `max_gid` starts as -1.
unfoldable pub max_loop : GidToShards → List Gid → Gid → ℕ → Gid
max_loop m [] max_gid least = max_gid
max_loop m (g ∷ gids) max_gid least =
    let larger = leb least (length (shards_at m g)) in
    max_loop m gids (if larger then g else max_gid)
      (if larger then length (shards_at m g) + 1 else least)

-- The invalid group 0 gives its shards up first.
unfoldable pub gid_with_max_shards : GidToShards → Gid
gid_with_max_shards m =
    if ltb 0 (length (shards_at m (gid 0))) then gid 0 else max_loop m (sorted_gids m) no_gid 0

unfoldable pub min_loop : GidToShards → List Gid → Gid → ℕ → Gid
min_loop m [] min_gid min_shards = min_gid
min_loop m (g ∷ gids) min_gid min_shards =
    let smaller = not (is_key g (gid 0)) && ltb (length (shards_at m g)) min_shards in
    min_loop m gids (if smaller then g else min_gid)
      (if smaller then length (shards_at m g) else min_shards)

unfoldable pub gid_with_min_shards : GidToShards → Gid
gid_with_min_shards m = min_loop m (sorted_gids m) no_gid (shard_count + 1)

-- One shard goes from `from` to `to`.
unfoldable pub move_shard : GidToShards → Gid → Gid → Option GidToShards
move_shard m from to = get_elem? (shards_at m from) 0 >>= λ shard.
    let m' = put m to (shards_at m to ++ (shard ∷ [])) in
    some (put m' from (drop 1 (shards_at m' from)))

-- The loop that moves shards from the largest group to the smallest.
unfoldable pub rebalance : ℕ → GidToShards → Option GidToShards
rebalance zero m = none
rebalance (suc fuel) m =
    let from = gid_with_max_shards m in
    let to = gid_with_min_shards m in
    if not (is_key from (gid 0)) && leb (length (shards_at m from)) (length (shards_at m to) + 1)
    then some m
    else (move_shard m from to >>= rebalance fuel)

-- Every round but the last lowers a measure that starts at 155 or less.
abbrev pub join_fuel : ℕ
join_fuel = 156

-- `newShards[shard] = gid` for the shards of one group, and for all groups.
unfoldable pub give : List Gid → Gid → List ℕ → Option (List Gid)
give new_shards g [] = some new_shards
give new_shards g (shard ∷ shards) =
    assign new_shards shard g >>= λ new_shards'. give new_shards' g shards

unfoldable pub assign_shards : List Gid → GidToShards → Option (List Gid)
assign_shards new_shards [] = some new_shards
assign_shards new_shards ((g, shards) ∷ m) =
    give new_shards g shards >>= λ new_shards'. assign_shards new_shards' m

abbrev pub no_shards : List Gid
no_shards = replicate shard_count (gid 0)

unfoldable pub join : StateMachine → Groups → Option (StateMachine × Err)
join csm groups = do
  last_config ← latest csm
  let new_groups = add_groups (copy_groups last_config.groups) groups
  m ← rebalance join_fuel (gid_to_shards new_groups last_config.shards)
  new_shards ← assign_shards no_shards m
  let new_config : Config = record { num = length csm; shards = new_shards; groups = new_groups }
  some (csm ++ (new_config ∷ []), ok)

-- The groups that leave are taken out; what they held is kept aside, in the order of `gids`.
unfoldable pub remove_groups :
    List Gid → Groups → GidToShards → List ℕ → Groups × GidToShards × List ℕ
remove_groups [] groups m unassigned = (groups, m, unassigned)
remove_groups (g ∷ gids) groups m unassigned =
    remove_groups gids (delete groups g) (delete m g) (unassigned ++ shards_at m g)

-- Each shard set free goes to the smallest group.
unfoldable pub reassign : GidToShards → List ℕ → GidToShards
reassign m [] = m
reassign m (shard ∷ shards) =
    let min_gid = gid_with_min_shards m in
    reassign (put m min_gid (shards_at m min_gid ++ (shard ∷ []))) shards

unfoldable pub leave : StateMachine → List Gid → Option (StateMachine × Err)
leave csm gids = do
  last_config ← latest csm
  let old = copy_groups last_config.groups
  let (new_groups, m, unassigned) = remove_groups gids old (gid_to_shards old last_config.shards) []
  new_shards ←
      if length new_groups == 0
      then some no_shards
      else assign_shards no_shards (reassign m unassigned)
  let new_config : Config = record { num = length csm; shards = new_shards; groups = new_groups }
  some (csm ++ (new_config ∷ []), ok)

unfoldable pub move : StateMachine → ℕ → Gid → Option (StateMachine × Err)
move csm shard g = do
  last_config ← latest csm
  new_shards ← assign last_config.shards shard g
  let new_config : Config = record {
    num = length csm;
    shards = new_shards;
    groups = copy_groups last_config.groups;
  }
  some (csm ++ (new_config ∷ []), ok)
