-- ===== src/ShardCtrler/Rebalance/Measure.antt =====
-- Sums over shards, and the measure that the loop of `Join` of src/shardctrler/state_machine.go
-- lowers.
use multi_raft.Common.{
  ℕ, zero, suc, ◌+◌, ◌*◌, ◌≤◌, ◌<◌, ◌≡◌, refl, ap, ◌≢◌, none, List, [], ◌∷◌, ◌++◌, arith, lookup,
  nat_key, string_key, length, length-append,
}
use multi_raft.ShardCtrler.Config.{shard_count, Gid, gid, gid_key}
use multi_raft.ShardCtrler.Rebalance.Totals.{
  total, total-at, moved, total-moved, shards_at-moved_from, shards_at-moved_else,
}
use multi_raft.ShardCtrler.StateMachine.{GidToShards, shards_at}

-- A sum over the shards of a list.
pub record IsAdditive (f : List ℕ → ℕ) : Type 0 where
  pub of_nil : f [] ≡ 0
  pub of_cons : (x : ℕ) (v : List ℕ) → f (x ∷ v) ≡ f (x ∷ []) + f v
  pub of_snoc : (x : ℕ) (v : List ℕ) → f (v ++ (x ∷ [])) ≡ f v + f (x ∷ [])

pub length-IsAdditive : IsAdditive (length {A = ℕ})
length-IsAdditive = record {
  of_nil = refl;
  of_cons = λ x v. omega arith;
  of_snoc = λ x v. length-append v (x ∷ []);
}

pub total-moved_same :
    (f : List ℕ → ℕ) (m : GidToShards) (from to : Gid) (shard : ℕ) (rest : List ℕ)
    → IsAdditive f
    → from ≢ to
    → shards_at m from ≡ shard ∷ rest
    → total f (moved m from to shard rest) ≡ total f m
total-moved_same f m from to shard rest a n e =
    let t = total-moved f m from to shard rest a.of_nil n e in
    omega (arith, t, a.of_cons shard rest, a.of_snoc shard (shards_at m to))

-- The sum of 0, …, n - 1.
unfoldable pub triangle : ℕ → ℕ
triangle zero = 0
triangle (suc n) = triangle n + n

-- The shards of the group 0 weigh most.
unfoldable pub measure : GidToShards → ℕ
measure m = 11 * length (shards_at m (gid 0)) + total (λ v. triangle (length v)) m

-- A table of one to ten shards with a group other than 0.
pub record IsTable (m : GidToShards) : Type 0 where
  pub bounded : total length m ≤ shard_count
  pub group : Gid
  pub there : lookup m group ≢ none
  pub valid : group ≢ gid 0
  pub owner : Gid
  pub owns : 0 < length (shards_at m owner)

pub group_small : (m : GidToShards) (g : Gid) → IsTable m → length (shards_at m g) ≤ shard_count
group_small m g t = let b = total-at length m g refl in omega (arith, t.bounded)

pub total-triangle :
    (m : GidToShards) (from to : Gid) (shard : ℕ) (rest : List ℕ)
    → from ≢ to
    → shards_at m from ≡ shard ∷ rest
    → total (λ v. triangle (length v)) (moved m from to shard rest) + length rest
      ≡ total (λ v. triangle (length v)) m + length (shards_at m to)
unfolding triangle
total-triangle m from to shard rest n e =
    let t = total-moved (λ v. triangle (length v)) m from to shard rest refl n e in
    let l : length (shards_at m to ++ (shard ∷ [])) ≡ suc (length (shards_at m to)) =
      omega (arith, length-append (shards_at m to) (shard ∷ [])) in
    let l' : triangle (length (shards_at m to ++ (shard ∷ [])))
        ≡ triangle (length (shards_at m to)) + length (shards_at m to) =
      ap triangle l in
    omega (arith, t, l')

pub measure-moved_zero :
    (m : GidToShards) (to : Gid) (shard : ℕ) (rest : List ℕ)
    → gid 0 ≢ to
    → shards_at m (gid 0) ≡ shard ∷ rest
    → length (shards_at m to) ≤ shard_count
    → measure (moved m (gid 0) to shard rest) < measure m
unfolding measure
measure-moved_zero m to shard rest n e small =
    let t = total-triangle m (gid 0) to shard rest n e in
    let l = ap (length {A = ℕ}) (shards_at-moved_from m (gid 0) to shard rest) in
    let l' = ap (length {A = ℕ}) e in omega (arith, t, l, l')

pub measure-moved :
    (m : GidToShards) (from to : Gid) (shard : ℕ) (rest : List ℕ)
    → from ≢ to
    → from ≢ gid 0
    → to ≢ gid 0
    → shards_at m from ≡ shard ∷ rest
    → length (shards_at m to) < length rest
    → measure (moved m from to shard rest) < measure m
unfolding measure
measure-moved m from to shard rest n n₁ n₂ e larger =
    let t = total-triangle m from to shard rest n e in
    let l = ap (length {A = ℕ}) (shards_at-moved_else m from to shard rest (gid 0) n₁ n₂) in
    omega (arith, t, l)
