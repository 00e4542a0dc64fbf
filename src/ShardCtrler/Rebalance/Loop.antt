-- ===== src/ShardCtrler/Rebalance/Loop.antt =====
-- The loop of `Join` of src/shardctrler/state_machine.go: it ends, and what it leaves.
use mathlib.Core.Path.{subst}
use multi_raft.Common.{
  ℕ, zero, suc, ◌+◌, ◌≤◌, ◌<◌, ◌≡◌, refl, sym, ap, ◌∙◌, ◌≢◌, ◌↔◌, inl, inr, Bool, true, false, not,
  ◌&&◌, none, some, List, [], ◌∷◌, arith, lookup, nat_key, string_key, leb, Bool-cases, length,
  length-append, is_key,
}
use multi_raft.ShardCtrler.Config.{Gid, gid, gid_key}
use multi_raft.ShardCtrler.Rebalance.Extremes.{gid_with_max_shards_lem, gid_with_min_shards_lem}
use multi_raft.ShardCtrler.Rebalance.Measure.{
  IsAdditive, length-IsAdditive, total-moved_same, measure, IsTable, group_small,
  measure-moved_zero, measure-moved,
}
use multi_raft.ShardCtrler.Rebalance.Totals.{
  total, moved, move_shard-moved, lookup-moved, shards_at-moved_to, Nodup, moved-Nodup,
}
use multi_raft.ShardCtrler.StateMachine.{
  GidToShards, shards_at, gid_with_max_shards, gid_with_min_shards, rebalance,
}

-- What one round does, where the loop does not end: the table of `moved`, with a lower measure.
abbrev Moves : GidToShards → Gid → Type 0
Moves m from =
    (shard : ℕ) × (rest : List ℕ) × (shards_at m from ≡ shard ∷ rest)
    × (from ≢ gid_with_min_shards m)
    × (lookup m (gid_with_min_shards m) ≢ none)
    × (measure (moved m from (gid_with_min_shards m) shard rest) < measure m)

ends : GidToShards → Bool
ends m =
    not (is_key (gid_with_max_shards m) (gid 0))
    && leb (length (shards_at m (gid_with_max_shards m)))
        (length (shards_at m (gid_with_min_shards m)) + 1)

nonempty : (v : List ℕ) → 0 < length v → (x : ℕ) × (w : List ℕ) × (v ≡ x ∷ w)
nonempty [] h = absurd (omega arith)
nonempty (x ∷ w) h = (x, w, refl)

ends-Moves : (m : GidToShards) → IsTable m → ends m ≡ false → Moves m (gid_with_max_shards m)
unfolding ends
ends-Moves m t going =
    let from = gid_with_max_shards m in
    let to = gid_with_min_shards m in
    let (valid, to_there, least) =
      gid_with_min_shards_lem m t.group t.there t.valid (group_small m t.group t) in
    elim (gid_with_max_shards_lem m) [
      | inl (zero', some') ↦
          let (shard, rest, e) = nonempty (shards_at m (gid 0)) some' in
          let n : gid 0 ≢ to = λ p. valid (sym p) in
          subst (Moves m) (sym zero') (
            shard,
            rest,
            e,
            n,
            to_there,
            measure-moved_zero m to shard rest n e (group_small m to t),
          )
      | inr (none', most) ↦
          let n₁ : from ≢ gid 0 = λ p.
            (let q = ap (λ g. length (shards_at m g)) p in
              let b = most t.owner in omega (arith, t.owns)) in
          let larger : length (shards_at m to) + 1 < length (shards_at m from) = ground arith in
          let (shard, rest, e) = nonempty (shards_at m from) (omega arith) in
          let n : from ≢ to = λ p. (let q = ap (λ g. length (shards_at m g)) p in omega arith) in
          (
            shard,
            rest,
            e,
            n,
            to_there,
            measure-moved m from to shard rest n n₁ valid e
                (let q = ap (length {A = ℕ}) e in omega arith),
          )
    ]

-- The groups are even, and nothing is left to the group 0.
abbrev pub Even : GidToShards → Type 0
Even m =
    (length (shards_at m (gid 0)) ≡ 0)
    × ((g g' : Gid)
        → lookup m g' ≢ none
        → g' ≢ gid 0
        → length (shards_at m g) ≤ length (shards_at m g') + 1)

ends-Even : (m : GidToShards) → IsTable m → ends m ≡ true → Even m
unfolding ends
ends-Even m t done =
    let (valid, to_there, least) =
      gid_with_min_shards_lem m t.group t.there t.valid (group_small m t.group t) in
    elim (gid_with_max_shards_lem m) [
      | inl (zero', some') ↦ absurd (ground arith)
      | inr (none', most) ↦
          (none', λ g g' k n. let a = most g in let b = least g' k n in ground arith)
    ]

moved-IsTable :
    (m : GidToShards) (from to : Gid) (shard : ℕ) (rest : List ℕ)
    → IsTable m
    → from ≢ to
    → lookup m to ≢ none
    → shards_at m from ≡ shard ∷ rest
    → IsTable (moved m from to shard rest)
moved-IsTable m from to shard rest t n k e = record {
  bounded =
      let same = total-moved_same length m from to shard rest length-IsAdditive n e in
      omega (arith, t.bounded);
  group = t.group;
  there = λ h. t.there ((lookup-moved m from to shard rest t.group k e).0 h);
  valid = t.valid;
  owner = to;
  owns =
      let l = ap (length {A = ℕ}) (shards_at-moved_to m from to shard rest n) in
      omega (arith, l, length-append (shards_at m to) (shard ∷ []));
}

rebalance-ends : (fuel : ℕ) (m : GidToShards) → ends m ≡ true → rebalance (suc fuel) m ≡ some m
unfolding rebalance ends
rebalance-ends fuel m e = ground arith

rebalance-goes :
    (fuel : ℕ) (m : GidToShards) (shard : ℕ) (rest : List ℕ)
    → ends m ≡ false
    → gid_with_max_shards m ≢ gid_with_min_shards m
    → shards_at m (gid_with_max_shards m) ≡ shard ∷ rest
    → rebalance (suc fuel) m
      ≡ rebalance fuel (moved m (gid_with_max_shards m) (gid_with_min_shards m) shard rest)
unfolding rebalance ends
rebalance-goes fuel m shard rest e n h =
    ground
      (arith, move_shard-moved m (gid_with_max_shards m) (gid_with_min_shards m) shard rest n h)

-- What the loop of `Join` makes of a table: an even one, with the same groups, and with the same
-- sums over all shards.
abbrev pub Rebalances : ℕ → GidToShards → Type 0
Rebalances fuel m =
    (m' : GidToShards) × (rebalance fuel m ≡ some m')
    × Even m'
    × ((g : Gid) → (lookup m' g ≡ none) ↔ (lookup m g ≡ none))
    × ((f : List ℕ → ℕ) → IsAdditive f → total f m' ≡ total f m)
    × (Nodup m → Nodup m')

-- With more fuel than the measure of a table of one to ten shards, which has a group other than 0,
-- the loop of `Join` ends without a panic: every group has as many shards as any other, or one more
-- or less, none is left to the group 0, the groups are those from before, and each shard is there as
-- often as before, and no group gets a second list.
pub rebalance_lem : (fuel : ℕ) (m : GidToShards) → IsTable m → measure m < fuel → Rebalances fuel m
rebalance_lem zero m t h = absurd (omega arith)
rebalance_lem (suc fuel) m t h = elim (Bool-cases (ends m)) [
  | inl done ↦ (
    m,
    rebalance-ends fuel m done,
    ends-Even m t done,
    (λ g. ((λ x. x), (λ x. x))),
    (λ f a. refl),
    λ u. u,
  )
  | inr going ↦
      let (shard, rest, e, n, k, less) = ends-Moves m t going in
      let from = gid_with_max_shards m in
      let to = gid_with_min_shards m in
      let next = moved m from to shard rest in
      let (m', done, even, same, sums, single) =
        rebalance_lem fuel next (moved-IsTable m from to shard rest t n k e) (omega arith) in
      (
        m',
        rebalance-goes fuel m shard rest going n e ∙ done,
        even,
        (λ g.
            let s = lookup-moved m from to shard rest g k e in
            ((λ x. s.0 ((same g).0 x)), (λ x. (same g).1 (s.1 x)))),
        (λ f a. sums f a ∙ total-moved_same f m from to shard rest a n e),
        λ u. single (moved-Nodup m from to shard rest u),
      )
]
