-- ===== src/ShardKv/Starting.antt =====
-- A server of src/shardkv as `StartServer` of src/shardkv/server.go leaves it without a snapshot.
use mathlib.Core.Path.{subst}
use multi_raft.Common.{
  ℕ, ◌≡◌, refl, inl, inr, true, none, some, List, [], ◌∷◌, arith, lookup, put, nat_key, string_key,
  ℕ_discrete, Option-cases, lookup-put_self, lookup-put_ne,
}
use multi_raft.ShardCtrler.Config.{shard_count, Gid, default_config}
use multi_raft.ShardKv.Changes.{count_up}
use multi_raft.ShardKv.Commands.{AllNormal, IsConsistent}
use multi_raft.ShardKv.Configuring.{mem, count_up-mem}
use multi_raft.ShardKv.Operating.{IsComplete}
use multi_raft.ShardKv.Operations.{normal}
use multi_raft.ShardKv.Server.{fill_shards}
use multi_raft.ShardKv.Shards.{Shard, new_shard, Shards, Store}

-- As `StartServer` leaves it where there is no snapshot.
abbrev pub first_store : Gid → Store
first_store g = record {
  gid = g;
  shards = fill_shards [] (count_up 0 shard_count);
  current_config = default_config;
  prev_config = default_config;
}

put_new-keeps :
    (shards : Shards) (j i : ℕ) (shard : Shard)
    → lookup shards j ≡ none
    → lookup shards i ≡ some shard
    → lookup (put shards j new_shard) i ≡ some shard
put_new-keeps shards j i shard e h = ground (arith, lookup-put_ne shards j i new_shard, e, h)

pub fill_shards-keeps :
    (shards : Shards) (is : List ℕ) (i : ℕ) (shard : Shard)
    → lookup shards i ≡ some shard
    → lookup (fill_shards shards is) i ≡ some shard
unfolding fill_shards
fill_shards-keeps shards [] i shard h = h
fill_shards-keeps shards (j ∷ is) i shard h = elim (Option-cases (lookup shards j)) [
  | inl e ↦
      rw (e, fill_shards)
        (fill_shards-keeps (put shards j new_shard) is i shard (put_new-keeps shards j i shard e h))
  | inr (old, e) ↦ rw (e, fill_shards) (fill_shards-keeps shards is i shard h)
]

pub fill_shards-fills :
    (shards : Shards) (is : List ℕ) (i : ℕ)
    → mem i is ≡ true
    → (shard : Shard) × (lookup (fill_shards shards is) i ≡ some shard)
unfolding fill_shards
fill_shards-fills shards [] i m = absurd (cc)
fill_shards-fills shards (j ∷ is) i m = elim (Option-cases (lookup shards j)) [
  | inl e ↦ elim (ℕ_discrete j i) [
    | yes same ↦ (
      new_shard,
      rw (e, fill_shards)
          (fill_shards-keeps (put shards j new_shard) is i new_shard (
            subst (λ k. lookup (put shards j new_shard) k ≡ some new_shard) same
              (lookup-put_self shards j new_shard))),
    )
    | no differ ↦
        rw (e, fill_shards) (fill_shards-fills (put shards j new_shard) is i (ground arith))
  ]
  | inr (old, e) ↦ elim (ℕ_discrete j i) [
    | yes same ↦ (
      old,
      rw (e, fill_shards)
          (fill_shards-keeps shards is i old (subst (λ k. lookup shards k ≡ some old) same e)),
    )
    | no differ ↦ rw (e, fill_shards) (fill_shards-fills shards is i (ground arith))
  ]
]

abbrev Calm : Shards → Type 0
Calm shards = (i : ℕ) (shard : Shard) → lookup shards i ≡ some shard → shard.status ≡ normal

fill_shards-Calm : (shards : Shards) (is : List ℕ) → Calm shards → Calm (fill_shards shards is)
unfolding fill_shards new_shard
fill_shards-Calm shards [] calm = calm
fill_shards-Calm shards (j ∷ is) calm = elim (Option-cases (lookup shards j)) [
  | inl e ↦
      let new : Shard = record { kv = []; status = normal } in
      rw (e, fill_shards)
        (fill_shards-Calm (put shards j new) is (λ i shard h.
          ground (arith, lookup-put_self shards j new, lookup-put_ne shards j i new, calm i shard)))
  | inr (old, e) ↦ rw (e, fill_shards) (fill_shards-Calm shards is calm)
]

pub first_store-IsComplete : (g : Gid) → IsComplete (first_store g)
unfolding default_config
first_store-IsComplete g = record {
  held = λ i lt.
      fill_shards-fills [] (count_up 0 shard_count) i
        (count_up-mem 0 shard_count i (omega arith) lt);
  current_full = refl;
  prev_full = refl;
}

pub first_store-AllNormal : (g : Gid) → AllNormal (first_store g)
first_store-AllNormal g i shard lt h =
    fill_shards-Calm [] (count_up 0 shard_count) (λ j s e. unfold lookup in absurd (cc)) i shard h

pub first_store-IsConsistent : (g : Gid) → IsConsistent (first_store g)
first_store-IsConsistent g i prev current shard hp hq h =
    let calm =
      fill_shards-Calm [] (count_up 0 shard_count) (λ i shard h. unfold lookup in absurd (cc)) in
    rw (calm i shard h) refl
