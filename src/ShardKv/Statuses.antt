-- ===== src/ShardKv/Statuses.antt =====
-- How the commands of src/shardkv/conf_change.go other than a new configuration move the statuses of
-- the shards, and how operations of clients leave them alone.
use mathlib.Core.Path.{subst}
use multi_raft.Common.{
  ℕ, ◌<◌, ◌≡◌, refl, ◌∙◌, ◌⊎◌, inl, inr, Bool, true, false, some, List, [], ◌∷◌, String, arith,
  lookup, put, nat_key, string_key, ℕ_discrete, All, Map, lookup-put_self, lookup-put_ne,
}
use multi_raft.ShardCtrler.Config.{shard_count}
use multi_raft.ShardKv.Changes.{put_all, take_shards, clean_shards}
use multi_raft.ShardKv.Operations.{ShardStatus, normal, move_in, move_out, gc}
use multi_raft.ShardKv.Shards.{Shard, new_shard, Shards}

-- Where a status may get to without a new configuration.
abbrev pub reaches : ShardStatus → ShardStatus → Bool
reaches normal normal = true
reaches move_in move_in = true
reaches move_in gc = true
reaches move_in normal = true
reaches move_out move_out = true
reaches move_out normal = true
reaches gc gc = true
reaches gc normal = true
reaches _ _ = false

pub reaches_self : (s : ShardStatus) → reaches s s ≡ true
reaches_self normal = refl
reaches_self move_in = refl
reaches_self move_out = refl
reaches_self gc = refl

reaches_trans : (a b c : ShardStatus) → reaches a b ≡ true → reaches b c ≡ true → reaches a c ≡ true
reaches_trans a b c ab bc = ground arith

-- Every shard stays, with a status that its old one may get to.
abbrev pub Becomes : Shards → Shards → Type 0
Becomes shards shards' =
    (i : ℕ) (shard : Shard)
    → lookup shards i ≡ some shard
    → (shard' : Shard) × (lookup shards' i ≡ some shard')
      × (reaches shard.status shard'.status ≡ true)

pub Becomes-self : (shards : Shards) → Becomes shards shards
Becomes-self shards i shard h = (shard, h, reaches_self shard.status)

Becomes-trans : (a b c : Shards) → Becomes a b → Becomes b c → Becomes a c
Becomes-trans a b c ab bc i shard h =
    let (shard₁, h₁, r₁) = ab i shard h in
    let (shard₂, h₂, r₂) = bc i shard₁ h₁ in
    (shard₂, h₂, reaches_trans shard.status shard₁.status shard₂.status r₁ r₂)

pub put-Becomes :
    (shards : Shards) (i : ℕ) (shard shard' : Shard)
    → lookup shards i ≡ some shard
    → reaches shard.status shard'.status ≡ true
    → Becomes shards (put shards i shard')
put-Becomes shards i shard shard' h r j other h' = elim (ℕ_discrete i j) [
  | yes e ↦ (
    shard',
    subst (λ k. lookup (put shards i shard') k ≡ some shard') e (lookup-put_self shards i shard'),
    ground arith,
  )
  | no n ↦ (other, lookup-put_ne shards i j shard' n ∙ h', reaches_self other.status)
]

-- The shards that a command names.
abbrev pub Held : Shards → Type 0
Held shards = (i : ℕ) → i < shard_count → (shard : Shard) × (lookup shards i ≡ some shard)

pub Becomes-Held : (shards shards' : Shards) → Becomes shards shards' → Held shards → Held shards'
Becomes-Held shards shards' b held i lt =
    let (shard, h) = held i lt in let (shard', h', _) = b i shard h in (shard', h')

abbrev pub InRange : {V : Type 0} → Map ℕ V → Type 0
InRange m = All (λ e. e.0 < shard_count) m

pub status-cases : (s : ShardStatus) → (s ≡ normal) ⊎ (s ≡ move_in) ⊎ (s ≡ move_out) ⊎ (s ≡ gc)
status-cases normal = inl refl
status-cases move_in = inr (inl refl)
status-cases move_out = inr (inr (inl refl))
status-cases gc = inr (inr (inr refl))

pub take_shards-Becomes :
    (shards : Shards) (sent : Map ℕ (Map String String))
    → Held shards
    → InRange sent
    → (shards' : Shards) × (take_shards shards sent ≡ some shards') × Becomes shards shards'
unfolding take_shards
take_shards-Becomes shards [] held range = (shards, refl, Becomes-self shards)
take_shards-Becomes shards ((i, entries) ∷ rest) held (lt, range) =
    let (shard, h) = held i lt in
    let shard' : Shard = record { kv = put_all shard.kv entries; status = gc } in
    elim (status-cases shard.status) [
      | inr (inl e) ↦
          let b = put-Becomes shards i shard shard' h (ground arith) in
          let (shards', done, b') =
            take_shards-Becomes (put shards i shard') rest
              (Becomes-Held shards (put shards i shard') b held) range in
          (
            shards',
            ground (arith, h, e, done),
            Becomes-trans shards (put shards i shard') shards' b b',
          )
      | inl e ↦ (shards, ground (arith, h, e), Becomes-self shards)
      | inr (inr (inl e)) ↦ (shards, ground (arith, h, e), Becomes-self shards)
      | inr (inr (inr e)) ↦ (shards, ground (arith, h, e), Becomes-self shards)
    ]

pub clean_shards-Becomes :
    (shards : Shards) (ids : List ℕ)
    → Held shards
    → All (λ i. i < shard_count) ids
    → (shards' : Shards) × (clean_shards shards ids ≡ some shards') × Becomes shards shards'
unfolding clean_shards new_shard
clean_shards-Becomes shards [] held range = (shards, refl, Becomes-self shards)
clean_shards-Becomes shards (i ∷ is) held (lt, range) =
    let (shard, h) = held i lt in
    let next : (shard' : Shard)
        → reaches shard.status shard'.status ≡ true
        → (shards' : Shards) × (clean_shards (put shards i shard') is ≡ some shards')
          × Becomes shards shards' =
      λ shard' r.
        let b = put-Becomes shards i shard shard' h r in
        let (shards', done, b') =
          clean_shards-Becomes (put shards i shard') is
            (Becomes-Held shards (put shards i shard') b held) range in
        (shards', done, Becomes-trans shards (put shards i shard') shards' b b') in
    elim (status-cases shard.status) [
      | inr (inr (inr e)) ↦
          let (shards', done, b) = next (record shard { status = normal }) (ground arith) in
          (shards', ground (arith, h, e, done), b)
      | inr (inr (inl e)) ↦
          let (shards', done, b) = next new_shard (ground arith) in
          (shards', ground (arith, h, e, done), b)
      | inl e ↦ (shards, ground (arith, h, e), Becomes-self shards)
      | inr (inl e) ↦ (shards, ground (arith, h, e), Becomes-self shards)
    ]
