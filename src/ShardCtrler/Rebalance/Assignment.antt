-- ===== src/ShardCtrler/Rebalance/Assignment.antt =====
-- The array of shards that src/shardctrler/state_machine.go fills from a table.
use mathlib.Core.Path.{subst}
use multi_raft.Common.{
  ℕ, ◌+◌, ◌≤◌, ◌<◌, ◌≡◌, refl, sym, ◌∙◌, ◌&&◌, some, List, [], ◌∷◌, ◌++◌, arith, lookup, put,
  nat_key, string_key, ℕ_discrete, ltb, leb, ◌==◌, if◌then◌else◌, length, get_elem?, set,
  length-set, get_elem?-below, get_elem?-set_self, get_elem?-set_ne,
}
use multi_raft.ShardCtrler.Config.{shard_count, Gid, gid_key, Groups}
use multi_raft.ShardCtrler.Rebalance.Measure.{IsAdditive}
use multi_raft.ShardCtrler.Rebalance.Totals.{total, total-put, Nodup, put-Nodup}
use multi_raft.ShardCtrler.StateMachine.{
  GidToShards, shards_at, empty_groups, add_shards, give, assign_shards,
}

-- How often a shard is in a list, and how many shards of a list do not exist.
abbrev pub count : ℕ → List ℕ → ℕ
count s [] = 0
count s (x ∷ v) = (if s == x then 1 else 0) + count s v

abbrev pub beyond : List ℕ → ℕ
beyond [] = 0
beyond (x ∷ v) = (if ltb x shard_count then 0 else 1) + beyond v

count-append : (s x : ℕ) (v : List ℕ) → count s (v ++ (x ∷ [])) ≡ count s v + count s (x ∷ [])
count-append s x [] = omega arith
count-append s x (y ∷ v) = omega (arith, count-append s x v)

beyond-append : (x : ℕ) (v : List ℕ) → beyond (v ++ (x ∷ [])) ≡ beyond v + beyond (x ∷ [])
beyond-append x [] = omega arith
beyond-append x (y ∷ v) = omega (arith, beyond-append x v)

pub count-IsAdditive : (s : ℕ) → IsAdditive (count s)
count-IsAdditive s = record {
  of_nil = refl;
  of_cons = λ x v. omega arith;
  of_snoc = λ x v. count-append s x v;
}

pub beyond-IsAdditive : IsAdditive beyond
beyond-IsAdditive = record {
  of_nil = refl;
  of_cons = λ x v. omega arith;
  of_snoc = λ x v. beyond-append x v;
}

-- The array once the shards of one group are given.
abbrev Gives : List Gid → Gid → List ℕ → Type 0
Gives ns g v =
    (ns' : List Gid) × (give ns g v ≡ some ns')
    × (length ns' ≡ shard_count)
    × ((s : ℕ) → s < shard_count → count s v ≡ 0 → get_elem? ns' s ≡ get_elem? ns s)
    × ((s : ℕ) → s < shard_count → 0 < count s v → get_elem? ns' s ≡ some g)

give-Gives :
    (ns : List Gid) (g : Gid) (v : List ℕ) → length ns ≡ shard_count → beyond v ≡ 0 → Gives ns g v
unfolding give
give-Gives ns g [] l b = (ns, refl, l, (λ s h z. refl), λ s h z. absurd (omega arith))
give-Gives ns g (x ∷ v) l b =
    let lt : x < shard_count = ground arith in
    let (old, found) = get_elem?-below ns x (omega arith) in
    let (ns', done, l', kept, given) =
      give-Gives (set ns x g) g v (length-set ns x g ∙ l) (ground arith) in
    (
      ns',
      ground (arith, done, found),
      l',
      (λ s h z. kept s h (ground arith) ∙ get_elem?-set_ne ns x s g (λ e. ground arith)),
      λ s h z. elim (ℕ_discrete (count s v) 0) [
        | yes none' ↦
            let e : s ≡ x = ground arith in
            kept s h none'
            ∙ subst (λ y. get_elem? (set ns x g) y ≡ some g) (sym e)
                (get_elem?-set_self ns x g (omega arith))
        | no some' ↦ given s h (ground arith)
      ],
    )

-- The array once all groups have their shards: a shard that is in the table once goes to the group
-- that has it.
abbrev pub Assigns : List Gid → GidToShards → Type 0
Assigns ns m =
    (ns' : List Gid) × (assign_shards ns m ≡ some ns')
    × (length ns' ≡ shard_count)
    × ((s : ℕ) → s < shard_count → total (count s) m ≡ 0 → get_elem? ns' s ≡ get_elem? ns s)
    × ((s : ℕ)
        → s < shard_count
        → total (count s) m ≡ 1
        → (g : Gid) × (get_elem? ns' s ≡ some g) × (count s (shards_at m g) ≡ 1))

pub assign_shards-Assigns :
    (ns : List Gid) (m : GidToShards)
    → length ns ≡ shard_count
    → total beyond m ≡ 0
    → Nodup m
    → Assigns ns m
unfolding assign_shards lookup
assign_shards-Assigns ns [] l b u = (ns, refl, l, (λ s h z. refl), λ s h z. absurd (omega arith))
assign_shards-Assigns ns ((g, v) ∷ m) l b (fresh, u) =
    let (ns₁, done₁, l₁, kept₁, given₁) = give-Gives ns g v l (omega arith) in
    let (ns₂, done₂, l₂, kept₂, given₂) = assign_shards-Assigns ns₁ m l₁ (omega arith) u in
    (
      ns₂,
      ground (arith, done₁, done₂),
      l₂,
      (λ s h z. kept₂ s h (omega arith) ∙ kept₁ s h (omega arith)),
      λ s h z. elim (ℕ_discrete (count s v) 0) [
        | yes none' ↦ let (g', at_g', once) = given₂ s h (omega arith) in (g', at_g', ground arith)
        | no some' ↦ (g, kept₂ s h (omega arith) ∙ given₁ s h (omega arith), ground arith)
      ],
    )

pub total-add_shards-count :
    (s : ℕ) (shards : List Gid) (i : ℕ) (m : GidToShards)
    → total (count s) (add_shards shards i m)
      ≡ total (count s) m + (if leb i s && ltb s (i + length shards) then 1 else 0)
unfolding add_shards
total-add_shards-count s [] i m = ground arith
total-add_shards-count s (h ∷ shards) i m =
    let v = shards_at m h ++ (i ∷ []) in
    ground (
      arith,
      total-add_shards-count s shards (i + 1) (put m h v),
      total-put (count s) m h v refl,
      count-append s i (shards_at m h),
    )

pub total-add_shards-beyond :
    (shards : List Gid) (i : ℕ) (m : GidToShards)
    → i + length shards ≤ shard_count
    → total beyond m ≡ 0
    → total beyond (add_shards shards i m) ≡ 0
unfolding add_shards
total-add_shards-beyond [] i m h z = z
total-add_shards-beyond (g ∷ shards) i m h z =
    let v = shards_at m g ++ (i ∷ []) in
    let inside : beyond (i ∷ []) ≡ 0 = ground arith in
    total-add_shards-beyond shards (i + 1) (put m g v) (omega arith)
      (omega (arith, total-put beyond m g v refl, beyond-append i (shards_at m g), inside))

pub empty_groups-Nodup :
    (groups : Groups) (m : GidToShards) → Nodup m → Nodup (empty_groups groups m)
unfolding empty_groups
empty_groups-Nodup [] m u = u
empty_groups-Nodup ((g, _) ∷ groups) m u =
    empty_groups-Nodup groups (put m g []) (put-Nodup m g [] u)

pub add_shards-Nodup :
    (shards : List Gid) (i : ℕ) (m : GidToShards) → Nodup m → Nodup (add_shards shards i m)
unfolding add_shards
add_shards-Nodup [] i m u = u
add_shards-Nodup (g ∷ shards) i m u =
    let v = shards_at m g ++ (i ∷ []) in
    add_shards-Nodup shards (i + 1) (put m g v) (put-Nodup m g v u)
