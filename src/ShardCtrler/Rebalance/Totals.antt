-- ===== src/ShardCtrler/Rebalance/Totals.antt =====
-- Sums over the groups of a table of shards, and what a move of a shard does to them.
use multi_raft.Common.{
  ℕ, ◌+◌, ◌≤◌, ◌≡◌, refl, sym, ap, ◌∙◌, ◌≢◌, ◌↔◌, none, some, List, [], ◌∷◌, ◌++◌, arith, lookup,
  put, nat_key, string_key, lookup-put_self, lookup-put_ne,
}
use multi_raft.ShardCtrler.Config.{Gid, gid_key}
use multi_raft.ShardCtrler.StateMachine.{GidToShards, shards_at, move_shard}

abbrev pub total : (List ℕ → ℕ) → GidToShards → ℕ
total f [] = 0
total f ((g, shards) ∷ m) = f shards + total f m

pub shards_at-put_self : (m : GidToShards) (g : Gid) (v : List ℕ) → shards_at (put m g v) g ≡ v
shards_at-put_self m g v = ground (arith, lookup-put_self m g v)

pub shards_at-put_ne :
    (m : GidToShards) (g g' : Gid) (v : List ℕ) → g ≢ g' → shards_at (put m g v) g' ≡ shards_at m g'
shards_at-put_ne m g g' v n = ground (arith, lookup-put_ne m g g' v n)

pub total-put :
    (f : List ℕ → ℕ) (m : GidToShards) (g : Gid) (v : List ℕ)
    → f [] ≡ 0
    → total f (put m g v) + f (shards_at m g) ≡ total f m + f v
unfolding put lookup
total-put f [] g v z = ground arith
total-put f ((h, w) ∷ m) g v z = ground (arith, total-put f m g v z)

pub total-at :
    (f : List ℕ → ℕ) (m : GidToShards) (g : Gid) → f [] ≡ 0 → f (shards_at m g) ≤ total f m
unfolding lookup
total-at f [] g z = ground arith
total-at f ((h, w) ∷ m) g z = ground (arith, total-at f m g z)

-- The table after a move of `shard`, the first of `from`, of which `rest` remain.
pub moved : GidToShards → Gid → Gid → ℕ → List ℕ → GidToShards
moved m from to shard rest = put (put m to (shards_at m to ++ (shard ∷ []))) from rest

pub move_shard-moved :
    (m : GidToShards) (from to : Gid) (shard : ℕ) (rest : List ℕ)
    → from ≢ to
    → shards_at m from ≡ shard ∷ rest
    → move_shard m from to ≡ some (moved m from to shard rest)
unfolding move_shard moved
move_shard-moved m from to shard rest n e =
    ground (arith, shards_at-put_ne m to from (shards_at m to ++ (shard ∷ [])) (λ p. n (sym p)))

pub total-moved :
    (f : List ℕ → ℕ) (m : GidToShards) (from to : Gid) (shard : ℕ) (rest : List ℕ)
    → f [] ≡ 0
    → from ≢ to
    → shards_at m from ≡ shard ∷ rest
    → total f (moved m from to shard rest) + f (shard ∷ rest) + f (shards_at m to)
      ≡ total f m + f rest + f (shards_at m to ++ (shard ∷ []))
unfolding moved
total-moved f m from to shard rest z n e =
    let m' = put m to (shards_at m to ++ (shard ∷ [])) in
    let e' : shards_at m' from ≡ shard ∷ rest =
      shards_at-put_ne m to from (shards_at m to ++ (shard ∷ [])) (λ p. n (sym p)) ∙ e in
    let a = total-put f m' from rest z in
    let b = total-put f m to (shards_at m to ++ (shard ∷ [])) z in
    let c : f (shards_at m' from) ≡ f (shard ∷ rest) = ap f e' in omega (arith, a, b, c)

-- A write at a key that is there leaves the same keys.
pub lookup-put_there :
    (m : GidToShards) (g : Gid) (v : List ℕ) (g' : Gid)
    → lookup m g ≢ none
    → (lookup (put m g v) g' ≡ none) ↔ (lookup m g' ≡ none)
lookup-put_there m g v g' there = ground (arith, lookup-put_self m g v, lookup-put_ne m g g' v)

pub lookup-moved :
    (m : GidToShards) (from to : Gid) (shard : ℕ) (rest : List ℕ) (g : Gid)
    → lookup m to ≢ none
    → shards_at m from ≡ shard ∷ rest
    → (lookup (moved m from to shard rest) g ≡ none) ↔ (lookup m g ≡ none)
unfolding moved
lookup-moved m from to shard rest g there e =
    let v = shards_at m to ++ (shard ∷ []) in
    let from_there : lookup m from ≢ none = λ h. ground arith in
    let a = lookup-put_there m to v from there in
    let from_there' : lookup (put m to v) from ≢ none = λ h. from_there (a.0 h) in
    let b = lookup-put_there (put m to v) from rest g from_there' in
    let c = lookup-put_there m to v g there in (λ h. c.0 (b.0 h), λ h. b.1 (c.1 h))

pub shards_at-moved_from :
    (m : GidToShards) (from to : Gid) (shard : ℕ) (rest : List ℕ)
    → shards_at (moved m from to shard rest) from ≡ rest
unfolding moved
shards_at-moved_from m from to shard rest =
    shards_at-put_self (put m to (shards_at m to ++ (shard ∷ []))) from rest

pub shards_at-moved_else :
    (m : GidToShards) (from to : Gid) (shard : ℕ) (rest : List ℕ) (g : Gid)
    → from ≢ g
    → to ≢ g
    → shards_at (moved m from to shard rest) g ≡ shards_at m g
unfolding moved
shards_at-moved_else m from to shard rest g n n' =
    let v = shards_at m to ++ (shard ∷ []) in
    shards_at-put_ne (put m to v) from g rest n ∙ shards_at-put_ne m to g v n'

pub shards_at-moved_to :
    (m : GidToShards) (from to : Gid) (shard : ℕ) (rest : List ℕ)
    → from ≢ to
    → shards_at (moved m from to shard rest) to ≡ shards_at m to ++ (shard ∷ [])
unfolding moved
shards_at-moved_to m from to shard rest n =
    let v = shards_at m to ++ (shard ∷ []) in
    shards_at-put_ne (put m to v) from to rest n ∙ shards_at-put_self m to v

-- No group has two lists.
abbrev pub Nodup : GidToShards → Type 0
Nodup [] = Unit
Nodup ((g, _) ∷ m) = (lookup m g ≡ none) × Nodup m

pub put-Nodup : (m : GidToShards) (g : Gid) (v : List ℕ) → Nodup m → Nodup (put m g v)
unfolding put lookup
put-Nodup [] g v u = (refl, tt)
put-Nodup ((h, w) ∷ m) g v (fresh, u) = ground (arith, put-Nodup m g v u, lookup-put_ne m g h v)

pub moved-Nodup :
    (m : GidToShards) (from to : Gid) (shard : ℕ) (rest : List ℕ)
    → Nodup m
    → Nodup (moved m from to shard rest)
unfolding moved
moved-Nodup m from to shard rest u =
    let v = shards_at m to ++ (shard ∷ []) in put-Nodup (put m to v) from rest (put-Nodup m to v u)
