-- ===== src/ShardCtrler/Rebalance/Fuel.antt =====
-- The table that `Join` of src/shardctrler/state_machine.go starts from, and fuel for its loop.
use mathlib.Core.Path.{subst}
use multi_raft.Common.{
  some, get_elem?, ℕ, zero, suc, ◌+◌, ◌-◌, ◌≤◌, ◌<◌, ◌≡◌, refl, ap, ◌≢◌, ◌⊎◌, inl, inr, none, List,
  [], ◌∷◌, ◌++◌, arith, lookup, put, nat_key, string_key, length, length-append, lookup-put_self,
  lookup-put_ne,
}
use multi_raft.ShardCtrler.Config.{Gid, gid, gid_key, Groups}
use multi_raft.ShardCtrler.Rebalance.Measure.{triangle, measure, IsTable}
use multi_raft.ShardCtrler.Rebalance.Totals.{
  total, shards_at-put_self, shards_at-put_ne, total-put, total-at,
}
use multi_raft.ShardCtrler.StateMachine.{
  GidToShards, shards_at, empty_groups, add_shards, join_fuel,
}

triangle-add : (a b : ℕ) → triangle a + triangle b ≤ triangle (a + b)
unfolding triangle
triangle-add zero b = let e : 0 + b ≡ b = omega arith in omega (arith, ap triangle e)
triangle-add (suc a) b =
    let e : suc a + b ≡ suc (a + b) = omega arith in omega (arith, triangle-add a b, ap triangle e)

triangle_mono : (a b : ℕ) → a ≤ b → triangle a ≤ triangle b
triangle_mono a b h =
    let e : a + (b - a) ≡ b = omega arith in omega (arith, triangle-add a (b - a), ap triangle e)

total-triangle_le :
    (m : GidToShards) → total (λ v. triangle (length v)) m ≤ triangle (total length m)
total-triangle_le [] = ground arith
total-triangle_le ((g, v) ∷ m) =
    omega (arith, triangle-add (length v) (total length m), total-triangle_le m)

-- The fuel of `Join` is more than the measure of any table of at most ten shards.
pub measure_bound : (m : GidToShards) → IsTable m → measure m < join_fuel
unfolding measure
measure_bound m t =
    let top : triangle 10 ≡ 45 = unfold triangle in refl in
    omega (
      arith,
      total-at length m (gid 0) refl,
      t.bounded,
      total-triangle_le m,
      triangle_mono (total length m) 10 t.bounded,
      top,
    )

-- A write leaves no key without a list, and no list that holds a shard empty.
put-there :
    (m : GidToShards) (g : Gid) (v : List ℕ) (g' : Gid)
    → lookup m g' ≢ none
    → lookup (put m g v) g' ≢ none
put-there m g v g' k e = ground (arith, lookup-put_self m g v, lookup-put_ne m g g' v)

pub empty_groups-there :
    (groups : Groups) (m : GidToShards) (g : Gid)
    → (lookup groups g ≢ none) ⊎ (lookup m g ≢ none)
    → lookup (empty_groups groups m) g ≢ none
unfolding empty_groups lookup
empty_groups-there [] m g (inl k) = absurd (k refl)
empty_groups-there [] m g (inr k) = k
empty_groups-there ((h, w) ∷ groups) m g k =
    empty_groups-there groups (put m h []) g (elim (gid_key.dec h g) [
      | yes e ↦ inr (λ z. ground (arith, lookup-put_self m h []))
      | no n ↦ elim k [
        | inl there ↦ inl (λ z. there (ground arith))
        | inr there ↦ inr (put-there m h [] g there)
      ]
    ])

pub total-empty_groups :
    (f : List ℕ → ℕ) (groups : Groups) (m : GidToShards)
    → f [] ≡ 0
    → total f m ≡ 0
    → total f (empty_groups groups m) ≡ 0
unfolding empty_groups
total-empty_groups f [] m z e = e
total-empty_groups f ((g, _) ∷ groups) m z e =
    total-empty_groups f groups (put m g []) z (omega (arith, total-put f m g [] z))

pub add_shards-there :
    (shards : List Gid) (i : ℕ) (m : GidToShards) (g : Gid)
    → lookup m g ≢ none
    → lookup (add_shards shards i m) g ≢ none
unfolding add_shards
add_shards-there [] i m g k = k
add_shards-there (h ∷ shards) i m g k =
    add_shards-there shards (i + 1) (put m h (shards_at m h ++ (i ∷ []))) g
      (put-there m h (shards_at m h ++ (i ∷ [])) g k)

pub put-owns :
    (m : GidToShards) (h : Gid) (i : ℕ) (g : Gid)
    → 0 < length (shards_at m g)
    → 0 < length (shards_at (put m h (shards_at m h ++ (i ∷ []))) g)
put-owns m h i g o =
    let v = shards_at m h ++ (i ∷ []) in
    elim (gid_key.dec h g) [
      | yes e ↦
          let l =
            ap (length {A = ℕ})
              (subst (λ x. shards_at (put m h v) x ≡ v) e (shards_at-put_self m h v)) in
          omega (arith, l, length-append (shards_at m h) (i ∷ []))
      | no n ↦ let l = ap (length {A = ℕ}) (shards_at-put_ne m h g v n) in omega (arith, l)
    ]

pub add_shards-owns :
    (shards : List Gid) (i : ℕ) (m : GidToShards) (g : Gid)
    → 0 < length (shards_at m g)
    → 0 < length (shards_at (add_shards shards i m) g)
unfolding add_shards
add_shards-owns [] i m g o = o
add_shards-owns (h ∷ shards) i m g o =
    add_shards-owns shards (i + 1) (put m h (shards_at m h ++ (i ∷ []))) g (put-owns m h i g o)

pub total-add_shards-length :
    (shards : List Gid) (i : ℕ) (m : GidToShards)
    → total length (add_shards shards i m) ≡ total length m + length shards
unfolding add_shards
total-add_shards-length [] i m = omega arith
total-add_shards-length (h ∷ shards) i m =
    let v = shards_at m h ++ (i ∷ []) in
    omega (
      arith,
      total-add_shards-length shards (i + 1) (put m h v),
      total-put length m h v refl,
      length-append (shards_at m h) (i ∷ []),
    )

-- A key of the table is a group, or owned a shard.
pub empty_groups-keys :
    (groups : Groups) (m : GidToShards) (g : Gid)
    → lookup (empty_groups groups m) g ≢ none
    → (lookup groups g ≢ none) ⊎ (lookup m g ≢ none)
unfolding empty_groups lookup
empty_groups-keys [] m g k = inr k
empty_groups-keys ((h, w) ∷ groups) m g k = elim (gid_key.dec h g) [
  | yes e ↦ inl (λ z. ground arith)
  | no n ↦ elim (empty_groups-keys groups (put m h []) g k) [
    | inl a ↦ inl (λ z. a (ground arith))
    | inr b ↦ inr (λ z. b (ground (arith, lookup-put_ne m h g [])))
  ]
]

pub add_shards-keys :
    (shards : List Gid) (i : ℕ) (m : GidToShards) (g : Gid)
    → lookup (add_shards shards i m) g ≢ none
    → (lookup m g ≢ none) ⊎ ((s : ℕ) × (get_elem? shards s ≡ some g))
unfolding add_shards
add_shards-keys [] i m g k = inl k
add_shards-keys (h ∷ shards) i m g k = elim (gid_key.dec h g) [
  | yes e ↦ inr (0, ap some e)
  | no n ↦
      let v = shards_at m h ++ (i ∷ []) in
      elim (add_shards-keys shards (i + 1) (put m h v) g k) [
        | inl a ↦ inl (λ z. a (ground (arith, lookup-put_ne m h g v)))
        | inr (s, b) ↦ inr (suc s, b)
      ]
]
