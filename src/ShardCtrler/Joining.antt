-- ===== src/ShardCtrler/Joining.antt =====
-- `Join` of src/shardctrler/state_machine.go as a whole.
use multi_raft.Common.{
  ℕ, ◌+◌, ◌≤◌, ◌<◌, ◌≡◌, refl, sym, ap, ◌∙◌, ◌≢◌, ◌⊎◌, inl, inr, none, some, List, [], ◌∷◌, ◌++◌,
  String, arith, lookup, put, nat_key, string_key, Option-cases, length, get_elem?, length-append,
  get_elem?-bound, lookup-put_self, lookup-put_ne,
}
use multi_raft.ShardCtrler.Config.{shard_count, Gid, gid, gid_key, Groups, Config, ok}
use multi_raft.ShardCtrler.Rebalance.Assignment.{
  count, beyond, count-IsAdditive, beyond-IsAdditive, assign_shards-Assigns, total-add_shards-count,
  total-add_shards-beyond, empty_groups-Nodup, add_shards-Nodup,
}
use multi_raft.ShardCtrler.Rebalance.Fuel.{
  measure_bound, empty_groups-there, total-empty_groups, add_shards-there, add_shards-owns,
  total-add_shards-length, empty_groups-keys, add_shards-keys,
}
use multi_raft.ShardCtrler.Rebalance.Loop.{rebalance_lem}
use multi_raft.ShardCtrler.Rebalance.Measure.{length-IsAdditive, IsTable}
use multi_raft.ShardCtrler.Rebalance.Totals.{total, shards_at-put_self, Nodup}
use multi_raft.ShardCtrler.StateMachine.{
  StateMachine, latest, copy_groups, add_groups, GidToShards, shards_at, empty_groups, add_shards,
  gid_to_shards, join_fuel, no_shards, join,
}

-- Every shard belongs to a group of the configuration, or to the group 0.
pub record IsAssigned (c : Config) : Type 0 where
  pub full : length c.shards ≡ shard_count
  pub owned :
      (s : ℕ) (g : Gid) → get_elem? c.shards s ≡ some g → (g ≡ gid 0) ⊎ (lookup c.groups g ≢ none)

pub copy_groups_lem : (groups : Groups) → copy_groups groups ≡ groups
unfolding copy_groups
copy_groups_lem [] = refl
copy_groups_lem ((g, servers) ∷ groups) = ap (λ m. (g, servers) ∷ m) (copy_groups_lem groups)

put_group-there :
    (known : Groups) (h : Gid) (w : List String) (g : Gid)
    → (h ≡ g) ⊎ (lookup known g ≢ none)
    → lookup (put known h w) g ≢ none
put_group-there known h w g k z =
    ground (arith, lookup-put_self known h w, lookup-put_ne known h g w)

add_groups-there :
    (known groups : Groups) (g : Gid)
    → (lookup known g ≢ none) ⊎ (lookup groups g ≢ none)
    → lookup (add_groups known groups) g ≢ none
unfolding add_groups lookup
add_groups-there known [] g (inl k) = k
add_groups-there known [] g (inr k) = absurd (k refl)
add_groups-there known ((h, w) ∷ groups) g k = elim (Option-cases (lookup known h)) [
  | inr (old, e) ↦
      let rest : (lookup known g ≢ none) ⊎ (lookup groups g ≢ none) = elim k [
        | inl a ↦ inl a
        | inr b ↦ elim (gid_key.dec h g) [
          | yes p ↦ inl (λ z. ground arith)
          | no n ↦ inr (λ z. b (ground arith))
        ]
      ] in
      let found = add_groups-there known groups g rest in λ z. found (ground arith)
  | inl e ↦
      let rest : (lookup (put known h w) g ≢ none) ⊎ (lookup groups g ≢ none) = elim k [
        | inl a ↦ inl (put_group-there known h w g (inr a))
        | inr b ↦ elim (gid_key.dec h g) [
          | yes p ↦ inl (put_group-there known h w g (inl p))
          | no n ↦ inr (λ z. b (ground arith))
        ]
      ] in
      let found = add_groups-there (put known h w) groups g rest in λ z. found (ground arith)
]

count_le : (s : ℕ) (v : List ℕ) → count s v ≤ length v
count_le s [] = omega arith
count_le s (x ∷ v) = ground (arith, count_le s v)

-- The table that `Join` starts from.
module _ (groups : Groups) (shards : List Gid) (full : length shards ≡ shard_count) where
  pub start-length : total length (gid_to_shards groups shards) ≡ shard_count
  unfolding gid_to_shards
  start-length = omega (
    arith,
    total-add_shards-length shards 0 (empty_groups groups []),
    total-empty_groups length groups [] refl refl,
    full,
  )

  pub start-count : (s : ℕ) → s < shard_count → total (count s) (gid_to_shards groups shards) ≡ 1
  unfolding gid_to_shards
  start-count s h = ground (
    arith,
    total-add_shards-count s shards 0 (empty_groups groups []),
    total-empty_groups (count s) groups [] refl refl,
  )

  pub start-beyond : total beyond (gid_to_shards groups shards) ≡ 0
  unfolding gid_to_shards
  start-beyond =
      total-add_shards-beyond shards 0 (empty_groups groups []) (omega arith)
        (total-empty_groups beyond groups [] refl refl)

  pub start-Nodup : Nodup (gid_to_shards groups shards)
  unfolding gid_to_shards
  start-Nodup = add_shards-Nodup shards 0 (empty_groups groups []) (empty_groups-Nodup groups [] tt)

  pub start-there :
      (g : Gid) → lookup groups g ≢ none → lookup (gid_to_shards groups shards) g ≢ none
  unfolding gid_to_shards
  start-there g k =
      add_shards-there shards 0 (empty_groups groups []) g (empty_groups-there groups [] g (inl k))

  pub start-keys :
      (g : Gid)
      → lookup (gid_to_shards groups shards) g ≢ none
      → (lookup groups g ≢ none) ⊎ ((s : ℕ) × (get_elem? shards s ≡ some g))
  unfolding gid_to_shards lookup
  start-keys g k = elim (add_shards-keys shards 0 (empty_groups groups []) g k) [
    | inl a ↦ elim (empty_groups-keys groups [] g a) [ inl b ↦ inl b | inr b ↦ absurd (b refl) ]
    | inr a ↦ inr a
  ]

start-owns :
    (groups : Groups) (shards : List Gid)
    → 0 < length shards
    → (g : Gid) × (0 < length (shards_at (gid_to_shards groups shards) g))
unfolding gid_to_shards add_shards
start-owns groups [] h = absurd (omega arith)
start-owns groups (g ∷ shards) h =
    let m = empty_groups groups [] in
    let v = shards_at m g ++ (0 ∷ []) in
    let l = ap (length {A = ℕ}) (shards_at-put_self m g v) in
    (
      g,
      add_shards-owns shards 1 (put m g v) g
          (omega (arith, l, length-append (shards_at m g) (0 ∷ []))),
    )

start-IsTable :
    (groups : Groups) (shards : List Gid) (g : Gid)
    → length shards ≡ shard_count
    → lookup groups g ≢ none
    → g ≢ gid 0
    → IsTable (gid_to_shards groups shards)
start-IsTable groups shards g l k n =
    let (owner, owns) = start-owns groups shards (omega arith) in
    record {
      bounded = omega (arith, start-length groups shards l);
      group = g;
      there = start-there groups shards l g k;
      valid = n;
      owner = owner;
      owns = owns;
    }

-- What `Join` adds, where `c` is the last configuration: the new groups, with a table of their
-- shards in which the numbers differ by at most one, that holds each shard in the list of its owner.
abbrev pub Joins : StateMachine → Groups → Config → Type 0
Joins csm groups c =
    (new : Config) × (table : GidToShards) × (join csm groups ≡ some (csm ++ (new ∷ []), ok))
    × (new.num ≡ length csm)
    × IsAssigned new
    × ((g : Gid)
        → (lookup c.groups g ≢ none) ⊎ (lookup groups g ≢ none)
        → lookup new.groups g ≢ none)
    × (total length table ≡ shard_count)
    × ((g g' : Gid)
        → lookup new.groups g' ≢ none
        → g' ≢ gid 0
        → length (shards_at table g) ≤ length (shards_at table g') + 1)
    × ((s : ℕ)
        → s < shard_count
        → (g : Gid) × (get_elem? new.shards s ≡ some g)
          × (g ≢ gid 0)
          × (lookup new.groups g ≢ none)
          × (count s (shards_at table g) ≡ 1))

-- `Join` of at least one group other than 0, on a last configuration whose shards all belong to its
-- groups or to the group 0, ends and does not panic: it adds a configuration with the next number and
-- with all the groups, in which every shard has a group other than 0, and any two groups other than
-- 0 differ by at most one in the number of their shards.
pub join-Joins :
    (csm : StateMachine) (groups : Groups) (c : Config) (g : Gid)
    → latest csm ≡ some c
    → IsAssigned c
    → lookup groups g ≢ none
    → g ≢ gid 0
    → Joins csm groups c
unfolding join
join-Joins csm groups c g last v k n =
    let known = copy_groups c.groups in
    let all = add_groups known groups in
    let same = copy_groups_lem c.groups in
    let all_there : (h : Gid)
        → (lookup c.groups h ≢ none) ⊎ (lookup groups h ≢ none)
        → lookup all h ≢ none =
      λ h w.
        add_groups-there known groups h
          (elim w [ inl a ↦ inl (λ z. a (ap (λ x. lookup x h) (sym same) ∙ z)) | inr b ↦ inr b ]) in
    let m = gid_to_shards all c.shards in
    let t : IsTable m = start-IsTable all c.shards g v.full (all_there g (inr k)) n in
    let (table, done, even, keys, sums, single) = rebalance_lem join_fuel m t (measure_bound m t) in
    let (ns, assigned, l, _, given) =
      assign_shards-Assigns no_shards table refl
        (sums beyond beyond-IsAdditive ∙ start-beyond all c.shards v.full)
        (single (start-Nodup all c.shards v.full)) in
    let in_groups : (h : Gid) → h ≢ gid 0 → lookup table h ≢ none → lookup all h ≢ none =
      λ h nz there. elim (start-keys all c.shards v.full h (λ z. there ((keys h).1 z))) [
        | inl a ↦ a
        | inr (s, at_s) ↦ elim (v.owned s h at_s) [
          | inl z ↦ absurd (nz z)
          | inr a ↦ all_there h (inl a)
        ]
      ] in
    let owner : (s : ℕ)
        → s < shard_count
        → (h : Gid) × (get_elem? ns s ≡ some h)
          × (h ≢ gid 0)
          × (lookup all h ≢ none)
          × (count s (shards_at table h) ≡ 1) =
      λ s lt.
        let (h, at_h, once) =
          given s lt (sums (count s) (count-IsAdditive s) ∙ start-count all c.shards v.full s lt) in
        let nz : h ≢ gid 0 = λ z.
          (let e = ap (λ x. count s (shards_at table x)) z in
            omega (arith, count_le s (shards_at table (gid 0)), even.0)) in
        (h, at_h, nz, in_groups h nz (λ z. ground arith), once) in
    (
      record { num = length csm; shards = ns; groups = all },
      table,
      ground (arith, done, assigned, last),
      refl,
      record {
        full = l;
        owned = λ s h at_h.
            let (h', at_h', nz, there, _) = owner s (omega (arith, get_elem?-bound ns s at_h, l)) in
            inr (λ z. there (ground arith));
      },
      all_there,
      sums length length-IsAdditive ∙ start-length all c.shards v.full,
      (λ h h' there nz.
          even.1 h h' (λ z. start-there all c.shards v.full h' there ((keys h').0 z)) nz),
      owner,
    )
