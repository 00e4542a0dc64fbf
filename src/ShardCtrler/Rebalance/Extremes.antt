-- ===== src/ShardCtrler/Rebalance/Extremes.antt =====
-- What `gidWithMaxShards` and `gidWithMinShards` of src/shardctrler/state_machine.go find.
use mathlib.Core.Path.{subst}
use multi_raft.Common.{
  ℕ, ◌+◌, ◌≤◌, ◌<◌, ◌≡◌, refl, sym, ◌≢◌, ◌⊎◌, inl, inr, none, List, [], ◌∷◌, arith, lookup, nat_key,
  string_key, ltb, leb, Bool-cases, Option-cases, if_cases, length, All,
}
use multi_raft.ShardCtrler.Config.{shard_count, Gid, no_gid, gid, rank, gid_key}
use multi_raft.ShardCtrler.StateMachine.{
  GidToShards, shards_at, insert_gid, sorted_gids, max_loop, gid_with_max_shards, min_loop,
  gid_with_min_shards,
}

insert_gid-All {ℓ} :
    (P : Gid → Type ℓ) (g : Gid) (gids : List Gid) → P g → All P gids → All P (insert_gid g gids)
unfolding insert_gid
insert_gid-All P g [] p ps = (p, tt)
insert_gid-All P g (h ∷ gids) p ps =
    if_cases (All P) (leb (rank g) (rank h)) (g ∷ h ∷ gids) (h ∷ insert_gid g gids) (λ _. (p, ps))
      (λ _. (ps.0, insert_gid-All P g gids p ps.1))

All-insert_gid {ℓ} :
    (P : Gid → Type ℓ) (g : Gid) (gids : List Gid) → All P (insert_gid g gids) → P g × All P gids
unfolding insert_gid
All-insert_gid P g [] ps = (ps.0, tt)
All-insert_gid P g (h ∷ gids) ps =
    if_cases (λ l. All P l → P g × All P (h ∷ gids)) (leb (rank g) (rank h)) (g ∷ h ∷ gids)
      (h ∷ insert_gid g gids) (λ _ q. q)
      (λ _ q. let (p, rest) = All-insert_gid P g gids q.1 in (p, (q.0, rest))) ps

-- The sorted list holds keys only, and all of them.
pub sorted_gids-All {ℓ} :
    (P : Gid → Type ℓ) (m : GidToShards)
    → ((g : Gid) → lookup m g ≢ none → P g)
    → All P (sorted_gids m)
unfolding sorted_gids lookup
sorted_gids-All P [] k = tt
sorted_gids-All P ((h, w) ∷ m) k =
    insert_gid-All P h (sorted_gids m) (k h (λ e. ground arith))
      (sorted_gids-All P m (λ g there. k g (λ e. ground arith)))

pub All-sorted_gids {ℓ} :
    (P : Gid → Type ℓ) (m : GidToShards) (g : Gid) → All P (sorted_gids m) → lookup m g ≢ none → P g
unfolding sorted_gids lookup
All-sorted_gids P [] g ps there = absurd (there refl)
All-sorted_gids P ((h, w) ∷ m) g ps there =
    let (p, rest) = All-insert_gid P h (sorted_gids m) ps in
    elim (gid_key.dec h g) [
      | yes e ↦ subst P e p
      | no n ↦ All-sorted_gids P m g rest (λ none'. there (ground arith))
    ]

max_loop-cons :
    (m : GidToShards) (g : Gid) (gids : List Gid) (max_gid : Gid) (least : ℕ)
    → (least ≤ length (shards_at m g))
        × (max_loop m (g ∷ gids) max_gid least ≡ max_loop m gids g (length (shards_at m g) + 1))
      ⊎ (length (shards_at m g) < least)
        × (max_loop m (g ∷ gids) max_gid least ≡ max_loop m gids max_gid least)
unfolding max_loop
max_loop-cons m g gids max_gid least = elim (Bool-cases (leb least (length (shards_at m g)))) [
  | inl larger ↦ inl (ground arith, ground arith)
  | inr smaller ↦ inr (ground arith, ground arith)
]

-- The group of a search has as many shards as those searched, and `least` does not exceed it.
abbrev Largest : GidToShards → ℕ → List Gid → Gid → Type 0
Largest m least gids r =
    (least ≤ length (shards_at m r) + 1)
    × All (λ g. length (shards_at m g) ≤ length (shards_at m r)) gids

max_loop-nil :
    (m : GidToShards) (max_gid : Gid) (least : ℕ)
    → (least ≡ 0) ⊎ (least ≡ length (shards_at m max_gid) + 1)
    → Largest m least [] (max_loop m [] max_gid least)
unfolding max_loop
max_loop-nil m max_gid least s = (ground arith, tt)

max_loop-Largest :
    (m : GidToShards) (gids : List Gid) (max_gid : Gid) (least : ℕ)
    → (least ≡ 0) ⊎ (least ≡ length (shards_at m max_gid) + 1)
    → Largest m least gids (max_loop m gids max_gid least)
max_loop-Largest m [] max_gid least s = max_loop-nil m max_gid least s
max_loop-Largest m (g ∷ gids) max_gid least s = elim (max_loop-cons m g gids max_gid least) [
  | inl (le, e) ↦
      let (low, rest) = max_loop-Largest m gids g (length (shards_at m g) + 1) (inr refl) in
      subst (Largest m least (g ∷ gids)) (sym e) (omega arith, (omega arith, rest))
  | inr (gt, e) ↦
      let (low, rest) = max_loop-Largest m gids max_gid least s in
      subst (Largest m least (g ∷ gids)) (sym e) (low, (omega arith, rest))
]

min_loop-cons :
    (m : GidToShards) (g : Gid) (gids : List Gid) (min_gid : Gid) (min_shards : ℕ)
    → (g ≢ gid 0)
        × (length (shards_at m g) < min_shards)
        × (min_loop m (g ∷ gids) min_gid min_shards ≡ min_loop m gids g (length (shards_at m g)))
      ⊎ ((g ≡ gid 0) ⊎ (min_shards ≤ length (shards_at m g)))
        × (min_loop m (g ∷ gids) min_gid min_shards ≡ min_loop m gids min_gid min_shards)
unfolding min_loop
min_loop-cons m g gids min_gid min_shards = elim (gid_key.dec g (gid 0)) [
  | yes invalid ↦ inr (inl invalid, ground arith)
  | no valid ↦ elim (Bool-cases (ltb (length (shards_at m g)) min_shards)) [
    | inl smaller ↦ inl (valid, ground arith, ground arith)
    | inr larger ↦ inr (inr (ground arith), ground arith)
  ]
]

-- The bound of a search for the smallest group, and where it stands.
abbrev Smallest : GidToShards → Gid → ℕ → List Gid → Gid → Type 0
Smallest m min_gid min_shards gids r =
    (bound : ℕ) × (bound ≤ min_shards)
    × All (λ g. (g ≡ gid 0) ⊎ (bound ≤ length (shards_at m g))) gids
    × ((r ≡ min_gid) × (bound ≡ min_shards)
        ⊎ (r ≢ gid 0) × (bound ≡ length (shards_at m r)) × (lookup m r ≢ none))

min_loop-nil :
    (m : GidToShards) (min_gid : Gid) (min_shards : ℕ)
    → Smallest m min_gid min_shards [] (min_loop m [] min_gid min_shards)
unfolding min_loop
min_loop-nil m min_gid min_shards = (min_shards, omega arith, tt, inl (refl, refl))

stands_at :
    (m : GidToShards) (g : Gid) (bound : ℕ) {r : Gid}
    → g ≢ gid 0
    → lookup m g ≢ none
    → (r ≡ g) × (bound ≡ length (shards_at m g))
      ⊎ (r ≢ gid 0) × (bound ≡ length (shards_at m r)) × (lookup m r ≢ none)
    → (r ≢ gid 0) × (bound ≡ length (shards_at m r)) × (lookup m r ≢ none)
stands_at m g bound valid there (inl (same, b)) =
    subst (λ x. (x ≢ gid 0) × (bound ≡ length (shards_at m x)) × (lookup m x ≢ none)) (sym same)
      (valid, b, there)
stands_at m g bound valid there (inr found) = found

min_loop-Smallest :
    (m : GidToShards) (gids : List Gid) (min_gid : Gid) (min_shards : ℕ)
    → All (λ g. lookup m g ≢ none) gids
    → Smallest m min_gid min_shards gids (min_loop m gids min_gid min_shards)
min_loop-Smallest m [] min_gid min_shards k = min_loop-nil m min_gid min_shards
min_loop-Smallest m (g ∷ gids) min_gid min_shards k =
    elim (min_loop-cons m g gids min_gid min_shards) [
      | inl (valid, lt, e) ↦
          let (bound, le, rest, at_g) = min_loop-Smallest m gids g (length (shards_at m g)) k.1 in
          subst (Smallest m min_gid min_shards (g ∷ gids)) (sym e)
            (bound, omega arith, (inr le, rest), inr (stands_at m g bound valid k.0 at_g))
      | inr (skip, e) ↦
          let (bound, le, rest, at_r) = min_loop-Smallest m gids min_gid min_shards k.1 in
          subst (Smallest m min_gid min_shards (g ∷ gids)) (sym e)
            (bound, le, (ground arith, rest), at_r)
    ]

-- Where the group 0 holds nothing, no group has more shards than the one that is found.
pub gid_with_max_shards_lem :
    (m : GidToShards)
    → (gid_with_max_shards m ≡ gid 0) × (0 < length (shards_at m (gid 0)))
      ⊎ (length (shards_at m (gid 0)) ≡ 0)
        × ((g : Gid) → length (shards_at m g) ≤ length (shards_at m (gid_with_max_shards m)))
unfolding gid_with_max_shards
gid_with_max_shards_lem m = elim (Bool-cases (ltb 0 (length (shards_at m (gid 0))))) [
  | inl some' ↦ inl (ground arith, ground arith)
  | inr none' ↦
      let e : gid_with_max_shards m ≡ max_loop m (sorted_gids m) no_gid 0 = ground arith in
      let r = max_loop m (sorted_gids m) no_gid 0 in
      inr (
        ground arith,
        λ g. elim (Option-cases (lookup m g)) [
          | inl absent ↦ ground arith
          | inr (v, found) ↦
              subst (λ x. length (shards_at m g) ≤ length (shards_at m x)) (sym e)
                (All-sorted_gids (λ x. length (shards_at m x) ≤ length (shards_at m r)) m g
                  (max_loop-Largest m (sorted_gids m) no_gid 0 (inl refl)).1 (λ z. ground arith))
        ],
      )
]

-- Where some group other than 0 has a list of at most ten shards, the one that is found is such a
-- group, and no other has fewer shards.
pub gid_with_min_shards_lem :
    (m : GidToShards) (g' : Gid)
    → lookup m g' ≢ none
    → g' ≢ gid 0
    → length (shards_at m g') ≤ shard_count
    → (gid_with_min_shards m ≢ gid 0)
      × (lookup m (gid_with_min_shards m) ≢ none)
      × ((g : Gid)
          → lookup m g ≢ none
          → g ≢ gid 0
          → length (shards_at m (gid_with_min_shards m)) ≤ length (shards_at m g))
unfolding gid_with_min_shards
gid_with_min_shards_lem m g' there valid small =
    let (bound, le, all, at_r) =
      min_loop-Smallest m (sorted_gids m) no_gid (shard_count + 1)
        (sorted_gids-All (λ g. lookup m g ≢ none) m (λ g k. k)) in
    let least : (g : Gid) → lookup m g ≢ none → g ≢ gid 0 → bound ≤ length (shards_at m g) =
      λ g k n.
        elim (All-sorted_gids (λ x. (x ≡ gid 0) ⊎ (bound ≤ length (shards_at m x))) m g all k) [
          | inl z ↦ absurd (n z)
          | inr b ↦ b
        ] in
    elim at_r [
      | inl (_, b) ↦ absurd (let low = least g' there valid in omega arith)
      | inr (n, b, k) ↦ (n, k, λ g k' n'. let low = least g k' n' in omega arith)
    ]
