-- ===== src/ShardCtrler/Rebalance/Removal.antt =====
-- What `Leave` of src/shardctrler/state_machine.go does to the table: the groups that leave are taken
-- out, and the shards that they held go to the others.
use multi_raft.Common.{
  ℕ, zero, suc, ◌+◌, ◌≤◌, ◌≡◌, refl, ap, ◌≢◌, ◌↔◌, ◌⊎◌, inl, inr, none, some, List, [], ◌∷◌, ◌++◌,
  arith, lookup, put, delete, nat_key, string_key, length, get_elem?, length-append, Map,
  lookup-delete_self, lookup-delete_ne,
}
use multi_raft.ShardCtrler.Config.{shard_count, Gid, gid, gid_key, Groups}
use multi_raft.ShardCtrler.Rebalance.Extremes.{gid_with_min_shards_lem}
use multi_raft.ShardCtrler.Rebalance.Measure.{IsAdditive}
use multi_raft.ShardCtrler.Rebalance.Totals.{
  total, total-put, total-at, lookup-put_there, Nodup, put-Nodup,
}
use multi_raft.ShardCtrler.StateMachine.{
  GidToShards, shards_at, gid_with_min_shards, remove_groups, reassign,
}

additive-append : (f : List ℕ → ℕ) (v w : List ℕ) → IsAdditive f → f (v ++ w) ≡ f v + f w
additive-append f [] w a = omega (arith, a.of_nil)
additive-append f (x ∷ v) w a =
    omega (arith, additive-append f v w a, a.of_cons x v, a.of_cons x (v ++ w))

delete-Nodup : (m : GidToShards) (g : Gid) → Nodup m → Nodup (delete m g)
unfolding delete lookup
delete-Nodup [] g u = tt
delete-Nodup ((h, w) ∷ m) g (fresh, u) = ground (arith, delete-Nodup m g u, lookup-delete_ne m g h)

delete_absent :
    (f : List ℕ → ℕ) (m : GidToShards) (g : Gid)
    → lookup m g ≡ none
    → total f (delete m g) ≡ total f m
unfolding delete lookup
delete_absent f [] g z = refl
delete_absent f ((h, w) ∷ m) g z = ground (arith, delete_absent f m g)

total-delete :
    (f : List ℕ → ℕ) (m : GidToShards) (g : Gid)
    → f [] ≡ 0
    → Nodup m
    → total f (delete m g) + f (shards_at m g) ≡ total f m
unfolding delete lookup
total-delete f [] g z u = ground arith
total-delete f ((h, w) ∷ m) g z (fresh, u) = elim (gid_key.dec h g) [
  | yes e ↦ ground (arith, delete_absent f m g)
  | no n ↦ ground (arith, total-delete f m g z u)
]

delete-gone :
    {V : Type 0} (m : Map Gid V) (g h : Gid)
    → lookup (delete m g) h ≢ none
    → (g ≢ h) × (lookup m h ≢ none)
delete-gone m g h k = elim (gid_key.dec g h) [
  | yes e ↦ absurd (k (ground (arith, lookup-delete_self m g)))
  | no n ↦ (n, λ z. k (ground (arith, lookup-delete_ne m g h)))
]

delete-stays :
    {V : Type 0} (m : Map Gid V) (g h : Gid)
    → g ≢ h
    → lookup m h ≢ none
    → lookup (delete m g) h ≢ none
delete-stays m g h n k z = k (ground (arith, lookup-delete_ne m g h))

-- The groups and the table without the groups of `gids`, and the shards set free.
abbrev pub left : List Gid → Groups → GidToShards → List ℕ → Groups × GidToShards × List ℕ
left = remove_groups

-- Sums over the table and the shards set free stay the same.
pub remove_groups-total :
    (f : List ℕ → ℕ) (gids : List Gid) (groups : Groups) (m : GidToShards) (free : List ℕ)
    → IsAdditive f
    → Nodup m
    → Nodup (left gids groups m free).1
      × (total f (left gids groups m free).1 + f (left gids groups m free).2 ≡ total f m + f free)
unfolding remove_groups
remove_groups-total f [] groups m free a u = (u, refl)
remove_groups-total f (g ∷ gids) groups m free a u =
    let (u', t) =
      remove_groups-total f gids (delete groups g) (delete m g) (free ++ shards_at m g) a
        (delete-Nodup m g u) in
    (u', omega (arith, t, total-delete f m g a.of_nil u, additive-append f free (shards_at m g) a))

not_in :
    (g : Gid) (gids : List Gid) (h : Gid)
    → g ≢ h
    → ((i : ℕ) → get_elem? gids i ≢ some h)
    → (i : ℕ) → get_elem? (g ∷ gids) i ≢ some h
not_in g gids h n others zero e = n (ground arith)
not_in g gids h n others (suc i) e = others i e

-- A group is left where it was there and is not among those that leave.
pub remove_groups-groups :
    (gids : List Gid) (groups : Groups) (m : GidToShards) (free : List ℕ) (h : Gid)
    → (lookup (left gids groups m free).0 h ≢ none
        → (lookup groups h ≢ none) × ((i : ℕ) → get_elem? gids i ≢ some h))
      × (lookup groups h ≢ none
          → ((i : ℕ) → get_elem? gids i ≢ some h)
          → lookup (left gids groups m free).0 h ≢ none)
unfolding remove_groups
remove_groups-groups [] groups m free h = ((λ k. (k, λ i e. cc)), λ k n. k)
remove_groups-groups (g ∷ gids) groups m free h =
    let (went, stays) =
      remove_groups-groups gids (delete groups g) (delete m g) (free ++ shards_at m g) h in
    (
      (λ k.
          let (there, others) = went k in
          let (n, was) = delete-gone groups g h there in (was, not_in g gids h n others)),
      λ k n. stays (delete-stays groups g h (λ e. n 0 (ap some e)) k) (λ i e. n (suc i) e),
    )

-- The keys of the table and the groups go together, the group 0 aside, which `Z` allows.
abbrev pub Matches : Type 0 → Groups → GidToShards → Type 0
Matches Z groups m =
    ((h : Gid) → lookup m h ≢ none → Z × (h ≡ gid 0) ⊎ (lookup groups h ≢ none))
    × ((h : Gid) → lookup groups h ≢ none → lookup m h ≢ none)

pub remove_groups-Matches :
    {Z : Type 0} (gids : List Gid) (groups : Groups) (m : GidToShards) (free : List ℕ)
    → Matches Z groups m
    → Matches Z (left gids groups m free).0 (left gids groups m free).1
unfolding remove_groups
remove_groups-Matches [] groups m free k = k
remove_groups-Matches (g ∷ gids) groups m free (k, k') =
    remove_groups-Matches gids (delete groups g) (delete m g) (free ++ shards_at m g) (
      (λ h there.
          let (n, was) = delete-gone m g h there in
          elim (k h was) [ inl z ↦ inl z | inr in' ↦ inr (delete-stays groups g h n in') ]),
      λ h there. let (n, was) = delete-gone groups g h there in delete-stays m g h n (k' h was),
    )

-- Shards set free go to groups of the table.
pub reassign-keeps :
    {Z : Type 0} (free : List ℕ) (groups : Groups) (m : GidToShards) (g : Gid)
    → Matches Z groups m
    → lookup m g ≢ none
    → g ≢ gid 0
    → total length m + length free ≤ shard_count
    → Nodup m
    → Matches Z groups (reassign m free)
      × Nodup (reassign m free)
      × ((f : List ℕ → ℕ) → IsAdditive f → total f (reassign m free) ≡ total f m + f free)
unfolding reassign
reassign-keeps [] groups m g k there n b u = (k, u, λ f a. omega (arith, a.of_nil))
reassign-keeps (x ∷ free) groups m g k there n b u =
    let to = gid_with_min_shards m in
    let v = shards_at m to ++ (x ∷ []) in
    let (nz, to_there, _) =
      gid_with_min_shards_lem m g there n (omega (arith, total-at length m g refl)) in
    let same : (h : Gid) → (lookup (put m to v) h ≡ none) ↔ (lookup m h ≡ none) =
      λ h. lookup-put_there m to v h to_there in
    let grown = total-put length m to v refl in
    let (k₁, u₁, t₁) =
      reassign-keeps free groups (put m to v) g
        ((λ h z. k.0 h (λ y. z ((same h).1 y))), λ h z y. k.1 h z ((same h).0 y))
        (λ y. there ((same g).0 y)) n
        (omega (arith, grown, length-append (shards_at m to) (x ∷ []))) (put-Nodup m to v u) in
    (
      k₁,
      u₁,
      λ f a. omega (
        arith,
        t₁ f a,
        total-put f m to v a.of_nil,
        a.of_snoc x (shards_at m to),
        a.of_cons x free,
      ),
    )
