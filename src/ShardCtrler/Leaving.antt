-- ===== src/ShardCtrler/Leaving.antt =====
-- `Leave` of src/shardctrler/state_machine.go as a whole.
use multi_raft.Common.{
  ℕ, zero, suc, ◌+◌, ◌≤◌, ◌<◌, ◌≡◌, refl, ap, ◌∙◌, ◌≢◌, ◌⊎◌, inl, inr, true, false, none, some,
  List, [], ◌∷◌, ◌++◌, arith, lookup, nat_key, string_key, ◌==◌, Bool-cases, length, get_elem?,
  replicate, get_elem?-bound,
}
use multi_raft.ShardCtrler.Config.{shard_count, Gid, gid, gid_key, Groups, Config, ok}
use multi_raft.ShardCtrler.Joining.{
  IsAssigned, copy_groups_lem, start-length, start-count, start-beyond, start-Nodup, start-there,
  start-keys,
}
use multi_raft.ShardCtrler.Rebalance.Assignment.{
  count, beyond, count-IsAdditive, beyond-IsAdditive, assign_shards-Assigns,
}
use multi_raft.ShardCtrler.Rebalance.Measure.{IsAdditive, length-IsAdditive}
use multi_raft.ShardCtrler.Rebalance.Removal.{
  left, remove_groups-total, remove_groups-groups, Matches, remove_groups-Matches, reassign-keeps,
}
use multi_raft.ShardCtrler.Rebalance.Totals.{total, Nodup}
use multi_raft.ShardCtrler.StateMachine.{
  StateMachine, latest, GidToShards, gid_to_shards, assign_shards, no_shards, reassign, leave,
}

no_key : (groups : Groups) → (length groups == 0) ≡ true → (g : Gid) → lookup groups g ≡ none
unfolding lookup
no_key [] e g = refl
no_key ((h, w) ∷ groups) e g = absurd (ground arith)

weaken : {Z A B : Type 0} → Z × A ⊎ B → A ⊎ B
weaken (inl (z, a)) = inl a
weaken (inr b) = inr b

first_key : (groups : Groups) → (length groups == 0) ≡ false → (g : Gid) × (lookup groups g ≢ none)
unfolding lookup
first_key [] e = absurd (cc)
first_key ((g, w) ∷ groups) e = (g, λ z. ground arith)

unassigned : (n s : ℕ) (g : Gid) → get_elem? (replicate n (gid 0)) s ≡ some g → g ≡ gid 0
unassigned zero s g h = absurd (cc)
unassigned (suc n) zero g h = ground arith
unassigned (suc n) (suc s) g h = unassigned n s g h

-- Some shard of the configuration belongs to the group 0.
abbrev pub HasFree : Config → Type 0
HasFree c = (s : ℕ) × (get_elem? c.shards s ≡ some (gid 0))

start-Matches :
    (c : Config) → IsAssigned c → Matches (HasFree c) c.groups (gid_to_shards c.groups c.shards)
start-Matches c v = (
  (λ h k. elim (start-keys c.groups c.shards v.full h k) [
    | inl there ↦ inr there
    | inr (s, e) ↦ elim (v.owned s h e) [
      | inl z ↦ inl ((s, e ∙ ap some z), z)
      | inr there ↦ inr there
    ]
  ]),
  λ h k. start-there c.groups c.shards v.full h k,
)

-- The array that is filled once the shards are given to what is left.
reassigned :
    {Z : Type 0} (groups : Groups) (m : GidToShards) (free : List ℕ) (g : Gid)
    → Matches Z groups m
    → lookup groups g ≢ none
    → g ≢ gid 0
    → Nodup m
    → total length m + length free ≤ shard_count
    → total beyond m + beyond free ≡ 0
    → ((s : ℕ) → s < shard_count → total (count s) m + count s free ≡ 1)
    → (ns : List Gid) × (assign_shards no_shards (reassign m free) ≡ some ns)
      × (length ns ≡ shard_count)
      × ((s : ℕ) (h : Gid) → get_elem? ns s ≡ some h → Z × (h ≡ gid 0) ⊎ (lookup groups h ≢ none))
reassigned groups m free g k there n u small inside once =
    let (k', u', sums) = reassign-keeps free groups m g k (k.1 g there) n small u in
    let (ns, done, l, _, given) =
      assign_shards-Assigns no_shards (reassign m free) refl
        (sums beyond beyond-IsAdditive ∙ inside) u' in
    (
      ns,
      done,
      l,
      λ s h at_h.
          let lt : s < shard_count = omega (arith, get_elem?-bound ns s at_h, l) in
          let (h', at_h', one) = given s lt (sums (count s) (count-IsAdditive s) ∙ once s lt) in
          let e : h' ≡ h = ground arith in k'.0 h (λ z. ground arith),
    )

-- What `Leave` adds, where `c` is the last configuration.
abbrev pub Leaves : StateMachine → List Gid → Config → Type 0
Leaves csm gids c =
    (new : Config) × (leave csm gids ≡ some (csm ++ (new ∷ []), ok))
    × (new.num ≡ length csm)
    × IsAssigned new
    × ((g : Gid)
        → lookup new.groups g ≢ none
        → (lookup c.groups g ≢ none) × ((i : ℕ) → get_elem? gids i ≢ some g))
    × ((g : Gid)
        → lookup c.groups g ≢ none
        → ((i : ℕ) → get_elem? gids i ≢ some g)
        → lookup new.groups g ≢ none)
    × ((g : Gid) (s : ℕ) (h : Gid)
        → lookup new.groups g ≢ none
        → get_elem? new.shards s ≡ some h
        → HasFree c × (h ≡ gid 0) ⊎ (lookup new.groups h ≢ none))

-- `Leave`, on a last configuration that does not have the group 0 and whose shards all belong to its
-- groups or to that one, does not panic: it adds a configuration with the next number and with
-- exactly the groups that do not leave. Where such groups are left, every shard belongs to one of
-- them, or to the group 0 if the last configuration had a shard of that one; else all shards belong
-- to the group 0.
pub leave-Leaves :
    (csm : StateMachine) (gids : List Gid) (c : Config)
    → latest csm ≡ some c
    → IsAssigned c
    → lookup c.groups (gid 0) ≡ none
    → Leaves csm gids c
unfolding leave
leave-Leaves csm gids c last v no_zero =
    let same = copy_groups_lem c.groups in
    let m₀ = gid_to_shards c.groups c.shards in
    let groups = (left gids c.groups m₀ []).0 in
    let m = (left gids c.groups m₀ []).1 in
    let free = (left gids c.groups m₀ []).2 in
    let u₀ = start-Nodup c.groups c.shards v.full in
    let who : (h : Gid)
        → (lookup groups h ≢ none
            → (lookup c.groups h ≢ none) × ((i : ℕ) → get_elem? gids i ≢ some h))
          × (lookup c.groups h ≢ none
              → ((i : ℕ) → get_elem? gids i ≢ some h)
              → lookup groups h ≢ none) =
      λ h. remove_groups-groups gids c.groups m₀ [] h in
    elim (Bool-cases (length groups == 0)) [
      | inl nobody ↦ (
        record { num = length csm; shards = no_shards; groups = groups },
        ground (arith, same, last),
        refl,
        record { full = refl; owned = λ s g h. inl (unassigned shard_count s g h) },
        (λ g. (who g).0),
        (λ g. (who g).1),
        λ g s h there at_h. absurd (there (no_key groups nobody g)),
      )
      | inr somebody ↦
          let (g, there) = first_key groups somebody in
          let sum : (f : List ℕ → ℕ) → IsAdditive f → total f m + f free ≡ total f m₀ = λ f a.
            (let (_, t) = remove_groups-total f gids c.groups m₀ [] a u₀ in
              omega (arith, t, a.of_nil)) in
          let (ns, done, l, owned) =
            reassigned groups m free g
              (remove_groups-Matches gids c.groups m₀ [] (start-Matches c v)) there
              (λ z. ((who g).0 there).0 (ap (lookup c.groups) z ∙ no_zero))
              (remove_groups-total length gids c.groups m₀ [] length-IsAdditive u₀).0
              (omega (arith, sum length length-IsAdditive, start-length c.groups c.shards v.full))
              (sum beyond beyond-IsAdditive ∙ start-beyond c.groups c.shards v.full)
              (λ s lt.
                sum (count s) (count-IsAdditive s) ∙ start-count c.groups c.shards v.full s lt) in
          (
            record { num = length csm; shards = ns; groups = groups },
            ground (arith, same, last, done),
            refl,
            record { full = l; owned = λ s h at_h. weaken (owned s h at_h) },
            (λ h. (who h).0),
            (λ h. (who h).1),
            λ g' s h _ at_h. owned s h at_h,
          )
    ]
