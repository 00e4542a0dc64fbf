-- ===== src/ShardKv/Configuring.antt =====
-- A new configuration, `applyNewConfig` of src/shardkv/conf_change.go.
use mathlib.Core.Path.{subst}
use multi_raft.Common.{
  ℕ, zero, suc, ◌+◌, ◌≤◌, ◌<◌, ◌≡◌, refl, ◌∙◌, ◌≢◌, inl, inr, Bool, true, false, ◌||◌, some, List,
  [], ◌∷◌, arith, lookup, put, nat_key, string_key, ℕ_discrete, if◌then◌else◌, Bool-cases, length,
  get_elem?, All, get_elem?-below, get_elem?-bound, is_key, lookup-put_self, lookup-put_ne,
}
use multi_raft.ShardCtrler.Config.{shard_count, Gid, gid_key, Config}
use multi_raft.ShardKv.Changes.{
  reply_of, set_status, comes, goes, mark_shard, mark_shards, count_up, apply_new_config,
}
use multi_raft.ShardKv.Operating.{IsComplete}
use multi_raft.ShardKv.Operations.{ok, ShardStatus, move_in, move_out}
use multi_raft.ShardKv.Shards.{Shard, Shards, Store}
use multi_raft.ShardKv.Statuses.{Held}

-- The status of a shard that goes from the group `old` to the group `new`.
abbrev pub next_status : Gid → Gid → Gid → ShardStatus → ShardStatus
next_status me old new status =
    if goes me old new then move_out else if comes me old new then move_in else status

abbrev pub moved : Gid → Gid → Gid → Shard → Shard
moved me old new shard = record shard { status = next_status me old new shard.status }

set_status_lem :
    (shards : Shards) (i : ℕ) (shard : Shard) (status : ShardStatus)
    → lookup shards i ≡ some shard
    → set_status shards i status ≡ some (put shards i (record shard { status = status }))
unfolding set_status
set_status_lem shards i shard status h = ground (arith, h)

-- One shard of the new map, and the others.
abbrev Marks : Gid → Gid → Gid → ℕ → Shard → Shards → Shards → Type 0
Marks me old new i shard shards marked =
    (mark_shard me old new i shards ≡ some marked)
    × (lookup marked i ≡ some (moved me old new shard))
    × ((j : ℕ) → i ≢ j → lookup marked j ≡ lookup shards j)

mark_shard_lem :
    (me old new : Gid) (i : ℕ) (shard : Shard) (shards : Shards)
    → lookup shards i ≡ some shard
    → (marked : Shards) × Marks me old new i shard shards marked
unfolding mark_shard
mark_shard_lem me old new i shard shards h =
    let to : (status : ShardStatus) → Shards =
      λ status. put shards i (record shard { status = status }) in
    let others : (status : ShardStatus) (j : ℕ) → i ≢ j → lookup (to status) j ≡ lookup shards j =
      λ status j n. lookup-put_ne shards i j (record shard { status = status }) n in
    elim (Bool-cases (goes me old new)) [
      | inl out ↦ (
        to move_out,
        (
          ground (arith, out, set_status_lem shards i shard move_out h),
          rw out (lookup-put_self shards i (record shard { status = move_out })),
          others move_out,
        ),
      )
      | inr stay ↦ elim (Bool-cases (comes me old new)) [
        | inl in_ ↦ (
          to move_in,
          (
            ground (arith, stay, in_, set_status_lem shards i shard move_in h),
            rw (stay, in_) (lookup-put_self shards i (record shard { status = move_in })),
            others move_in,
          ),
        )
        | inr off ↦ (shards, (ground (arith, stay, off), rw (stay, off) h, λ j n. refl))
      ]
    ]

abbrev pub mem : ℕ → List ℕ → Bool
mem j [] = false
mem j (i ∷ is) = is_key i j || mem j is

-- What the loop does to the shards of these indexes.
abbrev AtIndex : Gid → Config → Config → List ℕ → Shards → Shards → ℕ → Type 0
AtIndex me current new is shards marked j =
    (old_owner new_owner : Gid) (shard : Shard)
    → get_elem? current.shards j ≡ some old_owner
    → get_elem? new.shards j ≡ some new_owner
    → lookup shards j ≡ some shard
    → lookup marked j ≡ some (if mem j is then moved me old_owner new_owner shard else shard)

abbrev MarksAll : Gid → Config → Config → List ℕ → Shards → Shards → Type 0
MarksAll me current new is shards marked = (j : ℕ) → AtIndex me current new is shards marked j

next_status-twice :
    (me old new : Gid) (shard : Shard)
    → moved me old new (moved me old new shard) ≡ moved me old new shard
next_status-twice me old new shard = ground arith

mark_shards_lem :
    (me : Gid) (current new : Config) (is : List ℕ) (shards : Shards)
    → length current.shards ≡ shard_count
    → length new.shards ≡ shard_count
    → Held shards
    → All (λ i. i < shard_count) is
    → (marked : Shards) × (mark_shards me current new is shards ≡ some marked)
      × MarksAll me current new is shards marked
unfolding mark_shards
mark_shards_lem me current new [] shards full full' held range =
    (shards, refl, λ j o n shard eo en h. h)
mark_shards_lem me current new (i ∷ is) shards full full' held (lt, range) =
    let (shard, h) = held i lt in
    let (o, eo) = get_elem?-below current.shards i (ground (arith, full)) in
    let (n, en) = get_elem?-below new.shards i (ground (arith, full')) in
    let (marked, (done, own, others)) = mark_shard_lem me o n i shard shards h in
    let held' : Held marked = λ j ltj. elim (ℕ_discrete i j) [
      | yes e ↦ (moved me o n shard, subst (λ k. lookup marked k ≡ some (moved me o n shard)) e own)
      | no ne ↦ let (s, hs) = held j ltj in (s, others j ne ∙ hs)
    ] in
    let (marked', done', all) = mark_shards_lem me current new is marked full full' held' range in
    let at_i : AtIndex me current new (i ∷ is) shards marked' i = λ o' n' s eo' en' hs.
      let same : moved me o n shard ≡ moved me o' n' s = ground (arith, eo, en, h, eo', en', hs) in
      let a = all i o n (moved me o n shard) eo en own in
      ground (arith, same, a, next_status-twice me o n shard) in
    (
      marked',
      ground (arith, eo, en, done, done'),
      λ j o' n' s eo' en' hs. elim (ℕ_discrete i j) [
        | yes e ↦ subst (AtIndex me current new (i ∷ is) shards marked') e at_i o' n' s eo' en' hs
        | no ne ↦ all j o' n' s eo' en' (others j ne ∙ hs) ∙ ground arith
      ],
    )

-- The ten indexes.
count_up-range : (i n : ℕ) → i + n ≡ shard_count → All (λ j. j < shard_count) (count_up i n)
count_up-range i zero e = tt
count_up-range i (suc n) e = (omega arith, count_up-range (i + 1) n (omega arith))

pub count_up-mem : (i n j : ℕ) → i ≤ j → j < i + n → mem j (count_up i n) ≡ true
count_up-mem i zero j le lt = absurd (omega arith)
count_up-mem i (suc n) j le lt = ground (arith, count_up-mem (i + 1) n j)

-- What a new configuration leaves.
abbrev pub Configures : Store → Config → Store → Type 0
Configures st new st' =
    IsComplete st'
    × (st'.gid ≡ st.gid)
    × (st'.prev_config ≡ st.current_config)
    × (st'.current_config ≡ new)
    × ((i : ℕ) (old_owner new_owner : Gid) (shard : Shard)
        → get_elem? st.current_config.shards i ≡ some old_owner
        → get_elem? new.shards i ≡ some new_owner
        → lookup st.shards i ≡ some shard
        → lookup st'.shards i ≡ some (moved st.gid old_owner new_owner shard))

pub apply_new_config_lem :
    (st : Store) (new : Config)
    → IsComplete st
    → length new.shards ≡ shard_count
    → st.current_config.num + 1 ≡ new.num
    → (st' : Store) × (apply_new_config st new ≡ some (st', reply_of ok)) × Configures st new st'
unfolding apply_new_config
apply_new_config_lem st new c full next =
    let (marked, done, all) =
      mark_shards_lem st.gid st.current_config new (count_up 0 shard_count) st.shards c.current_full
        full c.held (count_up-range 0 shard_count refl) in
    let marks : (i : ℕ) (old_owner new_owner : Gid) (shard : Shard)
        → get_elem? st.current_config.shards i ≡ some old_owner
        → get_elem? new.shards i ≡ some new_owner
        → lookup st.shards i ≡ some shard
        → lookup marked i ≡ some (moved st.gid old_owner new_owner shard) =
      λ i o n s eo en h.
        let lt : i < shard_count = ground (arith, get_elem?-bound new.shards i en, full) in
        ground (arith, all i o n s eo en h, count_up-mem 0 shard_count i (omega arith) lt) in
    (
      record st { shards = marked; prev_config = st.current_config; current_config = new },
      ground (arith, done, next),
      (
        record {
          held = λ i lt.
              let (o, eo) =
                get_elem?-below st.current_config.shards i (ground (arith, c.current_full)) in
              let (n, en) = get_elem?-below new.shards i (ground (arith, full)) in
              let (s, h) = c.held i lt in (moved st.gid o n s, marks i o n s eo en h);
          current_full = full;
          prev_full = c.current_full;
        },
        refl,
        refl,
        refl,
        marks,
      ),
    )
