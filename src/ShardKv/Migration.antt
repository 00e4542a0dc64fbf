-- ===== src/ShardKv/Migration.antt =====
-- A shard on its way from one group to another: `GetShardsData` of src/shardkv/task.go at the one,
-- `applyShardMigration` of src/shardkv/conf_change.go at the other.
use mathlib.Core.Path.{subst}
use multi_raft.Common.{
  ℕ, ◌≤◌, ◌<◌, ◌≡◌, refl, sym, ap, ◌∙◌, inl, inr, true, false, ◌||◌, Option, none, some, List, [],
  ◌∷◌, String, arith, lookup, put, nat_key, string_key, ℕ_discrete, ltb, if◌then◌else◌,
  Option-cases, ◌>>=◌, if_cases, All, Map, lookup-put_self, lookup-put_ne, IsMap, put-IsMap,
}
use multi_raft.Raft.Peer.{get_state}
use multi_raft.Service.Duplicates.{request_duplicated}
use multi_raft.ShardCtrler.Config.{shard_count}
use multi_raft.ShardKv.Changes.{reply_of, put_all, take_shards, merge_tables, apply_shard_migration}
use multi_raft.ShardKv.Configuring.{mem}
use multi_raft.ShardKv.Operating.{IsComplete}
use multi_raft.ShardKv.Operations.{
  ok, wrong_config, OpReply, DuplicateTable, move_in, gc, ShardOperationArgs, ShardOperationReply,
}
use multi_raft.ShardKv.Server.{ShardKv, copy_shards, get_shards_data}
use multi_raft.ShardKv.Shards.{Shard, copy_data, Shards, Store}
use multi_raft.ShardKv.Statuses.{Held}

-- What is sent comes before what was there.
abbrev pub or_old : {V : Type 0} → Option V → Option V → Option V
or_old (some v) old = some v
or_old none old = old

put_all-lookup :
    (kv entries : Map String String) (key : String)
    → lookup (put_all kv entries) key ≡ or_old (lookup entries key) (lookup kv key)
unfolding put_all lookup
put_all-lookup kv [] key = refl
put_all-lookup kv ((k, v) ∷ entries) key = ground (
  arith,
  put_all-lookup kv entries key,
  lookup-put_self (put_all kv entries) k v,
  lookup-put_ne (put_all kv entries) k key v,
)

-- A shard after its data has arrived.
abbrev pub taken : Option (Map String String) → Option Shard → Option Shard
taken (some entries) (some shard) = some (record { kv = put_all shard.kv entries; status = gc })
taken _ old = old

-- Every shard that is sent is awaited.
abbrev pub Awaited : Shards → Map ℕ (Map String String) → Type 0
Awaited shards sent =
    (i : ℕ) (entries : Map String String)
    → lookup sent i ≡ some entries
    → (shard : Shard) × (lookup shards i ≡ some shard) × (shard.status ≡ move_in)

take_shards_lem :
    (shards : Shards) (sent : Map ℕ (Map String String))
    → IsMap sent
    → Awaited shards sent
    → (shards' : Shards) × (take_shards shards sent ≡ some shards')
      × ((i : ℕ) → lookup shards' i ≡ taken (lookup sent i) (lookup shards i))
unfolding take_shards lookup
take_shards_lem shards [] d w = (shards, refl, λ i. refl)
take_shards_lem shards ((i, entries) ∷ rest) (new, d) w =
    let (shard, h, e) = w i entries (ground arith) in
    let shard' : Shard = record { kv = put_all shard.kv entries; status = gc } in
    let w' : Awaited (put shards i shard') rest = λ j es hj. elim (ℕ_discrete i j) [
      | yes same ↦ absurd (ground (arith, subst (λ k. lookup rest k ≡ none) same new))
      | no differ ↦
          let (s, hs, es') = w j es (ground arith) in
          (s, lookup-put_ne shards i j shard' differ ∙ hs, es')
    ] in
    let (shards', done, all) = take_shards_lem (put shards i shard') rest d w' in
    let AtIndex : ℕ → Type 0 =
      λ j. lookup shards' j ≡ taken (lookup ((i, entries) ∷ rest) j) (lookup shards j) in
    let at_i : AtIndex i = ground (arith, all i, new, lookup-put_self shards i shard', h) in
    (
      shards',
      ground (arith, h, e, done),
      λ j. elim (ℕ_discrete i j) [
        | yes same ↦ subst AtIndex same at_i
        | no differ ↦ all j ∙ ground (arith, lookup-put_ne shards i j shard' differ)
      ],
    )

-- The shards as they are sent.
abbrev pub sent_of : List ℕ → Shards → ℕ → Option (Map String String)
sent_of ids shards i = if mem i ids then (lookup shards i >>= λ shard. some shard.kv) else none

copy_shards_lem :
    (shards : Shards) (ids : List ℕ)
    → Held shards
    → All (λ i. i < shard_count) ids
    → (sent : Map ℕ (Map String String)) × (copy_shards shards ids ≡ some sent)
      × IsMap sent
      × ((i : ℕ) → lookup sent i ≡ sent_of ids shards i)
unfolding copy_shards copy_data lookup
copy_shards_lem shards [] held range = ([], refl, refl, λ i. refl)
copy_shards_lem shards (i ∷ is) held (lt, range) =
    let (shard, h) = held i lt in
    let (sent, done, d, all) = copy_shards_lem shards is held range in
    let at_j : (j : ℕ) → i ≡ j → lookup shards j ≡ some shard =
      λ j same. subst (λ k. lookup shards k ≡ some shard) same h in
    elim (Option-cases (lookup sent i)) [
      | inl e ↦ (
        (i, shard.kv) ∷ sent,
        ground (arith, h, done, e),
        (e, d),
        λ j. elim (ℕ_discrete i j) [
          | yes same ↦ ground (arith, at_j j same)
          | no differ ↦ ground (arith, all j)
        ],
      )
      | inr (found, e) ↦ (
        sent,
        ground (arith, h, done, e),
        d,
        λ j. elim (ℕ_discrete i j) [
          | yes same ↦
              ground (arith, all j, at_j j same, subst (λ k. lookup sent k ≡ some found) same e)
          | no differ ↦ ground (arith, all j)
        ],
      )
    ]

-- What a server knows of a client that another server knows of too.
merge_tables_lem :
    (table sent : DuplicateTable) (c s : ℕ)
    → IsMap sent
    → request_duplicated (merge_tables table sent) c s
      ≡ request_duplicated table c s || request_duplicated sent c s
unfolding merge_tables request_duplicated lookup
merge_tables_lem table [] c s d = ground arith
merge_tables_lem table ((k, info) ∷ sent) c s (new, d) =
    let merged = merge_tables table sent in
    ground (
      arith,
      merge_tables_lem table sent c s d,
      merge_tables_lem table sent k s d,
      lookup-put_self merged k info,
      lookup-put_ne merged k c info,
      new,
    )

-- What the group that a shard comes from sends, and what the group that waits for it makes of that.
abbrev pub HandsOver : ShardKv → ShardOperationArgs → Store → DuplicateTable → Type 0
HandsOver source args st table =
    (reply : ShardOperationReply) × (get_shards_data source args ≡ some reply)
    × (reply.err ≡ ok)
    × ((done : Store × DuplicateTable × OpReply) × (apply_shard_migration st table reply
          ≡ some done)
        × ((i : ℕ) (from to : Shard)
            → mem i args.shard_ids ≡ true
            → lookup source.store.shards i ≡ some from
            → lookup st.shards i ≡ some to
            → (shard : Shard) × (lookup done.0.shards i ≡ some shard)
              × (shard.status ≡ gc)
              × ((key : String)
                  → lookup shard.kv key ≡ or_old (lookup from.kv key) (lookup to.kv key)))
        × ((i : ℕ) → mem i args.shard_ids ≡ false → lookup done.0.shards i ≡ lookup st.shards i)
        × ((c s : ℕ)
            → request_duplicated done.1 c s
              ≡ request_duplicated table c s || request_duplicated source.duplicate_table c s))

-- A leader that has all shards and has come to the configuration of the request answers it; its answer,
-- applied by a server of that configuration that waits for all of these shards, neither panics nor
-- stops before the end. Each of the shards is then ready for its cleaning up and reads, at every key,
-- as at the group it came from, and at a key that it did not have there, as before; the other shards are as
-- they were; and a request counts as answered where either of the two servers had answered it.
pub get_shards_data-HandsOver :
    (source : ShardKv) (args : ShardOperationArgs) (st : Store) (table : DuplicateTable)
    → IsComplete source.store
    → IsMap source.duplicate_table
    → (get_state source.rf).1 ≡ true
    → args.config_num ≤ source.store.current_config.num
    → All (λ i. i < shard_count) args.shard_ids
    → st.current_config.num ≡ args.config_num
    → ((i : ℕ)
        → mem i args.shard_ids ≡ true
        → (shard : Shard) × (lookup st.shards i ≡ some shard) × (shard.status ≡ move_in))
    → HandsOver source args st table
unfolding get_shards_data apply_shard_migration
get_shards_data-HandsOver source args st table c known leads ready range now waits =
    let (sent, copied, d, all) = copy_shards_lem source.store.shards args.shard_ids c.held range in
    let reply : ShardOperationReply = record {
      err = ok;
      config_num = args.config_num;
      shard_data = sent;
      duplicate_table = source.duplicate_table;
    } in
    let awaited : Awaited st.shards sent = λ i entries h. waits i (ground (arith, all i)) in
    let (shards, took, after) = take_shards_lem st.shards sent d awaited in
    (
      reply,
      ground (arith, copied),
      refl,
      (
        (
          record st { shards = shards },
          merge_tables table source.duplicate_table,
          reply_of wrong_config,
        ),
        ground (arith, took),
        (λ i from to m hf ht. (
          record { kv = put_all to.kv from.kv; status = gc },
          ground (arith, after i, all i, hf, ht, m),
          refl,
          put_all-lookup to.kv from.kv,
        )),
        (λ i m. ground (arith, after i, all i, m)),
        (λ c s. merge_tables_lem table source.duplicate_table c s known),
      ),
    )

-- What both orders of the shards leave.
abbrev pub SameEffect : Shards → Map ℕ (Map String String) → Map ℕ (Map String String) → Type 0
SameEffect shards sent sent' =
    (left : Shards) × (take_shards shards sent ≡ some left)
    × ((right : Shards) × (take_shards shards sent' ≡ some right)
        × ((i : ℕ) → lookup left i ≡ lookup right i))

-- The order in which `range` goes over the shards that were sent does not matter where all of them
-- are awaited: any two orders are taken to the end and leave every shard the same.
pub take_shards-any_order :
    (shards : Shards) (sent sent' : Map ℕ (Map String String))
    → IsMap sent
    → IsMap sent'
    → ((i : ℕ) → lookup sent i ≡ lookup sent' i)
    → Awaited shards sent
    → SameEffect shards sent sent'
take_shards-any_order shards sent sent' d d' same w =
    let (left, took, after) = take_shards_lem shards sent d w in
    let (right, took', after') =
      take_shards_lem shards sent' d' (λ i entries h. w i entries (same i ∙ h)) in
    (
      left,
      took,
      (right, took', λ i. after i ∙ ap (λ o. taken o (lookup shards i)) (same i) ∙ sym (after' i)),
    )

pub merge_tables-IsMap :
    (table sent : DuplicateTable) → IsMap table → IsMap (merge_tables table sent)
unfolding merge_tables
merge_tables-IsMap table [] d = d
merge_tables-IsMap table ((c, info) ∷ sent) d =
    let merged = merge_tables table sent in
    let d' = merge_tables-IsMap table sent d in
    elim (Option-cases (lookup merged c)) [
      | inl e ↦ rw (e, merge_tables) (put-IsMap merged c info d')
      | inr (old, e) ↦
          rw (e, merge_tables)
            (if_cases IsMap (ltb old.seq_id info.seq_id) (put merged c info) merged
              (λ t. put-IsMap merged c info d') (λ t. d'))
    ]
