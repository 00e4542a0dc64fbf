-- ===== src/ShardKv/Operating.antt =====
-- Operations of clients on the shards of a server, `applyClientOperation` of src/shardkv/task.go.
use mathlib.Core.Path.{subst}
use multi_raft.Common.{
  ℕ, ◌≡◌, refl, sym, ap, ◌∙◌, ◌≢◌, inl, inr, Bool, true, false, ◌&&◌, some, String, arith, lookup,
  put, nat_key, string_key, ℕ_discrete, if◌then◌else◌, Bool-cases, ◌>>=◌, length, get_elem?,
  get_elem?-below, is_key, lookup-put_self, lookup-put_ne,
}
use multi_raft.Service.Duplicates.{noted, execute, is_duplicate, execute-duplicate, execute-new}
use multi_raft.ShardCtrler.Config.{shard_count, Gid, gid_key}
use multi_raft.ShardKv.Keys.{key2shard, key2shard-bound}
use multi_raft.ShardKv.Operations.{
  ok, OperationType, op_get, op_put, op_append, Op, OpReply, DuplicateTable, ShardStatus, normal,
  gc,
}
use multi_raft.ShardKv.Shards.{
  Shard, shard_get, shard_put, shard_append, Shards, Store, match_group, apply_to_state_machine,
  shard_service, wrong_group_reply, apply_client_operation,
}
use multi_raft.ShardKv.Statuses.{reaches_self, Becomes, Held}

-- The server has all shards, and its configurations say of each whose it is.
pub record IsComplete (st : Store) : Type 0 where
  pub held : Held st.shards
  pub current_full : length st.current_config.shards ≡ shard_count
  pub prev_full : length st.prev_config.shards ≡ shard_count

-- Only the shard of the key changes, and that not in its status.
abbrev pub OnlyShard : ℕ → Shards → Shards → Type 0
OnlyShard i shards shards' =
    ((j : ℕ) → i ≢ j → lookup shards' j ≡ lookup shards j)
    × ((shard : Shard)
        → lookup shards i ≡ some shard
        → (shard' : Shard) × (lookup shards' i ≡ some shard') × (shard'.status ≡ shard.status))

put-OnlyShard :
    (i : ℕ) (shards : Shards) (shard shard' : Shard)
    → lookup shards i ≡ some shard
    → shard'.status ≡ shard.status
    → OnlyShard i shards (put shards i shard')
put-OnlyShard i shards shard shard' h e = (
  (λ j n. lookup-put_ne shards i j shard' n),
  (λ other h'. (shard', lookup-put_self shards i shard', ground arith)),
)

pub OnlyShard-Becomes :
    (i : ℕ) (shards shards' : Shards) → OnlyShard i shards shards' → Becomes shards shards'
OnlyShard-Becomes i shards shards' (others, own) j shard h = elim (ℕ_discrete i j) [
  | yes e ↦
      let (shard', h', same) = own shard (subst (λ k. lookup shards k ≡ some shard) (sym e) h) in
      (
        shard',
        subst (λ k. lookup shards' k ≡ some shard') e h',
        rw same (reaches_self shard.status),
      )
  | no n ↦ (shard, others j n ∙ h, reaches_self shard.status)
]

apply_to_state_machine-total :
    (shards : Shards) (op : Op)
    → Held shards
    → (done : Shards × OpReply) × (apply_to_state_machine shards op ≡ some done)
      × OnlyShard (key2shard op.key) shards done.0
unfolding apply_to_state_machine shard_put shard_append
apply_to_state_machine-total shards op held =
    let (shard, h) = held (key2shard op.key) (key2shard-bound op.key) in go op.op_type shard h refl
  where
    go :
        (t : OperationType) (shard : Shard)
        → lookup shards (key2shard op.key) ≡ some shard
        → op.op_type ≡ t
        → (done : Shards × OpReply) × (apply_to_state_machine shards op ≡ some done)
          × OnlyShard (key2shard op.key) shards done.0
    go op_get shard h e = (
      (shards, record { value = (shard_get shard op.key).0; err = (shard_get shard op.key).1 }),
      ground (arith, h, e),
      ((λ j n. refl), (λ s h'. (s, h', refl))),
    )
    go op_put shard h e = (
      (
        put shards (key2shard op.key) (shard_put shard op.key op.value).0,
        record { value = ""; err = ok },
      ),
      ground (arith, h, e),
      put-OnlyShard (key2shard op.key) shards shard (shard_put shard op.key op.value).0 h refl,
    )
    go op_append shard h e = (
      (
        put shards (key2shard op.key) (shard_append shard op.key op.value).0,
        record { value = ""; err = ok },
      ),
      ground (arith, h, e),
      put-OnlyShard (key2shard op.key) shards shard (shard_append shard op.key op.value).0 h refl,
    )

execute-OnlyShard :
    (shards : Shards) (table : DuplicateTable) (op : Op)
    → Held shards
    → (done : Shards × DuplicateTable × OpReply) × (execute shard_service shards table op
        ≡ some done)
      × OnlyShard (key2shard op.key) shards done.0
execute-OnlyShard shards table op held = elim (Bool-cases (is_duplicate shard_service table op)) [
  | inl d ↦
      let (info, _, same) = execute-duplicate shard_service shards table op d in
      ((shards, table, info.reply), same, ((λ j n. refl), (λ s h'. (s, h', refl))))
  | inr d ↦
      let (done, e, only) = apply_to_state_machine-total shards op held in
      (
        (done.0, noted shard_service table op done.1, done.1),
        execute-new shard_service shards table op d
            ∙ ap (λ m. m >>= λ x. some (x.0, noted shard_service table op x.1, x.1)) e,
        only,
      )
]

-- The group has the shard in its configuration, and the shard is neither on its way in nor out.
abbrev pub serves : Gid → Gid → ShardStatus → Bool
serves me owner status = is_key owner me && elim status [ normal ↦ true | gc ↦ true | _ ↦ false ]

match_group-serves :
    (st : Store) (key : String) (shard : Shard) (owner : Gid)
    → lookup st.shards (key2shard key) ≡ some shard
    → get_elem? st.current_config.shards (key2shard key) ≡ some owner
    → match_group st key ≡ some (serves st.gid owner shard.status)
unfolding match_group
match_group-serves st key shard owner h o = ground (arith, h, o)

-- What an operation of a client does.
abbrev pub Serves : Store → DuplicateTable → Op → Type 0
Serves st table op =
    (owner : Gid) × (get_elem? st.current_config.shards (key2shard op.key) ≡ some owner)
    × ((shard : Shard) × (lookup st.shards (key2shard op.key) ≡ some shard)
        × ((done : Shards × DuplicateTable × OpReply) × (apply_client_operation st table op
              ≡ some (record st { shards = done.0 }, done.1, done.2))
            × OnlyShard (key2shard op.key) st.shards done.0
            × (if serves st.gid owner shard.status
                then (execute shard_service st.shards table op ≡ some done)
                else (done ≡ (st.shards, table, wrong_group_reply)))))

-- An operation of a client never panics on a server with all shards. Where the group owns the
-- shard of the key in its current configuration, and the shard is not on its way in or out, the
-- operation is executed with the check for duplicates; it changes no other shard, and no status.
-- Anywhere else it is refused, and neither the shards nor the duplicate table change.
pub apply_client_operation_lem :
    (st : Store) (table : DuplicateTable) (op : Op) → IsComplete st → Serves st table op
unfolding apply_client_operation
apply_client_operation_lem st table op c =
    let lt = key2shard-bound op.key in
    let (shard, h) = c.held (key2shard op.key) lt in
    let (owner, o) =
      get_elem?-below st.current_config.shards (key2shard op.key)
        (ground (arith, c.current_full)) in
    let (done, executed, only) = execute-OnlyShard st.shards table op c.held in
    let m = match_group-serves st op.key shard owner h o in
    elim (Bool-cases (serves st.gid owner shard.status)) [
      | inl on ↦
          (owner, o, (shard, h, (done, ground (arith, m, on, executed), only, rw on executed)))
      | inr off ↦ (
        owner,
        o,
        (
          shard,
          h,
          (
            (st.shards, table, wrong_group_reply),
            ground (arith, m, off),
            ((λ j n. refl), (λ s h'. (s, h', refl))),
            rw off refl,
          ),
        ),
      )
    ]
