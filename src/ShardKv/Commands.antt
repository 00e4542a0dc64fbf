-- ===== src/ShardKv/Commands.antt =====
-- The commands of the log of src/shardkv, one after the other: shards and configurations fit
-- together, and a change of the configuration is over before the next one begins.
use mathlib.Core.Path.{subst}
use multi_raft.Common.{
  ℕ, ◌+◌, ◌≤◌, ◌<◌, ◌≡◌, refl, sym, ap, ◌∙◌, ◌⊎◌, inl, inr, Bool, true, Option, some, List, [], ◌∷◌,
  arith, lookup, nat_key, string_key, ◌==◌, Bool-cases, ◌>>=◌, length, get_elem?, All,
  get_elem?-bound,
}
use multi_raft.ShardCtrler.Config.{shard_count, Gid, gid_key, Config}
use multi_raft.ShardKv.Changes.{reply_of, comes, goes, apply_new_config, apply_raft_command}
use multi_raft.ShardKv.Configuring.{moved, next_status, Configures, apply_new_config_lem}
use multi_raft.ShardKv.Operating.{IsComplete}
use multi_raft.ShardKv.Operations.{
  ok, wrong_config, DuplicateTable, ShardStatus, normal, move_in, move_out, gc, RaftCommand,
}
use multi_raft.ShardKv.Server.{ShardKv}
use multi_raft.ShardKv.Shards.{Shard, Shards, Store}
use multi_raft.ShardKv.Statuses.{reaches}
use multi_raft.ShardKv.Stepping.{IsWellSent, Stays, apply_raft_command_lem}
use multi_raft.ShardKv.Tasks.{all_normal, wanted_config}

-- No change of the configuration is under way.
abbrev pub AllNormal : Store → Type 0
AllNormal st =
    (i : ℕ) (shard : Shard)
    → i < shard_count
    → lookup st.shards i ≡ some shard
    → shard.status ≡ normal

all_normal-AllNormal :
    (shards : Shards) (i : ℕ) (shard : Shard)
    → all_normal shards ≡ true
    → lookup shards i ≡ some shard
    → shard.status ≡ normal
unfolding all_normal lookup
all_normal-AllNormal [] i shard n h = absurd (cc)
all_normal-AllNormal ((j, s) ∷ shards) i shard n h =
    ground (arith, all_normal-AllNormal shards i shard)

reaches-normal : (s : ShardStatus) → reaches normal s ≡ true → s ≡ normal
reaches-normal s r = ground arith

Stays-AllNormal : (st st' : Store) → IsComplete st → Stays st st' → AllNormal st → AllNormal st'
Stays-AllNormal st st' c (_, _, _, b) n i shard lt h =
    let (old, ho) = c.held i lt in
    let (shard', h', r) = b i old ho in
    let e : old.status ≡ normal = n i old lt ho in
    let same : shard' ≡ shard = ground (arith, h, h') in
    reaches-normal shard.status (ground (arith, same, e, r))

-- The statuses fit the two configurations: a shard that moves in or waits for its cleaning up comes
-- from another group, and one that moves out goes to another group.
abbrev pub fits : Gid → Gid → Gid → ShardStatus → Bool
fits me prev current status = elim status [
  | normal ↦ true
  | move_in ↦ comes me prev current
  | move_out ↦ goes me prev current
  | gc ↦ comes me prev current
]

abbrev pub IsConsistent : Store → Type 0
IsConsistent st =
    (i : ℕ) (prev current : Gid) (shard : Shard)
    → get_elem? st.prev_config.shards i ≡ some prev
    → get_elem? st.current_config.shards i ≡ some current
    → lookup st.shards i ≡ some shard
    → fits st.gid prev current shard.status ≡ true

reaches-fits :
    (me prev current : Gid) (s s' : ShardStatus)
    → reaches s s' ≡ true
    → fits me prev current s ≡ true
    → fits me prev current s' ≡ true
reaches-fits me prev current s s' r f = ground arith

pub Stays-IsConsistent :
    (st st' : Store) → IsComplete st → Stays st st' → IsConsistent st → IsConsistent st'
Stays-IsConsistent st st' c (g, p, q, b) fit i prev current shard hp hq h =
    let hp' : get_elem? st.prev_config.shards i ≡ some prev =
      sym (ap (λ k. get_elem? k.shards i) p) ∙ hp in
    let hq' : get_elem? st.current_config.shards i ≡ some current =
      sym (ap (λ k. get_elem? k.shards i) q) ∙ hq in
    let lt : i < shard_count =
      ground (arith, get_elem?-bound st.current_config.shards i hq', c.current_full) in
    let (old, ho) = c.held i lt in
    let (shard', h', r) = b i old ho in
    let same : shard' ≡ shard = ground (arith, h, h') in
    rw g (
      reaches-fits st.gid prev current old.status shard.status (ground (arith, same, r))
        (fit i prev current old hp' hq' ho))

next-fits : (me old new : Gid) → fits me old new (next_status me old new normal) ≡ true
next-fits me old new = ground arith

pub Configures-IsConsistent :
    (st : Store) (new : Config) (st' : Store)
    → IsComplete st
    → AllNormal st
    → Configures st new st'
    → IsConsistent st'
Configures-IsConsistent st new st' c n (c', g, p, q, marks) i prev current shard hp hq h =
    let hp' : get_elem? st.current_config.shards i ≡ some prev =
      sym (ap (λ k. get_elem? k.shards i) p) ∙ hp in
    let hq' : get_elem? new.shards i ≡ some current = sym (ap (λ k. get_elem? k.shards i) q) ∙ hq in
    let lt : i < shard_count =
      ground (arith, get_elem?-bound st.current_config.shards i hp', c.current_full) in
    let (old, ho) = c.held i lt in
    let e : old.status ≡ normal = n i old lt ho in
    let same : moved st.gid prev current old ≡ shard =
      ground (arith, h, marks i prev current old hp' hq' ho) in
    rw g (
      subst (λ s. fits st.gid prev current s.status ≡ true) same
        (rw e (next-fits st.gid prev current)))

-- All commands of a log.
unfoldable pub run_commands :
    Store → DuplicateTable → List RaftCommand → Option (Store × DuplicateTable)
run_commands st table [] = some (st, table)
run_commands st table (command ∷ commands) =
    apply_raft_command st table command >>= λ done. run_commands done.0 done.1 commands

abbrev SettledFrom : ℕ → Store → DuplicateTable → List RaftCommand → Type 0
SettledFrom num st table commands =
    (done : Store × DuplicateTable) × (run_commands st table commands ≡ some done)
    × IsComplete done.0
    × (num ≤ done.0.current_config.num)
    × (done.0.current_config.num ≡ num → AllNormal done.0)

settled_from :
    (st : Store) (table : DuplicateTable) (commands : List RaftCommand) (num : ℕ)
    → IsComplete st
    → All IsWellSent commands
    → num ≤ st.current_config.num
    → (st.current_config.num ≡ num → AllNormal st)
    → SettledFrom num st table commands
unfolding run_commands
settled_from st table [] num c w le n = ((st, table), refl, c, le, n)
settled_from st table (command ∷ commands) num c (w, ws) le n =
    let (done, e, c', cases) = apply_raft_command_lem st table command c w in
    let next : num ≤ done.0.current_config.num
        → (done.0.current_config.num ≡ num → AllNormal done.0)
        → SettledFrom num st table (command ∷ commands) =
      λ le' n'.
        let (end, e', c'', le'', n'') = settled_from done.0 done.1 commands num c' ws le' n' in
        (end, ground (arith, e, e'), c'', le'', n'') in
    elim cases [
      | inl (g, p, q, b) ↦
          next (ground (arith, q))
            (λ same. Stays-AllNormal st done.0 c (g, p, q, b) (n (ground (arith, q, same))))
      | inr (new, _, num', (_, _, _, q, _)) ↦
          next (ground (arith, q, num')) (λ same. absurd (ground (arith, q, num', same)))
    ]

-- Behind a leader's request for the configuration `num` and then these commands, no change is under
-- way where `num` is still the next one.
pub wanted_config-AllNormal :
    (kv : ShardKv) (num : ℕ) (commands : List RaftCommand) (st : Store) (table : DuplicateTable)
    → IsComplete kv.store
    → wanted_config kv ≡ some num
    → All IsWellSent commands
    → run_commands kv.store kv.duplicate_table commands ≡ some (st, table)
    → st.current_config.num + 1 ≡ num
    → AllNormal st
unfolding wanted_config
wanted_config-AllNormal kv num commands st table c wanted w ran next =
    let n : all_normal kv.store.shards ≡ true = ground arith in
    let (done, e, _, _, settled) =
      settled_from kv.store kv.duplicate_table commands kv.store.current_config.num c w
        (omega arith) (λ same i shard lt h. all_normal-AllNormal kv.store.shards i shard n h) in
    let same : done.0 ≡ st = ground (arith, e, ran) in
    subst AllNormal same (settled (ground (arith, same)))

-- What a new configuration meets behind these commands.
abbrev pub MeetsSettled : ShardKv → List RaftCommand → Config → Type 0
MeetsSettled kv commands new =
    (done : Store × DuplicateTable) × (run_commands kv.store kv.duplicate_table commands
      ≡ some done)
    × ((apply_new_config done.0 new ≡ some (done.0, reply_of wrong_config))
        ⊎ AllNormal done.0
          × ((st : Store) × (apply_new_config done.0 new ≡ some (st, reply_of ok))
              × Configures done.0 new st))

-- A leader asks the controller for the configuration `num`; then any commands that name no shard out
-- of range are applied, and behind them the answer, if it has that number. None of this panics, and
-- the answer is refused, or no change of the configuration is under way where it takes effect: it
-- becomes the current configuration, the old one the previous one, and the shards that come or go
-- are marked.
pub fetched_config_lem :
    (kv : ShardKv) (num : ℕ) (new : Config) (commands : List RaftCommand)
    → IsComplete kv.store
    → wanted_config kv ≡ some num
    → new.num ≡ num
    → length new.shards ≡ shard_count
    → All IsWellSent commands
    → MeetsSettled kv commands new
unfolding wanted_config
fetched_config_lem kv num new commands c wanted asked full w =
    let n : all_normal kv.store.shards ≡ true = ground arith in
    let (done, e, c', le, settled) =
      settled_from kv.store kv.duplicate_table commands kv.store.current_config.num c w
        (omega arith) (λ same i shard lt h. all_normal-AllNormal kv.store.shards i shard n h) in
    elim (Bool-cases (done.0.current_config.num + 1 == new.num)) [
      | inl next ↦
          let same : done.0.current_config.num ≡ kv.store.current_config.num = ground arith in
          let (st, e', configured) =
            apply_new_config_lem done.0 new c' full (ground (arith, next)) in
          (done, e, inr (settled same, (st, e', configured)))
      | inr other ↦ (done, e, inl (unfold apply_new_config in ground (arith, other)))
    ]
