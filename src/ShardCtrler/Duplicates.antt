-- ===== src/ShardCtrler/Duplicates.antt =====
-- The check for duplicates of src/shardctrler/server.go: a request that a clerk sends again makes no
-- second configuration.
use mathlib.Core.Path.{subst}
use multi_raft.Common.{
  ℕ, zero, suc, ◌+◌, ◌≡◌, refl, sym, ap, ◌∙◌, some, List, [], ◌∷◌, arith, nat_key, string_key,
  if◌then◌else◌, >>=-eq-some, length, get_elem?, replicate,
}
use multi_raft.Service.Duplicates.{execute_all, run_all, first_only, state_of, once_each}
use multi_raft.ShardCtrler.Config.{
  shard_count, gid, gid_key, Config, default_config, Op, DuplicateTable,
}
use multi_raft.ShardCtrler.History.{IsNumbered, apply_to_state_machine-KeepsHistory}
use multi_raft.ShardCtrler.Server.{is_query, apply_to_state_machine, ctrler_service}
use multi_raft.ShardCtrler.StateMachine.{StateMachine, new_state_machine}

-- The operations that are no query.
abbrev pub changes : List Op → ℕ
changes [] = 0
changes (op ∷ ops) = (if is_query op then 0 else 1) + changes ops

new_state_machine-IsNumbered : IsNumbered new_state_machine
unfolding new_state_machine default_config
new_state_machine-IsNumbered = record { nonempty = omega arith; numbered = λ i c h. go i c h }
  where
    go :
        (i : ℕ) (c : Config)
        → get_elem? (record { num = 0; shards = replicate shard_count (gid 0); groups = [] } ∷ []) i
          ≡ some c
        → c.num ≡ i
    go zero c h = ground arith
    go (suc i) c h = absurd (cc)

run_all-IsNumbered :
    (csm csm' : StateMachine) (ops : List Op)
    → IsNumbered csm
    → run_all ctrler_service csm ops ≡ some csm'
    → IsNumbered csm' × (length csm' ≡ length csm + changes ops)
unfolding run_all
run_all-IsNumbered csm csm' [] n h = (subst IsNumbered (ground arith) n, ground arith)
run_all-IsNumbered csm csm' (op ∷ ops) n h =
    let (done, e, h₁) = >>=-eq-some (apply_to_state_machine csm op) _ h in
    let (n₁, _, grown) = apply_to_state_machine-KeepsHistory csm done.0 op done.1 n e in
    let (n₂, all) = run_all-IsNumbered done.0 csm' ops n₁ h₁ in (n₂, ground (arith, all, grown))

-- What a whole log leaves.
abbrev pub OneConfigEach : List Op → StateMachine → Type 0
OneConfigEach ops csm =
    (run_all ctrler_service new_state_machine (first_only ctrler_service [] ops) ≡ some csm)
    × IsNumbered csm
    × (length csm ≡ 1 + changes (first_only ctrler_service [] ops))

-- Where a new controller executes a log without a panic, it has the configurations that the queries
-- and the first of the other operations of each client with their number make by themselves: one
-- for each of these operations behind the first configuration, numbered in order. An operation
-- whose number an operation of its client reached before makes none.
pub configs_once :
    (ops : List Op) (csm : StateMachine) (table : DuplicateTable)
    → execute_all ctrler_service new_state_machine [] ops ≡ some (csm, table)
    → OneConfigEach ops csm
configs_once ops csm table h =
    let same : run_all ctrler_service new_state_machine (first_only ctrler_service [] ops)
        ≡ some csm =
      sym (once_each ctrler_service new_state_machine ops) ∙ ap (state_of ctrler_service) h in
    let (n, long) =
      run_all-IsNumbered new_state_machine csm (first_only ctrler_service [] ops)
        new_state_machine-IsNumbered same in
    (same, n, long ∙ unfold new_state_machine in refl)
