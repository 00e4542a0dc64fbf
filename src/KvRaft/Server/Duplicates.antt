-- ===== src/KvRaft/Server/Duplicates.antt =====
-- The check for duplicates of src/kvraft/server.go against the log of operations itself.
use multi_raft.Common.{◌≡◌, refl, ◌∙◌, some, List, [], ◌∷◌, nat_key, string_key}
use multi_raft.KvRaft.StateMachine.{Op, StateMachine, apply_to_state_machine, kv_service}
use multi_raft.Service.Duplicates.{execute_all, run_all, first_only, state_of, once_each}

-- The state machine by itself.
abbrev pub run : StateMachine → List Op → StateMachine
run mkv [] = mkv
run mkv (op ∷ ops) = run (apply_to_state_machine mkv op).0 ops

run_all-run : (mkv : StateMachine) (ops : List Op) → run_all kv_service mkv ops ≡ some (run mkv ops)
unfolding run_all
run_all-run mkv [] = refl
run_all-run mkv (op ∷ ops) = run_all-run (apply_to_state_machine mkv op).0 ops

-- The operations of a log, executed with the check for duplicates from an empty table, do not panic
-- and leave the state machine as if only the reads and the first of the writes of each client with
-- their number had been run: a write whose number a write of its client reached before has no
-- effect.
pub exactly_once :
    (mkv : StateMachine) (ops : List Op)
    → state_of kv_service (execute_all kv_service mkv [] ops)
      ≡ some (run mkv (first_only kv_service [] ops))
exactly_once mkv ops = once_each kv_service mkv ops ∙ run_all-run mkv (first_only kv_service [] ops)
