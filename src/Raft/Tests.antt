-- ===== src/Raft/Tests.antt =====
-- Runs of the model at concrete states, and the theorems about src/raft applied to them.
use multi_raft.Common.{
  ◌⊎◌, ◌↔◌, ◌≤◌, ◌<◌, arith, ℕ, ◌≡◌, refl, inl, true, false, Option, none, some, [], ◌∷◌, sort,
}
use multi_raft.Raft.Application.Delivery.{Delivers, collect-Delivers}
use multi_raft.Raft.Election.{
  RequestVoteArgs, RequestVoteReply, is_more_up_to_date, vote, request_vote, handle_vote_reply,
  election_tick,
}
use multi_raft.Raft.Election.Voting.{
  IsUpToDate, request_vote_iff, Wins, handle_vote_reply-Wins, AsksAll, start_election_lem,
}
use multi_raft.Raft.Log.{
  LogEntry, RaftLog, mock, at, last, first_for_loop, first_for, tail, append_from,
}
use multi_raft.Raft.Log.Compaction.{Snapshots, do_snapshot_lem, Installs, install_snapshot_lem}
use multi_raft.Raft.Log.Reads.{FindsFirst, first_for_lem}
use multi_raft.Raft.Log.Replication.{Replicates, append_from-tail}
use multi_raft.Raft.Peer.{
  Role, follower, candidate, leader, int, Raft, persist, become_follower, become_leader,
  context_lost, make,
}
use multi_raft.Raft.Replication.{
  AppendEntriesArgs, accept, follow, append_entries, get_majority_index, advance_commit,
  replicate_to,
}
use multi_raft.Raft.Replication.Follower.{
  Answers, append_entries_lem, TakesBack, append_entries_cuts,
}
use multi_raft.Raft.Replication.Leader.{
  PicksGreatest, get_majority_index_lem, Advances, advance_commit_lem, Reaches,
  advance_commit-Reaches, Agrees, replication_round,
}
use multi_raft.Raft.Step.{elects, is_asked, boots, later}
use multi_raft.Raft.Step.Invariant.{Inv, Extends}
use multi_raft.Raft.Step.Safety.{
  IsRestored, restart, make_restores, Step-Kept, here, then', vote_once,
}

abbrev entry : ℕ → ℕ → LogEntry ℕ
entry t c = record { term = t; command_valid = true; command = some c }

-- Snapshot up to index 2, then entries of terms 1, 2 and 2.
abbrev some_log : RaftLog ℕ
some_log = record {
  snap_last_idx = 2;
  snap_last_term = 1;
  snapshot = 9 ∷ [];
  tail_log = mock 1 ∷ entry 1 30 ∷ entry 2 40 ∷ entry 2 50 ∷ [];
}

abbrev peer : Role → ℕ → Option ℕ → RaftLog ℕ → Raft ℕ
peer role term vote log = record {
  peers = 3;
  persister = record {
    raftstate = int (some term) ∷ int vote ∷ persist log;
    snapshot = log.snapshot;
  };
  me = 0;
  dead = false;
  role = role;
  current_term = term;
  voted_for = vote;
  log = log;
  next_index = 6 ∷ 4 ∷ 2 ∷ [];
  match_index = 5 ∷ 3 ∷ 5 ∷ [];
  commit_index = 3;
  last_applied = 2;
  snap_pending = false;
  election_start = 0;
  election_timeout = 0;
}

abbrev some_leader : Raft ℕ
some_leader = peer leader 2 (some 0) some_log

abbrev some_candidate : Raft ℕ
some_candidate = peer candidate 2 (some 0) some_log

abbrev some_follower : Raft ℕ
some_follower = peer follower 2 none some_log

first_for_test : first_for some_log 2 ≡ 4
unfolding first_for first_for_loop
first_for_test = refl

last_test : last some_log ≡ (5, 2)
unfolding last
last_test = refl

majority_test : get_majority_index some_leader ≡ some 5
unfolding get_majority_index sort
majority_test = refl

abbrev asks : RequestVoteArgs
asks = record { term = 3; candidate_id = 1; last_log_index = 5; last_log_term = 2 }

some_Inv : (role : Role) (term : ℕ) (vote : Option ℕ) → Inv (peer role term vote some_log)
some_Inv role term vote = record {
  saved = inl refl;
  formed = refl;
  next_slots = refl;
  match_slots = refl;
}

abbrev started : Raft ℕ
started = make 3 0 (record { raftstate = []; snapshot = [] })

abbrev asked : Raft ℕ
asked = (request_vote started asks 10 20).0

vote_once_example : ◌≡◌ {A = ℕ} 1 1
unfolding make request_vote vote become_follower is_more_up_to_date last
vote_once_example =
    vote_once {C = ℕ} {peers = 3} {me = 0} 1 1 (later (boots []) (is_asked asks 10 20 refl))
      (then' here (is_asked (record asks { candidate_id = 2 }) 30 40 refl)) refl refl refl

Step-Kept_example :
    Inv (election_tick some_follower 1) × Extends some_follower (election_tick some_follower 1)
Step-Kept_example = Step-Kept (some_Inv follower 2 none) (elects 1 refl)

make_restores_example : IsRestored some_leader (restart some_leader)
make_restores_example = make_restores some_leader (some_Inv leader 2 (some 0))

-- What the leader sends to peer 1, whose next index is 4.
abbrev sent_args : AppendEntriesArgs ℕ
sent_args = record {
  term = 2;
  leader_id = 0;
  prev_log_index = 3;
  prev_log_term = 1;
  entries = entry 2 40 ∷ entry 2 50 ∷ [];
  leader_commit = 3;
}

-- A follower that has index 3 only, and one entry of a dead leader behind it.
abbrev behind : Raft ℕ
behind = peer follower 2 none (record some_log { tail_log = mock 1 ∷ entry 1 30 ∷ entry 1 99 ∷ [] })

replication_round_example : Agrees some_leader (peer follower 2 none some_log) 3
unfolding replicate_to append_entries become_follower follow accept append_from at tail
replication_round_example =
    replication_round some_leader behind 1 10 20 some_leader
      (record (peer follower 2 none some_log) {
        election_start = 10;
        election_timeout = 250_000_020;
      })
      _ sent_args [] refl refl refl refl

append_entries_lem_example : Answers behind sent_args 10 20
append_entries_lem_example = append_entries_lem behind sent_args 10 20 refl

append_entries_cuts_example : TakesBack some_follower (record sent_args { entries = [] }) 10 20
unfolding at
append_entries_cuts_example =
    append_entries_cuts some_follower (record sent_args { entries = [] }) 10 20 refl (omega arith)
      (entry 1 30, refl, refl) (omega arith)

get_majority_index_lem_example : PicksGreatest some_leader
get_majority_index_lem_example = get_majority_index_lem some_leader (omega arith) refl

advance_commit_lem_example : Advances some_leader (record some_leader { commit_index = 5 })
unfolding advance_commit get_majority_index sort at
advance_commit_lem_example =
    advance_commit_lem some_leader (record some_leader { commit_index = 5 }) (omega arith) refl refl

advance_commit-Reaches_example : Reaches some_leader (record some_leader { commit_index = 5 }) 4
unfolding advance_commit get_majority_index sort at
advance_commit-Reaches_example =
    advance_commit-Reaches some_leader (record some_leader { commit_index = 5 }) 4 (omega arith)
      refl (omega arith) refl

request_vote_iff_example :
    ((request_vote some_follower asks 10 20).1.vote_granted ≡ true)
    ↔ ((2 ≤ 3) × ((2 < 3) ⊎ (some_follower.voted_for ≡ none)) × IsUpToDate some_follower asks)
request_vote_iff_example = request_vote_iff some_follower asks 10 20

abbrev granted : Option RequestVoteReply
granted = some (record { term = 2; vote_granted = true })

handle_vote_reply-Wins_example : Wins some_candidate 2 1 granted
unfolding handle_vote_reply context_lost become_leader
handle_vote_reply-Wins_example =
    handle_vote_reply-Wins some_candidate 2 1 granted refl refl (λ e. cc) refl

start_election_lem_example : AsksAll some_candidate 2
start_election_lem_example = start_election_lem some_candidate 2 (omega arith)

collect-Delivers_example : Delivers some_leader
collect-Delivers_example = collect-Delivers some_leader refl refl

do_snapshot_lem_example : Snapshots some_log 4 (8 ∷ [])
do_snapshot_lem_example = do_snapshot_lem some_log 4 (8 ∷ []) refl

install_snapshot_lem_example : Installs some_log 4 2 (8 ∷ [])
install_snapshot_lem_example = install_snapshot_lem some_log 4 2 (8 ∷ []) refl

append_from-tail_example : Replicates some_log behind.log 3
append_from-tail_example =
    append_from-tail some_log behind.log 3 refl (omega arith) (omega arith) (omega arith)
      (omega arith)

first_for_lem_example : FindsFirst some_log 2
first_for_lem_example = first_for_lem some_log 2 (omega arith)
