-- ===== src/Raft/Group/Tests.antt =====
-- A group of src/raft at work.
use multi_raft.Common.{ℕ, ◌≡◌, refl, sym, ◌∙◌, true, [], arith, nat_key, string_key}
use multi_raft.Raft.Election.{
  RequestVoteArgs, RequestVoteReply, is_more_up_to_date, vote, request_vote, ask_votes,
  start_election, handle_vote_reply, election_tick,
}
use multi_raft.Raft.Election.Majorities.{occurrences}
use multi_raft.Raft.Group.{
  Group, new_group, act, stand, give_vote, count, acts, stands, gives_vote, counts, GroupSteps,
  stays, goes_on,
}
use multi_raft.Raft.Group.Elections.{leader_once}
use multi_raft.Raft.Log.{last}
use multi_raft.Raft.Peer.{leader, become_follower, become_leader, context_lost, make}
use multi_raft.Raft.Step.{elects}

abbrev candidate_up : Group ℕ
candidate_up =
    act (new_group 3 []) 0 (election_tick (make 3 0 (record { raftstate = []; snapshot = [] })) 1)

abbrev asking : Group ℕ
asking = stand candidate_up 0

abbrev asks : RequestVoteArgs
asks = record { term = 2; candidate_id = 0; last_log_index = 0; last_log_term = 0 }

abbrev grants : RequestVoteReply
grants = record { term = 1; vote_granted = true }

abbrev voted : Group ℕ
voted = give_vote asking 1 asks 0 0

abbrev leading : Group ℕ
leading = count voted 0 2 1 grants

abbrev voted_again : Group ℕ
voted_again = give_vote leading 2 asks 0 0

leads : ((leading.peer 0).role ≡ leader) × ((leading.peer 0).current_term ≡ 2)
unfolding act stand give_vote count handle_vote_reply become_leader context_lost election_tick make
    request_vote start_election ask_votes last vote become_follower is_more_up_to_date occurrences
leads = (refl, refl)

run : GroupSteps 3 (new_group {C = ℕ} 3 []) leading
unfolding act stand give_vote count handle_vote_reply become_leader context_lost election_tick make
    request_vote start_election ask_votes last vote become_follower is_more_up_to_date occurrences
run =
    goes_on
      (goes_on
        (goes_on (goes_on stays (acts 0 _ (elects 1 refl) tt refl))
          (stands 0 (omega arith) refl refl))
        (gives_vote 1 asks 0 0 refl refl))
      (counts 0 2 1 grants (omega arith) (λ _. refl) refl refl)

-- The vote of the last peer comes after the election is won.
run_on : GroupSteps 3 leading voted_again
unfolding act stand give_vote count handle_vote_reply become_leader context_lost election_tick make
    request_vote start_election ask_votes last vote become_follower is_more_up_to_date occurrences
run_on = goes_on stays (gives_vote 2 asks 0 0 refl refl)

still_leads : ((voted_again.peer 0).role ≡ leader) × ((voted_again.peer 0).current_term ≡ 2)
unfolding act stand give_vote count handle_vote_reply become_leader context_lost election_tick make
    request_vote start_election ask_votes last vote become_follower is_more_up_to_date occurrences
still_leads = (refl, refl)

leader_once_example : ◌≡◌ {A = ℕ} 0 0
leader_once_example =
    leader_once [] 0 0 run run_on leads.0 still_leads.0 (leads.1 ∙ sym still_leads.1)
