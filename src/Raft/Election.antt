-- ===== src/Raft/Election.antt =====
-- src/raft/raft_election.go. The clock and the random numbers are arguments, in nanoseconds.
pub mod Voting
pub mod Majorities
use multi_raft.Common.{
  some, ℕ, zero, suc, ◌+◌, ◌-◌, ◌/◌, ◌%◌, Bool, true, false, not, ◌&&◌, ◌||◌, Option, none, List,
  [], ◌∷◌, ltb, ◌==◌, if◌then◌else◌,
}
use multi_raft.Raft.Log.{last}
use multi_raft.Raft.Peer.{
  candidate, leader, same_role, Raft, election_timeout_min, election_timeout_max, persist_locked,
  become_follower, become_candidate, become_leader, context_lost,
}

pub record RequestVoteArgs : Type 0 where
  pub term : ℕ
  pub candidate_id : ℕ
  pub last_log_index : ℕ
  pub last_log_term : ℕ

pub record RequestVoteReply : Type 0 where
  pub term : ℕ
  pub vote_granted : Bool

module _ {C : Type 0} where
  unfoldable pub reset_election_timer : Raft C → ℕ → ℕ → Raft C
  reset_election_timer rf now random = record rf {
    election_start = now;
    election_timeout =
        election_timeout_min + random % (election_timeout_max - election_timeout_min);
  }

  -- `time.Since(rf.electionStart) > rf.electionTimeout`
  unfoldable pub is_election_timeout : Raft C → ℕ → Bool
  is_election_timeout rf now = ltb (rf.election_start + rf.election_timeout) now

  -- Whether this peer's last entry is newer than the candidate's.
  unfoldable pub is_more_up_to_date : Raft C → ℕ → ℕ → Bool
  unfolding last
  is_more_up_to_date rf candidate_index candidate_term =
      let (last_index, last_term) = last rf.log in
      if not (last_term == candidate_term)
      then ltb candidate_term last_term
      else ltb candidate_index last_index

  -- The rest of `RequestVote`, once the terms are aligned; `term` is the one to reply with.
  unfoldable pub vote : Raft C → ℕ → RequestVoteArgs → ℕ → ℕ → Raft C × RequestVoteReply
  unfolding is_more_up_to_date persist_locked reset_election_timer
  vote rf term args now random = elim rf.voted_for [
    | some _ ↦ (rf, record { term = term; vote_granted = false })
    | none ↦
        (if is_more_up_to_date rf args.last_log_index args.last_log_term
          then (rf, record { term = term; vote_granted = false })
          else (
            reset_election_timer (persist_locked (record rf { voted_for = some args.candidate_id }))
                now random,
            record { term = term; vote_granted = true },
          ))
  ]

  -- The reply carries the term from before the call.
  unfoldable pub request_vote : Raft C → RequestVoteArgs → ℕ → ℕ → Raft C × RequestVoteReply
  request_vote rf args now random =
      if ltb args.term rf.current_term
      then (rf, record { term = rf.current_term; vote_granted = false })
      else vote (if ltb rf.current_term args.term then become_follower rf args.term else rf)
          rf.current_term args now random

  -- The loop of `startElection` over the peers from `peer` on, `left` of them: the votes counted,
  -- and the requests sent.
  unfoldable pub ask_votes : Raft C → RequestVoteArgs → ℕ → ℕ → ℕ × List (ℕ × RequestVoteArgs)
  ask_votes rf args zero peer = (0, [])
  ask_votes rf args (suc left) peer =
      let (votes, sent) = ask_votes rf args left (peer + 1) in
      if peer == rf.me then (votes + 1, sent) else (votes, (peer, args) ∷ sent)

  -- `startElection`: nothing is sent where the peer is no longer the candidate of `term`.
  unfoldable pub start_election : Raft C → ℕ → ℕ × List (ℕ × RequestVoteArgs)
  start_election rf term =
      let (last_idx, last_term) = last rf.log in
      let args : RequestVoteArgs = record {
        term = rf.current_term;
        candidate_id = rf.me;
        last_log_index = last_idx;
        last_log_term = last_term;
      } in
      if context_lost rf candidate term then (0, []) else ask_votes rf args rf.peers 0

  -- `askVoteFromPeer`, from the reply on; `votes` is the counter of the election of `term`, and no
  -- reply is a lost request.
  unfoldable pub handle_vote_reply : Raft C → ℕ → ℕ → Option RequestVoteReply → Raft C × ℕ
  handle_vote_reply rf term votes none = (rf, votes)
  handle_vote_reply rf term votes (some reply) =
      if ltb rf.current_term reply.term
      then (become_follower rf reply.term, votes)
      else if context_lost rf candidate term || not reply.vote_granted
      then (rf, votes)
      else if ltb (rf.peers / 2) (votes + 1)
      then (become_leader rf, votes + 1)
      else (rf, votes + 1)

  -- One round of `electionTicker`.
  unfoldable pub election_tick : Raft C → ℕ → Raft C
  unfolding same_role is_election_timeout become_candidate
  election_tick rf now =
      if not rf.dead && (not (same_role rf.role leader) && is_election_timeout rf now)
      then become_candidate rf
      else rf
