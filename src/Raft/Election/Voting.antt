-- ===== src/Raft/Election/Voting.antt =====
-- Who gets a vote, who wins, and what a candidate sends: src/raft/raft_election.go.
use mathlib.Core.List.{append-nil}
use multi_raft.Common.{
  not, map, ltb, replicate-append_cons, All-mono, drop-length, drop-set, ℕ, zero, suc, ◌+◌, ◌*◌,
  ◌≤◌, ◌<◌, ◌≡◌, refl, ap, ◌∙◌, ◌≢◌, ◌↔◌, ◌⊎◌, inl, inr, true, false, ◌&&◌, Option, none, some,
  List, [], ◌++◌, arith, leb, ◌==◌, if◌then◌else◌, Bool-cases, length, set, drop, replicate, All,
  length-set,
}
use multi_raft.Raft.Election.{
  ask_votes, RequestVoteArgs, RequestVoteReply, is_more_up_to_date, vote, request_vote,
  start_election, handle_vote_reply,
}
use multi_raft.Raft.Election.Majorities.{occurrences}
use multi_raft.Raft.Log.{size, last}
use multi_raft.Raft.Peer.{
  candidate, leader, Raft, fill, become_follower, become_leader, context_lost,
}
use multi_raft.Raft.Step.Invariant.{image}

fill-drop : (n v : ℕ) (xs : List ℕ) → n ≤ length xs → fill n v xs ≡ replicate n v ++ drop n xs
unfolding fill
fill-drop zero v xs h = refl
fill-drop (suc n) v xs h =
    fill-drop n v (set xs n v) (omega (arith, length-set {0} xs n v))
    ∙ ap (◌++◌ (replicate n v)) (drop-set xs n v (omega arith))
    ∙ replicate-append_cons n v (drop (suc n) xs)

pub fill-replicate : (n v : ℕ) (xs : List ℕ) → length xs ≡ n → fill n v xs ≡ replicate n v
fill-replicate n v xs h =
    fill-drop n v xs (omega arith)
    ∙ ap (◌++◌ (replicate n v)) (drop-length xs n (omega arith))
    ∙ append-nil (replicate n v)

module _ {C : Type 0} where
  -- The candidate's last entry is at least as new as the last entry of `rf`: a later term, or the
  -- same term and no shorter a log.
  abbrev pub IsUpToDate : Raft C → RequestVoteArgs → Type 0
  IsUpToDate rf args =
      ((last rf.log).1 < args.last_log_term)
      ⊎ ((last rf.log).1 ≡ args.last_log_term) × ((last rf.log).0 ≤ args.last_log_index)

  -- A vote is granted exactly to a candidate whose term is not behind, whose log is at least as new
  -- as the voter's, and in a term in which the voter has not voted.
  pub request_vote_iff :
      (rf : Raft C) (args : RequestVoteArgs) (now random : ℕ)
      → ((request_vote rf args now random).1.vote_granted ≡ true) ↔ (
          (rf.current_term ≤ args.term)
          × ((rf.current_term < args.term) ⊎ (rf.voted_for ≡ none))
          × IsUpToDate rf args)
  unfolding request_vote vote is_more_up_to_date become_follower
  request_vote_iff rf args now random = (λ h. ground arith, λ h. ground arith)

  -- A vote that is granted is in the voter's state for the candidate's term, and on stable storage
  -- before the reply is sent.
  pub request_vote-granted :
      (rf : Raft C) (args : RequestVoteArgs) (now random : ℕ)
      → (request_vote rf args now random).1.vote_granted ≡ true
      → let rf' = (request_vote rf args now random).0 in
        (rf'.voted_for ≡ some args.candidate_id)
        × (rf'.current_term ≡ args.term)
        × (rf'.log ≡ rf.log)
        × (rf'.persister ≡ image rf')
  unfolding request_vote vote become_follower
  request_vote-granted rf args now random h = ground arith

  -- A refusal does not touch the vote of the term, and a request from a later term clears it.
  pub request_vote-refused :
      (rf : Raft C) (args : RequestVoteArgs) (now random : ℕ)
      → (request_vote rf args now random).1.vote_granted ≡ false
      → ((request_vote rf args now random).0.voted_for
          ≡ (if ltb rf.current_term args.term then none else rf.voted_for))
        × ((request_vote rf args now random).0.log ≡ rf.log)
  unfolding request_vote vote become_follower
  request_vote-refused rf args now random h = ground arith

  -- The reply has the voter's term from before the call, and never a later one.
  pub request_vote_reply_term :
      (rf : Raft C) (args : RequestVoteArgs) (now random : ℕ)
      → ((request_vote rf args now random).1.term ≡ rf.current_term)
        × ((request_vote rf args now random).1.term
            ≤ (request_vote rf args now random).0.current_term)
  unfolding request_vote vote become_follower
  request_vote_reply_term rf args now random = ground arith

  -- The reply that wins is a vote, and not of a later term.
  abbrev pub Wins : Raft C → ℕ → ℕ → Option RequestVoteReply → Type 0
  Wins rf term votes reply =
      let (rf', votes') = handle_vote_reply rf term votes reply in
      (rf.role ≡ candidate)
      × (rf.current_term ≡ term)
      × ((granted : RequestVoteReply) × (reply ≡ some granted)
          × (granted.vote_granted ≡ true)
          × (granted.term ≤ term))
      × (rf'.current_term ≡ term)
      × (votes' ≡ votes + 1)
      × (rf.peers < 2 * votes')
      × (rf'.next_index ≡ replicate rf.peers (size rf.log))
      × (rf'.match_index ≡ replicate rf.peers 0)

  -- A peer that does not lead, and has a slot for each peer, becomes leader by a reply only in the
  -- term of the election, as its candidate, only where the reply grants the vote and is not of a later
  -- term, and only where the votes counted before and this one are a majority; it then expects nothing
  -- of its peers' logs.
  pub handle_vote_reply-Wins :
      (rf : Raft C) (term votes : ℕ) (reply : Option RequestVoteReply)
      → length rf.next_index ≡ rf.peers
      → length rf.match_index ≡ rf.peers
      → rf.role ≢ leader
      → (handle_vote_reply rf term votes reply).0.role ≡ leader
      → Wins rf term votes reply
  unfolding handle_vote_reply become_leader context_lost become_follower
  handle_vote_reply-Wins rf term votes none hn hm h win = absurd (h win)
  handle_vote_reply-Wins rf term votes (some reply) hn hm h win =
      let next = fill-replicate rf.peers (size rf.log) rf.next_index hn in
      let matched = fill-replicate rf.peers 0 rf.match_index hm in
      (
        ground arith,
        ground arith,
        (reply, refl, ground arith, ground arith),
        ground arith,
        ground arith,
        ground arith,
        ground (arith, next),
        ground (arith, matched),
      )

  ask_votes-counts :
      (rf : Raft C) (args : RequestVoteArgs) (left peer : ℕ)
      → ((ask_votes rf args left peer).0
          ≡ (if leb peer rf.me && ltb rf.me (peer + left) then 1 else 0))
        × ((ask_votes rf args left peer).0 + length (ask_votes rf args left peer).1 ≡ left)
  unfolding ask_votes
  ask_votes-counts rf args zero peer = (ground arith, omega arith)
  ask_votes-counts rf args (suc left) peer =
      ground (arith, ask_votes-counts rf args left (peer + 1))

  -- How often a loop from `peer` on asks `v`: once where it comes by, and never itself.
  ask_votes-once :
      (rf : Raft C) (args : RequestVoteArgs) (left peer v : ℕ)
      → occurrences v (map (λ m. m.0) (ask_votes rf args left peer).1)
        ≡ (if not (v == rf.me) && (leb peer v && ltb v (peer + left)) then 1 else 0)
  unfolding ask_votes occurrences
  ask_votes-once rf args zero peer v = ground arith
  ask_votes-once rf args (suc left) peer v =
      let rest = ask_votes-once rf args left (peer + 1) v in
      elim (Bool-cases (peer == rf.me)) [
        | inl same ↦ rw same (ground (arith, rest))
        | inr other ↦ rw other (ground (arith, rest))
      ]

  -- A request of an election goes to a peer from `peer` on, never to the candidate itself.
  abbrev IsAsked : Raft C → RequestVoteArgs → ℕ → ℕ × RequestVoteArgs → Type 0
  IsAsked rf args peer m = (peer ≤ m.0) × (m.0 ≢ rf.me) × (m.1 ≡ args)

  ask_votes-asks :
      (rf : Raft C) (args : RequestVoteArgs) (left peer : ℕ)
      → All (IsAsked rf args peer) (ask_votes rf args left peer).1
  unfolding ask_votes
  ask_votes-asks rf args zero peer = tt
  ask_votes-asks rf args (suc left) peer =
      let rest : All (IsAsked rf args peer) (ask_votes rf args left (peer + 1)).1 =
        All-mono (IsAsked rf args (peer + 1)) (IsAsked rf args peer) _
          (λ m h. (omega (arith, h.0), h.1, h.2)) (ask_votes-asks rf args left (peer + 1)) in
      elim (Bool-cases (peer == rf.me)) [
        | inl same ↦ rw same rest
        | inr other ↦ rw other ((omega arith, ground arith, refl), rest)
      ]

  abbrev pub AsksAll : Raft C → ℕ → Type 0
  AsksAll rf term =
      let (votes, sent) = start_election rf term in
      (context_lost rf candidate term ≡ true → (votes ≡ 0) × (sent ≡ []))
      × (context_lost rf candidate term ≡ false
          → (votes ≡ 1)
            × ((v : ℕ)
                → occurrences v (map (λ m. m.0) sent)
                  ≡ (if not (v == rf.me) && ltb v rf.peers then 1 else 0))
            × (length sent + 1 ≡ rf.peers)
            × All
                (λ (m : ℕ × RequestVoteArgs).
                  (m.0 ≢ rf.me)
                  × (m.1.term ≡ term)
                  × (m.1.candidate_id ≡ rf.me)
                  × (m.1.last_log_index ≡ (last rf.log).0)
                  × (m.1.last_log_term ≡ (last rf.log).1))
                sent)

  -- The requests of an election, where the candidate is one of the peers: its own vote is counted,
  -- each other peer is asked exactly once and nobody else is, and all requests have the candidate's
  -- number and term and the end of its log. One that is no longer candidate of that term counts no
  -- vote and asks nobody.
  pub start_election_lem : (rf : Raft C) (term : ℕ) → rf.me < rf.peers → AsksAll rf term
  unfolding start_election
  start_election_lem rf term h = (
    λ lost. ground arith,
    λ stays.
        let args : RequestVoteArgs = record {
          term = rf.current_term;
          candidate_id = rf.me;
          last_log_index = (last rf.log).0;
          last_log_term = (last rf.log).1;
        } in
        let c = ask_votes-counts rf args rf.peers 0 in
        let e : rf.current_term ≡ term = unfold context_lost in ground arith in
        (
          rw stays (ground (arith, c.0)),
          λ v. rw stays (ground (arith, ask_votes-once rf args rf.peers 0 v)),
          rw stays (ground (arith, c.0, c.1)),
          rw stays (
              All-mono (IsAsked rf args 0) _ _ (λ m a. ground (arith, a.2))
                (ask_votes-asks rf args rf.peers 0)),
        ),
  )
