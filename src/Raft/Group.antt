-- ===== src/Raft/Group.antt =====
-- The peers of one group of src/raft together: every peer by its number, and what
-- src/raft/raft_election.go sends between them, the requests for votes and the counted replies.
pub mod Votes
pub mod Fairness
pub mod Counting
pub mod Elections
mod Tests
use multi_raft.Common.{
  ℕ, ◌<◌, ◌≡◌, Bool, true, false, ◌&&◌, ◌||◌, some, List, [], ◌∷◌, ltb, ◌==◌, if◌then◌else◌, length,
}
use multi_raft.Raft.Election.{
  RequestVoteArgs, RequestVoteReply, request_vote, start_election, handle_vote_reply,
}
use multi_raft.Raft.Election.Majorities.{occurrences}
use multi_raft.Raft.Log.{Bytes}
use multi_raft.Raft.Peer.{Raft, make}
use multi_raft.Raft.Step.{Step}
use multi_raft.Raft.Step.Quiet.{IsOwn}

unfoldable pub put_at : {A : Type 0} → (ℕ → A) → ℕ → A → ℕ → A
put_at f i x j = if j == i then x else f j

unfoldable pub is_cast : ℕ → ℕ → ℕ → (ℕ → ℕ → ℕ → Bool) → ℕ → ℕ → ℕ → Bool
is_cast v term c cast v' term' c' = (v' == v && (term' == term && c' == c)) || cast v' term' c'

unfoldable pub count_at : ℕ → ℕ → List ℕ → (ℕ → ℕ → List ℕ) → ℕ → ℕ → List ℕ
count_at c term voters tally c' term' = if c' == c && term' == term then voters else tally c' term'

-- `cast v term c`: `v` has given `c` its vote of `term`. `tally c term`: the votes that the election
-- of `c` has counted; its length is the variable `votes` of `startElection`.
pub record Group (C : Type 0) : Type 0 where
  pub peer : ℕ → Raft C
  pub cast : ℕ → ℕ → ℕ → Bool
  pub tally : ℕ → ℕ → List ℕ

module _ {C : Type 0} where
  -- A group of `n` peers that start with empty storage.
  abbrev pub new_group : ℕ → Bytes → Group C
  new_group n snapshot = record {
    peer = λ i. make n i (record { raftstate = []; snapshot = snapshot });
    cast = λ _ _ _. false;
    tally = λ _ _. [];
  }

  -- Peer `i` goes to the state `rf`.
  unfoldable pub act : Group C → ℕ → Raft C → Group C
  unfolding put_at
  act g i rf = record g { peer = put_at g.peer i rf }

  -- `startElection` of peer `i`: its own vote is the first.
  unfoldable pub stand : Group C → ℕ → Group C
  unfolding is_cast count_at
  stand g i =
      let term = (g.peer i).current_term in
      record g { cast = is_cast i term i g.cast; tally = count_at i term (i ∷ []) g.tally }

  -- `RequestVote` at `v`, where the vote is granted.
  unfoldable pub give_vote : Group C → ℕ → RequestVoteArgs → ℕ → ℕ → Group C
  unfolding put_at is_cast
  give_vote g v args now random = record g {
    peer = put_at g.peer v (request_vote (g.peer v) args now random).0;
    cast = is_cast v args.term args.candidate_id g.cast;
  }

  -- The reply of `v` to candidate `i` in its election of `term`.
  unfoldable pub count : Group C → ℕ → ℕ → ℕ → RequestVoteReply → Group C
  unfolding put_at count_at
  count g i term v reply =
      let votes = length (g.tally i term) in
      let (rf, votes') = handle_vote_reply (g.peer i) term votes (some reply) in
      record g {
        peer = put_at g.peer i rf;
        tally =
            count_at i term (if ltb votes votes' then v ∷ g.tally i term else g.tally i term)
              g.tally;
      }

  -- A step of the group. `acts` is any step of one peer that counts no vote; requests and replies
  -- may be late, lost or delivered again, but a vote is counted only where it was given, and once. A
  -- vote that `acts` gives is one whose reply never arrives.
  pub data GroupStep (n : ℕ) (g g' : Group C) : Type 0 where
    acts :
        (i : ℕ) (rf : Raft C) (st : Step (g.peer i) rf)
        → IsOwn st
        → act g i rf ≡ g'
        → GroupStep n g g'
    stands :
        (i : ℕ)
        → i < n
        → (start_election (g.peer i) (g.peer i).current_term).0 ≡ 1
        → stand g i ≡ g'
        → GroupStep n g g'
    gives_vote :
        (v : ℕ) (args : RequestVoteArgs) (now random : ℕ)
        → (request_vote (g.peer v) args now random).1.vote_granted ≡ true
        → give_vote g v args now random ≡ g'
        → GroupStep n g g'
    counts :
        (i term v : ℕ) (reply : RequestVoteReply)
        → v < n
        → (reply.vote_granted ≡ true → g.cast v term i ≡ true)
        → occurrences v (g.tally i term) ≡ 0
        → count g i term v reply ≡ g'
        → GroupStep n g g'

  pub data GroupSteps (n : ℕ) (g : Group C) : Group C → Type 0 where
    stays : GroupSteps n g g
    goes_on : {g' g'' : Group C} → GroupSteps n g g' → GroupStep n g' g'' → GroupSteps n g g''
