-- ===== src/Raft/Group/Counting.antt =====
-- The counted replies of an election in a group: `askVoteFromPeer` in src/raft/raft_election.go.
use mathlib.Core.Path.{subst}
use multi_raft.Common.{
  ℕ, ◌+◌, ◌*◌, ◌≤◌, ◌<◌, ◌≡◌, sym, ◌∙◌, ◌⊎◌, inl, inr, true, some, ◌∷◌, arith, nat_key, string_key,
  ltb, if◌then◌else◌, if_cases, length,
}
use multi_raft.Raft.Election.{RequestVoteReply, handle_vote_reply}
use multi_raft.Raft.Election.Majorities.{occurrences, once-cons, occurs-cons}
use multi_raft.Raft.Group.{count_at, Group, count}
use multi_raft.Raft.Group.Fairness.{IsMember, IsElected, IsFair}
use multi_raft.Raft.Group.Votes.{put_at-elim, count_at-elim, IsCounted, Remembers}
use multi_raft.Raft.Peer.{leader, Raft, become_follower, become_leader, context_lost}
use multi_raft.Raft.Step.{Step, gets_vote}
use multi_raft.Raft.Step.Leading.{IsStanding}
use multi_raft.Raft.Step.Safety.{Step-Kept}

module _ {C : Type 0} where
  count-granted :
      (rf : Raft C) (term votes : ℕ) (reply : RequestVoteReply)
      → ltb votes (handle_vote_reply rf term votes (some reply)).1 ≡ true
      → reply.vote_granted ≡ true
  unfolding handle_vote_reply
  count-granted rf term votes reply h = ground arith

  count-IsStanding :
      (rf : Raft C) (term votes : ℕ) (reply : RequestVoteReply)
      → IsStanding rf
      → IsStanding (handle_vote_reply rf term votes (some reply)).0
  unfolding handle_vote_reply become_leader become_follower
  count-IsStanding rf term votes reply standing c = ground arith

  abbrev Won : Raft C → ℕ → ℕ → Raft C × ℕ → Type 0
  Won rf term votes (rf', votes') =
      (rf.role ≡ leader) × (rf'.current_term ≡ rf.current_term)
      ⊎ (rf'.current_term ≡ term) × (votes' ≡ votes + 1) × (rf.peers < 2 * votes')

  count-Won :
      (rf : Raft C) (term votes : ℕ) (reply : RequestVoteReply)
      → (handle_vote_reply rf term votes (some reply)).0.role ≡ leader
      → Won rf term votes (handle_vote_reply rf term votes (some reply))
  unfolding handle_vote_reply become_leader become_follower context_lost
  count-Won rf term votes reply l = ground arith

  pub count-IsFair :
      (n : ℕ) (g : Group C) (i term v : ℕ) (reply : RequestVoteReply)
      → v < n
      → (reply.vote_granted ≡ true → g.cast v term i ≡ true)
      → occurrences v (g.tally i term) ≡ 0
      → IsFair n g
      → IsFair n (count g i term v reply)
  unfolding count
  count-IsFair n g i term v reply below given new f =
      let xs = g.tally i term in
      let (rf', votes) = handle_vote_reply (g.peer i) term (length xs) (some reply) in
      let st : Step (g.peer i) rf' = gets_vote term (length xs) (some reply) (λ _. rf') in
      let (v₀, standing, me, peers) = f.members i in
      let (v', x) = Step-Kept v₀ st in
      let ys = if ltb (length xs) votes then v ∷ xs else xs in
      let grows =
        count_at-elim (λ c t zs. length (g.tally c t) ≤ length zs) i term ys g.tally (ground arith)
          (λ c t. omega arith) in
      record {
        members =
            put_at-elim (IsMember n) g.peer i rf'
              (
                v',
                count-IsStanding (g.peer i) term (length xs) reply standing,
                x.same_me ∙ me,
                x.same_peers ∙ peers,
              )
              (λ j _. f.members j);
        remembered =
            put_at-elim (Remembers g.cast) g.peer i rf'
              (λ t c h. ground (arith, f.remembered i t c h, x.grows, x.vote_stands c))
              (λ j _. f.remembered j);
        single = f.single;
        counted =
            count_at-elim (IsCounted n g.cast) i term ys g.tally
              (if_cases (IsCounted n g.cast i term) (ltb (length xs) votes) _ _
                (λ more.
                  occurs-cons (λ w. (w < n) × (g.cast w term i ≡ true)) v xs
                    (below, given (count-granted (g.peer i) term (length xs) reply more))
                    (f.counted i term))
                (λ _. f.counted i term))
              f.counted;
        once =
            count_at-elim (λ c t zs. (w : ℕ) → occurrences w zs ≤ 1) i term ys g.tally
              (if_cases (λ zs. (w : ℕ) → occurrences w zs ≤ 1) (ltb (length xs) votes) _ _
                (λ _. once-cons v xs new (f.once i term)) (λ _. f.once i term))
              f.once;
        elected =
            put_at-elim (IsElected n (count_at i term ys g.tally)) g.peer i rf'
              (λ l. elim (count-Won (g.peer i) term (length xs) reply l) [
                | inl (led, same) ↦
                    let before =
                      subst (λ t. n < 2 * length (g.tally i t)) (sym same) (f.elected i led) in
                    omega (arith, before, grows i rf'.current_term)
                | inr (at_term, more, wins) ↦
                    subst (λ t. n < 2 * length (count_at i term ys g.tally i t)) (sym at_term)
                      (unfold count_at in ground arith)
              ])
              (λ j _ l. omega (arith, f.elected j l, grows j (g.peer j).current_term));
      }
