-- ===== src/Raft/Group/Elections.antt =====
-- A term has at most one leader in a group: src/raft/raft_election.go.
use mathlib.Core.Path.{subst}
use multi_raft.Common.{ℕ, ◌*◌, ◌<◌, ◌≡◌, sym, true, nat_key, string_key, length}
use multi_raft.Raft.Election.Majorities.{majorities_meet}
use multi_raft.Raft.Group.{
  Group, new_group, act, stand, give_vote, count, GroupStep, acts, stands, gives_vote, counts,
  GroupSteps, stays, goes_on,
}
use multi_raft.Raft.Group.Counting.{count-IsFair}
use multi_raft.Raft.Group.Fairness.{
  IsFair, new_group-IsFair, act-IsFair, stand-IsFair, give_vote-IsFair,
}
use multi_raft.Raft.Group.Votes.{is_cast-old}
use multi_raft.Raft.Log.{Bytes}
use multi_raft.Raft.Peer.{leader}

module _ {C : Type 0} where
  GroupStep-IsFair : {n : ℕ} {g g' : Group C} → GroupStep n g g' → IsFair n g → IsFair n g'
  GroupStep-IsFair {n} {g} (acts i rf st own e) f =
      subst (IsFair n) e (act-IsFair n g i rf st own f)
  GroupStep-IsFair {n} {g} (stands i h asks e) f = subst (IsFair n) e (stand-IsFair n g i h asks f)
  GroupStep-IsFair {n} {g} (gives_vote v args now random h e) f =
      subst (IsFair n) e (give_vote-IsFair n g v args now random h f)
  GroupStep-IsFair {n} {g} (counts i term v reply below given new e) f =
      subst (IsFair n) e (count-IsFair n g i term v reply below given new f)

  GroupSteps-IsFair : {n : ℕ} {g g' : Group C} → GroupSteps n g g' → IsFair n g → IsFair n g'
  GroupSteps-IsFair stays f = f
  GroupSteps-IsFair (goes_on r st) f = GroupStep-IsFair st (GroupSteps-IsFair r f)

  -- A vote stays given.
  GroupStep-cast :
      {n : ℕ} {g g' : Group C}
      → GroupStep n g g'
      → (v t c : ℕ) → g.cast v t c ≡ true
      → g'.cast v t c ≡ true
  unfolding act stand give_vote count
  GroupStep-cast {n} {g} (acts i rf st own e) v t c h =
      subst (λ (s : Group C). s.cast v t c ≡ true) e h
  GroupStep-cast {n} {g} (stands i _ asks e) v t c h =
      subst (λ (s : Group C). s.cast v t c ≡ true) e
        (is_cast-old i (g.peer i).current_term i g.cast v t c h)
  GroupStep-cast {n} {g} (gives_vote w args now random _ e) v t c h =
      subst (λ (s : Group C). s.cast v t c ≡ true) e
        (is_cast-old w args.term args.candidate_id g.cast v t c h)
  GroupStep-cast {n} {g} (counts i term w reply below given new e) v t c h =
      subst (λ (s : Group C). s.cast v t c ≡ true) e h

  GroupSteps-cast :
      {n : ℕ} {g g' : Group C}
      → GroupSteps n g g'
      → (v t c : ℕ) → g.cast v t c ≡ true
      → g'.cast v t c ≡ true
  GroupSteps-cast stays v t c h = h
  GroupSteps-cast (goes_on r st) v t c h = GroupStep-cast st v t c (GroupSteps-cast r v t c h)

  -- Election safety: a term has at most one leader. In two states of one run of a group, whatever
  -- is sent, lost, delayed, delivered again or crashes before and between them, two peers that lead
  -- in the same term are the same peer.
  pub leader_once :
      {n : ℕ} {g g' : Group C} (snapshot : Bytes) (i j : ℕ)
      → GroupSteps n (new_group n snapshot) g
      → GroupSteps n g g'
      → (g.peer i).role ≡ leader
      → (g'.peer j).role ≡ leader
      → (g.peer i).current_term ≡ (g'.peer j).current_term
      → i ≡ j
  leader_once {n} {g} {g'} snapshot i j before between li lj same =
      let t = (g.peer i).current_term in
      let f = GroupSteps-IsFair before (new_group-IsFair n snapshot) in
      let f' = GroupSteps-IsFair between f in
      let most : n < 2 * length (g'.tally j t) =
        subst (λ u. n < 2 * length (g'.tally j u)) (sym same) (f'.elected j lj) in
      let (v, for_i, for_j) =
        majorities_meet n (g.tally i t) (g'.tally j t) (λ v o. (f.counted i t v o).0)
          (λ v o. (f'.counted j t v o).0) (f.once i t) (f'.once j t) (f.elected i li) most in
      f'.single v t i j (GroupSteps-cast between v t i (f.counted i t v for_i).1)
        (f'.counted j t v for_j).1
