-- ===== src/Raft/Group/Fairness.antt =====
-- What every state of a group of peers of src/raft satisfies, and that votes keep it:
-- src/raft/raft_election.go.
use mathlib.Core.Path.{subst}
use multi_raft.Common.{
  ℕ, ◌*◌, ◌≤◌, ◌<◌, ◌≡◌, sym, ◌∙◌, ◌⊎◌, inl, inr, true, some, List, [], ◌∷◌, arith, nat_key,
  string_key, ◌==◌, Bool-cases, length,
}
use multi_raft.Raft.Election.{RequestVoteArgs, request_vote, start_election}
use multi_raft.Raft.Election.Majorities.{occurrences}
use multi_raft.Raft.Election.Voting.{request_vote_iff, request_vote-granted}
use multi_raft.Raft.Group.{is_cast, count_at, Group, new_group, act, stand, give_vote}
use multi_raft.Raft.Group.Votes.{
  put_at-elim, is_cast_cases, is_cast-old, is_cast-new, count_at-elim, IsCounted, Remembers,
  new_vote-single,
}
use multi_raft.Raft.Log.{Bytes}
use multi_raft.Raft.Peer.{candidate, leader, Raft, context_lost, make}
use multi_raft.Raft.Step.{Step, is_asked}
use multi_raft.Raft.Step.Invariant.{Inv}
use multi_raft.Raft.Step.Leading.{IsStanding}
use multi_raft.Raft.Step.Quiet.{IsOwn, Step-IsQuiet}
use multi_raft.Raft.Step.Safety.{boot-Inv, Step-Kept}

module _ {C : Type 0} where
  -- What holds of one peer of a group of `n`.
  abbrev pub IsMember : ℕ → ℕ → Raft C → Type 0
  IsMember n i rf = Inv rf × IsStanding rf × (rf.me ≡ i) × (rf.peers ≡ n)

  abbrev pub IsElected : ℕ → (ℕ → ℕ → List ℕ) → ℕ → Raft C → Type 0
  IsElected n tally i rf = rf.role ≡ leader → n < 2 * length (tally i rf.current_term)

  pub record IsFair (n : ℕ) (g : Group C) : Type 0 where
    pub members : (i : ℕ) → IsMember n i (g.peer i)
    pub remembered : (v : ℕ) → Remembers g.cast v (g.peer v)
    pub single : (v t c c' : ℕ) → g.cast v t c ≡ true → g.cast v t c' ≡ true → c ≡ c'
    pub counted : (c t : ℕ) → IsCounted n g.cast c t (g.tally c t)
    pub once : (c t v : ℕ) → occurrences v (g.tally c t) ≤ 1
    pub elected : (i : ℕ) → IsElected n g.tally i (g.peer i)

  pub new_group-IsFair : (n : ℕ) (snapshot : Bytes) → IsFair n (new_group {C = C} n snapshot)
  unfolding make occurrences
  new_group-IsFair n snapshot = record {
    members = λ i. (boot-Inv n i snapshot, λ c. ground arith, ground arith, ground arith);
    remembered = λ v t c h. absurd (ground arith);
    single = λ v t c c' h h'. absurd (ground arith);
    counted = λ c t v h. absurd (ground arith);
    once = λ c t v. ground arith;
    elected = λ i l. absurd (ground arith);
  }

  pub act-IsFair :
      (n : ℕ) (g : Group C) (i : ℕ) (rf : Raft C) (st : Step (g.peer i) rf)
      → IsOwn st
      → IsFair n g
      → IsFair n (act g i rf)
  unfolding act
  act-IsFair n g i rf st own f =
      let (v, standing, me, peers) = f.members i in
      let (v', x) = Step-Kept v st in
      let q = Step-IsQuiet st v own in
      record {
        members =
            put_at-elim (IsMember n) g.peer i rf
              (v', q.1 standing, x.same_me ∙ me, x.same_peers ∙ peers) (λ j _. f.members j);
        remembered =
            put_at-elim (Remembers g.cast) g.peer i rf
              (λ t c h. ground (arith, f.remembered i t c h, x.grows, x.vote_stands c))
              (λ j _. f.remembered j);
        single = f.single;
        counted = f.counted;
        once = f.once;
        elected =
            put_at-elim (IsElected n g.tally) g.peer i rf
              (λ l. rw (q.0 l).1 (f.elected i (q.0 l).0)) (λ j _. f.elected j);
      }

  pub stand-IsFair :
      (n : ℕ) (g : Group C) (i : ℕ)
      → i < n
      → (start_election (g.peer i) (g.peer i).current_term).0 ≡ 1
      → IsFair n g
      → IsFair n (stand g i)
  unfolding stand occurrences
  stand-IsFair n g i h asks f =
      let (v, standing, me, peers) = f.members i in
      let role : (g.peer i).role ≡ candidate = unfold start_election context_lost in ground arith in
      let term = (g.peer i).current_term in
      record {
        members = f.members;
        remembered = λ v t c h. elim (is_cast_cases i (g.peer i).current_term i g.cast v t c h) [
          | inl (ev, et, ec) ↦
              subst
                (λ w.
                  (t < (g.peer w).current_term)
                  ⊎ (t ≡ (g.peer w).current_term) × ((g.peer w).voted_for ≡ some c))
                (sym ev) (ground (arith, standing role))
          | inr old ↦ f.remembered v t c old
        ];
        single =
            new_vote-single g.cast (g.peer i) i (g.peer i).current_term i (f.remembered i) f.single
              (ground (arith, standing role));
        counted =
            count_at-elim (IsCounted n (is_cast i term i g.cast)) i term (i ∷ []) g.tally
              (λ v o.
                let e : i ≡ v = ground arith in
                subst (λ w. (w < n) × (is_cast i term i g.cast w term i ≡ true)) e
                  (h, is_cast-new i term i g.cast))
              (λ c t v o.
                let (below, given) = f.counted c t v o in
                (below, is_cast-old i term i g.cast v t c given));
        once =
            count_at-elim (λ c t xs. (v : ℕ) → occurrences v xs ≤ 1) i term (i ∷ []) g.tally
              (λ v. ground arith) f.once;
        elected = λ j l. elim (Bool-cases (j == i)) [
          | inl same ↦
              let e : j ≡ i = ground arith in
              absurd (ground (arith, subst (λ k. (g.peer k).role ≡ leader) e l))
          | inr other ↦ unfold count_at in rw other (f.elected j l)
        ];
      }

  pub give_vote-IsFair :
      (n : ℕ) (g : Group C) (v : ℕ) (args : RequestVoteArgs) (now random : ℕ)
      → (request_vote (g.peer v) args now random).1.vote_granted ≡ true
      → IsFair n g
      → IsFair n (give_vote g v args now random)
  unfolding give_vote act
  give_vote-IsFair n g v args now random h f =
      let rf' = (request_vote (g.peer v) args now random).0 in
      let st : Step (g.peer v) rf' = is_asked args now random (λ _. rf') in
      let (_, x) = Step-Kept (f.members v).0 st in
      let fair = act-IsFair n g v rf' st tt f in
      record {
        members = fair.members;
        remembered =
            put_at-elim (Remembers (is_cast v args.term args.candidate_id g.cast)) g.peer v rf'
              (λ t c told. elim (is_cast_cases v args.term args.candidate_id g.cast v t c told) [
                | inl (_, et, ec) ↦
                    ground (arith, request_vote-granted (g.peer v) args now random h)
                | inr old ↦ ground (arith, f.remembered v t c old, x.grows, x.vote_stands c)
              ])
              (λ j other t c told.
                elim (is_cast_cases v args.term args.candidate_id g.cast j t c told) [
                  | inl (same, _, _) ↦ absurd (other same)
                  | inr old ↦ f.remembered j t c old
                ]);
        single =
            new_vote-single g.cast (g.peer v) v args.term args.candidate_id (f.remembered v)
              f.single (ground (arith, (request_vote_iff (g.peer v) args now random).0 h));
        counted = λ c t w o.
            let (below, given) = f.counted c t w o in
            (below, is_cast-old v args.term args.candidate_id g.cast w t c given);
        once = f.once;
        elected = fair.elected;
      }
