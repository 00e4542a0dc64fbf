-- ===== src/Raft/Step/Invariant.antt =====
-- What every state of a peer satisfies, and how a state relates to its successors.
use multi_raft.Common.{
  ℕ, zero, suc, ◌≤◌, ◌≡◌, refl, ◌∙◌, ◌⊎◌, inl, inr, none, some, List, [], ◌∷◌, arith, Bool-cases,
  length, set, length-set,
}
use multi_raft.Raft.Log.{RaftLog, mock, size, IsWellFormed}
use multi_raft.Raft.Log.Replication.{append_lem}
use multi_raft.Raft.Peer.{
  leader, same_role, int, Persister, Raft, fill, persist, persist_locked, become_follower,
  become_candidate, become_leader, start,
}

length-fill : (n v : ℕ) (xs : List ℕ) → length (fill n v xs) ≡ length xs
unfolding fill
length-fill zero v xs = refl
length-fill (suc n) v xs = omega (arith, length-fill n v (set xs n v), length-set {0} xs n v)

module _ {C : Type 0} where
  -- What `persistLocked` would save now.
  abbrev pub image : Raft C → Persister C
  image rf = record {
    raftstate = int (some rf.current_term) ∷ int rf.voted_for ∷ persist rf.log;
    snapshot = rf.log.snapshot;
  }

  -- A peer that has saved nothing yet.
  pub record IsFresh (rf : Raft C) : Type 0 where
    pub nothing : rf.persister.raftstate ≡ []
    pub first_term : rf.current_term ≡ 1
    pub no_vote : rf.voted_for ≡ none
    pub base : rf.log.snap_last_idx ≡ 0
    pub base_term : rf.log.snap_last_term ≡ 0
    pub no_snapshot : rf.log.snapshot ≡ []
    pub no_entries : rf.log.tail_log ≡ mock 0 ∷ []

  abbrev pub IsSaved : Raft C → Type 0
  IsSaved rf = (rf.persister ≡ image rf) ⊎ IsFresh rf

  -- Stable storage is up to date, the log has its mock entry, and the leader's views have a slot
  -- for each peer.
  pub record Inv (rf : Raft C) : Type 0 where
    pub saved : IsSaved rf
    pub formed : IsWellFormed rf.log
    pub next_slots : length rf.next_index ≡ rf.peers
    pub match_slots : length rf.match_index ≡ rf.peers

  -- The term never falls, and a vote that is given stands as long as the term does.
  pub record Extends (rf rf' : Raft C) : Type 0 where
    pub same_peers : rf'.peers ≡ rf.peers
    pub same_me : rf'.me ≡ rf.me
    pub grows : rf.current_term ≤ rf'.current_term
    pub vote_stands :
        (c : ℕ)
        → rf'.current_term ≡ rf.current_term
        → rf.voted_for ≡ some c
        → rf'.voted_for ≡ some c

  abbrev pub Kept : Raft C → Raft C → Type 0
  Kept rf rf' = Inv rf' × Extends rf rf'

  pub Kept-self : {rf : Raft C} → Inv rf → Kept rf rf
  Kept-self v = (
    v,
    record { same_peers = refl; same_me = refl; grows = omega arith; vote_stands = λ c e h. h },
  )

  pub Kept-trans : {rf rf' rf'' : Raft C} → Kept rf rf' → (Inv rf' → Kept rf' rf'') → Kept rf rf''
  Kept-trans {rf} {rf'} {rf''} (v, x) k =
      let (w, y) = k v in
      (
        w,
        record {
          same_peers = y.same_peers ∙ x.same_peers;
          same_me = y.same_me ∙ x.same_me;
          grows = omega (arith, x.grows, y.grows);
          vote_stands = λ c e h.
              y.vote_stands c (omega (arith, x.grows, y.grows))
                (x.vote_stands c (omega (arith, x.grows, y.grows)) h);
        },
      )

  -- A new log, saved at once.
  pub persist_log-Kept :
      (rf : Raft C) (log : RaftLog C)
      → Inv rf
      → IsWellFormed log
      → Kept rf (persist_locked (record rf { log = log }))
  unfolding persist_locked
  persist_log-Kept rf log v w = (
    record { saved = inl refl; formed = w; next_slots = v.next_slots; match_slots = v.match_slots },
    record { same_peers = refl; same_me = refl; grows = omega arith; vote_stands = λ c e h. h },
  )

  pub become_follower-Kept : (rf : Raft C) (term : ℕ) → Inv rf → Kept rf (become_follower rf term)
  unfolding become_follower persist_locked
  become_follower-Kept rf term v = ground arith

  pub become_candidate-Kept : (rf : Raft C) → Inv rf → Kept rf (become_candidate rf)
  unfolding become_candidate
  become_candidate-Kept rf v = ground arith

  pub start-Kept : (rf : Raft C) (command : C) → Inv rf → Kept rf (start rf command).0
  unfolding start
  start-Kept rf command v = elim (Bool-cases (same_role rf.role leader)) [
    | inl yes' ↦ rw (yes', start) (persist_log-Kept rf _ v (append_lem rf.log _ v.formed).3)
    | inr no' ↦ rw (no', start) (Kept-self v)
  ]

  pub become_leader-Kept : (rf : Raft C) → Inv rf → Kept rf (become_leader rf)
  unfolding become_leader
  become_leader-Kept rf v = ground (
    arith,
    length-fill rf.peers (size rf.log) rf.next_index,
    length-fill rf.peers 0 rf.match_index,
  )
