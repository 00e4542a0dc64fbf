-- ===== src/Raft/Peer.antt =====
-- src/raft/raft.go, src/raft/persister.go and src/raft/raft_persistence.go: the state of a peer,
-- its changes of role, and what it saves and reads back. A method that holds `rf.mu` is a function
-- of the state; logging is left out. `applyCond` only wakes the apply loop, which may run at any
-- time in the model.
use multi_raft.Common.{
  ℕ, zero, suc, ◌+◌, ◌-◌, Bool, true, false, not, ◌&&◌, Option, none, some, List, [], ◌∷◌, ltb,
  ◌==◌, if◌then◌else◌, set, replicate,
}
use multi_raft.Raft.Log.{
  invalid_term, invalid_index, LogEntry, Bytes, RaftLog, new_log, size, append,
}

pub data Role : Type 0 where
  follower candidate leader : Role

unfoldable pub same_role : Role → Role → Bool
same_role follower follower = true
same_role candidate candidate = true
same_role leader leader = true
same_role _ _ = false

-- What a gob stream holds, value by value. `none` is -1, the only negative number written.
pub data Item (C : Type 0) : Type 0 where
  int : Option ℕ → Item C
  entries : List (LogEntry C) → Item C

pub record Persister (C : Type 0) : Type 0 where
  pub raftstate : List (Item C)
  pub snapshot : Bytes

-- `peers` is `len(rf.peers)`, `voted_for` is `none` for -1; times are in nanoseconds.
pub record Raft (C : Type 0) : Type 0 where
  pub peers : ℕ
  pub persister : Persister C
  pub me : ℕ
  pub dead : Bool
  pub role : Role
  pub current_term : ℕ
  pub voted_for : Option ℕ
  pub log : RaftLog C
  pub next_index : List ℕ
  pub match_index : List ℕ
  pub commit_index : ℕ
  pub last_applied : ℕ
  pub snap_pending : Bool
  pub election_start : ℕ
  pub election_timeout : ℕ

abbrev pub election_timeout_min : ℕ
election_timeout_min = 250_000_000

abbrev pub election_timeout_max : ℕ
election_timeout_max = 400_000_000

-- The loop of `becomeLeaderLocked`: `xs[peer] = v` for every peer below `n`.
unfoldable pub fill : ℕ → ℕ → List ℕ → List ℕ
fill zero v xs = xs
fill (suc peer) v xs = fill peer v (set xs peer v)

module _ {C : Type 0} where
  -- `Save`: both slices are copied.
  abbrev pub save : Persister C → List (Item C) → Bytes → Persister C
  save ps state snapshot = record { raftstate = state; snapshot = snapshot }

  -- `RaftLog.persist`
  abbrev pub persist : RaftLog C → List (Item C)
  persist rl = int (some rl.snap_last_idx) ∷ int (some rl.snap_last_term) ∷ entries rl.tail_log ∷ []

  unfoldable pub persist_locked : Raft C → Raft C
  persist_locked rf = record rf {
    persister =
        save rf.persister (int (some rf.current_term) ∷ int rf.voted_for ∷ persist rf.log)
          rf.log.snapshot;
  }

  unfoldable pub become_follower : Raft C → ℕ → Raft C
  unfolding persist_locked
  become_follower rf term =
      let rf' = record rf {
        role = follower;
        voted_for = if ltb rf.current_term term then none else rf.voted_for;
        current_term = term;
      } in
      if ltb term rf.current_term
      then rf
      else if rf.current_term == term
      then rf'
      else persist_locked rf'

  unfoldable pub become_candidate : Raft C → Raft C
  unfolding persist_locked same_role
  become_candidate rf =
      if same_role rf.role leader
      then rf
      else (persist_locked (record rf {
        current_term = rf.current_term + 1;
        role = candidate;
        voted_for = some rf.me;
      }))

  unfoldable pub become_leader : Raft C → Raft C
  unfolding same_role
  become_leader rf =
      if same_role rf.role candidate
      then (record rf {
        role = leader;
        next_index = fill rf.peers (size rf.log) rf.next_index;
        match_index = fill rf.peers 0 rf.match_index;
      })
      else rf

  -- `contextLostLocked`
  unfoldable pub context_lost : Raft C → Role → ℕ → Bool
  unfolding same_role
  context_lost rf role term = not (rf.current_term == term && same_role rf.role role)

  unfoldable pub get_state : Raft C → ℕ × Bool
  unfolding same_role
  get_state rf = (rf.current_term, same_role rf.role leader)

  -- `Start`: position, term, and whether this peer is the leader.
  unfoldable pub start : Raft C → C → Raft C × (ℕ × ℕ × Bool)
  unfolding same_role persist_locked append
  start rf command =
      let rf' = record rf {
        log =
            append rf.log
              (record { term = rf.current_term; command_valid = true; command = some command });
      } in
      if same_role rf.role leader
      then (persist_locked rf', (size rf'.log - 1, rf'.current_term, true))
      else (rf, (0, 0, false))

  unfoldable pub kill : Raft C → Raft C
  kill rf = record rf { dead = true }

  -- One number from the stream; an error where it holds something else (or -1, which only the vote
  -- may be).
  unfoldable pub decode_ℕ : List (Item C) → Option (ℕ × List (Item C))
  decode_ℕ (int (some n) ∷ d) = some (n, d)
  decode_ℕ _ = none

  unfoldable pub decode_vote : List (Item C) → Option (Option ℕ × List (Item C))
  decode_vote (int v ∷ d) = some (v, d)
  decode_vote _ = none

  unfoldable pub decode_entries : List (Item C) → Option (List (LogEntry C))
  decode_entries (entries es ∷ d) = some es
  decode_entries _ = none

  -- `RaftLog.readPersist`: the log as far as it was read, and whether there was no error.
  unfoldable pub read_log : RaftLog C → List (Item C) → RaftLog C × Bool
  unfolding decode_ℕ decode_entries
  read_log rl d = elim (decode_ℕ d) [
    | none ↦ (rl, false)
    | some (last_idx, d) ↦ elim (decode_ℕ d) [
      | none ↦ (record rl { snap_last_idx = last_idx }, false)
      | some (last_term, d) ↦ elim (decode_entries d) [
        | none ↦ (record rl { snap_last_idx = last_idx; snap_last_term = last_term }, false)
        | some es ↦ (
          record rl { snap_last_idx = last_idx; snap_last_term = last_term; tail_log = es },
          true,
        )
      ]
    ]
  ]

  -- The end of `readPersist`, after the log.
  restored : Raft C → RaftLog C × Bool → Raft C
  restored rf (rl, false) = record rf { log = rl }
  restored rf (rl, true) =
      let rf' = record rf { log = record rl { snapshot = rf.persister.snapshot } } in
      if ltb rf.commit_index rl.snap_last_idx
      then (record rf' { commit_index = rl.snap_last_idx; last_applied = rl.snap_last_idx })
      else rf'

  -- `readPersist`: a stream that breaks off leaves what was read before.
  unfoldable pub read_persist : Raft C → List (Item C) → Raft C
  unfolding decode_ℕ decode_vote read_log restored
  read_persist rf [] = rf
  read_persist rf (item ∷ items) = elim (decode_ℕ (item ∷ items)) [
    | none ↦ rf
    | some (term, d) ↦ elim (decode_vote d) [
      | none ↦ record rf { current_term = term }
      | some (vote, d) ↦
          restored (record rf { current_term = term; voted_for = vote }) (read_log rf.log d)
    ]
  ]

  -- `Make`, up to the goroutines that it starts.
  unfoldable pub make : ℕ → ℕ → Persister C → Raft C
  unfolding new_log read_persist
  make peers me persister =
      read_persist
        (record {
          peers = peers;
          persister = persister;
          me = me;
          dead = false;
          role = follower;
          current_term = 1;
          voted_for = none;
          log = new_log invalid_index invalid_term [] [];
          next_index = replicate peers 0;
          match_index = replicate peers 0;
          commit_index = 0;
          last_applied = 0;
          snap_pending = false;
          election_start = 0;
          election_timeout = 0;
        })
        persister.raftstate
