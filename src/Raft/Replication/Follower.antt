-- ===== src/Raft/Replication/Follower.antt =====
-- What `AppendEntries` of src/raft/raft_replication.go does, on every branch.
use Prim.Native.Nat.{max}
use mathlib.Core.Path.{subst}
use multi_raft.Common.{
  get_elem?-above, ◌-◌, none, length, ◌+◌, ℕ, ◌≤◌, ◌<◌, ◌≡◌, refl, sym, ◌∙◌, ◌⊎◌, inl, inr, true,
  false, some, arith, ltb, leb, ◌==◌, Bool-cases,
}
use multi_raft.Raft.Election.{reset_election_timer}
use multi_raft.Raft.Log.{invalid_term, LogEntry, RaftLog, size, at, first_for, IsWellFormed}
use multi_raft.Raft.Log.Reads.{at-total, at-bounds}
use multi_raft.Raft.Log.Replication.{append_from-some, IsAppended}
use multi_raft.Raft.Peer.{follower, Raft, become_follower}
use multi_raft.Raft.Replication.{
  accepted, AppendEntriesArgs, AppendEntriesReply, rejected, accept, follow, append_entries,
}

module _ {C : Type 0} where
  -- The entry before the sent ones is in the follower's log, behind its snapshot or at it, and has
  -- the leader's term for it.
  abbrev pub HasPrev : RaftLog C → AppendEntriesArgs C → Type 0
  HasPrev rl args =
      (e : LogEntry C) × (at rl args.prev_log_index ≡ some e) × (e.term ≡ args.prev_log_term)

  -- The follower has taken over the entries.
  pub record IsAccepted (rf : Raft C) (args : AppendEntriesArgs C) (rf' : Raft C) : Type 0 where
    pub appended : IsAppended rf.log args.prev_log_index args.entries rf'.log
    pub committed : rf'.commit_index ≡ max rf.commit_index args.leader_commit

  pub record IsRefused (rf : Raft C) (rf' : Raft C) : Type 0 where
    pub same_log : rf'.log ≡ rf.log
    pub same_commit : rf'.commit_index ≡ rf.commit_index

  -- The outcome of a call: accepted because the previous entry is there, or refused because it is
  -- not.
  abbrev pub Outcome : Raft C → AppendEntriesArgs C → Raft C × AppendEntriesReply → Type 0
  Outcome rf args (rf', reply) =
      ((reply.success ≡ true) × HasPrev rf.log args × IsAccepted rf args rf')
      ⊎ ((reply.success ≡ false) × (¬ HasPrev rf.log args) × IsRefused rf rf')

  accept-total :
      (rf : Raft C) (term : ℕ) (args : AppendEntriesArgs C) (e : LogEntry C)
      → IsWellFormed rf.log
      → at rf.log args.prev_log_index ≡ some e
      → e.term ≡ args.prev_log_term
      → (out : Raft C × AppendEntriesReply) × (accept rf term args ≡ some out) × Outcome rf args out
  unfolding accept
  accept-total rf term args e w h same =
      let b = at-bounds rf.log args.prev_log_index e h in
      let (log, went, done) = append_from-some rf.log args.prev_log_index args.entries w b.0 b.1 in
      (
        accepted rf term args log,
        rw went,
        inl (
          refl,
          (e, h, same),
          record { appended = ground (arith, done); committed = ground arith },
        ),
      )

  follow-total :
      (rf : Raft C) (term : ℕ) (args : AppendEntriesArgs C)
      → IsWellFormed rf.log
      → (out : Raft C × AppendEntriesReply) × (follow rf term args ≡ some out) × Outcome rf args out
  unfolding follow
  follow-total rf term args w = elim (Bool-cases (leb (size rf.log) args.prev_log_index)) [
    | inl short ↦ (
      (rf, rejected term (size rf.log) invalid_term),
      rw short,
      inr (
        refl,
        (λ (e, h, same). ground (arith, at-bounds rf.log args.prev_log_index e h)),
        unchanged,
      ),
    )
    | inr long ↦ elim (Bool-cases (ltb args.prev_log_index rf.log.snap_last_idx)) [
      | inl cut ↦ (
        (rf, rejected term rf.log.snap_last_idx rf.log.snap_last_term),
        rw (long, cut),
        inr (
          refl,
          (λ (e, h, same). ground (arith, at-bounds rf.log args.prev_log_index e h)),
          unchanged,
        ),
      )
      | inr kept ↦
          let (e, read) = at-total rf.log args.prev_log_index (ground arith) (ground arith) in
          elim (Bool-cases (e.term == args.prev_log_term)) [
            | inl same ↦
                let (out, went, outcome) = accept-total rf term args e w read (ground arith) in
                (out, rw (long, kept, read, same) went, outcome)
            | inr differs ↦ (
              (rf, rejected term (first_for rf.log e.term) e.term),
              rw (long, kept, read, differs),
              inr (refl, (λ (d, h, same). ground arith), unchanged),
            )
          ]
    ]
  ]
    where
      unchanged : IsRefused rf rf
      unchanged = record { same_log = refl; same_commit = refl }

  follow-frame :
      (rf : Raft C) (term : ℕ) (args : AppendEntriesArgs C) (out : Raft C × AppendEntriesReply)
      → follow rf term args ≡ some out
      → (out.0.role ≡ rf.role) × (out.0.current_term ≡ rf.current_term) × (out.1.term ≡ term)
  unfolding follow accept
  follow-frame rf term args out h = ground arith

  become_follower_lem :
      (rf : Raft C) (term : ℕ)
      → rf.current_term ≤ term
      → ((become_follower rf term).log ≡ rf.log)
        × ((become_follower rf term).commit_index ≡ rf.commit_index)
        × ((become_follower rf term).role ≡ follower)
        × ((become_follower rf term).current_term ≡ term)
  unfolding become_follower
  become_follower_lem rf term h = ground arith

  -- The outcome speaks of log and commit index alone.
  Outcome-moves :
      (rf aligned : Raft C) (args : AppendEntriesArgs C) (out : Raft C × AppendEntriesReply)
      (now random : ℕ)
      → aligned.log ≡ rf.log
      → aligned.commit_index ≡ rf.commit_index
      → Outcome aligned args out
      → Outcome rf args (reset_election_timer out.0 now random, out.1)
  unfolding reset_election_timer
  Outcome-moves rf aligned args out now random same commit (inl (yes', prev, done)) = inl (
    yes',
    subst (λ l. HasPrev l args) same prev,
    record {
      appended =
          subst (λ l. IsAppended l args.prev_log_index args.entries out.0.log) same done.appended;
      committed = ground (arith, done.committed);
    },
  )
  Outcome-moves rf aligned args out now random same commit (inr (no', prev, kept)) = inr (
    no',
    subst (λ l. ¬ HasPrev l args) same prev,
    record { same_log = kept.same_log ∙ same; same_commit = kept.same_commit ∙ commit },
  )

  abbrev pub Answers : Raft C → AppendEntriesArgs C → ℕ → ℕ → Type 0
  Answers rf args now random =
      (rf' : Raft C) × (reply : AppendEntriesReply) × (append_entries rf args now random
        ≡ some (rf', reply))
      × (reply.term ≡ rf.current_term)
      × ((args.term < rf.current_term) × (rf' ≡ rf) × (reply.success ≡ false)
          ⊎ (rf.current_term ≤ args.term)
            × (rf'.current_term ≡ args.term)
            × (rf'.role ≡ follower)
            × Outcome rf args (rf', reply))

  -- `AppendEntries` answers every call, with no panic. A call from an old term changes nothing.
  -- Any other makes the peer a follower in the leader's term; it succeeds exactly where the log has
  -- the previous entry with the leader's term. Then the entries stand behind it and the commit index
  -- follows the leader's; a refusal leaves both alone. The reply has the term from before the call.
  pub append_entries_lem :
      (rf : Raft C) (args : AppendEntriesArgs C) (now random : ℕ)
      → IsWellFormed rf.log
      → Answers rf args now random
  unfolding append_entries
  append_entries_lem rf args now random w = elim (Bool-cases (ltb args.term rf.current_term)) [
    | inl stale ↦ (rf, rejected rf.current_term 0 0, rw stale, refl, inl (ground arith, refl, refl))
    | inr fresh ↦
        let aligned = become_follower rf args.term in
        let (log, commit, role, term) = become_follower_lem rf args.term (ground arith) in
        let (out, went, outcome) =
          follow-total aligned rf.current_term args (subst IsWellFormed (sym log) w) in
        let frame = follow-frame aligned rf.current_term args out went in
        (
          reset_election_timer out.0 now random,
          out.1,
          rw (fresh, went),
          frame.2,
          inr (
            ground arith,
            unfold reset_election_timer in frame.1 ∙ term,
            unfold reset_election_timer in frame.0 ∙ role,
            Outcome-moves rf aligned args out now random log commit outcome,
          ),
        )
  ]

  pub append_entries-IsAccepted :
      (rf rf' : Raft C) (args : AppendEntriesArgs C) (now random : ℕ) (reply : AppendEntriesReply)
      → IsWellFormed rf.log
      → append_entries rf args now random ≡ some (rf', reply)
      → reply.success ≡ true
      → HasPrev rf.log args × IsAccepted rf args rf'
  append_entries-IsAccepted rf rf' args now random reply w went yes' =
      let (out, answer, went', _, cases) = append_entries_lem rf args now random w in
      let same : out ≡ rf' = cc in
      let agreed : answer.success ≡ true = ground (arith, went', went) in
      elim cases [
        | inl (_, _, no') ↦ absurd (cc)
        | inr (_, _, _, outcome) ↦ elim outcome [
          | inl (_, prev, done) ↦ (prev, subst (IsAccepted rf args) same done)
          | inr (no', _, _) ↦ absurd (cc)
        ]
      ]

  abbrev pub TakesBack : Raft C → AppendEntriesArgs C → ℕ → ℕ → Type 0
  TakesBack rf args now random =
      (rf' : Raft C) × (reply : AppendEntriesReply) × (append_entries rf args now random
        ≡ some (rf', reply))
      × (reply.success ≡ true)
      × (size rf'.log < size rf.log)
      × ((i : ℕ) → args.prev_log_index + length args.entries < i → at rf'.log i ≡ none)

  -- A call that is accepted cuts the log down to what the call carries, also where the log agrees
  -- with it and goes on: a delayed call with fewer entries takes back entries that were
  -- acknowledged before.
  pub append_entries_cuts :
      (rf : Raft C) (args : AppendEntriesArgs C) (now random : ℕ)
      → IsWellFormed rf.log
      → rf.current_term ≤ args.term
      → HasPrev rf.log args
      → args.prev_log_index + 1 + length args.entries < size rf.log
      → TakesBack rf args now random
  append_entries_cuts rf args now random w term prev short =
      let (rf', reply, went, _, cases) = append_entries_lem rf args now random w in
      elim cases [
        | inl (old, _, _) ↦ absurd (omega arith)
        | inr (_, _, _, outcome) ↦ elim outcome [
          | inl (yes', _, done) ↦ (
            rf',
            reply,
            went,
            yes',
            omega (arith, done.appended.resized),
            λ i lt.
                let j = i - (args.prev_log_index + 1) in
                let e : args.prev_log_index + 1 + j ≡ i = omega arith in
                ground (arith, done.appended.added j, e, get_elem?-above args.entries j),
          )
          | inr (_, missing, _) ↦ absurd (missing prev)
        ]
      ]
