-- ===== src/Raft/Node/Following.antt =====
-- `HandleAppendEntries` of src/raft/node.go: the log and the commit index of a follower.
use mathlib.Core.Path.{subst}
use multi_raft.Common.{
  ℕ, ◌+◌, ◌-◌, ◌%◌, ◌≤◌, ◌<◌, ◌≡◌, refl, sym, ap, ◌∙◌, ◌⊎◌, inl, inr, true, false, some, List,
  arith, nat_key, string_key, ltb, leb, ◌==◌, if◌then◌else◌, Bool-cases, length,
}
use multi_raft.Raft.Log.{invalid_term, LogEntry, RaftLog, size, at, last, first_for, IsWellFormed}
use multi_raft.Raft.Log.Reads.{at-bounds, at-total}
use multi_raft.Raft.Log.Replication.{IsAppended, append_from-some}
use multi_raft.Raft.Node.{Node, Codec, reset_timer, save_node, follow_term}
use multi_raft.Raft.Node.Handlers.{
  append_reply, follow_commit, match_entries, handle_append_entries,
}
use multi_raft.Raft.Replication.{AppendEntriesArgs, AppendEntriesReply}

-- The commit index behind a call that reaches to `end`.
abbrev pub next_commit : ℕ → ℕ → ℕ → ℕ
next_commit commit leader_commit end =
    let bounded = if ltb end leader_commit then end else leader_commit in
    if ltb commit leader_commit then bounded else commit

module _ {C : Type 0} where
  -- The last position that a call speaks of.
  abbrev pub reach : AppendEntriesArgs C → ℕ
  reach req = req.prev_log_index + length req.entries

  -- What a call does to the log and the commit index.
  abbrev pub Follows : Node C → AppendEntriesArgs C → Node C → AppendEntriesReply → Type 0
  Follows n req n' reply =
      (reply.success ≡ false) × (n'.log ≡ n.log) × (n'.commit_index ≡ n.commit_index)
      ⊎ (reply.success ≡ true)
        × IsAppended n.log req.prev_log_index req.entries n'.log
        × (n'.commit_index ≡ next_commit n.commit_index req.leader_commit (reach req))
        × (n.commit_index ≤ reach req
            → (n.commit_index ≤ n'.commit_index) × (n'.commit_index < size n'.log))

  last-appended :
      (log out : RaftLog C) (prev : ℕ) (es : List (LogEntry C)) (e : LogEntry C)
      → at log prev ≡ some e
      → IsAppended log prev es out
      → (last out).0 ≡ prev + length es
  unfolding last
  last-appended log out prev es e h a =
      let b = at-bounds out prev e (a.kept prev (omega arith) ∙ h) in ground (arith, a.resized, b)

  follow_commit_lem :
      (n : Node C) (leader_commit end : ℕ)
      → (last n.log).0 ≡ end
      → ((follow_commit n leader_commit).log ≡ n.log)
        × ((follow_commit n leader_commit).config ≡ n.config)
        × ((follow_commit n leader_commit).commit_index
            ≡ next_commit n.commit_index leader_commit end)
  unfolding follow_commit
  follow_commit_lem n leader_commit end e = ground (arith, e)

  reset_timer-total :
      (n : Node C) (now random : ℕ)
      → n.config.election_timeout_min < n.config.election_timeout_max
      → (n' : Node C) × (reset_timer n now random ≡ some n')
        × (n'.log ≡ n.log)
        × (n'.commit_index ≡ n.commit_index)
  unfolding reset_timer
  reset_timer-total n now random lt = (
    record n {
      election_start = now;
      election_timeout =
          n.config.election_timeout_min
          + random % (n.config.election_timeout_max - n.config.election_timeout_min);
    },
    ground arith,
    refl,
    refl,
  )

  -- The outcome speaks of log and commit index alone.
  Follows-moves :
      (n m : Node C) (req : AppendEntriesArgs C) (n' m' : Node C) (reply : AppendEntriesReply)
      → m.log ≡ n.log
      → m.commit_index ≡ n.commit_index
      → n'.log ≡ m'.log
      → n'.commit_index ≡ m'.commit_index
      → Follows m req m' reply
      → Follows n req n' reply
  Follows-moves n m req n' m' reply l c l' c' (inl (no', log, commit)) =
      inl (no', l' ∙ log ∙ l, c' ∙ commit ∙ c)
  Follows-moves n m req n' m' reply l c l' c' (inr (yes', done, commit, bound)) = inr (
    yes',
    subst (λ out. IsAppended n.log req.prev_log_index req.entries out) (sym l')
        (subst (λ log. IsAppended log req.prev_log_index req.entries m'.log) l done),
    c' ∙ commit ∙ ap (λ k. next_commit k req.leader_commit (reach req)) c,
    λ le.
        let b = bound (ground (arith, c)) in
        (ground (arith, b.0, c, c'), ground (arith, b.1, l', c')),
  )

module _ {C : Type 0} (codec : Codec C) where
  abbrev Matched : Node C → ℕ → AppendEntriesArgs C → Type 0
  Matched n term req =
      (out : Node C × AppendEntriesReply) × (match_entries codec n term req ≡ some out)
      × (out.0.config ≡ n.config)
      × Follows n req out.0 out.1

  take_entries :
      (n : Node C) (term : ℕ) (req : AppendEntriesArgs C) (e : LogEntry C)
      → IsWellFormed n.log
      → n.log.snap_last_idx ≤ req.prev_log_index
      → req.prev_log_index < size n.log
      → at n.log req.prev_log_index ≡ some e
      → e.term ≡ req.prev_log_term
      → Matched n term req
  unfolding match_entries save_node
  take_entries n term req e w low high h same =
      let (log, went, done) = append_from-some n.log req.prev_log_index req.entries w low high in
      let saved : Node C = save_node codec (record n { log = log }) in
      let (l, c, m) =
        follow_commit_lem saved req.leader_commit (reach req)
          (last-appended n.log log req.prev_log_index req.entries e h done) in
      (
        (follow_commit saved req.leader_commit, append_reply term true 0 0),
        ground (arith, h, went),
        c,
        inr (
          refl,
          subst (IsAppended n.log req.prev_log_index req.entries) (sym l) done,
          m,
          λ le. ground (arith, m, l, done.resized),
        ),
      )

  match_entries-total :
      (n : Node C) (term : ℕ) (req : AppendEntriesArgs C) → IsWellFormed n.log → Matched n term req
  unfolding match_entries
  match_entries-total n term req w = elim (Bool-cases (leb (size n.log) req.prev_log_index)) [
    | inl short ↦ (
      (n, append_reply term false (size n.log) invalid_term),
      rw short,
      refl,
      inl (refl, refl, refl),
    )
    | inr long ↦ elim (Bool-cases (ltb req.prev_log_index n.log.snap_last_idx)) [
      | inl cut ↦ (
        (n, append_reply term false n.log.snap_last_idx n.log.snap_last_term),
        rw (long, cut),
        refl,
        inl (refl, refl, refl),
      )
      | inr kept ↦
          let (e, read) = at-total n.log req.prev_log_index (ground arith) (ground arith) in
          elim (Bool-cases (e.term == req.prev_log_term)) [
            | inl same ↦
                take_entries n term req e w (ground arith) (ground arith) read (ground arith)
            | inr differs ↦ (
              (n, append_reply term false (first_for n.log e.term) e.term),
              rw (long, kept, read, differs),
              refl,
              inl (refl, refl, refl),
            )
          ]
    ]
  ]

  abbrev pub FollowsCall : Node C → AppendEntriesArgs C → ℕ → ℕ → Type 0
  FollowsCall n req now random =
      (out : Node C × AppendEntriesReply) × (handle_append_entries codec n req now random
        ≡ some out)
      × Follows n req out.0 out.1

  follow_term_lem :
      (n : Node C) (term : ℕ)
      → ((follow_term codec n term).log ≡ n.log)
        × ((follow_term codec n term).commit_index ≡ n.commit_index)
        × ((follow_term codec n term).config ≡ n.config)
  unfolding follow_term save_node
  follow_term_lem n term = ground arith

  -- On a log with its mock entry, and with a timer whose bounds are apart, a call never panics. Refused,
  -- it leaves log and commit index; accepted, it puts its entries behind the previous entry, and the
  -- commit index follows the leader's up to the last position that the call speaks of. Where the
  -- commit index was not past that position, it does not fall, and stays inside the log.
  pub handle_append_entries_lem :
      (n : Node C) (req : AppendEntriesArgs C) (now random : ℕ)
      → IsWellFormed n.log
      → n.config.election_timeout_min < n.config.election_timeout_max
      → FollowsCall n req now random
  unfolding handle_append_entries
  handle_append_entries_lem n req now random w c = elim (Bool-cases (ltb req.term n.current_term)) [
    | inl stale ↦ ((n, append_reply n.current_term false 0 0), rw stale, inl (refl, refl, refl))
    | inr current ↦
        let aligned = follow_term codec n req.term in
        let (l, m, k) = follow_term_lem n req.term in
        let (out, matched, k', f) =
          match_entries-total aligned n.current_term req (subst IsWellFormed (sym l) w) in
        let (n', reset, l', m') = reset_timer-total out.0 now random (ground (arith, k, k')) in
        (
          (n', out.1),
          ground (arith, current, matched, reset),
          Follows-moves n aligned req n' out.0 out.1 l m l' m' f,
        )
  ]
