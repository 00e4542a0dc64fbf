-- ===== src/Raft/Replication/Leader.antt =====
-- The leader's side of src/raft/raft_replication.go: what a majority holds, what it commits, what
-- it sends.
use mathlib.Core.Path.{subst}
use multi_raft.Common.{
  take-append, ℕ, ◌+◌, ◌-◌, ◌*◌, ◌/◌, ◌≤◌, ◌<◌, ◌≡◌, refl, ◌≢◌, ◌⊎◌, inl, inr, true, some, List,
  ◌∷◌, arith, sort, dec_le, ltb, leb, ◌==◌, Bool-cases, Option-cases, length, get_elem?, replicate,
  get_elem?-below, count_ge, count_ge-sort, length-sort, sort-IsSorted, count_ge-get,
  count_ge-above,
}
use multi_raft.Raft.Log.{LogEntry, size, at, tail, IsWellFormed}
use multi_raft.Raft.Log.Reads.{at-bounds}
use multi_raft.Raft.Log.Replication.{tail_lem}
use multi_raft.Raft.Peer.{Raft}
use multi_raft.Raft.Replication.{
  AppendEntriesArgs, AppendEntriesReply, Request, append_request, append_entries,
  get_majority_index, advance_commit, replicate_to,
}
use multi_raft.Raft.Replication.Follower.{append_entries-IsAccepted, HasPrev}

-- More than half of the peers are known to hold everything up to `m`.
abbrev pub IsMajority : ℕ → ℕ → List ℕ → Type 0
IsMajority peers m matched = peers < 2 * count_ge m matched

module _ {C : Type 0} where
  abbrev pub PicksGreatest : Raft C → Type 0
  PicksGreatest rf =
      (m : ℕ) × (get_majority_index rf ≡ some m)
      × IsMajority rf.peers m rf.match_index
      × ((b : ℕ) → IsMajority rf.peers b rf.match_index → b ≤ m)

  -- The index that `getMajorityIndexLocked` picks from the sorted copy is the greatest one that a
  -- majority of the peers holds.
  pub get_majority_index_lem :
      (rf : Raft C) → 0 < rf.peers → length rf.match_index ≡ rf.peers → PicksGreatest rf
  unfolding get_majority_index
  get_majority_index_lem rf h slots =
      let xs = rf.match_index in
      let mid = (rf.peers - 1) / 2 in
      let same = take-append rf.peers xs (replicate rf.peers 0) slots in
      let (m, found) = get_elem?-below (sort xs) mid (omega (arith, length-sort xs)) in
      let counted = count_ge-get (sort xs) mid m (sort-IsSorted xs) found in
      (
        m,
        rw same found,
        omega (arith, counted, count_ge-sort m xs, length-sort xs),
        λ b many. elim (dec_le b m) [
          | yes le ↦ le
          | no gt ↦ absurd (
              omega (
                arith,
                count_ge-above (sort xs) mid m b (sort-IsSorted xs) found (omega arith),
                count_ge-sort b xs,
                length-sort xs,
              ))
        ],
      )

  abbrev pub Advances : Raft C → Raft C → Type 0
  Advances rf rf' =
      (rf' ≡ rf)
      ⊎ ((e : LogEntry C) × (rf.commit_index < rf'.commit_index)
          × IsMajority rf.peers rf'.commit_index rf.match_index
          × (at rf.log rf'.commit_index ≡ some e)
          × (e.term ≡ rf.current_term)
          × (rf'.log ≡ rf.log))

  -- The leader's commit index moves only forward, only to an index that a majority of the peers
  -- holds, and only to an entry of its own term.
  pub advance_commit_lem :
      (rf rf' : Raft C)
      → 0 < rf.peers
      → length rf.match_index ≡ rf.peers
      → advance_commit rf ≡ some rf'
      → Advances rf rf'
  unfolding advance_commit
  advance_commit_lem rf rf' h slots went =
      let (m, picked, many, most) = get_majority_index_lem rf h slots in
      elim (Bool-cases (ltb rf.commit_index m)) [
        | inr behind ↦ inl (ground (arith, picked))
        | inl ahead ↦ elim (Option-cases (at rf.log m)) [
          | inl missing ↦ absurd (ground (arith, picked))
          | inr (e, read) ↦ elim (Bool-cases (e.term == rf.current_term)) [
            | inr old ↦ inl (ground (arith, picked))
            | inl own ↦
                let new : record rf { commit_index = m } ≡ rf' = ground (arith, picked) in
                inr (
                  subst
                    (λ (out : Raft C).
                      (d : LogEntry C) × (rf.commit_index < out.commit_index)
                      × IsMajority rf.peers out.commit_index rf.match_index
                      × (at rf.log out.commit_index ≡ some d)
                      × (d.term ≡ rf.current_term)
                      × (out.log ≡ rf.log))
                    new (e, ground arith, many, read, ground arith, refl))
          ]
        ]
      ]

  abbrev pub Reaches : Raft C → Raft C → ℕ → Type 0
  Reaches rf rf' b =
      (b ≤ rf'.commit_index)
      ⊎ ((m : ℕ) × (e : LogEntry C) × IsMajority rf.peers m rf.match_index
          × ((k : ℕ) → IsMajority rf.peers k rf.match_index → k ≤ m)
          × (at rf.log m ≡ some e)
          × (e.term ≢ rf.current_term))

  -- And it does not stop short: where the call goes through, with a slot for each peer, an index that
  -- a majority of the peers holds is at or below the new commit index, unless the greatest index that
  -- a majority holds has an entry of another term than the leader's.
  pub advance_commit-Reaches :
      (rf rf' : Raft C) (b : ℕ)
      → 0 < rf.peers
      → length rf.match_index ≡ rf.peers
      → IsMajority rf.peers b rf.match_index
      → advance_commit rf ≡ some rf'
      → Reaches rf rf' b
  unfolding advance_commit
  advance_commit-Reaches rf rf' b h slots many went =
      let (m, picked, held, most) = get_majority_index_lem rf h slots in
      let below = most b many in
      elim (Bool-cases (ltb rf.commit_index m)) [
        | inr behind ↦ inl (ground (arith, picked))
        | inl ahead ↦ elim (Option-cases (at rf.log m)) [
          | inl missing ↦ absurd (ground (arith, picked))
          | inr (e, read) ↦ elim (Bool-cases (e.term == rf.current_term)) [
            | inr old ↦ inr (m, e, held, most, read, ground arith)
            | inl own ↦ inl (ground (arith, picked))
          ]
        ]
      ]

  -- What the leader sends to a peer: its term and commit index, the entry before the peer's next
  -- one, and all entries from there on.
  pub record IsSent (ld : Raft C) (args : AppendEntriesArgs C) : Type 0 where
    pub own_term : args.term ≡ ld.current_term
    pub own_commit : args.leader_commit ≡ ld.commit_index
    pub previous : HasPrev ld.log args
    pub rest : tail ld.log (args.prev_log_index + 1) ≡ some args.entries

  pub replicate_to-sends :
      (ld ld' : Raft C) (peer : ℕ) (args : AppendEntriesArgs C) (more : List (ℕ × Request C))
      → replicate_to ld peer ≡ some (ld', (peer, append_request args) ∷ more)
      → IsSent ld args
  unfolding replicate_to
  replicate_to-sends ld ld' peer args more h = elim (Bool-cases (peer == ld.me)) [
    | inl own ↦ absurd (ground arith)
    | inr other ↦ elim (Option-cases (get_elem? ld.next_index peer)) [
      | inl missing ↦ absurd (ground arith)
      | inr (next, there) ↦ elim (Bool-cases (leb next ld.log.snap_last_idx)) [
        | inl covered ↦ absurd (ground arith)
        | inr behind ↦ elim (Option-cases (at ld.log (next - 1))) [
          | inl out ↦ absurd (ground arith)
          | inr (e, read) ↦ elim (Option-cases (tail ld.log next)) [
            | inl out ↦ absurd (ground arith)
            | inr (es, cut) ↦ record {
              own_term = ground arith;
              own_commit = ground arith;
              previous = (e, ground arith, ground arith);
              rest = ground arith;
            }
          ]
        ]
      ]
    ]
  ]

  abbrev pub Agrees : Raft C → Raft C → ℕ → Type 0
  Agrees ld fl' prev =
      (size fl'.log ≡ size ld.log)
      × ((i : ℕ) → prev < i → at fl'.log i ≡ at ld.log i)
      × ((d e : LogEntry C) → at fl'.log prev ≡ some d → at ld.log prev ≡ some e → d.term ≡ e.term)

  -- One round of replication from end to end: a leader sends what `startReplication` makes for a
  -- peer, and the peer runs `AppendEntries` on it. If it accepts, the two logs agree from the
  -- previous entry on, in the term there and in every entry behind it, and have the same size.
  pub replication_round :
      (ld fl : Raft C) (peer now random : ℕ) (ld' fl' : Raft C) (reply : AppendEntriesReply)
      (args : AppendEntriesArgs C) (more : List (ℕ × Request C))
      → IsWellFormed fl.log
      → replicate_to ld peer ≡ some (ld', (peer, append_request args) ∷ more)
      → append_entries fl args now random ≡ some (fl', reply)
      → reply.success ≡ true
      → Agrees ld fl' args.prev_log_index
  replication_round ld fl peer now random ld' fl' reply args more wf sent got yes' =
      let s = replicate_to-sends ld ld' peer args more sent in
      let (e, read, same) = s.previous in
      let b = at-bounds ld.log args.prev_log_index e read in
      let (es, cut, len, reads) = tail_lem ld.log (args.prev_log_index + 1) (omega (arith, b.0)) in
      let ((d', read', same'), done) =
        append_entries-IsAccepted fl fl' args now random reply wf got yes' in
      let alike : es ≡ args.entries = ground (arith, cut, s.rest) in
      (
        ground (arith, done.appended.resized, len, b.1, alike),
        λ i lt.
            let j = i - (args.prev_log_index + 1) in
            let at_i : args.prev_log_index + 1 + j ≡ i = omega arith in
            ground (arith, done.appended.added j, reads j, at_i, alike),
        λ x y hx hy.
            ground (arith, done.appended.kept args.prev_log_index, same, same', read, read'),
      )
