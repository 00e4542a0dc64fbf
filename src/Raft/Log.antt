-- ===== src/Raft/Log.antt =====
-- src/raft/raft_log.go: the log of a peer, of which everything up to `snap_last_idx` is in a
-- snapshot. `none` stands for a Go panic (an index out of range). Positions and terms are ℕ: no
-- code of the package makes a negative one.
pub mod Reads
pub mod Replication
pub mod Compaction
use multi_raft.Common.{
  ℕ, suc, ◌+◌, ◌-◌, ◌≡◌, Bool, false, ◌||◌, Option, none, some, ◌>>=◌, List, [], ◌∷◌, ◌++◌, ltb,
  leb, ◌==◌, if◌then◌else◌, length, get_elem?, get_or, take, drop,
}

abbrev pub invalid_term : ℕ
invalid_term = 0

abbrev pub invalid_index : ℕ
invalid_index = 0

-- `Command interface{}` is a value of the parameter `C`, or nil.
pub record LogEntry (C : Type 0) : Type 0 where
  pub term : ℕ
  pub command_valid : Bool
  pub command : Option C

-- `[]byte`
abbrev pub Bytes : Type 0
Bytes = List ℕ

pub record RaftLog (C : Type 0) : Type 0 where
  pub snap_last_idx : ℕ
  pub snap_last_term : ℕ
  pub snapshot : Bytes
  pub tail_log : List (LogEntry C)

module _ {C : Type 0} where
  -- `LogEntry{Term: t}`: the mock entry that stands at the snapshot's index.
  abbrev pub mock : ℕ → LogEntry C
  mock t = record { term = t; command_valid = false; command = none }

  unfoldable pub new_log : ℕ → ℕ → Bytes → List (LogEntry C) → RaftLog C
  new_log idx term snapshot entries = record {
    snap_last_idx = idx;
    snap_last_term = term;
    snapshot = snapshot;
    tail_log = mock term ∷ entries;
  }

  abbrev pub size : RaftLog C → ℕ
  size rl = rl.snap_last_idx + length rl.tail_log

  abbrev pub idx : RaftLog C → ℕ → Option ℕ
  idx rl i = if ltb i rl.snap_last_idx || leb (size rl) i then none else some (i - rl.snap_last_idx)

  unfoldable pub at : RaftLog C → ℕ → Option (LogEntry C)
  at rl i = idx rl i >>= get_elem? rl.tail_log

  -- The last index and its term. The slot that is read exists, so the default is never used.
  unfoldable pub last : RaftLog C → ℕ × ℕ
  last rl = if length rl.tail_log == 0 then (rl.snap_last_idx, rl.snap_last_term) else (
    rl.snap_last_idx + (length rl.tail_log - 1),
    (get_or rl.tail_log (length rl.tail_log - 1) (mock rl.snap_last_term)).term,
  )

  -- The loop of `firstFor`; `i` counts the entries passed.
  unfoldable pub first_for_loop : ℕ → ℕ → ℕ → List (LogEntry C) → ℕ
  first_for_loop base t i [] = invalid_index
  first_for_loop base t i (e ∷ es) =
      if e.term == t
      then i + base
      else if ltb t e.term
      then invalid_index
      else first_for_loop base t (suc i) es

  unfoldable pub first_for : RaftLog C → ℕ → ℕ
  first_for rl t = first_for_loop rl.snap_last_idx t 0 rl.tail_log

  unfoldable pub tail : RaftLog C → ℕ → Option (List (LogEntry C))
  tail rl start =
      if leb (size rl) start
      then some []
      else (idx rl (if ltb start rl.snap_last_idx then rl.snap_last_idx else start) >>= λ i.
          some (drop i rl.tail_log))

  unfoldable pub append : RaftLog C → LogEntry C → RaftLog C
  append rl e = record rl { tail_log = rl.tail_log ++ e ∷ [] }

  unfoldable pub append_from : RaftLog C → ℕ → List (LogEntry C) → Option (RaftLog C)
  append_from rl prev entries =
      idx rl prev >>= λ i. some (record rl { tail_log = take (i + 1) rl.tail_log ++ entries })

  -- Checkpoint from the application: the log up to `index` gives way to `snapshot`.
  unfoldable pub do_snapshot : RaftLog C → ℕ → Bytes → Option (RaftLog C)
  do_snapshot rl index snapshot =
      if leb index rl.snap_last_idx || leb (size rl) index then some rl else (do
        i ← idx rl index
        e ← get_elem? rl.tail_log i
        some (record {
          snap_last_idx = index;
          snap_last_term = e.term;
          snapshot = snapshot;
          tail_log = mock e.term ∷ drop (i + 1) rl.tail_log;
        }))

  installed : ℕ → ℕ → Bytes → List (LogEntry C) → RaftLog C
  installed index term snapshot kept = record {
    snap_last_idx = index;
    snap_last_term = term;
    snapshot = snapshot;
    tail_log = mock term ∷ kept;
  }

  -- A snapshot from the leader: entries after `index` stay, all others go.
  unfoldable pub install_snapshot : RaftLog C → ℕ → ℕ → Bytes → Option (RaftLog C)
  unfolding installed
  install_snapshot rl index term snapshot =
      if leb index rl.snap_last_idx
      then some rl
      else if ltb (index + 1) (size rl)
      then (idx rl index >>= λ i. some (installed index term snapshot (drop (i + 1) rl.tail_log)))
      else some (installed index term snapshot [])

-- The mock entry heads the tail, with the snapshot's term.
abbrev pub IsAnchored : {C : Type 0} → ℕ → List (LogEntry C) → Type 0
IsAnchored t [] = ⊥
IsAnchored t (e ∷ es) = e.term ≡ t

abbrev pub IsWellFormed : {C : Type 0} → RaftLog C → Type 0
IsWellFormed rl = IsAnchored rl.snap_last_term rl.tail_log
