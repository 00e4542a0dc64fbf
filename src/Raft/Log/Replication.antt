-- ===== src/Raft/Log/Replication.antt =====
-- The mutate methods that replication uses in src/raft/raft_log.go: `append`, `appendFrom`, and
-- `tail`, which cuts out what the leader sends.
use Prim.Native.Nat.{max}
use mathlib.Core.Path.{subst}
use native.Mathlib.Numerals.{add-one}
use multi_raft.Common.{
  ℕ, ◌+◌, ◌-◌, ◌≤◌, ◌<◌, ◌≡◌, refl, inl, inr, some, List, [], ◌∷◌, ◌++◌, arith, leb, Bool-cases,
  length, get_elem?, take, drop, length-append, length-drop, length-take, get_elem?-above,
  get_elem?-append_left, get_elem?-append_right, get_elem?-take, get_elem?-drop,
}
use multi_raft.Raft.Log.{
  LogEntry, RaftLog, size, at, tail, append, append_from, IsAnchored, IsWellFormed,
}
use multi_raft.Raft.Log.Reads.{at_lem}

module _ {C : Type 0} where
  IsAnchored-append :
      (t : ℕ) (es ds : List (LogEntry C)) → IsAnchored t es → IsAnchored t (es ++ ds)
  IsAnchored-append t [] ds h = absurd h
  IsAnchored-append t (e ∷ es) ds h = h

  IsAnchored-take :
      (t n : ℕ) (es : List (LogEntry C)) → IsAnchored t es → IsAnchored t (take (n + 1) es)
  IsAnchored-take t n [] h = absurd h
  IsAnchored-take t n (e ∷ es) h = rw add-one h

  -- `append` adds one entry at the old size and changes nothing below it.
  pub append_lem :
      (rl : RaftLog C) (e : LogEntry C)
      → IsWellFormed rl
      → (size (append rl e) ≡ size rl + 1)
        × (at (append rl e) (size rl) ≡ some e)
        × ((i : ℕ) → i < size rl → at (append rl e) i ≡ at rl i)
        × IsWellFormed (append rl e)
  unfolding append
  append_lem rl e w = (
    omega (arith, length-append rl.tail_log (e ∷ [])),
    ground (
      arith,
      at_lem (append rl e) (size rl),
      get_elem?-append_right rl.tail_log (e ∷ []) (size rl - rl.snap_last_idx),
    ),
    (λ i h. ground (
      arith,
      at_lem (append rl e) i,
      at_lem rl i,
      get_elem?-append_left rl.tail_log (e ∷ []) (i - rl.snap_last_idx),
    )),
    IsAnchored-append rl.snap_last_term rl.tail_log (e ∷ []) w,
  )

  abbrev cut : RaftLog C → ℕ → List (LogEntry C) → RaftLog C
  cut rl prev es = record rl { tail_log = take (prev - rl.snap_last_idx + 1) rl.tail_log ++ es }

  pub append_from-total :
      (rl : RaftLog C) (prev : ℕ) (es : List (LogEntry C))
      → rl.snap_last_idx ≤ prev
      → prev < size rl
      → append_from rl prev es ≡ some (cut rl prev es)
  unfolding append_from
  append_from-total rl prev es h k = ground arith

  pub append_from-inverse :
      (rl : RaftLog C) (prev : ℕ) (es : List (LogEntry C)) (out : RaftLog C)
      → append_from rl prev es ≡ some out
      → (rl.snap_last_idx ≤ prev) × (prev < size rl) × (cut rl prev es ≡ out)
  unfolding append_from
  append_from-inverse rl prev es out h = ground arith

  -- What `appendFrom` returns, where it does not panic.
  pub record IsAppended (rl : RaftLog C) (prev : ℕ) (es : List (LogEntry C)) (out : RaftLog C)
      : Type 0 where
    pub base : out.snap_last_idx ≡ rl.snap_last_idx
    pub base_term : out.snap_last_term ≡ rl.snap_last_term
    pub same_snapshot : out.snapshot ≡ rl.snapshot
    pub resized : size out ≡ prev + 1 + length es
    pub kept : (i : ℕ) → i ≤ prev → at out i ≡ at rl i
    pub added : (j : ℕ) → at out (prev + 1 + j) ≡ get_elem? es j
    pub anchored : IsWellFormed out

  module _ (rl : RaftLog C) (prev : ℕ) (es : List (LogEntry C)) where
    abbrev front : List (LogEntry C)
    front = take (prev - rl.snap_last_idx + 1) rl.tail_log

    length-front :
        rl.snap_last_idx ≤ prev → prev < size rl → rl.snap_last_idx + length front ≡ prev + 1
    length-front h k =
        omega (arith, length-take (prev - rl.snap_last_idx + 1) rl.tail_log (omega arith))

    cut-IsAppended :
        IsWellFormed rl
        → rl.snap_last_idx ≤ prev
        → prev < size rl
        → IsAppended rl prev es (cut rl prev es)
    cut-IsAppended w h k = record {
      base = refl;
      base_term = refl;
      same_snapshot = refl;
      resized = omega (arith, length-front h k, length-append front es);
      kept = λ i le. ground (
        arith,
        at_lem (cut rl prev es) i,
        at_lem rl i,
        length-front h k,
        get_elem?-append_left front es (i - rl.snap_last_idx),
        get_elem?-take (prev - rl.snap_last_idx + 1) rl.tail_log (i - rl.snap_last_idx),
      );
      added = λ j.
          let e : prev + 1 + j - rl.snap_last_idx - length front ≡ j =
            omega (arith, length-front h k) in
          ground (
            arith,
            at_lem (cut rl prev es) (prev + 1 + j),
            length-front h k,
            get_elem?-append_right front es (prev + 1 + j - rl.snap_last_idx),
            e,
          );
      anchored =
          IsAnchored-append rl.snap_last_term front es
            (IsAnchored-take rl.snap_last_term (prev - rl.snap_last_idx) rl.tail_log w);
    }

  pub append_from_lem :
      (rl : RaftLog C) (prev : ℕ) (es : List (LogEntry C)) (out : RaftLog C)
      → IsWellFormed rl
      → append_from rl prev es ≡ some out
      → IsAppended rl prev es out
  append_from_lem rl prev es out w h =
      let (low, high, same) = append_from-inverse rl prev es out h in
      subst (IsAppended rl prev es) same (cut-IsAppended rl prev es w low high)

  pub append_from-some :
      (rl : RaftLog C) (prev : ℕ) (es : List (LogEntry C))
      → IsWellFormed rl
      → rl.snap_last_idx ≤ prev
      → prev < size rl
      → (out : RaftLog C) × (append_from rl prev es ≡ some out) × IsAppended rl prev es out
  append_from-some rl prev es w h k =
      (cut rl prev es, append_from-total rl prev es h k, cut-IsAppended rl prev es w h k)

  -- `tail` never panics: a start below the snapshot is moved up to it.
  pub tail_lem :
      (rl : RaftLog C) (start : ℕ)
      → rl.snap_last_idx ≤ start
      → (es : List (LogEntry C)) × (tail rl start ≡ some es)
        × (start + length es ≡ max start (size rl))
        × ((j : ℕ) → get_elem? es j ≡ at rl (start + j))
  unfolding tail
  tail_lem rl start h = elim (Bool-cases (leb (size rl) start)) [
    | inl past ↦ (
      [],
      ground arith,
      ground arith,
      λ j. ground (
        arith,
        at_lem rl (start + j),
        get_elem?-above rl.tail_log (start + j - rl.snap_last_idx),
      ),
    )
    | inr inside ↦ (
      drop (start - rl.snap_last_idx) rl.tail_log,
      ground arith,
      ground (arith, length-drop (start - rl.snap_last_idx) rl.tail_log),
      λ j.
          let e : start - rl.snap_last_idx + j ≡ start + j - rl.snap_last_idx = omega arith in
          ground (
            arith,
            at_lem rl (start + j),
            get_elem?-drop (start - rl.snap_last_idx) rl.tail_log j,
            e,
          ),
    )
  ]

  abbrev pub Replicates : RaftLog C → RaftLog C → ℕ → Type 0
  Replicates leader follower prev =
      (es : List (LogEntry C)) × (out : RaftLog C) × (tail leader (prev + 1) ≡ some es)
      × (append_from follower prev es ≡ some out)
      × (size out ≡ size leader)
      × ((i : ℕ) → prev < i → at out i ≡ at leader i)
      × ((i : ℕ) → i ≤ prev → at out i ≡ at follower i)

  -- Replication: a follower that appends what the leader cut out of its log after `prev` has, from
  -- there on, the leader's log, and keeps its own up to `prev`.
  pub append_from-tail :
      (leader follower : RaftLog C) (prev : ℕ)
      → IsWellFormed follower
      → leader.snap_last_idx ≤ prev
      → prev < size leader
      → follower.snap_last_idx ≤ prev
      → prev < size follower
      → Replicates leader follower prev
  append_from-tail leader follower prev w ll lh fl fh =
      let (es, sent, len, reads) = tail_lem leader (prev + 1) (omega arith) in
      let done = cut-IsAppended follower prev es w fl fh in
      (
        es,
        cut follower prev es,
        sent,
        append_from-total follower prev es fl fh,
        omega (arith, done.resized),
        (λ i lt.
            let e : prev + 1 + (i - (prev + 1)) ≡ i = omega arith in
            ground (arith, done.added (i - (prev + 1)), reads (i - (prev + 1)), e)),
        done.kept,
      )
