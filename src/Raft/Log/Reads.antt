-- ===== src/Raft/Log/Reads.antt =====
-- What the access methods of src/raft/raft_log.go return: `at`, `last`, `firstFor`.
use multi_raft.Common.{
  ℕ, zero, suc, ◌+◌, ◌-◌, ◌≤◌, ◌<◌, ◌≡◌, refl, ◌≢◌, inl, inr, none, some, List, [], ◌∷◌, arith, ltb,
  ◌==◌, if◌then◌else◌, Bool-cases, length, get_elem?, get_or, All, get_elem?-below, get_elem?-above,
  All-get,
}
use multi_raft.Raft.Log.{
  invalid_index, LogEntry, RaftLog, mock, size, at, last, first_for_loop, first_for, IsAnchored,
  IsWellFormed,
}

module _ {C : Type 0} where
  -- `at` is a read of the tail, shifted by the snapshot's index; below that index it panics.
  pub at_lem :
      (rl : RaftLog C) (i : ℕ)
      → at rl i
        ≡ (if ltb i rl.snap_last_idx then none else get_elem? rl.tail_log (i - rl.snap_last_idx))
  unfolding at
  at_lem rl i = ground (arith, get_elem?-above rl.tail_log (i - rl.snap_last_idx))

  pub at-from :
      (rl : RaftLog C) (i : ℕ)
      → rl.snap_last_idx ≤ i
      → at rl i ≡ get_elem? rl.tail_log (i - rl.snap_last_idx)
  at-from rl i h = ground (arith, at_lem rl i)

  -- In range it does not panic.
  pub at-total :
      (rl : RaftLog C) (i : ℕ)
      → rl.snap_last_idx ≤ i
      → i < size rl
      → (e : LogEntry C) × (at rl i ≡ some e)
  at-total rl i h k =
      let (e, found) = get_elem?-below rl.tail_log (i - rl.snap_last_idx) (omega arith) in
      (e, ground (arith, at-from rl i h))

  pub at-bounds :
      (rl : RaftLog C) (i : ℕ) (e : LogEntry C)
      → at rl i ≡ some e
      → (rl.snap_last_idx ≤ i) × (i < size rl)
  unfolding at
  at-bounds rl i e h = ground arith

  get_or-get_elem? :
      (es : List (LogEntry C)) (i : ℕ) (d : LogEntry C)
      → i < length es
      → get_elem? es i ≡ some (get_or es i d)
  get_or-get_elem? [] i d h = absurd (omega arith)
  get_or-get_elem? (e ∷ es) zero d h = refl
  get_or-get_elem? (e ∷ es) (suc i) d h = get_or-get_elem? es i d (omega arith)

  IsAnchored-length : (t : ℕ) (es : List (LogEntry C)) → IsAnchored t es → 0 < length es
  IsAnchored-length t [] h = absurd h
  IsAnchored-length t (e ∷ es) h = omega arith

  pub IsWellFormed-size : (rl : RaftLog C) → IsWellFormed rl → rl.snap_last_idx < size rl
  IsWellFormed-size rl w = omega (arith, IsAnchored-length rl.snap_last_term rl.tail_log w)

  -- The last index is `size - 1`, and the last term is the one of the entry there.
  pub last_lem :
      (rl : RaftLog C)
      → IsWellFormed rl
      → ((last rl).0 + 1 ≡ size rl)
        × ((e : LogEntry C) × (at rl (last rl).0 ≡ some e) × ((last rl).1 ≡ e.term))
  unfolding last
  last_lem rl w = (
    ground (arith, IsWellFormed-size rl w),
    (
      get_or rl.tail_log (length rl.tail_log - 1) (mock rl.snap_last_term),
      ground (
        arith,
        IsWellFormed-size rl w,
        at-from rl (last rl).0,
        get_or-get_elem? rl.tail_log (length rl.tail_log - 1) (mock rl.snap_last_term),
      ),
      ground (arith, IsWellFormed-size rl w),
    ),
  )

  -- All entries before position `k` have terms below `t`.
  abbrev pub AllBelow : ℕ → ℕ → List (LogEntry C) → Type 0
  AllBelow t k es = (j : ℕ) (d : LogEntry C) → j < k → get_elem? es j ≡ some d → d.term < t

  AllBelow-cons :
      (t k : ℕ) (e : LogEntry C) (es : List (LogEntry C))
      → e.term < t
      → AllBelow t k es
      → AllBelow t (suc k) (e ∷ es)
  AllBelow-cons t k e es lt below zero d _ h = ground arith
  AllBelow-cons t k e es lt below (suc j) d jk h = below j d (omega arith) h

  -- `es` has its first entry of term `t` at position `k`.
  abbrev pub FirstAt : ℕ → ℕ → List (LogEntry C) → Type 0
  FirstAt t k es = (e : LogEntry C) × (get_elem? es k ≡ some e) × (e.term ≡ t) × AllBelow t k es

  -- `firstFor`, from position `i` on: an answer other than 0 is the first entry of term `t`.
  first_for_loop_found :
      (base t i : ℕ) (es : List (LogEntry C))
      → first_for_loop base t i es ≢ invalid_index
      → (k : ℕ) × (first_for_loop base t i es ≡ i + k + base) × FirstAt t k es
  unfolding first_for_loop
  first_for_loop_found base t i [] h = absurd (h refl)
  first_for_loop_found base t i (e ∷ es) h = elim (Bool-cases (e.term == t)) [
    | inl hit ↦ (0, ground arith, (e, refl, ground arith, λ j d lt _. absurd (omega arith)))
    | inr miss ↦ elim (Bool-cases (ltb t e.term)) [
      | inl over ↦ absurd (h (ground arith))
      | inr under ↦
          let (k, found, (d, here, same, below)) =
            first_for_loop_found base t (suc i) es (λ z. h (ground arith)) in
          (suc k, ground arith, (d, here, same, AllBelow-cons t k e es (ground arith) below))
    ]
  ]

  first_for_found :
      (rl : RaftLog C) (t : ℕ)
      → first_for rl t ≢ invalid_index
      → (k : ℕ) × (first_for rl t ≡ k + rl.snap_last_idx) × FirstAt t k rl.tail_log
  unfolding first_for
  first_for_found rl t h =
      let (k, found, first) = first_for_loop_found rl.snap_last_idx t 0 rl.tail_log h in
      (k, omega arith, first)

  -- The terms never fall along the log.
  abbrev pub IsAscending : List (LogEntry C) → Type 0
  IsAscending [] = Unit
  IsAscending (e ∷ es) = All (λ d. e.term ≤ d.term) es × IsAscending es

  -- In a log whose terms never fall, a term that occurs is found.
  first_for_loop_total :
      (base t i : ℕ) (es : List (LogEntry C)) (j : ℕ) (d : LogEntry C)
      → IsAscending es
      → get_elem? es j ≡ some d
      → d.term ≡ t
      → (k : ℕ) × (k ≤ j) × (first_for_loop base t i es ≡ i + k + base)
  unfolding first_for_loop
  first_for_loop_total base t i [] j d up h e = absurd (cc)
  first_for_loop_total base t i (x ∷ es) zero d up h e = (0, omega arith, ground arith)
  first_for_loop_total base t i (x ∷ es) (suc j) d up h e = elim (Bool-cases (x.term == t)) [
    | inl hit ↦ (0, omega arith, ground arith)
    | inr miss ↦
        let (k, le, found) = first_for_loop_total base t (suc i) es j d up.1 h e in
        (suc k, omega arith, ground (arith, All-get (λ y. x.term ≤ y.term) es j d up.0 h))
  ]

  first_for_total :
      (rl : RaftLog C) (t i : ℕ) (d : LogEntry C)
      → IsAscending rl.tail_log
      → at rl i ≡ some d
      → d.term ≡ t
      → (rl.snap_last_idx ≤ first_for rl t) × (first_for rl t ≤ i)
  unfolding first_for
  first_for_total rl t i d up h e =
      let b = at-bounds rl i d h in
      let (k, le, found) =
        first_for_loop_total rl.snap_last_idx t 0 rl.tail_log (i - rl.snap_last_idx) d up
          (ground (arith, at-from rl i b.0)) e in
      (omega arith, omega (arith, b.0))

  -- What `firstFor` answers for the term `t`.
  abbrev pub FindsFirst : RaftLog C → ℕ → Type 0
  FindsFirst rl t =
      (first_for rl t ≢ invalid_index
        → (k : ℕ) × (first_for rl t ≡ k + rl.snap_last_idx) × FirstAt t k rl.tail_log)
      × ((i : ℕ) (d : LogEntry C)
          → at rl i ≡ some d
          → d.term ≡ t
          → (rl.snap_last_idx ≤ first_for rl t) × (first_for rl t ≤ i))

  -- In a log whose terms never fall, an answer of `firstFor` other than 0 is the first position with
  -- the wanted term, behind entries of smaller terms; and a term that some entry has is answered with a
  -- position of the log, that of the entry or one before it.
  pub first_for_lem : (rl : RaftLog C) (t : ℕ) → IsAscending rl.tail_log → FindsFirst rl t
  first_for_lem rl t up = (first_for_found rl t, λ i d h e. first_for_total rl t i d up h e)
