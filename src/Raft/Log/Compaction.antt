-- ===== src/Raft/Log/Compaction.antt =====
-- `doSnapshot` and `installSnapshot` of src/raft/raft_log.go.
use Prim.Native.Nat.{max}
use multi_raft.Common.{
  ℕ, suc, ◌+◌, ◌-◌, ◌≤◌, ◌<◌, ◌≡◌, refl, ◌⊎◌, inl, inr, some, [], ◌∷◌, arith, ltb, leb, Bool-cases,
  drop, length-drop, get_elem?-above, get_elem?-drop,
}
use multi_raft.Raft.Log.{
  LogEntry, installed, install_snapshot, do_snapshot, Bytes, RaftLog, mock, size, at, IsWellFormed,
}
use multi_raft.Raft.Log.Reads.{at_lem, at-from, at-total}

module _ {C : Type 0} where
  -- What a compaction at `index` leaves: the snapshot at its index and term, behind it the old
  -- entries, and the same size.
  pub record IsCompacted (rl : RaftLog C) (index term : ℕ) (snapshot : Bytes) (out : RaftLog C)
      : Type 0 where
    pub base : out.snap_last_idx ≡ index
    pub base_term : out.snap_last_term ≡ term
    pub stored : out.snapshot ≡ snapshot
    pub mocked : at out index ≡ some (mock term)
    pub anchored : IsWellFormed out
    pub kept : (i : ℕ) → index < i → at out i ≡ at rl i

  module _ (rl : RaftLog C) (index term : ℕ) (snapshot : Bytes) where
    after : RaftLog C
    after = record {
      snap_last_idx = index;
      snap_last_term = term;
      snapshot = snapshot;
      tail_log = mock term ∷ drop (index - rl.snap_last_idx + 1) rl.tail_log;
    }

    after-at : (i : ℕ) → rl.snap_last_idx ≤ index → index < i → at after i ≡ at rl i
    unfolding after
    after-at i h lt =
        let e : index - rl.snap_last_idx + 1 + (i - index - 1) ≡ i - rl.snap_last_idx =
          omega arith in
        let s : i - index ≡ suc (i - index - 1) = omega arith in
        ground (
          arith,
          at_lem after i,
          at_lem rl i,
          e,
          s,
          get_elem?-drop (index - rl.snap_last_idx + 1) rl.tail_log (i - index - 1),
        )

    after-IsCompacted : rl.snap_last_idx ≤ index → IsCompacted rl index term snapshot after
    unfolding after
    after-IsCompacted h = record {
      base = refl;
      base_term = refl;
      stored = refl;
      mocked = ground (arith, at_lem after index);
      anchored = refl;
      kept = λ i lt. after-at i h lt;
    }

    size-after : rl.snap_last_idx ≤ index → index < size rl → size after ≡ size rl
    unfolding after
    size-after h k = omega (arith, length-drop (index - rl.snap_last_idx + 1) rl.tail_log)

  abbrev pub Snapshots : RaftLog C → ℕ → Bytes → Type 0
  Snapshots rl index snapshot =
      (out : RaftLog C) × (do_snapshot rl index snapshot ≡ some out)
      × IsWellFormed out
      × (size out ≡ size rl)
      × (((index ≤ rl.snap_last_idx) ⊎ (size rl ≤ index)) × (out ≡ rl)
          ⊎ ((e : LogEntry C) × (at rl index ≡ some e) × IsCompacted rl index e.term snapshot out))

  -- `doSnapshot` never panics. It keeps the size of the log, and every entry behind `index`; an
  -- index at or below the last snapshot, or past the log, changes nothing.
  pub do_snapshot_lem :
      (rl : RaftLog C) (index : ℕ) (snapshot : Bytes)
      → IsWellFormed rl
      → Snapshots rl index snapshot
  unfolding do_snapshot
  do_snapshot_lem rl index snapshot w = elim (Bool-cases (leb index rl.snap_last_idx)) [
    | inl old ↦ (rl, ground arith, w, refl, inl (ground arith, refl))
    | inr new ↦ elim (Bool-cases (leb (size rl) index)) [
      | inl past ↦ (rl, ground arith, w, refl, inl (ground arith, refl))
      | inr inside ↦
          let (e, read) = at-total rl index (ground arith) (ground arith) in
          (
            after rl index e.term snapshot,
            unfold after in ground (arith, at-from rl index),
            unfold after in refl,
            size-after rl index e.term snapshot (ground arith) (ground arith),
            inr (e, read, after-IsCompacted rl index e.term snapshot (ground arith)),
          )
    ]
  ]

  bare-IsCompacted :
      (rl : RaftLog C) (index term : ℕ) (snapshot : Bytes)
      → size rl ≤ index + 1
      → IsCompacted rl index term snapshot (installed index term snapshot [])
  unfolding installed
  bare-IsCompacted rl index term snapshot h =
      let out : RaftLog C = installed index term snapshot [] in
      record {
        base = refl;
        base_term = refl;
        stored = refl;
        mocked = ground (arith, at_lem out index);
        anchored = refl;
        kept = λ i lt. ground (
          arith,
          at_lem out i,
          at_lem rl i,
          get_elem?-above out.tail_log (i - index),
          get_elem?-above rl.tail_log (i - rl.snap_last_idx),
        );
      }

  abbrev pub Installs : RaftLog C → ℕ → ℕ → Bytes → Type 0
  Installs rl index term snapshot =
      (out : RaftLog C) × (install_snapshot rl index term snapshot ≡ some out)
      × IsWellFormed out
      × ((index ≤ rl.snap_last_idx) × (out ≡ rl)
          ⊎ (rl.snap_last_idx < index)
            × IsCompacted rl index term snapshot out
            × (size out ≡ max (index + 1) (size rl)))

  -- `installSnapshot` never panics. A snapshot that is not newer changes nothing; a newer one
  -- becomes the base of the log, which keeps exactly the old entries behind it.
  pub install_snapshot_lem :
      (rl : RaftLog C) (index term : ℕ) (snapshot : Bytes)
      → IsWellFormed rl
      → Installs rl index term snapshot
  unfolding install_snapshot installed
  install_snapshot_lem rl index term snapshot w = elim (Bool-cases (leb index rl.snap_last_idx)) [
    | inl old ↦ (rl, ground arith, w, inl (ground arith, refl))
    | inr new ↦ elim (Bool-cases (ltb (index + 1) (size rl))) [
      | inl inside ↦ (
        after rl index term snapshot,
        unfold after in ground arith,
        unfold after in refl,
        inr (
          ground arith,
          after-IsCompacted rl index term snapshot (ground arith),
          ground (arith, size-after rl index term snapshot),
        ),
      )
      | inr past ↦ (
        installed index term snapshot [],
        ground arith,
        refl,
        inr (ground arith, bare-IsCompacted rl index term snapshot (ground arith), ground arith),
      )
    ]
  ]
