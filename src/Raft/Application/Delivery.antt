-- ===== src/Raft/Application/Delivery.antt =====
-- What one round of the apply loop of src/raft/raft_application.go sends.
use Prim.Native.Nat.{min, max}
use multi_raft.Common.{
  ℕ, zero, suc, ◌+◌, ◌-◌, ◌≤◌, ◌<◌, ◌≡◌, refl, sym, ap, ◌∙◌, false, some, List, [], ◌∷◌, arith,
  length, get_elem?,
}
use multi_raft.Raft.Application.{
  skip_snapshot, command_msg, read_entries, apply_end, collect, command_msgs, messages, finish,
}
use multi_raft.Raft.Log.{LogEntry, RaftLog, size, at, IsWellFormed}
use multi_raft.Raft.Log.Reads.{at-total, IsWellFormed-size}
use multi_raft.Raft.Peer.{Raft}

module _ {C : Type 0} where
  read_entries_lem :
      (rl : RaftLog C) (left i : ℕ)
      → rl.snap_last_idx ≤ i
      → i + left ≤ max i (size rl)
      → (es : List (LogEntry C)) × (read_entries rl left i ≡ some es)
        × (length es ≡ left)
        × ((k : ℕ) → k < left → get_elem? es k ≡ at rl (i + k))
  unfolding read_entries
  read_entries_lem rl zero i h fits = ([], refl, refl, λ k lt. absurd (omega arith))
  read_entries_lem rl (suc left) i h fits =
      let (e, read) = at-total rl i h (omega arith) in
      let (es, more, len, reads) = read_entries_lem rl left (i + 1) (omega arith) (omega arith) in
      (
        e ∷ es,
        rw (read, more),
        omega (arith, len),
        elim [
          | zero ↦ λ lt. let z : i + 0 ≡ i = omega arith in rw z (sym read)
          | suc k ↦
              λ lt. let z : i + suc k ≡ i + 1 + k = omega arith in rw z (reads k (omega arith))
        ],
      )

  get_elem?-command_msgs :
      (es : List (LogEntry C)) (i k : ℕ) (e : LogEntry C)
      → get_elem? es k ≡ some e
      → get_elem? (command_msgs es i) k ≡ some (command_msg e.command_valid e.command (i + k))
  unfolding command_msgs
  get_elem?-command_msgs [] i k e h = absurd (cc)
  get_elem?-command_msgs (d ∷ es) i zero e h = ground arith
  get_elem?-command_msgs (d ∷ es) i (suc k) e h =
      ground (arith, get_elem?-command_msgs es (i + 1) k e h)

  length-command_msgs : (es : List (LogEntry C)) (i : ℕ) → length (command_msgs es i) ≡ length es
  unfolding command_msgs
  length-command_msgs [] i = refl
  length-command_msgs (e ∷ es) i = ap suc (length-command_msgs es (i + 1))

  -- The first index that is applied is the one after `done`, the last is `last_idx`.
  pub record IsDelivered (rf : Raft C) (done last_idx : ℕ) (es : List (LogEntry C)) (rf' : Raft C)
      : Type 0 where
    pub counted : length (messages rf' false es) + done ≡ max done last_idx
    pub in_order :
        (k : ℕ) (e : LogEntry C)
        → done + 1 + k ≤ last_idx
        → at rf.log (done + 1 + k) ≡ some e
        → get_elem? (messages rf' false es) k
          ≡ some (command_msg e.command_valid e.command (done + 1 + k))
    pub applied : (finish rf' false es).last_applied ≡ max done last_idx
    pub same_log : (finish rf' false es).log ≡ rf.log

  collect-reads :
      (rf : Raft C) (es : List (LogEntry C))
      → rf.snap_pending ≡ false
      → (let rf' = skip_snapshot rf in
          read_entries rf'.log (apply_end rf' - rf'.last_applied) (rf'.last_applied + 1) ≡ some es)
      → collect rf ≡ some (skip_snapshot rf, es)
  unfolding collect
  collect-reads rf es quiet read = rw read (simp quiet)

  abbrev pub Delivers : Raft C → Type 0
  Delivers rf =
      (rf' : Raft C) × (es : List (LogEntry C)) × (collect rf ≡ some (rf', es))
      × IsDelivered rf (max rf.last_applied rf.log.snap_last_idx)
          (min rf.commit_index (size rf.log - 1)) es rf'

  -- A round of the apply loop with no snapshot pending never panics. It sends, in order and without
  -- a gap, the entries behind what was applied or is in the snapshot, up to the commit index or
  -- the end of the log, each with its own index; and that far it counts as applied.
  pub collect-Delivers : (rf : Raft C) → IsWellFormed rf.log → rf.snap_pending ≡ false → Delivers rf
  collect-Delivers rf w quiet =
      let rf' = skip_snapshot rf in
      let start : rf'.last_applied ≡ max rf.last_applied rf.log.snap_last_idx =
        unfold skip_snapshot in ground arith in
      let same : rf'.log ≡ rf.log = unfold skip_snapshot in refl in
      let stop : apply_end rf' ≡ min rf.commit_index (size rf.log - 1) =
        unfold skip_snapshot apply_end in ground (arith, IsWellFormed-size rf.log w) in
      let sized : size rf'.log ≡ size rf.log = unfold skip_snapshot in refl in
      let based : rf'.log.snap_last_idx ≡ rf.log.snap_last_idx = unfold skip_snapshot in refl in
      let (es, read, len, reads) =
        read_entries_lem rf'.log (apply_end rf' - rf'.last_applied) (rf'.last_applied + 1)
          (omega (arith, based, start))
          (omega (arith, stop, start, sized, IsWellFormed-size rf.log w)) in
      (
        rf',
        es,
        collect-reads rf es quiet read,
        record {
          counted =
              unfold messages in
              omega (arith, length-command_msgs es (rf'.last_applied + 1), len, start, stop);
          in_order = λ k e last read_k.
              let at_k : rf'.last_applied + 1 + k
                  ≡ max rf.last_applied rf.log.snap_last_idx + 1 + k =
                omega (arith, start) in
              let there : get_elem? es k ≡ some e =
                reads k (omega (arith, start, stop))
                ∙ ap (at rf'.log) at_k
                ∙ ap (λ (l : RaftLog C). at l (max rf.last_applied rf.log.snap_last_idx + 1 + k))
                    same
                ∙ read_k in
              unfold messages in
              get_elem?-command_msgs es (rf'.last_applied + 1) k e there
              ∙ ap (λ n. some (command_msg e.command_valid e.command n)) at_k;
          applied = unfold finish in omega (arith, len, start, stop);
          same_log = unfold finish in same;
        },
      )
