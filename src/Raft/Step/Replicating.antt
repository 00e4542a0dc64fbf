-- ===== src/Raft/Step/Replicating.antt =====
-- The handlers of src/raft/raft_replication.go keep the invariant.
use multi_raft.Common.{
  length-assign, ℕ, zero, suc, ◌+◌, ◌-◌, ◌≡◌, ap, ◌∙◌, inl, inr, Bool, Option, none, some, List,
  arith, Option-cases, >>=-eq-some, length, get_elem?, assign, length-set,
}
use multi_raft.Raft.Election.{reset_election_timer}
use multi_raft.Raft.Log.{size, append_from}
use multi_raft.Raft.Log.Replication.{append_from_lem}
use multi_raft.Raft.Peer.{Raft, become_follower}
use multi_raft.Raft.Replication.{
  AppendEntriesArgs, AppendEntriesReply, Request, accept, follow, append_entries, advance_commit,
  probe, handle_refusal, handle_success, handle_append_reply, replicate_to, replicate_loop,
  start_replication,
}
use multi_raft.Raft.Step.Invariant.{
  Inv, Kept, Kept-self, Kept-trans, persist_log-Kept, become_follower-Kept,
}

module _ {C : Type 0} where
  accept-Kept :
      (rf rf' : Raft C) (term : ℕ) (args : AppendEntriesArgs C) (reply : AppendEntriesReply)
      → Inv rf
      → accept rf term args ≡ some (rf', reply)
      → Kept rf rf'
  unfolding accept
  accept-Kept rf rf' term args reply v h =
      let (log, done, rest) =
        >>=-eq-some (append_from rf.log args.prev_log_index args.entries) _ h in
      let out = append_from_lem rf.log args.prev_log_index args.entries log v.formed done in
      ground (arith, persist_log-Kept rf log v out.anchored)

  follow-Kept :
      (rf rf' : Raft C) (term : ℕ) (args : AppendEntriesArgs C) (reply : AppendEntriesReply)
      → Inv rf
      → follow rf term args ≡ some (rf', reply)
      → Kept rf rf'
  unfolding follow
  follow-Kept rf rf' term args reply v h =
      ground (arith, Kept-self v, accept-Kept rf rf' term args reply v)

  reset-Kept :
      (rf : Raft C) (now random : ℕ) → Inv rf → Kept rf (reset_election_timer rf now random)
  unfolding reset_election_timer
  reset-Kept rf now random v = ground arith

  follow_reset-Kept :
      (rf out : Raft C) (args : AppendEntriesArgs C) (now random : ℕ) (reply : AppendEntriesReply)
      → Inv rf
      → follow (become_follower rf args.term) rf.current_term args ≡ some (out, reply)
      → Kept rf (reset_election_timer out now random)
  follow_reset-Kept rf out args now random reply v h =
      Kept-trans (become_follower-Kept rf args.term v) λ w.
        Kept-trans (follow-Kept (become_follower rf args.term) out rf.current_term args reply w h)
          (reset-Kept out now random)

  pub append_entries-Kept :
      (rf rf' : Raft C) (args : AppendEntriesArgs C) (now random : ℕ) (reply : AppendEntriesReply)
      → Inv rf
      → append_entries rf args now random ≡ some (rf', reply)
      → Kept rf rf'
  unfolding append_entries
  append_entries-Kept rf rf' args now random reply v h =
      elim (Option-cases (follow (become_follower rf args.term) rf.current_term args)) [
        | inl stuck ↦ ground (arith, Kept-self v)
        | inr ((out, answer), went) ↦
            ground (arith, Kept-self v, follow_reset-Kept rf out args now random answer v went)
      ]

  -- New views of the peers, of the old length.
  views-Kept :
      (rf : Raft C) (next match' : List ℕ)
      → Inv rf
      → length next ≡ rf.peers
      → length match' ≡ rf.peers
      → Kept rf (record rf { next_index = next; match_index = match' })
  views-Kept rf next match' v h k = ground arith

  advance_commit-Kept : (rf rf' : Raft C) → Inv rf → advance_commit rf ≡ some rf' → Kept rf rf'
  unfolding advance_commit
  advance_commit-Kept rf rf' v h = ground (arith, Kept-self v)

  handle_success-Kept :
      (rf rf' : Raft C) (peer : ℕ) (args : AppendEntriesArgs C)
      → Inv rf
      → handle_success rf peer args ≡ some rf'
      → Kept rf rf'
  unfolding handle_success
  handle_success-Kept rf rf' peer args v h =
      let matched = args.prev_log_index + length args.entries in
      let (match', one, rest) = >>=-eq-some (assign rf.match_index peer matched) _ h in
      let (next, two, done) = >>=-eq-some (assign rf.next_index peer (matched + 1)) _ rest in
      Kept-trans
        (views-Kept rf next match' v
          (length-assign rf.next_index next peer (matched + 1) two ∙ v.next_slots)
          (length-assign rf.match_index match' peer matched one ∙ v.match_slots))
        λ w. advance_commit-Kept (record rf { next_index = next; match_index = match' }) rf' w done

  handle_refusal-Kept :
      (rf rf' : Raft C) (peer : ℕ) (reply : AppendEntriesReply)
      → Inv rf
      → handle_refusal rf peer reply ≡ some rf'
      → Kept rf rf'
  unfolding handle_refusal
  handle_refusal-Kept rf rf' peer reply v h = elim (Option-cases (get_elem? rf.next_index peer)) [
    | inl missing ↦ ground arith
    | inr (old, there) ↦ ground (arith, length-set rf.next_index peer (probe rf old reply))
  ]

  pub handle_append_reply-Kept :
      (rf rf' : Raft C) (peer term : ℕ) (args : AppendEntriesArgs C)
      (reply : Option AppendEntriesReply)
      → Inv rf
      → handle_append_reply rf peer term args reply ≡ some rf'
      → Kept rf rf'
  unfolding handle_append_reply
  handle_append_reply-Kept rf rf' peer term args none v h = ground (arith, Kept-self v)
  handle_append_reply-Kept rf rf' peer term args (some reply) v h = ground (
    arith,
    Kept-self v,
    become_follower-Kept rf reply.term v,
    handle_success-Kept rf rf' peer args v,
    handle_refusal-Kept rf rf' peer reply v,
  )

  replicate_to-Kept :
      (rf rf' : Raft C) (peer : ℕ) (sent : List (ℕ × Request C))
      → Inv rf
      → replicate_to rf peer ≡ some (rf', sent)
      → Kept rf rf'
  unfolding replicate_to
  replicate_to-Kept rf rf' peer sent v h = ground (
    arith,
    Kept-self v,
    length-set rf.match_index peer (size rf.log - 1),
    length-set rf.next_index peer (size rf.log),
  )

  replicate_loop-Kept :
      (rf rf' : Raft C) (left peer : ℕ) (sent : List (ℕ × Request C))
      → Inv rf
      → replicate_loop rf left peer ≡ some (rf', sent)
      → Kept rf rf'
  unfolding replicate_loop
  replicate_loop-Kept rf rf' zero peer sent v h = ground (arith, Kept-self v)
  replicate_loop-Kept rf rf' (suc left) peer sent v h =
      let ((out, first), one, rest) = >>=-eq-some (replicate_to rf peer) _ h in
      let ((out', more), others, done) = >>=-eq-some (replicate_loop out left (peer + 1)) _ rest in
      let e : out' ≡ rf' = cc in
      Kept-trans (replicate_to-Kept rf out peer first v one) λ w.
        replicate_loop-Kept out rf' left (peer + 1) more w
          (others ∙ ap (λ (r : Raft C). some (r, more)) e)

  pub start_replication-Kept :
      (rf rf' : Raft C) (term : ℕ) (going : Bool) (sent : List (ℕ × Request C))
      → Inv rf
      → start_replication rf term ≡ some (rf', going, sent)
      → Kept rf rf'
  unfolding start_replication
  start_replication-Kept rf rf' term going sent v h =
      ground (arith, Kept-self v, replicate_loop-Kept rf rf' rf.peers 0 sent v)
