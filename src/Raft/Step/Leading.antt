-- ===== src/Raft/Step/Leading.antt =====
-- Replication makes no leader and no candidate: src/raft/raft_replication.go.
use multi_raft.Common.{
  ℕ, zero, suc, ◌+◌, ◌≡◌, inl, inr, Bool, Option, none, some, List, arith, nat_key, string_key,
  Option-cases, >>=-eq-some, assign,
}
use multi_raft.Raft.Election.{reset_election_timer}
use multi_raft.Raft.Peer.{candidate, leader, Raft, persist_locked, become_follower}
use multi_raft.Raft.Replication.{
  AppendEntriesArgs, AppendEntriesReply, Request, accepted, accept, follow, append_entries,
  advance_commit, handle_refusal, handle_success, handle_append_reply, replicate_to, replicate_loop,
  start_replication,
}

module _ {C : Type 0} where
  -- A candidate has voted for itself.
  abbrev pub IsStanding : Raft C → Type 0
  IsStanding rf = rf.role ≡ candidate → rf.voted_for ≡ some rf.me

  abbrev pub IsQuiet : Raft C → Raft C → Type 0
  IsQuiet rf rf' =
      (rf'.role ≡ leader → (rf.role ≡ leader) × (rf'.current_term ≡ rf.current_term))
      × (IsStanding rf → IsStanding rf')

  -- The same role, term and vote.
  abbrev IsSame : Raft C → Raft C → Type 0
  IsSame rf rf' =
      (rf'.role ≡ rf.role)
      × (rf'.current_term ≡ rf.current_term)
      × (rf'.voted_for ≡ rf.voted_for)
      × (rf'.me ≡ rf.me)

  follower-IsQuiet : (rf : Raft C) (term : ℕ) → IsQuiet rf (become_follower rf term)
  unfolding become_follower persist_locked
  follower-IsQuiet rf term = (λ l. ground arith, λ s c. ground arith)

  follow-IsSame :
      (rf : Raft C) (term : ℕ) (args : AppendEntriesArgs C) (out : Raft C × AppendEntriesReply)
      → follow rf term args ≡ some out
      → IsSame rf out.0
  unfolding follow accept accepted persist_locked
  follow-IsSame rf term args out h = ground arith

  pub appends-IsQuiet :
      (rf rf' : Raft C) (args : AppendEntriesArgs C) (now random : ℕ) (reply : AppendEntriesReply)
      → append_entries rf args now random ≡ some (rf', reply)
      → IsQuiet rf rf'
  unfolding append_entries become_follower persist_locked reset_election_timer
  appends-IsQuiet rf rf' args now random reply h =
      let same = follow-IsSame (become_follower rf args.term) rf.current_term args in
      elim (Option-cases (follow (become_follower rf args.term) rf.current_term args)) [
        | inl stuck ↦ (λ l. ground arith, λ s c. ground arith)
        | inr (out, went) ↦
            (λ l. ground (arith, same out went), λ s c. ground (arith, same out went))
      ]

  advance-IsSame : (rf rf' : Raft C) → advance_commit rf ≡ some rf' → IsSame rf rf'
  unfolding advance_commit
  advance-IsSame rf rf' h = ground arith

  success-IsQuiet :
      (rf rf' : Raft C) (peer : ℕ) (args : AppendEntriesArgs C)
      → handle_success rf peer args ≡ some rf'
      → IsQuiet rf rf'
  unfolding handle_success
  success-IsQuiet rf rf' peer args h =
      let (matched, e, h₁) = >>=-eq-some (assign rf.match_index peer _) _ h in
      let (next, e', h₂) = >>=-eq-some (assign rf.next_index peer _) _ h₁ in
      let same = advance-IsSame (record rf { match_index = matched; next_index = next }) rf' h₂ in
      (λ l. ground arith, λ s c. ground arith)

  refusal-IsQuiet :
      (rf rf' : Raft C) (peer : ℕ) (reply : AppendEntriesReply)
      → handle_refusal rf peer reply ≡ some rf'
      → IsQuiet rf rf'
  unfolding handle_refusal
  refusal-IsQuiet rf rf' peer reply h = (λ l. ground arith, λ s c. ground arith)

  pub gets_append-IsQuiet :
      (rf rf' : Raft C) (peer term : ℕ) (args : AppendEntriesArgs C)
      (reply : Option AppendEntriesReply)
      → handle_append_reply rf peer term args reply ≡ some rf'
      → IsQuiet rf rf'
  unfolding handle_append_reply
  gets_append-IsQuiet rf rf' peer term args none h = (λ l. ground arith, λ s c. ground arith)
  gets_append-IsQuiet rf rf' peer term args (some reply) h = (
    λ l. ground (
      arith,
      success-IsQuiet rf rf' peer args,
      refusal-IsQuiet rf rf' peer reply,
      follower-IsQuiet rf reply.term,
    ),
    λ s c. ground (
      arith,
      success-IsQuiet rf rf' peer args,
      refusal-IsQuiet rf rf' peer reply,
      follower-IsQuiet rf reply.term,
    ),
  )

  replicate_to-IsSame :
      (rf : Raft C) (peer : ℕ) (out : Raft C × List (ℕ × Request C))
      → replicate_to rf peer ≡ some out
      → IsSame rf out.0
  unfolding replicate_to
  replicate_to-IsSame rf peer out h = ground arith

  replicate_loop-IsSame :
      (rf : Raft C) (left peer : ℕ) (out : Raft C × List (ℕ × Request C))
      → replicate_loop rf left peer ≡ some out
      → IsSame rf out.0
  unfolding replicate_loop
  replicate_loop-IsSame rf zero peer out h = ground arith
  replicate_loop-IsSame rf (suc left) peer out h =
      let (o, e, h₁) = >>=-eq-some (replicate_to rf peer) _ h in
      let (o', e', h₂) = >>=-eq-some (replicate_loop o.0 left (peer + 1)) _ h₁ in
      ground (
        arith,
        replicate_to-IsSame rf peer o e,
        replicate_loop-IsSame o.0 left (peer + 1) o' e',
        h₂,
      )

  pub replicates-IsQuiet :
      (rf rf' : Raft C) (term : ℕ) (going : Bool) (sent : List (ℕ × Request C))
      → start_replication rf term ≡ some (rf', going, sent)
      → IsQuiet rf rf'
  unfolding start_replication
  replicates-IsQuiet rf rf' term going sent h =
      let same = replicate_loop-IsSame rf rf.peers 0 in
      elim (Option-cases (replicate_loop rf rf.peers 0)) [
        | inl stuck ↦ (λ l. ground arith, λ s c. ground arith)
        | inr (out, went) ↦
            (λ l. ground (arith, same out went), λ s c. ground (arith, same out went))
      ]
