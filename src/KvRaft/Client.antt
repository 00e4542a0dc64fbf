-- ===== src/KvRaft/Client.antt =====
-- src/kvraft/client.go: the clerk, on the outcomes of its calls.
use multi_raft.Common.{
  ◌≢◌, ◌⊎◌, inl, inr, none, length, All, All-mono, arith, ℕ, ◌+◌, ◌<◌, ◌≡◌, Bool, true, false,
  Option, some, List, String, nat_key, string_key, ◌>>=◌, get_elem?,
}
use multi_raft.KvRaft.Server.{GetArgs, PutAppendArgs}
use multi_raft.KvRaft.StateMachine.{wrong_leader, timeout, OpReply}
use multi_raft.Service.Clerks.{Clerk, server_at, IsRetried, keep_calling, call_once, call_once_lem}

unfoldable pub retries : OpReply → Bool
retries reply = elim reply.err [ wrong_leader ↦ true | timeout ↦ true | _ ↦ false ]

-- `Get`: the clerk and the value, once a call is answered.
unfoldable pub clerk_get : Clerk → String → List (Option OpReply) → Clerk × Option String
clerk_get ck key outcomes =
    let args : GetArgs = record { key = key } in
    let called = keep_calling retries ck args outcomes in
    (called.0, called.1 >>= λ reply. some reply.value)

-- The arguments of the call; the operation's name is "Put" or "Append".
unfoldable pub put_append_args : Clerk → String → String → String → PutAppendArgs
put_append_args ck key value op = record {
  key = key;
  value = value;
  op = op;
  client_id = ck.client_id;
  seq_id = ck.seq_id;
}

-- `PutAppend`: the clerk, whether it has returned, and the calls that it made, each with the server.
unfoldable pub put_append :
    Clerk
    → String
    → String
    → String
    → List (Option OpReply)
    → Clerk × Bool × List (ℕ × PutAppendArgs)
put_append ck key value op outcomes =
    call_once retries ck (put_append_args ck key value op) outcomes

unfoldable pub clerk_put :
    Clerk → String → String → List (Option OpReply) → Clerk × Bool × List (ℕ × PutAppendArgs)
clerk_put ck key value outcomes = put_append ck key value "Put" outcomes

unfoldable pub clerk_append :
    Clerk → String → String → List (Option OpReply) → Clerk × Bool × List (ℕ × PutAppendArgs)
clerk_append ck key value outcomes = put_append ck key value "Append" outcomes

-- A call that failed, or was answered by a server that does not lead or was too slow.
abbrev pub IsUnanswered : Option OpReply → Type 0
IsUnanswered none = Unit
IsUnanswered (some reply) = (reply.err ≡ wrong_leader) ⊎ (reply.err ≡ timeout)

retries-again : (reply : OpReply) → retries reply ≡ true → IsUnanswered (some reply)
unfolding retries
retries-again reply again = ground (arith, again)

retries-ends :
    (reply : OpReply) → retries reply ≡ false → (reply.err ≢ wrong_leader) × (reply.err ≢ timeout)
unfolding retries
retries-ends reply ends = (λ e. absurd (ground arith), λ e. absurd (ground arith))

unanswered : (o : Option OpReply) → IsRetried retries o → IsUnanswered o
unanswered none again = tt
unanswered (some reply) again = retries-again reply again

-- What the clerk does on these outcomes: the call number `k` is answered, and before it none is; or
-- none is at all.
abbrev pub Sends : Clerk → String → String → String → List (Option OpReply) → Type 0
Sends ck key value op outcomes =
    let (ck', returned, calls) = put_append ck key value op outcomes in
    (((k : ℕ) × (reply : OpReply) × (get_elem? outcomes k ≡ some (some reply))
        × (reply.err ≢ wrong_leader)
        × (reply.err ≢ timeout)
        × ((i : ℕ) (o : Option OpReply) → i < k → get_elem? outcomes i ≡ some o → IsUnanswered o)
        × (returned ≡ true)
        × (length calls ≡ k + 1)
        × (ck' ≡ record ck { leader_id = server_at ck k; seq_id = ck.seq_id + 1 }))
      ⊎ All IsUnanswered outcomes
        × (returned ≡ false)
        × (length calls ≡ length outcomes)
        × (ck' ≡ record ck { leader_id = server_at ck (length outcomes) }))
    × ((i server : ℕ) (sent : PutAppendArgs)
        → get_elem? calls i ≡ some (server, sent)
        → (sent ≡ put_append_args ck key value op) × (server ≡ server_at ck i))

-- `PutAppend`, on the outcomes of its calls in order, of a clerk whose leader is one of its servers,
-- returns at the first call that does not fail and is answered with another error than ErrWrongLeader
-- and ErrTimeout; it then has made no call behind it, takes the server that answered for the leader,
-- and moves on to the next sequence number. Where no call is answered so, it makes all of them and
-- goes on with the number it had. Every call carries the same arguments, with the clerk's id and
-- number, and goes to the next server in turn, from the one it took for the leader on.
pub put_append_lem :
    (ck : Clerk) (key value op : String) (outcomes : List (Option OpReply))
    → ck.leader_id < ck.servers
    → Sends ck key value op outcomes
unfolding put_append
put_append_lem ck key value op outcomes inside =
    let (ends, calls) =
      call_once_lem retries ck (put_append_args ck key value op) outcomes inside in
    (
      elim ends [
        | inl (k, reply, found, answers, before, returned, len, counted) ↦
            let (leads, in_time) = retries-ends reply answers in
            inl (
              k,
              reply,
              found,
              leads,
              in_time,
              λ i o lt h. unanswered o (before i o lt h),
              returned,
              len,
              counted,
            )
        | inr (all, returned, len, same) ↦
            inr (
              All-mono (IsRetried retries) IsUnanswered outcomes unanswered all,
              returned,
              len,
              same,
            )
      ],
      calls,
    )
