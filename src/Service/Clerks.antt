-- ===== src/Service/Clerks.antt =====
-- The clerks of src/kvraft/client.go and src/shardctrler/client.go, which call the servers of a group
-- in turn, on the outcomes of their calls in order, each `none` where the call failed. A run out of
-- outcomes is a clerk that is still trying.
use mathlib.Core.Path.{subst}
use native.Mathlib.Nat.{mod-lt, mod-eq_of_lt, mod-add-mod}
use multi_raft.Common.{
  if_cases, sym, ap, ◌∙◌, length, All, ◌⊎◌, inl, inr, ℕ, zero, suc, ◌+◌, ◌%◌, ◌<◌, ◌≡◌, refl, Bool,
  true, false, Option, none, some, List, [], ◌∷◌, arith, nat_key, string_key, if◌then◌else◌,
  get_elem?,
}

pub record Clerk : Type 0 where
  pub servers : ℕ
  pub leader_id : ℕ
  pub client_id : ℕ
  pub seq_id : ℕ

-- `nrand` is the argument `random`.
unfoldable pub make_clerk : ℕ → ℕ → Clerk
make_clerk servers random = record {
  servers = servers;
  leader_id = 0;
  client_id = random;
  seq_id = 0;
}

-- `ck.leaderId = (ck.leaderId + 1) % len(ck.servers)`
unfoldable pub next_leader : Clerk → Clerk
next_leader ck = record ck { leader_id = (ck.leader_id + 1) % ck.servers }

-- The `k`-th server from the clerk's own on, round and round.
abbrev pub server_at : Clerk → ℕ → ℕ
server_at ck k = (ck.leader_id + k) % ck.servers

-- A call that goes on.
abbrev pub IsRetried : {R : Type 0} → (R → Bool) → Option R → Type 0
IsRetried retry none = Unit
IsRetried retry (some reply) = retry reply ≡ true

server_at-next :
    (ck : Clerk) (i : ℕ)
    → ck.leader_id < ck.servers
    → ((ck.leader_id + 1) % ck.servers < ck.servers)
      × (((ck.leader_id + 1) % ck.servers + i) % ck.servers ≡ server_at ck (suc i))
server_at-next ck i inside =
    let e : ck.leader_id + 1 + i ≡ ck.leader_id + suc i = omega arith in
    (
      mod-lt (ck.leader_id + 1) (omega arith),
      ground (arith, mod-add-mod (ck.leader_id + 1) ck.servers i, e),
    )

server_at-start : (ck : Clerk) → ck.leader_id < ck.servers → server_at ck 0 ≡ ck.leader_id
server_at-start ck inside =
    let e : ck.leader_id + 0 ≡ ck.leader_id = omega arith in
    ap (λ n. n % ck.servers) e ∙ mod-eq_of_lt inside

before_again :
    {R : Type 0} (retry : R → Bool) (o : Option R) (outcomes : List (Option R)) (k : ℕ)
    → IsRetried retry o
    → ((i : ℕ) (o' : Option R) → i < k → get_elem? outcomes i ≡ some o' → IsRetried retry o')
    → (i : ℕ) (o' : Option R) → i < suc k
    → get_elem? (o ∷ outcomes) i ≡ some o'
    → IsRetried retry o'
before_again retry o outcomes k again before zero o' lt h =
    subst (IsRetried retry) (ground (arith, h)) again
before_again retry o outcomes k again before (suc i) o' lt h = before i o' (omega arith) h

-- `retry` tells the replies of a server that does not lead, or was too slow.
module _ {A R : Type 0} (retry : R → Bool) where
  -- The loop of a call: the clerk, the reply that ends it, and the calls made, each with the server.
  unfoldable pub keep_calling : Clerk → A → List (Option R) → Clerk × Option R × List (ℕ × A)
  keep_calling ck args [] = (ck, none, [])
  keep_calling ck args (none ∷ outcomes) =
      let again = keep_calling (next_leader ck) args outcomes in
      (again.0, again.1, (ck.leader_id, args) ∷ again.2)
  keep_calling ck args (some reply ∷ outcomes) =
      let again = keep_calling (next_leader ck) args outcomes in
      if retry reply
      then (again.0, again.1, (ck.leader_id, args) ∷ again.2)
      else (ck, some reply, (ck.leader_id, args) ∷ [])

  -- A call that counts: the number goes up when it returns.
  unfoldable pub call_once : Clerk → A → List (Option R) → Clerk × Bool × List (ℕ × A)
  call_once ck args outcomes =
      let called = keep_calling ck args outcomes in
      let returned : Bool = elim called.1 [ none ↦ false | some reply ↦ true ] in
      let counted : Clerk = record called.0 { seq_id = called.0.seq_id + 1 } in
      (if returned then counted else called.0, returned, called.2)

  -- The call number `k` is the first one that ends the loop, and the last one made.
  abbrev pub EndsAt : Clerk → List (Option R) → Clerk × Option R × List (ℕ × A) → ℕ → Type 0
  EndsAt ck outcomes (ck', answer, calls) k =
      (reply : R) × (answer ≡ some reply)
      × (get_elem? outcomes k ≡ some (some reply))
      × (retry reply ≡ false)
      × ((i : ℕ) (o : Option R) → i < k → get_elem? outcomes i ≡ some o → IsRetried retry o)
      × (length calls ≡ k + 1)
      × (ck' ≡ record ck { leader_id = server_at ck k })

  abbrev pub GoesOn : Clerk → List (Option R) → Clerk × Option R × List (ℕ × A) → Type 0
  GoesOn ck outcomes (ck', answer, calls) =
      (answer ≡ none)
      × All (IsRetried retry) outcomes
      × (length calls ≡ length outcomes)
      × (ck' ≡ record ck { leader_id = server_at ck (length outcomes) })

  abbrev pub Ends : Clerk → List (Option R) → Clerk × Option R × List (ℕ × A) → Type 0
  Ends ck outcomes out = ((k : ℕ) × EndsAt ck outcomes out k) ⊎ GoesOn ck outcomes out

  -- One more call before the others.
  call_again :
      (ck : Clerk) (o : Option R) (outcomes : List (Option R))
      (out : Clerk × Option R × List (ℕ × A)) (call : ℕ × A)
      → ck.leader_id < ck.servers
      → IsRetried retry o
      → Ends (next_leader ck) outcomes out
      → Ends ck (o ∷ outcomes) (out.0, out.1, call ∷ out.2)
  unfolding next_leader
  call_again ck o outcomes out call inside again
        (inl (k, (reply, e, found, ends, before, len, at_k))) =
      inl (
        suc k,
        (
          reply,
          e,
          found,
          ends,
          before_again retry o outcomes k again before,
          omega (arith, len),
          at_k ∙ ap (λ l. record ck { leader_id = l }) (server_at-next ck k inside).1,
        ),
      )
  call_again ck o outcomes out call inside again (inr (e, all, len, at_end)) = inr (
    e,
    (again, all),
    omega (arith, len),
    at_end ∙ ap (λ l. record ck { leader_id = l }) (server_at-next ck (length outcomes) inside).1,
  )

  pub keep_calling-Ends :
      (ck : Clerk) (args : A) (outcomes : List (Option R))
      → ck.leader_id < ck.servers
      → Ends ck outcomes (keep_calling ck args outcomes)
  unfolding keep_calling next_leader
  keep_calling-Ends ck args [] inside =
      inr (refl, tt, refl, ap (λ l. record ck { leader_id = l }) (sym (server_at-start ck inside)))
  keep_calling-Ends ck args (none ∷ outcomes) inside =
      call_again ck none outcomes _ (ck.leader_id, args) inside tt
        (keep_calling-Ends (next_leader ck) args outcomes (mod-lt (ck.leader_id + 1) (omega arith)))
  keep_calling-Ends ck args (some reply ∷ outcomes) inside =
      if_cases (Ends ck (some reply ∷ outcomes)) (retry reply) _ _
        (λ again.
          call_again ck (some reply) outcomes _ (ck.leader_id, args) inside again
            (keep_calling-Ends (next_leader ck) args outcomes
              (mod-lt (ck.leader_id + 1) (omega arith))))
        (λ done.
          let at_start : ck ≡ record ck { leader_id = server_at ck 0 } =
            ap (λ l. record ck { leader_id = l }) (sym (server_at-start ck inside)) in
          inl (0, (reply, refl, refl, done, λ i o lt h. absurd (omega arith), refl, at_start)))

  keep_calling-calls :
      (ck : Clerk) (args : A) (outcomes : List (Option R)) (i : ℕ) (server : ℕ) (sent : A)
      → ck.leader_id < ck.servers
      → get_elem? (keep_calling ck args outcomes).2 i ≡ some (server, sent)
      → (sent ≡ args) × (server ≡ server_at ck i)
  unfolding keep_calling next_leader
  keep_calling-calls ck args [] i server sent inside h = absurd (cc)
  keep_calling-calls ck args (none ∷ outcomes) zero server sent inside h =
      ground (arith, mod-eq_of_lt inside)
  keep_calling-calls ck args (none ∷ outcomes) (suc i) server sent inside h =
      let (lt, e) = server_at-next ck i inside in
      ground (arith, keep_calling-calls (next_leader ck) args outcomes i server sent lt h, e)
  keep_calling-calls ck args (some reply ∷ outcomes) zero server sent inside h =
      ground (arith, mod-eq_of_lt inside)
  keep_calling-calls ck args (some reply ∷ outcomes) (suc i) server sent inside h =
      let (lt, e) = server_at-next ck i inside in
      ground (arith, keep_calling-calls (next_leader ck) args outcomes i server sent lt, e)

  -- What the clerk does on these outcomes.
  abbrev pub CallsOnce : Clerk → A → List (Option R) → Type 0
  CallsOnce ck args outcomes =
      let (ck', returned, calls) = call_once ck args outcomes in
      (((k : ℕ) × (reply : R) × (get_elem? outcomes k ≡ some (some reply))
          × (retry reply ≡ false)
          × ((i : ℕ) (o : Option R) → i < k → get_elem? outcomes i ≡ some o → IsRetried retry o)
          × (returned ≡ true)
          × (length calls ≡ k + 1)
          × (ck' ≡ record ck { leader_id = server_at ck k; seq_id = ck.seq_id + 1 }))
        ⊎ All (IsRetried retry) outcomes
          × (returned ≡ false)
          × (length calls ≡ length outcomes)
          × (ck' ≡ record ck { leader_id = server_at ck (length outcomes) }))
      × ((i server : ℕ) (sent : A)
          → get_elem? calls i ≡ some (server, sent)
          → (sent ≡ args) × (server ≡ server_at ck i))

  pub call_once_lem :
      (ck : Clerk) (args : A) (outcomes : List (Option R))
      → ck.leader_id < ck.servers
      → CallsOnce ck args outcomes
  unfolding call_once
  call_once_lem ck args outcomes inside = (
    elim (keep_calling-Ends ck args outcomes inside) [
      | inl (k, (reply, e, found, ends, before, len, at_k)) ↦
          inl (k, reply, found, ends, before, ground (arith, e), len, ground (arith, e, at_k))
      | inr (e, all, len, at_end) ↦ inr (all, ground (arith, e), len, ground (arith, e, at_end))
    ],
    λ i server sent h. keep_calling-calls ck args outcomes i server sent inside h,
  )
