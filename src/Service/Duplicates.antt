-- ===== src/Service/Duplicates.antt =====
-- The check for duplicates in the apply task of a server, against the log of operations itself.
use mathlib.Core.Path.{subst}
use multi_raft.Common.{
  IsMap, put-IsMap, if_cases, sym, >>=-eq-some, ℕ, ◌≤◌, ◌≡◌, refl, ap, ◌∙◌, inl, inr, Bool, true,
  false, not, ◌&&◌, ◌||◌, Option, none, some, List, [], ◌∷◌, arith, lookup, put, nat_key,
  string_key, leb, if◌then◌else◌, Bool-cases, Option-cases, ◌>>=◌, is_key, Map, lookup-put_self,
  lookup-put_ne,
}

-- `LastOperationInfo`
pub record LastOperation (R : Type 0) : Type 0 where
  pub seq_id : ℕ
  pub reply : R

abbrev pub Table : Type 0 → Type 0
Table R = Map ℕ (LastOperation R)

-- The operations of a server, on a state that has no table. `none` is a panic.
pub record Service (Op R S : Type 0) : Type 0 where
  pub is_read : Op → Bool
  pub client : Op → ℕ
  pub number : Op → ℕ
  pub run : S → Op → Option (S × R)

unfoldable pub request_duplicated : {R : Type 0} → Table R → ℕ → ℕ → Bool
request_duplicated table client_id seq_id = elim (lookup table client_id) [
  | none ↦ false
  | some info ↦ leb seq_id info.seq_id
]

module _ {Op R S : Type 0} (service : Service Op R S) where
  open service use {is_read, client, number, run}

  -- A write that was executed before, or a later one of its client, is answered from the table; any
  -- other operation is executed, and a write noted.
  unfoldable pub execute : S → Table R → Op → Option (S × Table R × R)
  execute state table op =
      if not (is_read op) && request_duplicated table (client op) (number op)
      then (lookup table (client op) >>= λ info. some (state, table, info.reply))
      else (run state op >>= λ done.
          let info : LastOperation R = record { seq_id = number op; reply = done.1 } in
          some (done.0, if is_read op then table else put table (client op) info, done.1))

  -- The operations of the log, one after the other.
  unfoldable pub execute_all : S → Table R → List Op → Option (S × Table R)
  execute_all state table [] = some (state, table)
  execute_all state table (op ∷ ops) =
      execute state table op >>= λ done. execute_all done.0 done.1 ops

  -- The operations by themselves.
  unfoldable pub run_all : S → List Op → Option S
  run_all state [] = some state
  run_all state (op ∷ ops) = run state op >>= λ done. run_all done.0 ops

  -- Some write of the client stands in the log with this number or a later one.
  abbrev pub seen : List Op → ℕ → ℕ → Bool
  seen [] client_id seq_id = false
  seen (op ∷ log) client_id seq_id =
      not (is_read op) && is_key (client op) client_id && leb seq_id (number op)
      || seen log client_id seq_id

  -- The reads, and the writes that come behind no write of their client with their number or a
  -- later one; `log` is what stands before.
  abbrev pub first_only : List Op → List Op → List Op
  first_only log [] = []
  first_only log (op ∷ ops) =
      let rest = first_only (op ∷ log) ops in
      if not (is_read op) && seen log (client op) (number op) then rest else op ∷ rest

  -- The table answers as the log would.
  abbrev pub Knows : Table R → List Op → Type 0
  Knows table log =
      (client_id seq_id : ℕ) → request_duplicated table client_id seq_id ≡ seen log client_id seq_id

  duplicated_down :
      (table : Table R) (c s s' : ℕ)
      → s ≤ s'
      → request_duplicated table c s' ≡ true
      → request_duplicated table c s ≡ true
  unfolding request_duplicated
  duplicated_down table c s s' le d = ground arith

  duplicated_put :
      (table : Table R) (c : ℕ) (info : LastOperation R) (c' s : ℕ)
      → request_duplicated (put table c info) c' s
        ≡ (if is_key c c' then leb s info.seq_id else request_duplicated table c' s)
  unfolding request_duplicated
  duplicated_put table c info c' s =
      ground (arith, lookup-put_self table c info, lookup-put_ne table c c' info)

  -- A write that the table knows.
  abbrev pub is_duplicate : Table R → Op → Bool
  is_duplicate table op = not (is_read op) && request_duplicated table (client op) (number op)

  duplicated_entry :
      (table : Table R) (c s : ℕ)
      → request_duplicated table c s ≡ true
      → (info : LastOperation R) × (lookup table c ≡ some info)
  unfolding request_duplicated
  duplicated_entry table c s d = elim (Option-cases (lookup table c)) [
    | inl e ↦ absurd (ground arith)
    | inr found ↦ found
  ]

  -- A duplicate leaves state and table, and is answered from the table.
  pub execute-duplicate :
      (state : S) (table : Table R) (op : Op)
      → is_duplicate table op ≡ true
      → (info : LastOperation R) × (lookup table (client op) ≡ some info)
        × (execute state table op ≡ some (state, table, info.reply))
  unfolding execute
  execute-duplicate state table op d =
      let (info, e) = duplicated_entry table (client op) (number op) (ground arith) in
      (info, e, ground (arith, e))

  -- The table after an operation that is no duplicate.
  abbrev pub noted : Table R → Op → R → Table R
  noted table op reply =
      if is_read op
      then table
      else put table (client op) (record { seq_id = number op; reply = reply })

  pub execute-new :
      (state : S) (table : Table R) (op : Op)
      → is_duplicate table op ≡ false
      → execute state table op
        ≡ (run state op >>= λ done. some (done.0, noted table op done.1, done.1))
  unfolding execute
  execute-new state table op d = ground arith

  duplicate-Knows :
      (table : Table R) (op : Op) (log : List Op)
      → is_duplicate table op ≡ true
      → Knows table log
      → Knows table (op ∷ log)
  duplicate-Knows table op log d k c s = ground (
    arith,
    k c s,
    duplicated_down table (client op) s (number op),
    duplicated_down table c s (number op),
  )

  noted-Knows :
      (table : Table R) (op : Op) (reply : R) (log : List Op)
      → is_duplicate table op ≡ false
      → Knows table log
      → Knows (noted table op reply) (op ∷ log)
  noted-Knows table op reply log d k c s =
      let info : LastOperation R = record { seq_id = number op; reply = reply } in
      ground (
        arith,
        k c s,
        duplicated_put table (client op) info c s,
        duplicated_down table c (number op) s,
      )

  pub execute-IsMap :
      (state : S) (table : Table R) (op : Op) (done : S × Table R × R)
      → IsMap table
      → execute state table op ≡ some done
      → IsMap done.1
  execute-IsMap state table op done d h = elim (Bool-cases (is_duplicate table op)) [
    | inl dup ↦
        let (info, _, same) = execute-duplicate state table op dup in
        subst IsMap (ground (arith, same, h)) d
    | inr new ↦
        let (ran, e, last) =
          >>=-eq-some (run state op) _ (sym (execute-new state table op new) ∙ h) in
        let d' : IsMap (noted table op ran.1) =
          if_cases IsMap (is_read op) table
            (put table (client op) (record { seq_id = number op; reply = ran.1 })) (λ t. d)
            (λ t. put-IsMap table (client op) (record { seq_id = number op; reply = ran.1 }) d) in
        subst IsMap (ground (arith, last)) d'
  ]

  -- An operation that does not panic by itself is executed without a panic.
  pub execute-total :
      (state : S) (table : Table R) (op : Op)
      → (done : S × R) × (run state op ≡ some done)
      → (done : S × Table R × R) × (execute state table op ≡ some done)
  execute-total state table op (done, e) = elim (Bool-cases (is_duplicate table op)) [
    | inl d ↦
        let (info, _, same) = execute-duplicate state table op d in
        ((state, table, info.reply), same)
    | inr d ↦ (
      (done.0, noted table op done.1, done.1),
      execute-new state table op d ∙ ap (λ m. m >>= λ x. some (x.0, noted table op x.1, x.1)) e,
    )
  ]

  -- The state after a run, without the table.
  abbrev pub state_of : Option (S × Table R) → Option S
  state_of ran = ran >>= λ r. some r.0

  execute_all-cons :
      (state : S) (table : Table R) (op : Op) (ops : List Op)
      → execute_all state table (op ∷ ops)
        ≡ (execute state table op >>= λ done. execute_all done.0 done.1 ops)
  unfolding execute_all
  execute_all-cons state table op ops = refl

  once_each_from :
      (state : S) (table : Table R) (log ops : List Op)
      → Knows table log
      → state_of (execute_all state table ops) ≡ run_all state (first_only log ops)
  unfolding execute_all run_all
  once_each_from state table log [] k = refl
  once_each_from state table log (op ∷ ops) k = elim (Bool-cases (is_duplicate table op)) [
    | inl d ↦
        let (info, _, same) = execute-duplicate state table op d in
        let rest = once_each_from state table (op ∷ log) ops (duplicate-Knows table op log d k) in
        ground (arith, same, k (client op) (number op), rest)
    | inr d ↦ elim (Option-cases (run state op)) [
      | inl e ↦ ground (arith, execute-new state table op d, e, k (client op) (number op))
      | inr (done, e) ↦
          let rest =
            once_each_from done.0 (noted table op done.1) (op ∷ log) ops
              (noted-Knows table op done.1 log d k) in
          ground (arith, execute-new state table op d, e, k (client op) (number op), rest)
    ]
  ]

  pub once_each :
      (state : S) (ops : List Op)
      → state_of (execute_all state [] ops) ≡ run_all state (first_only [] ops)
  once_each state ops =
      once_each_from state [] [] ops (λ c s. unfold request_duplicated lookup in refl)
