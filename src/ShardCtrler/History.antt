-- ===== src/ShardCtrler/History.antt =====
-- The list of configurations of src/shardctrler/state_machine.go as it grows.
use mathlib.Core.Path.{subst}
use multi_raft.Common.{
  ℕ, ◌+◌, ◌-◌, ◌≤◌, ◌<◌, ◌≡◌, refl, sym, ap, ◌∙◌, ◌⊎◌, inl, inr, true, false, Option, none, some,
  List, [], ◌∷◌, ◌++◌, arith, nat_key, string_key, ltb, leb, ◌==◌, if◌then◌else◌, Bool-cases, ◌>>=◌,
  >>=-eq-some, length, get_elem?, assign, length-append, get_elem?-below, get_elem?-bound,
  get_elem?-append_left, get_elem?-append_right,
}
use multi_raft.ShardCtrler.Config.{
  Gid, gid_key, Groups, Config, Err, ok, OperationType, op_join, op_leave, op_move, op_query, Op,
  OpReply, no_config,
}
use multi_raft.ShardCtrler.Server.{is_query, apply_to_state_machine}
use multi_raft.ShardCtrler.StateMachine.{
  StateMachine, latest, query, copy_groups, add_groups, gid_to_shards, rebalance, join_fuel,
  assign_shards, no_shards, join, remove_groups, reassign, leave, move,
}

-- Every configuration has its position as its number, and there is one.
pub record IsNumbered (csm : StateMachine) : Type 0 where
  pub nonempty : 0 < length csm
  pub numbered : (i : ℕ) (c : Config) → get_elem? csm i ≡ some c → c.num ≡ i

-- One more configuration, with the next number.
abbrev pub Grows : StateMachine → StateMachine → Type 0
Grows csm csm' = (c : Config) × (csm' ≡ csm ++ (c ∷ [])) × (c.num ≡ length csm)

Grows-IsNumbered : (csm csm' : StateMachine) → IsNumbered csm → Grows csm csm' → IsNumbered csm'
Grows-IsNumbered csm csm' n (c, e, num) = subst IsNumbered (sym e) (record {
  nonempty = omega (arith, length-append csm (c ∷ []));
  numbered = λ i d h. elim (Bool-cases (ltb i (length csm))) [
    | inl old ↦ n.numbered i d (sym (get_elem?-append_left csm (c ∷ []) i (ground arith)) ∙ h)
    | inr new ↦ ground (
      arith,
      get_elem?-append_right csm (c ∷ []) i,
      get_elem?-bound (csm ++ (c ∷ [])) i h,
      length-append csm (c ∷ []),
    )
  ];
})

-- The operations end by adding the configuration that they built.
adds :
    (csm csm' : StateMachine) (c : Config) (err : Err)
    → c.num ≡ length csm
    → ◌≡◌ {A = Option (StateMachine × Err)} (some (csm ++ (c ∷ []), ok)) (some (csm', err))
    → Grows csm csm' × (err ≡ ok)
adds csm csm' c err num h = ((c, ground arith, num), ground arith)

join-Grows :
    (csm csm' : StateMachine) (groups : Groups) (err : Err)
    → join csm groups ≡ some (csm', err)
    → Grows csm csm' × (err ≡ ok)
unfolding join
join-Grows csm csm' groups err h =
    let (last_config, _, h₁) = >>=-eq-some (latest csm) _ h in
    let new_groups = add_groups (copy_groups last_config.groups) groups in
    let (m, _, h₂) =
      >>=-eq-some (rebalance join_fuel (gid_to_shards new_groups last_config.shards)) _ h₁ in
    let (new_shards, _, h₃) = >>=-eq-some (assign_shards no_shards m) _ h₂ in
    adds csm csm' _ err refl h₃

leave-Grows :
    (csm csm' : StateMachine) (gids : List Gid) (err : Err)
    → leave csm gids ≡ some (csm', err)
    → Grows csm csm' × (err ≡ ok)
unfolding leave
leave-Grows csm csm' gids err h =
    let (last_config, _, h₁) = >>=-eq-some (latest csm) _ h in
    let old = copy_groups last_config.groups in
    let left = remove_groups gids old (gid_to_shards old last_config.shards) [] in
    let (new_shards, _, h₂) =
      >>=-eq-some
        (if length left.0 == 0
          then some no_shards
          else assign_shards no_shards (reassign left.1 left.2))
        _ h₁ in
    adds csm csm' _ err refl h₂

move-Grows :
    (csm csm' : StateMachine) (shard : ℕ) (g : Gid) (err : Err)
    → move csm shard g ≡ some (csm', err)
    → Grows csm csm' × (err ≡ ok)
unfolding move
move-Grows csm csm' shard g err h =
    let (last_config, _, h₁) = >>=-eq-some (latest csm) _ h in
    let (new_shards, _, h₂) = >>=-eq-some (assign last_config.shards shard g) _ h₁ in
    adds csm csm' _ err refl h₂

abbrev answers : Option (StateMachine × Err) → Option (StateMachine × OpReply)
answers done = done >>= λ r. some (r.0, record { controller_config = no_config; err = r.1 })

answers-Grows :
    (csm csm' : StateMachine) (done : Option (StateMachine × Err)) (reply : OpReply)
    → ((csm' : StateMachine) (err : Err) → done ≡ some (csm', err) → Grows csm csm' × (err ≡ ok))
    → answers done ≡ some (csm', reply)
    → Grows csm csm'
answers-Grows csm csm' none reply k h = absurd (cc)
answers-Grows csm csm' (some (csm'', err)) reply k h =
    let (grows, _) = k csm'' err refl in subst (Grows csm) (ground arith) grows

applied :
    (csm csm' : StateMachine) (op : Op) (reply : OpReply) (t : OperationType)
    → op.op_type ≡ t
    → apply_to_state_machine csm op ≡ some (csm', reply)
    → (is_query op ≡ true) × (csm' ≡ csm) ⊎ (is_query op ≡ false) × Grows csm csm'
unfolding apply_to_state_machine
applied csm csm' op reply op_join e h = inr (
  ground arith,
  answers-Grows csm csm' (join csm op.servers) reply (λ c err. join-Grows csm c op.servers err)
      (ground arith),
)
applied csm csm' op reply op_leave e h = inr (
  ground arith,
  answers-Grows csm csm' (leave csm op.gids) reply (λ c err. leave-Grows csm c op.gids err)
      (ground arith),
)
applied csm csm' op reply op_move e h = inr (
  ground arith,
  answers-Grows csm csm' (move csm op.shard op.gid) reply
      (λ c err. move-Grows csm c op.shard op.gid err) (ground arith),
)
applied csm csm' op reply op_query e h = inl (ground arith, ground arith)

-- What an operation leaves: the configurations from before at their positions, each configuration
-- numbered by its position; a query adds none, and any other operation adds one.
abbrev pub KeepsHistory : StateMachine → Op → StateMachine → Type 0
KeepsHistory csm op csm' =
    IsNumbered csm'
    × ((i : ℕ) (c : Config) → get_elem? csm i ≡ some c → get_elem? csm' i ≡ some c)
    × (length csm' ≡ (if is_query op then length csm else length csm + 1))

-- Every operation that the controller can execute keeps all configurations at their positions, with
-- their positions as their numbers; a query adds none, and any other operation adds exactly one.
pub apply_to_state_machine-KeepsHistory :
    (csm csm' : StateMachine) (op : Op) (reply : OpReply)
    → IsNumbered csm
    → apply_to_state_machine csm op ≡ some (csm', reply)
    → KeepsHistory csm op csm'
apply_to_state_machine-KeepsHistory csm csm' op reply n h =
    elim (applied csm csm' op reply op.op_type refl h) [
      | inl (q, e) ↦ rw (q, e) (n, (λ i c x. x), refl)
      | inr (q, (c, e, num)) ↦ rw q (
        Grows-IsNumbered csm csm' n (c, e, num),
        (λ i d x. rw e (get_elem?-append_left csm (c ∷ []) i (get_elem?-bound csm i x) ∙ x)),
        ap length e ∙ length-append csm (c ∷ []),
      )
    ]

-- The answer of a query.
abbrev pub Finds : StateMachine → Option ℕ → Type 0
Finds csm num =
    (c : Config) × (query csm num ≡ some (c, ok))
    × (get_elem? csm c.num ≡ some c)
    × ((num ≡ some c.num) × (c.num < length csm)
        ⊎ (c.num ≡ length csm - 1) × ((n : ℕ) → num ≡ some n → length csm ≤ n))

-- A query never fails: it answers with the configuration of the number, and for a number that is
-- negative or not given yet with the last one.
pub query_lem : (csm : StateMachine) (num : Option ℕ) → IsNumbered csm → Finds csm num
unfolding query
query_lem csm none n =
    let (c, e) = get_elem?-below csm (length csm - 1) (omega (arith, n.nonempty)) in
    let num = n.numbered (length csm - 1) c e in
    (c, ground arith, ap (get_elem? csm) num ∙ e, inr (num, λ k h. absurd (cc)))
query_lem csm (some i) n = elim (Bool-cases (leb (length csm) i)) [
  | inl past ↦
      let (c, e) = get_elem?-below csm (length csm - 1) (omega (arith, n.nonempty)) in
      let num = n.numbered (length csm - 1) c e in
      (c, ground arith, ap (get_elem? csm) num ∙ e, inr (num, λ k h. ground arith))
  | inr inside ↦
      let (c, e) = get_elem?-below csm i (ground arith) in
      let num = n.numbered i c e in
      (c, ground arith, ap (get_elem? csm) num ∙ e, inl (ap some (sym num), ground arith))
]
