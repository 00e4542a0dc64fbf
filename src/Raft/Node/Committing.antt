-- ===== src/Raft/Node/Committing.antt =====
-- The commit index of a leader: `updateCommitIndexLocked` of src/raft/node.go against
-- `replicateToPeer` and `getMajorityIndexLocked` of src/raft/raft_replication.go.
use multi_raft.Common.{
  if◌then◌else◌, some, ◌>>=◌, get_elem?, ◌++◌, replicate, length-take, length-append,
  length-replicate, ◌-◌, ◌/◌, All-same, ap, suc, ltb, ℕ, zero, ◌+◌, ◌≤◌, ◌≡◌, refl, sym, ◌∙◌, List,
  [], ◌∷◌, arith, sort, nat_key, string_key, length, All, count_ge, IsSorted, count_ge-sort,
  sort-IsSorted, IsSorted-unique,
}
use multi_raft.Raft.Node.{Node}
use multi_raft.Raft.Node.Leading.{exchange, exchange_sort, update_commit_index}
use multi_raft.Raft.Peer.{Persister, Raft}
use multi_raft.Raft.Replication.{copy_into, get_majority_index, advance_commit}

exchange-count_ge :
    (m x : ℕ) (xs : List ℕ)
    → count_ge m ((exchange x xs).0 ∷ (exchange x xs).1) ≡ count_ge m (x ∷ xs)
unfolding exchange
exchange-count_ge m x [] = refl
exchange-count_ge m x (y ∷ ys) =
    let low = if ltb y x then y else x in ground (arith, exchange-count_ge m low ys)

-- What ends up in front is least.
exchange-least :
    (x : ℕ) (xs : List ℕ)
    → ((exchange x xs).0 ≤ x) × All (λ z. (exchange x xs).0 ≤ z) (exchange x xs).1
unfolding exchange
exchange-least x [] = (omega arith, tt)
exchange-least x (y ∷ ys) =
    let (le, all) = exchange-least (if ltb y x then y else x) ys in
    (ground (arith, le), (ground (arith, le), all))

exchange-length : (x : ℕ) (xs : List ℕ) → length (exchange x xs).1 ≡ length xs
unfolding exchange
exchange-length x [] = refl
exchange-length x (y ∷ ys) = ap suc (exchange-length (if ltb y x then y else x) ys)

exchange_sort-count_ge :
    (m rounds : ℕ) (xs : List ℕ) → count_ge m (exchange_sort rounds xs) ≡ count_ge m xs
unfolding exchange_sort
exchange_sort-count_ge m zero xs = refl
exchange_sort-count_ge m (suc rounds) [] = refl
exchange_sort-count_ge m (suc rounds) (x ∷ xs) =
    ground (arith, exchange_sort-count_ge m rounds (exchange x xs).1, exchange-count_ge m x xs)

exchange_sort-IsSorted :
    (rounds : ℕ) (xs : List ℕ) → length xs ≤ rounds + 1 → IsSorted (exchange_sort rounds xs)
unfolding exchange_sort
exchange_sort-IsSorted zero [] le = tt
exchange_sort-IsSorted zero (x ∷ []) le = (tt, tt)
exchange_sort-IsSorted zero (x ∷ y ∷ xs) le = absurd (omega arith)
exchange_sort-IsSorted (suc rounds) [] le = tt
exchange_sort-IsSorted (suc rounds) (x ∷ xs) le =
    let sorted =
      exchange_sort-IsSorted rounds (exchange x xs).1 (omega (arith, exchange-length x xs)) in
    (
      All-same (exchange x xs).0 (exchange x xs).1 (exchange_sort rounds (exchange x xs).1)
          (λ m. sym (exchange_sort-count_ge m rounds (exchange x xs).1)) (exchange-least x xs).1,
      sorted,
    )

pub exchange_sort-sort :
    (rounds : ℕ) (xs : List ℕ) → length xs ≤ rounds + 1 → exchange_sort rounds xs ≡ sort xs
exchange_sort-sort rounds xs le =
    IsSorted-unique (exchange_sort rounds xs) (sort xs) (exchange_sort-IsSorted rounds xs le)
      (sort-IsSorted xs) (λ m. exchange_sort-count_ge m rounds xs ∙ sym (count_ge-sort m xs))

-- The node as the first implementation keeps it.
abbrev pub raft_of : {C : Type 0} → Node C → Persister C → Raft C
raft_of n persister = record {
  peers = n.peers;
  persister = persister;
  me = n.me;
  dead = n.dead;
  role = n.role;
  current_term = n.current_term;
  voted_for = n.voted_for;
  log = n.log;
  next_index = n.next_index;
  match_index = n.match_index;
  commit_index = n.commit_index;
  last_applied = n.last_applied;
  snap_pending = n.snap_pending;
  election_start = n.election_start;
  election_timeout = n.election_timeout;
}

copy_into-length : (n : ℕ) (xs : List ℕ) → length (copy_into n xs) ≡ n
copy_into-length n xs =
    let zeros : List ℕ = replicate n 0 in
    let counted : length zeros ≡ n = length-replicate n 0 in
    omega (arith, length-take n (xs ++ zeros), length-append xs zeros, counted)

majority-get_majority_index :
    {C : Type 0} (n : Node C) (persister : Persister C)
    → get_elem? (exchange_sort (n.peers - 1) (copy_into n.peers n.match_index)) ((n.peers - 1) / 2)
      ≡ get_majority_index (raft_of n persister)
unfolding get_majority_index
majority-get_majority_index n persister =
    ap (λ xs. get_elem? xs ((n.peers - 1) / 2))
      (exchange_sort-sort (n.peers - 1) (copy_into n.peers n.match_index)
        (omega (arith, copy_into-length n.peers n.match_index)))

-- Where the snapshot covers nothing behind the commit index, the two implementations of a leader move
-- the commit index alike, and panic alike: exchanging in place finds the majority's index as sorting
-- does.
pub update_commit_index_lem :
    {C : Type 0} (n : Node C) (persister : Persister C)
    → n.log.snap_last_idx ≤ n.commit_index
    → (update_commit_index n >>= λ n'. some (raft_of n' persister))
      ≡ advance_commit (raft_of n persister)
unfolding update_commit_index advance_commit
update_commit_index_lem n persister le = ground (arith, majority-get_majority_index n persister)
