-- ===== src/Raft/Storage.antt =====
-- src/raft/storage.go and src/raft/storage_memory.go: the key/value storage in memory, and the
-- storage of a peer's state and snapshot on it. Keys are read as strings. The codec of encoding/gob
-- is a parameter; what it writes is not empty where it is used.
pub mod Batches
mod Tests
use multi_raft.Common.{
  ℕ, ◌⊎◌, inl, inr, Bool, true, false, Option, none, some, List, [], ◌∷◌, String, lookup, put,
  delete, nat_key, string_key, ◌==◌, if◌then◌else◌, ◌>>=◌, length, Map,
}
use multi_raft.Raft.Log.{Bytes}

pub data StorageError : Type 0 where
  not_found corrupted closed : StorageError

pub record MemoryStorage : Type 0 where
  pub data' : Map String Bytes
  pub is_closed : Bool

pub record Write : Type 0 where
  pub key : String
  pub value : Bytes
  pub delete : Bool

unfoldable pub new_memory_storage : MemoryStorage
new_memory_storage = record { data' = []; is_closed = false }

unfoldable pub get : MemoryStorage → String → StorageError ⊎ Bytes
get s key =
    if s.is_closed
    then inl closed
    else elim (lookup s.data' key) [ none ↦ inl not_found | some value ↦ inr value ]

-- The writers return the storage, and the error if there is one.
unfoldable pub set_value : MemoryStorage → String → Bytes → MemoryStorage × Option StorageError
set_value s key value =
    if s.is_closed then (s, some closed) else (record s { data' = put s.data' key value }, none)

unfoldable pub delete_key : MemoryStorage → String → MemoryStorage × Option StorageError
delete_key s key =
    if s.is_closed then (s, some closed) else (record s { data' = delete s.data' key }, none)

unfoldable pub has : MemoryStorage → String → StorageError ⊎ Bool
has s key =
    if s.is_closed
    then inl closed
    else inr (elim (lookup s.data' key) [ none ↦ false | some _ ↦ true ])

unfoldable pub write_all : Map String Bytes → List Write → Map String Bytes
write_all m [] = m
write_all m (w ∷ writes) =
    write_all (if w.delete then delete m w.key else put m w.key w.value) writes

unfoldable pub batch_write : MemoryStorage → List Write → MemoryStorage × Option StorageError
batch_write s writes =
    if s.is_closed then (s, some closed) else (record s { data' = write_all s.data' writes }, none)

unfoldable pub close : MemoryStorage → MemoryStorage
close s = record { data' = []; is_closed = true }

pub record RaftState : Type 0 where
  pub current_term : ℕ
  pub voted_for : Option ℕ
  pub log : Bytes

pub record Snapshot : Type 0 where
  pub index : ℕ
  pub term : ℕ
  pub data' : Bytes

pub record MemoryRaftStorage : Type 0 where
  pub storage : MemoryStorage
  pub raft_state : Bytes
  pub snapshot : Bytes

unfoldable pub new_memory_raft_storage : MemoryRaftStorage
new_memory_raft_storage = record { storage = new_memory_storage; raft_state = []; snapshot = [] }

-- What `LoadRaftState` and `LoadSnapshot` do with the bytes that were saved.
unfoldable pub load {ℓ} : {A : Type ℓ} → (Bytes → Option A) → Bytes → StorageError ⊎ A
load decode bytes =
    if length bytes == 0
    then inl not_found
    else elim (decode bytes) [ none ↦ inl corrupted | some state ↦ inr state ]

-- An encoder that fails leaves the storage as it is; `none` is its error.
unfoldable pub save_raft_state :
    (RaftState → Option Bytes) → MemoryRaftStorage → RaftState → Option MemoryRaftStorage
save_raft_state encode s state = encode state >>= λ bytes. some (record s { raft_state = bytes })

unfoldable pub load_raft_state :
    (Bytes → Option RaftState) → MemoryRaftStorage → StorageError ⊎ RaftState
load_raft_state decode s = load decode s.raft_state

unfoldable pub save_snapshot :
    (Snapshot → Option Bytes) → MemoryRaftStorage → Snapshot → Option MemoryRaftStorage
save_snapshot encode s snapshot = encode snapshot >>= λ bytes. some (record s { snapshot = bytes })

unfoldable pub load_snapshot :
    (Bytes → Option Snapshot) → MemoryRaftStorage → StorageError ⊎ Snapshot
load_snapshot decode s = load decode s.snapshot

unfoldable pub raft_state_size : MemoryRaftStorage → ℕ
raft_state_size s = length s.raft_state

unfoldable pub snapshot_size : MemoryRaftStorage → ℕ
snapshot_size s = length s.snapshot

unfoldable pub close_raft_storage : MemoryRaftStorage → MemoryRaftStorage
close_raft_storage s = record s { storage = close s.storage }
