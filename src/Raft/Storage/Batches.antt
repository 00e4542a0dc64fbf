-- ===== src/Raft/Storage/Batches.antt =====
-- Batches of writes in src/raft/storage_memory.go.
use multi_raft.Common.{
  ◌≡◌, refl, ◌⊎◌, inl, inr, true, false, Option, none, some, List, [], ◌∷◌, String, arith, lookup,
  put, delete, nat_key, string_key, if◌then◌else◌, Bool-cases, is_key, Map, lookup-put_self,
  lookup-put_ne, lookup-delete_self, lookup-delete_ne,
}
use multi_raft.Raft.Log.{Bytes}
use multi_raft.Raft.Storage.{not_found, closed, MemoryStorage, Write, get, write_all, batch_write}

-- The last write of a key in a batch: `none` where there is none, `some none` for a deletion.
abbrev pub last_write : List Write → String → Option (Option Bytes)
last_write [] key = none
last_write (w ∷ writes) key = elim (last_write writes key) [
  | some value ↦ some value
  | none ↦ (if is_key w.key key then some (if w.delete then none else some w.value) else none)
]

write_all-last_write :
    (m : Map String Bytes) (writes : List Write) (key : String)
    → lookup (write_all m writes) key
      ≡ elim (last_write writes key) [ some value ↦ value | none ↦ lookup m key ]
unfolding write_all
write_all-last_write m [] key = refl
write_all-last_write m (w ∷ writes) key = ground (
  arith,
  write_all-last_write (if w.delete then delete m w.key else put m w.key w.value) writes key,
  lookup-put_self m w.key w.value,
  lookup-put_ne m w.key key w.value,
  lookup-delete_self m w.key,
  lookup-delete_ne m w.key key,
)

-- What a batch of writes does to what is read.
abbrev pub Batches : MemoryStorage → List Write → Type 0
Batches s writes =
    (s.is_closed ≡ true) × (batch_write s writes ≡ (s, some closed))
    ⊎ (s.is_closed ≡ false)
      × ((batch_write s writes).1 ≡ none)
      × ((key : String)
          → get (batch_write s writes).0 key ≡ elim (last_write writes key) [
            | some (some value) ↦ inr value
            | some none ↦ inl not_found
            | none ↦ get s key
          ])

-- A batch on an open storage does not fail: each key then reads as its last write in the batch says,
-- a deleted one as not found, and a key without a write as before. A closed storage refuses the
-- batch and is not changed.
pub batch_write_lem : (s : MemoryStorage) (writes : List Write) → Batches s writes
unfolding batch_write get
batch_write_lem s writes = elim (Bool-cases s.is_closed) [
  | inl shut ↦ inl (shut, ground arith)
  | inr open' ↦
      inr (open', ground arith, λ key. ground (arith, write_all-last_write s.data' writes key))
]
