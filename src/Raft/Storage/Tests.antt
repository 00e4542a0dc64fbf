-- ===== src/Raft/Storage/Tests.antt =====
-- The theorem on batches of src/raft/storage_memory.go at a concrete batch.
use multi_raft.Common.{
  ◌≡◌, refl, inr, true, false, List, [], ◌∷◌, lookup, put, delete, nat_key, string_key,
}
use multi_raft.Raft.Storage.{MemoryStorage, Write, get, write_all, batch_write}
use multi_raft.Raft.Storage.Batches.{Batches, batch_write_lem}

abbrev some_storage : MemoryStorage
some_storage = record { data' = ("a", 1 ∷ []) ∷ ("b", 2 ∷ []) ∷ []; is_closed = false }

abbrev some_writes : List Write
some_writes =
    record { key = "a"; value = 3 ∷ []; delete = false }
    ∷ record { key = "b"; value = []; delete = true }
    ∷ record { key = "a"; value = 4 ∷ []; delete = false }
    ∷ []

read_back : get (batch_write some_storage some_writes).0 "a" ≡ inr (4 ∷ [])
unfolding get batch_write write_all lookup put delete string_key
read_back = refl

batch_write_lem_example : Batches some_storage some_writes
batch_write_lem_example = batch_write_lem some_storage some_writes
