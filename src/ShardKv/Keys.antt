-- ===== src/ShardKv/Keys.antt =====
-- `key2shard` of src/shardkv/client.go: the shard of a key, by the first byte of its UTF-8.
use Prim.Native.Char.{Char, code}
use Prim.Native.String.{String, [], ◌∷◌}
use multi_raft.Common.{ℕ, ◌+◌, ◌/◌, ◌%◌, ◌<◌, ltb, if◌then◌else◌, arith}
use multi_raft.ShardCtrler.Config.{shard_count}

-- The first byte of a character's UTF-8.
unfoldable pub lead_byte : Char → ℕ
lead_byte c =
    let four = if ltb (code c) 65536 then 224 + code c / 4096 else 240 + code c / 262144 in
    let three = if ltb (code c) 2048 then 192 + code c / 64 else four in
    if ltb (code c) 128 then code c else three

unfoldable pub key2shard : String → ℕ
key2shard [] = 0 % shard_count
key2shard (c ∷ s) = lead_byte c % shard_count

pub key2shard-bound : (key : String) → key2shard key < shard_count
unfolding key2shard
key2shard-bound [] = omega arith
key2shard-bound (c ∷ s) = omega arith
