-- ===== src/Shard.antt =====
-- hex-net-core/src/shard.rs: how many endpoints share an address, and which one owns a handshake.
use native.Mathlib.Nat.{mod-lt}
use hex_net.Common.{
  ℕ, ◌%◌, ◌^◌, ◌≤◌, ◌<◌, ◌≡◌, refl, ◌||◌, Bool, true, Option, none, some, List, arith, ltb, ◌==◌,
  if◌then◌else◌, take,
}
use hex_net.Wire.Bytes.{from_le}
use hex_net.Wire.Ids.{ShardId, SessionId, session_shard, shard_bits, new_session, session_fields}

abbrev pub max_shards : ℕ
max_shards = 2 ^ shard_bits

abbrev pub ShardCount : Type 0
ShardCount = ℕ

-- `ShardCount::new`.
unfoldable pub new_count : ℕ → Option ShardCount
new_count count = if count == 0 || ltb max_shards count then none else some (count % 2 ^ 16)

unfoldable pub contains : ShardCount → ShardId → Bool
contains count shard = ltb shard count

-- The ticket is its identity: twelve random bytes, of which the first four are read.
unfoldable pub home : ShardCount → Option SessionId → List ℕ → Option ShardId
unfolding contains
home count none ticket = some (from_le (take 4 ticket) % count % 2 ^ 8)
home count (some session) ticket =
    let shard = session_shard session in if contains count shard then some shard else none

-- A group has from 1 to 256 members, and the cast to 16 bits loses nothing.
pub new_count_lem :
    (n : ℕ) (count : ShardCount)
    → new_count n ≡ some count
    → (count ≡ n) × (0 < count) × (count ≤ max_shards)
unfolding new_count
new_count_lem n count e = ground arith

-- For a group of an admitted size, whatever a ticket names, the home of its handshake, where it
-- has one, is a member of the group.
home_contained :
    (n : ℕ) (count : ShardCount) (session : Option SessionId) (ticket : List ℕ) (shard : ShardId)
    → new_count n ≡ some count
    → home count session ticket ≡ some shard
    → contains count shard ≡ true
unfolding home contains
home_contained n count none ticket shard e f =
    let c = new_count_lem n count e in
    ground (arith, mod-lt (from_le (take 4 ticket)) {m = count} c.1)
home_contained n count (some session) ticket shard e f = ground arith

-- A session made by a member of the group, whose id is below 256, goes home to that member,
-- whatever its sequence and whatever the ticket; and a new player always has a home.
home-new_session :
    (count : ShardCount) (sequence : ℕ) (shard : ShardId) (ticket : List ℕ)
    → contains count shard ≡ true
    → shard < max_shards
    → (home count (some (new_session sequence shard)) ticket ≡ some shard)
      × ((s : ShardId) × (home count none ticket ≡ some s))
unfolding home
home-new_session count sequence shard ticket h lt =
    (rw ((session_fields sequence shard lt).0, h) refl, (_, refl))
