-- ===== src/Arena.antt =====
-- hex-net-core/src/arena.rs: block-allocated storage for message payloads. `none` of an operation is a
-- panic (an index past an array), or a loop that ran out of fuel.
pub mod Valid
pub mod Others
pub mod Content
pub mod Write
pub mod Reserve
pub mod Store
pub mod Release
pub mod Visit
pub mod New
use hex_net.Common.{
  ℕ, zero, suc, ◌+◌, ◌-◌, ◌*◌, ◌/◌, ◌%◌, ◌<◌, Bool, true, false, ◌||◌, Option, none, some, List, [],
  ◌∷◌, ltb, ◌==◌, if◌then◌else◌, ◌>>=◌, length, get_elem?, set, take, drop, replicate, checked, min,
  max, u16_max,
}
use hex_net.Common.Slices.{splice}

abbrev pub block_size : ℕ
block_size = 64

abbrev pub no_block : ℕ
no_block = u16_max

pub record ByteRef : Type 0 where
  pub start : ℕ
  pub count : ℕ

abbrev pub no_message : ByteRef
no_message = record { start = no_block; count = 0 }

abbrev pub is_none : ByteRef → Bool
is_none message = message.start == no_block

abbrev pub is_empty : ByteRef → Bool
is_empty message = message.count == 0

-- `N` is the length of `next`.
pub record Arena : Type 0 where
  pub blocks : List (List ℕ)
  pub next : List ℕ
  pub free_head : ℕ
  pub free_count : ℕ

-- The link of a new arena's block `i` of `n`, for the last `k` of them.
unfoldable pub links : ℕ → ℕ → ℕ → List ℕ
links n i zero = []
links n i (suc k) = (if ltb (i + 1) n then i + 1 else no_block) ∷ links n (i + 1) k

unfoldable pub new : ℕ → Arena
new n = record {
  blocks = replicate n (replicate block_size 0);
  next = links n 0 n;
  free_head = 0;
  free_count = n;
}

abbrev pub capacity_bytes : Arena → ℕ
capacity_bytes a = length a.next * block_size

abbrev pub free_bytes : Arena → ℕ
free_bytes a = a.free_count * block_size

-- `len.div_ceil(BLOCK).max(1)`.
abbrev pub blocks_for : ℕ → ℕ
blocks_for len = max ((len + 63) / 64) 1

-- The loop of `reserve` from a block on, with the steps left: the links, and the head of the rest.
unfoldable pub detach : List ℕ → ℕ → ℕ → Option (List ℕ × ℕ)
detach next zero block = some (next, block)
detach next (suc zero) block = do
  following ← get_elem? next block
  some (set next block no_block, following)
detach next (suc (suc steps)) block = do
  following ← get_elem? next block
  detach next (suc steps) following

-- The inner `none` is the refusal of a message that there is no room for.
unfoldable pub reserve : Arena → ℕ → Option (Arena × Option ByteRef)
reserve a len = if ltb u16_max len || ltb a.free_count (blocks_for len) then some (a, none) else (do
  (next, head) ← detach a.next (blocks_for len) a.free_head
  some (
    record a { next = next; free_head = head; free_count = a.free_count - blocks_for len },
    some (record { start = a.free_head; count = len }),
  ))

-- The walk to the block of an offset. The inner `none` is the end of the chain.
unfoldable pub walk : List ℕ → ℕ → ℕ → Option (Option ℕ)
walk next zero block = some (some block)
walk next (suc steps) block = do
  following ← get_elem? next block
  (let rest = walk next steps following in if following == no_block then some none else rest)

-- The loop of `write_at`, with the bytes left. The fuel bounds the blocks visited.
unfoldable pub fill : ℕ → List ℕ → List (List ℕ) → ℕ → ℕ → List ℕ → Option (List (List ℕ) × Bool)
fill fuel next blocks block within [] = some (blocks, true)
fill zero next blocks block within (b ∷ bytes) = none
fill (suc fuel) next blocks block within (b ∷ bytes) =
    if block == no_block then some (blocks, false) else (do
      old ← get_elem? blocks block
      following ← get_elem? next block
      (let n = min (64 - within) (length (b ∷ bytes)) in
          fill fuel next (set blocks block (splice old within (take n (b ∷ bytes)))) following 0
            (drop n (b ∷ bytes))))

abbrev pub fill_from : Arena → ℕ → List ℕ → Option ℕ → Option (Arena × Bool)
fill_from a within bytes none = some (a, false)
fill_from a within bytes (some block) = do
  (blocks, done) ← fill (length bytes) a.next a.blocks block within bytes
  some (record a { blocks = blocks }, done)

unfoldable pub write_at : Arena → ByteRef → ℕ → List ℕ → Option (Arena × Bool)
write_at a message offset bytes =
    if is_none message || ltb message.count (offset + length bytes)
    then some (a, false)
    else (if length bytes == 0 then some (a, true) else (do
      found ← walk a.next (offset / 64) message.start
      fill_from a (offset % 64) bytes found))

-- The loop of `release` from a block on. The fuel bounds the blocks visited.
unfoldable pub give_back : ℕ → Arena → ℕ → Option Arena
give_back zero a block = none
give_back (suc fuel) a block = do
  following ← get_elem? a.next block
  free_count ← checked u16_max (a.free_count + 1)
  (let a' = record a {
    next = set a.next block a.free_head;
    free_head = block;
    free_count = free_count;
  } in
      let rest = give_back fuel a' following in if following == no_block then some a' else rest)

unfoldable pub release : Arena → ByteRef → Option Arena
release a message = if is_none message then some a else give_back (length a.next) a message.start

abbrev pub stored : ByteRef → Arena × Bool → Option (Arena × Option ByteRef)
stored message (a, true) = some (a, some message)
stored message (a, false) = do a' ← release a message; some (a', none)

abbrev pub store_reserved : List ℕ → Arena × Option ByteRef → Option (Arena × Option ByteRef)
store_reserved payload (a, none) = some (a, none)
store_reserved payload (a, some message) = do
  written ← write_at a message 0 payload
  stored message written

unfoldable pub store : Arena → List ℕ → Option (Arena × Option ByteRef)
store a payload = do reserved ← reserve a (length payload); store_reserved payload reserved

-- The loop of `load`: the bytes left, the buffer and where it is written. The fuel bounds the blocks
-- visited.
unfoldable pub copy_out : ℕ → Arena → ℕ → ℕ → ℕ → List ℕ → Option (Bool × List ℕ)
copy_out fuel a block read zero out = some (true, out)
copy_out zero a block read (suc left) out = none
copy_out (suc fuel) a block read (suc left) out =
    if block == no_block then some (false, out) else (do
      bytes ← get_elem? a.blocks block
      following ← get_elem? a.next block
      (let n = min (suc left) 64 in
          copy_out fuel a following (read + n) (suc left - n) (splice out read (take n bytes))))

-- The length, or `none` when the buffer is too small, and the buffer.
unfoldable pub load : Arena → ByteRef → List ℕ → Option (Option ℕ × List ℕ)
load a message out =
    if is_none message || ltb (length out) message.count then some (none, out) else (do
      (done, out') ← copy_out message.count a message.start 0 message.count out
      some (if done then some message.count else none, out'))

pub record Chunks : Type 0 where
  pub block : ℕ
  pub remaining : ℕ

abbrev pub chunks : ByteRef → Chunks
chunks message = record {
  block = message.start;
  remaining = if is_none message then 0 else message.count;
}

-- `Chunks::next`. The inner `none` is the iterator's end.
unfoldable pub next_chunk : Arena → Chunks → Option (Option (List ℕ) × Chunks)
next_chunk a c = if c.remaining == 0 || c.block == no_block then some (none, c) else (do
  bytes ← get_elem? a.blocks c.block
  following ← get_elem? a.next c.block
  (let n = min c.remaining 64 in
      some (some (take n bytes), record { block = following; remaining = c.remaining - n })))
