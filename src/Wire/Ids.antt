-- ===== src/Wire/Ids.antt =====
-- Connection ids of hex-net-core/src/wire.rs and session ids of hex-net-core/src/handshake.rs,
-- with the shard ids of hex-net-core/src/shard.rs that both carry in their low byte.
use hex_net.Common.{ℕ, ◌+◌, ◌-◌, ◌*◌, ◌/◌, ◌%◌, ◌^◌, ◌<◌, ◌≡◌, ap, ap₂, ◌∙◌, bit_and, bit_or, arith}
use hex_net.Common.Masks.{bit_or_fields, bit_and_mask}

abbrev pub shard_bits : ℕ
shard_bits = 8

abbrev pub slot_bits : ℕ
slot_bits = 14

abbrev pub generation_bits : ℕ
generation_bits = 32 - shard_bits - slot_bits

-- `ShardId`, a `u8`.
abbrev pub ShardId : Type 0
ShardId = ℕ

abbrev pub ConnectionId : Type 0
ConnectionId = ℕ

abbrev pub SessionId : Type 0
SessionId = ℕ

abbrev pub slots : ℕ
slots = 2 ^ slot_bits

abbrev pub slot_mask : ℕ
slot_mask = slots - 1

abbrev pub generation_mask : ℕ
generation_mask = 2 ^ generation_bits - 1

-- `x << k` on a `u32` and on a `u64`.
abbrev pub shl32 : ℕ → ℕ → ℕ
shl32 x k = x * 2 ^ k % 2 ^ 32

abbrev pub shl64 : ℕ → ℕ → ℕ
shl64 x k = x * 2 ^ k % 2 ^ 64

-- `ConnectionId::new`.
unfoldable pub new : ℕ → ℕ → ShardId → ConnectionId
new slot generation shard =
    bit_or
      (bit_or (shl32 (bit_and generation generation_mask) (shard_bits + slot_bits))
        (shl32 (bit_and slot slot_mask) shard_bits))
      shard

unfoldable pub shard : ConnectionId → ShardId
shard id = bit_and id (2 ^ shard_bits - 1) % 2 ^ 8

unfoldable pub slot : ConnectionId → ℕ
slot id = bit_and (id / 2 ^ shard_bits) slot_mask

unfoldable pub generation : ConnectionId → ℕ
generation id = id / 2 ^ (shard_bits + slot_bits)

-- `SessionId::new` and `SessionId::shard`.
unfoldable pub new_session : ℕ → ShardId → SessionId
new_session sequence shard = bit_or (shl64 sequence shard_bits) shard

unfoldable pub session_shard : SessionId → ShardId
session_shard id = bit_and id (2 ^ shard_bits - 1) % 2 ^ 8

new_sum :
    (slot generation shard : ℕ)
    → shard < 2 ^ 8
    → new slot generation shard ≡ generation % 2 ^ 10 * 2 ^ 22 + slot % 2 ^ 14 * 2 ^ 8 + shard
unfolding new
new_sum s g h lt =
    let high : shl32 (bit_and g generation_mask) 22 ≡ g % 2 ^ 10 * 2 ^ 22 =
      omega (arith, bit_and_mask 10 g) in
    let middle : shl32 (bit_and s slot_mask) 8 ≡ s % 2 ^ 14 * 2 ^ 8 =
      omega (arith, bit_and_mask 14 s) in
    let upper : g % 2 ^ 10 * 2 ^ 22 + s % 2 ^ 14 * 2 ^ 8
        ≡ (g % 2 ^ 10 * 2 ^ 14 + s % 2 ^ 14) * 2 ^ 8 =
      omega arith in
    ap (λ x. bit_or x h)
      (ap₂ bit_or high middle
        ∙ bit_or_fields 22 (g % 2 ^ 10) (s % 2 ^ 14 * 2 ^ 8) (omega arith)
        ∙ upper)
    ∙ bit_or_fields 8 (g % 2 ^ 10 * 2 ^ 14 + s % 2 ^ 14) h lt
    ∙ omega arith

-- With a shard below 2^8, an id gives back its shard, its slot modulo 2^14 and its generation
-- modulo 2^10, and fits 32 bits.
new_fields :
    (s g : ℕ) (h : ShardId)
    → h < 2 ^ 8
    → (shard (new s g h) ≡ h)
      × (slot (new s g h) ≡ s % slots)
      × (generation (new s g h) ≡ g % 2 ^ generation_bits)
      × (new s g h < 2 ^ 32)
unfolding shard slot generation
new_fields s g h lt =
    let id = new s g h in
    let sum = new_sum s g h lt in
    (
      omega (arith, bit_and_mask 8 id),
      omega (arith, bit_and_mask 14 (id / 2 ^ 8)),
      omega arith,
      omega arith,
    )

-- Every 32-bit id is the id of its own fields, so distinct ids differ in a field.
new_of_fields : (id : ConnectionId) → id < 2 ^ 32 → new (slot id) (generation id) (shard id) ≡ id
unfolding shard slot generation
new_of_fields id lt =
    let low = bit_and_mask 8 id in
    let mid = bit_and_mask 14 (id / 2 ^ 8) in
    new_sum (bit_and (id / 2 ^ 8) slot_mask) (id / 2 ^ 22) (bit_and id 255 % 2 ^ 8) (omega arith)
    ∙ omega arith

-- A session id names the shard that made it, whatever the sequence, and a sequence below 2^56 can
-- be read back.
pub session_fields :
    (sequence : ℕ) (h : ShardId)
    → h < 2 ^ 8
    → (session_shard (new_session sequence h) ≡ h)
      × (new_session sequence h / 2 ^ shard_bits ≡ sequence % 2 ^ 56)
unfolding session_shard new_session
session_fields sequence h lt =
    let top : shl64 sequence 8 ≡ sequence % 2 ^ 56 * 2 ^ 8 = omega arith in
    let id = bit_or (shl64 sequence shard_bits) h in
    let sum : id ≡ sequence % 2 ^ 56 * 2 ^ 8 + h =
      ap (λ x. bit_or x h) top ∙ bit_or_fields 8 (sequence % 2 ^ 56) h lt in
    (omega (arith, bit_and_mask 8 id), omega arith)
