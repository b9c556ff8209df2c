-- ===== src/Arena/Visit.antt =====
-- `Arena::chunks` of hex-net-core/src/arena.rs against `load`.
use hex_net.Common.{
  ℕ, zero, suc, ◌-◌, ◌*◌, ◌≤◌, ◌<◌, ◌≡◌, refl, ap, sym, ◌∙◌, List, [], ◌∷◌, ◌++◌, Option, none,
  some, length, arith, get_elem?, get_or, take, min, ◌==◌, ◌>>=◌, false,
}
use hex_net.Common.Slices.{splice}
use hex_net.Arena.{Arena, Chunks, no_block, blocks_for, chunks, next_chunk, load}
use hex_net.Arena.Valid.{Chain, head_lt, IsStored, IsValid, Message}
use hex_net.Arena.Content.{AreSized, sized_of, block_at, take_block, bytes_of, content, load_stored}

-- What a loop over the iterator puts together, within fuel.
unfoldable pub gather : ℕ → Arena → Chunks → Option (List ℕ)
gather zero a c = none
gather (suc fuel) a c = do
  (chunk, c') ← next_chunk a c
  (let rest = gather fuel a c' in
      elim chunk [ none ↦ some [] | some bytes ↦ (do more ← rest; some (bytes ++ more)) ])

gather_lem :
    (fuel : ℕ) (a : Arena) (block : ℕ) (path : List ℕ) (left : ℕ)
    → AreSized a.blocks a.next
    → Chain a.next block path
    → left ≤ 64 * length path
    → length path < fuel
    → gather fuel a (record { block = block; remaining = left })
      ≡ some (take left (content a.blocks path))
unfolding gather next_chunk Chain content
gather_lem zero a block path left sized chain room enough = absurd (omega arith)
gather_lem (suc fuel) a block path zero sized chain room enough = refl
gather_lem (suc fuel) a block [] (suc left) sized chain room enough = absurd (omega arith)
gather_lem (suc fuel) a block (i ∷ path) (suc left) sized (e, following, at, rest) room enough =
    let (found, size, go) = block_at a.blocks a.next i following sized at in
    let b = get_or a.blocks i [] in
    let n = min (suc left) 64 in
    let behind =
      gather_lem fuel a following path (suc left - n) sized rest (omega arith) (omega arith) in
    let some_left : (suc left == 0) ≡ false = ground arith in
    let step : gather (suc fuel) a (record { block = block; remaining = suc left })
        ≡ some (take n b ++ take (suc left - n) (content a.blocks path)) =
      rw (e, some_left, go, found, at, behind) refl in
    step ∙ ap some (sym (take_block b (content a.blocks path) (suc left) size))

-- In a valid arena, a loop over a stored message's chunks ends after its last block, and the chunks in
-- their order are the bytes that `load` copies, into every buffer that has room for them.
pub chunks-load :
    (a : Arena) (free : List ℕ) (live : List Message) (k : ℕ) (m : Message) (out : List ℕ)
    → IsValid a free live
    → get_elem? live k ≡ some m
    → m.0.count ≤ length out
    → (bytes : List ℕ) × (gather (suc (blocks_for m.0.count)) a (chunks m.0) ≡ some bytes)
      × (load a m.0 out ≡ some (some m.0.count, splice out 0 bytes))
unfolding IsStored
chunks-load a free live k (message, path) out valid at room =
    let (chain, len) = valid.stored k (message, path) at in
    let sized = sized_of a free live valid in
    let lt = head_lt a.next message.start path chain (omega arith) in
    let real : (message.start == no_block) ≡ false = ground (arith, valid.small) in
    (
      bytes_of a (message, path),
      rw real (
          gather_lem (suc (blocks_for message.count)) a message.start path message.count sized chain
            (omega arith) (omega arith)),
      load_stored a (message, path) out sized (chain, len) room,
    )
