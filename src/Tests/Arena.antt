-- ===== src/Tests/Arena.antt =====
-- Examples for hex-net-core/src/arena.rs.
use hex_net.Common.{
  ℕ, zero, suc, ◌+◌, ◌≤◌, ◌≡◌, refl, ap, sym, some, List, [], ◌∷◌, arith, length, get_elem?,
  replicate, true,
}
use hex_net.Common.Slices.{splice, erase_at}
use hex_net.Arena.{
  Arena, ByteRef, no_block, detach, reserve, walk, fill, write_at, release, store, load, chunks,
}
use hex_net.Arena.Valid.{Chain, IsStored, IsStored-grown, IsValid, Message}
use hex_net.Arena.Store.{store_lem, write_at_lem}
use hex_net.Arena.Release.{release_lem}
use hex_net.Arena.Visit.{gather, chunks-load}

-- A message of 70 bytes in the blocks 2 and 0, and the blocks 3 and 1 free.
abbrev message : ByteRef
message = record { start = 2; count = 70 }

abbrev arena : Arena
arena = record {
  blocks = replicate 64 7 ∷ replicate 64 0 ∷ replicate 64 9 ∷ replicate 64 0 ∷ [];
  next = no_block ∷ no_block ∷ 0 ∷ 1 ∷ [];
  free_head = 3;
  free_count = 2;
}

abbrev arena_live : List Message
arena_live = (message, 2 ∷ 0 ∷ []) ∷ []

arena_sized : (i : ℕ) (b : List ℕ) → get_elem? arena.blocks i ≡ some b → length b ≡ 64
arena_sized zero b e = let same : replicate 64 7 ≡ b = ground arith in ap length (sym same)
arena_sized (suc zero) b e = let same : replicate 64 0 ≡ b = ground arith in ap length (sym same)
arena_sized (suc (suc zero)) b e =
    let same : replicate 64 9 ≡ b = ground arith in ap length (sym same)
arena_sized (suc (suc (suc zero))) b e =
    let same : replicate 64 0 ≡ b = ground arith in ap length (sym same)
arena_sized (suc (suc (suc (suc i)))) b e = absurd cc

arena-Chain : Chain arena.next 3 (3 ∷ 1 ∷ [])
unfolding Chain
arena-Chain = (refl, 1, refl, (refl, no_block, refl, refl))

message-IsStored : IsStored arena.next (message, 2 ∷ 0 ∷ [])
unfolding Chain IsStored
message-IsStored = ((refl, 0, refl, (refl, no_block, refl, refl)), refl)

arena-IsValid : IsValid arena (3 ∷ 1 ∷ []) arena_live
arena-IsValid = record {
  small = omega arith;
  same_len = refl;
  sized = arena_sized;
  chain = arena-Chain;
  counted = refl;
  all = refl;
  once = λ i. ground arith;
  stored =
      IsStored-grown arena.next (message, 2 ∷ 0 ∷ []) [] message-IsStored (λ k m at. absurd cc);
}

-- Storing 3 bytes takes block 3, and the message of 70 bytes is as it was.
store_run :
    (a : Arena) × (store arena (5 ∷ 6 ∷ 7 ∷ []) ≡ some (a, some (record { start = 3; count = 3 })))
    × (a.free_head ≡ 1)
unfolding store reserve detach write_at walk fill
store_run = (_, refl, refl)

store_lem_example :
    (a : Arena) × (stored : ByteRef) × (path free : List ℕ) × (store arena (5 ∷ 6 ∷ 7 ∷ [])
      ≡ some (a, some stored))
    × IsValid a free ((stored, path) ∷ arena_live)
    × (a.free_count + 1 ≡ 2)
    × ((out : List ℕ)
        → 3 ≤ length out
        → load a stored out ≡ some (some 3, splice out 0 (5 ∷ 6 ∷ 7 ∷ [])))
    × ((k : ℕ) (m : Message) (out : List ℕ)
        → get_elem? arena_live k ≡ some m
        → m.0.count ≤ length out
        → load a m.0 out ≡ load arena m.0 out)
store_lem_example =
    store_lem arena (3 ∷ 1 ∷ []) arena_live (5 ∷ 6 ∷ 7 ∷ []) arena-IsValid (omega arith)
      (omega arith)

-- A piece across the border of the two blocks.
write_at_lem_example :
    (a : Arena) × (bytes : List ℕ) × (write_at arena message 63 (1 ∷ 2 ∷ []) ≡ some (a, true))
    × IsValid a (3 ∷ 1 ∷ []) arena_live
    × ((out : List ℕ)
        → 70 ≤ length out
        → (load arena message out ≡ some (some 70, splice out 0 bytes))
          × (load a message out ≡ some (some 70, splice out 0 (splice bytes 63 (1 ∷ 2 ∷ [])))))
    × ((j : ℕ) (other : Message) (out : List ℕ)
        → get_elem? (erase_at arena_live 0) j ≡ some other
        → other.0.count ≤ length out
        → load a other.0 out ≡ load arena other.0 out)
write_at_lem_example =
    write_at_lem arena (3 ∷ 1 ∷ []) arena_live 0 (message, 2 ∷ 0 ∷ []) 63 (1 ∷ 2 ∷ []) arena-IsValid
      refl (omega arith)

release_lem_example :
    (a : Arena) × (free : List ℕ) × (release arena message ≡ some a)
    × IsValid a free []
    × (a.free_count ≡ 4)
    × ((j : ℕ) (other : Message) (out : List ℕ)
        → get_elem? (erase_at arena_live 0) j ≡ some other
        → other.0.count ≤ length out
        → load a other.0 out ≡ load arena other.0 out)
release_lem_example =
    release_lem arena (3 ∷ 1 ∷ []) arena_live 0 (message, 2 ∷ 0 ∷ []) arena-IsValid refl

chunks-load_example :
    (bytes : List ℕ) × (gather 3 arena (chunks message) ≡ some bytes)
    × (load arena message (replicate 70 0) ≡ some (some 70, splice (replicate 70 0) 0 bytes))
chunks-load_example =
    chunks-load arena (3 ∷ 1 ∷ []) arena_live 0 (message, 2 ∷ 0 ∷ []) (replicate 70 0) arena-IsValid
      refl (omega arith)
