-- ===== src/Arena/Store.antt =====
-- `Arena::store` and `load` of hex-net-core/src/arena.rs together.
use hex_net.Common.{
  ℕ, suc, ◌+◌, ◌≤◌, ◌≡◌, refl, ap, sym, ◌∙◌, List, ◌∷◌, some, length, arith, get_elem?, take, true,
  u16_max,
}
use hex_net.Common.Slices.{splice, erase_at}
use hex_net.Common.Splices.{splice_over}
use hex_net.Arena.{Arena, ByteRef, blocks_for, write_at, store, load}
use hex_net.Arena.Valid.{copies, copies-total, IsStored, IsValid, Message}
use hex_net.Arena.Others.{total-erase_at, kept_was_there}
use hex_net.Arena.Content.{
  sized_of, bytes_of, content, content_same, load_stored, length-bytes_of, IsValid-written,
}
use hex_net.Arena.Write.{write_at_stored}
use hex_net.Arena.Reserve.{reserve_stored}

-- A message that shares no block with the written one loads as it did.
pub load_other :
    (a a' : Arena) (free free' : List ℕ) (live live' : List Message) (m : Message) (out : List ℕ)
    → IsValid a free live
    → IsValid a' free' live'
    → IsStored a.next m
    → IsStored a'.next m
    → content a'.blocks m.1 ≡ content a.blocks m.1
    → m.0.count ≤ length out
    → load a' m.0 out ≡ load a m.0 out
load_other a a' free free' live live' m out valid valid' here here' same room =
    load_stored a' m out (sized_of a' free' live' valid') here' room
    ∙ ap (λ c. some (some m.0.count, splice out 0 (take m.0.count c))) same
    ∙ sym (load_stored a m out (sized_of a free live valid) here room)

-- In a valid arena, a payload of at most 65,535 bytes whose blocks are free is stored: the arena stays
-- valid, fewer blocks are free by the payload's, the new message loads as the payload into every buffer
-- that has room for it, and every message stored before loads as it did.
pub store_lem :
    (a : Arena) (free : List ℕ) (live : List Message) (payload : List ℕ)
    → IsValid a free live
    → length payload ≤ u16_max
    → blocks_for (length payload) ≤ a.free_count
    → (a' : Arena) × (message : ByteRef) × (path free' : List ℕ) × (store a payload
        ≡ some (a', some message))
      × IsValid a' free' ((message, path) ∷ live)
      × (a'.free_count + blocks_for (length payload) ≡ a.free_count)
      × ((out : List ℕ)
          → length payload ≤ length out
          → load a' message out ≡ some (some (length payload), splice out 0 payload))
      × ((k : ℕ) (m : Message) (out : List ℕ)
          → get_elem? live k ≡ some m
          → m.0.count ≤ length out
          → load a' m.0 out ≡ load a m.0 out)
unfolding store
store_lem a free live payload valid short room =
    let (a1, free', path, made, valid1, same_blocks, spent) =
      reserve_stored a free live (length payload) valid short room in
    let message : ByteRef = record { start = a.free_head; count = length payload } in
    let here = valid1.stored 0 (message, path) refl in
    let sized1 = sized_of a1 free' ((message, path) ∷ live) valid1 in
    let (blocks, wrote, bytes, others, sized) =
      write_at_stored a1 (message, path) 0 payload sized1 here (λ i. omega (arith, valid1.once i))
        (omega arith) in
    let a' : Arena = record a1 { blocks = blocks } in
    let valid' : IsValid a' free' ((message, path) ∷ live) =
      IsValid-written a1 free' ((message, path) ∷ live) blocks valid1 sized in
    let whole : bytes_of a' (message, path) ≡ payload =
      bytes
      ∙ splice_over (bytes_of a1 (message, path)) payload
          (length-bytes_of a1 (message, path) sized1 here) in
    let same_content : (m : Message)
        → ((i : ℕ) → copies i path + copies i m.1 ≤ 1)
        → content a'.blocks m.1 ≡ content a.blocks m.1 =
      λ m apart.
        content_same a1.blocks blocks m.1 (λ i more. others.other i (omega (arith, apart i)))
        ∙ ap (λ l. content l m.1) same_blocks in
    (
      a',
      message,
      path,
      free',
      rw (made, wrote) refl,
      valid',
      spent,
      λ out fits.
          load_stored a' (message, path) out sized here fits
          ∙ ap (λ c. some (some (length payload), splice out 0 c)) whole,
      λ k m out at fits.
          load_other a a' free free' live ((message, path) ∷ live) m out valid valid'
            (valid.stored k m at) (valid1.stored (suc k) m at)
            (same_content m (λ i. omega (arith, valid1.once i, copies-total i live k m at))) fits,
    )

-- In a valid arena, a piece that lies within a stored message is written: the arena stays valid, the
-- message, which loads as some bytes, then loads as those bytes with the piece written over them at its
-- offset, and every other message loads as it did.
pub write_at_lem :
    (a : Arena) (free : List ℕ) (live : List Message) (k : ℕ) (m : Message) (offset : ℕ)
    (piece : List ℕ)
    → IsValid a free live
    → get_elem? live k ≡ some m
    → offset + length piece ≤ m.0.count
    → (a' : Arena) × (bytes : List ℕ) × (write_at a m.0 offset piece ≡ some (a', true))
      × IsValid a' free live
      × ((out : List ℕ)
          → m.0.count ≤ length out
          → (load a m.0 out ≡ some (some m.0.count, splice out 0 bytes))
            × (load a' m.0 out ≡ some (some m.0.count, splice out 0 (splice bytes offset piece))))
      × ((j : ℕ) (other : Message) (out : List ℕ)
          → get_elem? (erase_at live k) j ≡ some other
          → other.0.count ≤ length out
          → load a' other.0 out ≡ load a other.0 out)
write_at_lem a free live k m offset piece valid at within =
    let sized = sized_of a free live valid in
    let here = valid.stored k m at in
    let (blocks, wrote, written, others, sized') =
      write_at_stored a m offset piece sized here
        (λ i. omega (arith, valid.once i, copies-total i live k m at)) within in
    let a' : Arena = record a { blocks = blocks } in
    let valid' = IsValid-written a free live blocks valid sized' in
    (
      a',
      bytes_of a m,
      wrote,
      valid',
      λ out fits. (
        load_stored a m out sized here fits,
        load_stored a' m out sized' here fits
            ∙ ap (λ c. some (some m.0.count, splice out 0 c)) written,
      ),
      λ j other out there fits.
          (let (j', was) = kept_was_there live k j other there in
            let apart : (i : ℕ) → copies i m.1 + copies i other.1 ≤ 1 = λ i. omega (
              arith,
              valid.once i,
              total-erase_at i live k m at,
              copies-total i (erase_at live k) j other there,
            ) in
            load_other a a' free free live live other out valid valid' (valid.stored j' other was)
              (valid.stored j' other was)
              (content_same a.blocks blocks other.1
                (λ i more. others.other i (omega (arith, apart i))))
              fits),
    )
