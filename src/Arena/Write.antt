-- ===== src/Arena/Write.antt =====
-- `Arena::write_at` of hex-net-core/src/arena.rs: a piece of a message is written in place.
use hex_net.Common.{
  ℕ, zero, suc, ◌+◌, ◌-◌, ◌*◌, ◌/◌, ◌%◌, ◌≤◌, ◌<◌, ◌≡◌, ◌≢◌, refl, ap, ap₂, sym, ◌∙◌, List, [], ◌∷◌,
  ◌++◌, some, length, arith, get_or, set, take, drop, min, ◌==◌, ltb, leb, true, false, Bool-cases,
  inl, inr, length-append, length-take, length-drop, length-set, get_or-set_self, get_or-set_ne,
}
use hex_net.Common.Slices.{splice, length-splice}
use hex_net.Common.Splices.{
  splice-append, take-drop, drop_all, splice-append_front, splice-append_back, take-splice_prefix,
}
use hex_net.Arena.{Arena, no_block, fill, walk, write_at}
use hex_net.Arena.Valid.{Chain, copies, copies_here, copies-append, head_lt, IsStored, Message}
use hex_net.Arena.Content.{content, AreSized, block_at, content_same, content-append, bytes_of}
use hex_net.Slab.Valid.{get_lt, set_cases}

-- Other blocks are as they were.
pub record LeavesOthers (path : List ℕ) (blocks blocks' : List (List ℕ)) : Type 0 where
  pub other : (i : ℕ) → copies i path ≡ 0 → get_or blocks' i [] ≡ get_or blocks i []

AreSized-set :
    (blocks : List (List ℕ)) (next : List ℕ) (i : ℕ) (b : List ℕ)
    → AreSized blocks next
    → length b ≡ 64
    → AreSized (set blocks i b) next
AreSized-set blocks next i b sized size = record {
  small = sized.small;
  same_len = omega (arith, sized.same_len, length-set blocks i b);
  sized = λ j c at. elim (set_cases blocks i j b c at) [
    | inl (same, new) ↦ ap length new ∙ size
    | inr (ne, old) ↦ sized.sized j c old
  ];
}

-- What is written in a block, and then behind it, is written in the joined bytes.
splice_block :
    (old c bytes : List ℕ) (within n : ℕ)
    → length old ≡ 64
    → within < 64
    → n ≡ min (64 - within) (length bytes)
    → splice old within (take n bytes) ++ splice c 0 (drop n bytes) ≡ splice (old ++ c) within bytes
splice_block old c bytes within n size lt count =
    let m : length (take n bytes) ≡ n = omega (arith, length-take n bytes) in
    let new = splice old within (take n bytes) in
    let halves : splice (old ++ c) within bytes ≡ splice (new ++ c) (within + n) (drop n bytes) =
      ap (splice (old ++ c) within) (sym (take-drop n bytes))
      ∙ splice-append (old ++ c) within (take n bytes) (drop n bytes)
      ∙ ap₂ (λ l k. splice l (within + k) (drop n bytes))
          (splice-append_front old c within (take n bytes) (omega arith)) m in
    elim (Bool-cases (leb (length bytes) (64 - within))) [
      | inl fits ↦
          let nothing : drop n bytes ≡ [] = drop_all n bytes (ground arith) in
          let end : new ++ splice c 0 (drop n bytes)
              ≡ splice (new ++ c) (within + n) (drop n bytes) =
            rw nothing refl in
          end ∙ sym halves
      | inr more ↦
          let at : within + n ≡ length new + 0 =
            (let big : 64 - within < length bytes = ground arith in
              omega (arith, length-splice old within (take n bytes))) in
          sym (
            halves
            ∙ ap (λ k. splice (new ++ c) k (drop n bytes)) at
            ∙ splice-append_back new c 0 (drop n bytes))
    ]

pub fill_lem :
    (fuel : ℕ) (next : List ℕ) (blocks : List (List ℕ)) (block : ℕ) (path : List ℕ) (within : ℕ)
    (bytes : List ℕ)
    → AreSized blocks next
    → Chain next block path
    → ((i : ℕ) → copies i path ≤ 1)
    → within < 64
    → within + length bytes ≤ 64 * length path
    → length bytes ≤ fuel
    → (blocks' : List (List ℕ)) × (fill fuel next blocks block within bytes ≡ some (blocks', true))
      × (content blocks' path ≡ splice (content blocks path) within bytes)
      × LeavesOthers path blocks blocks'
      × AreSized blocks' next
unfolding fill Chain content
fill_lem fuel next blocks block path within [] sized chain once lt room enough =
    (blocks, refl, refl, record { other = λ i away. refl }, sized)
fill_lem zero next blocks block path within (x ∷ bytes) sized chain once lt room enough =
    absurd (omega arith)
fill_lem (suc fuel) next blocks block [] within (x ∷ bytes) sized chain once lt room enough =
    absurd (omega arith)
fill_lem (suc fuel) next blocks block (i ∷ path) within (x ∷ bytes) sized (e, following, at, rest)
      once lt room enough =
    let (found, size, go) = block_at blocks next i following sized at in
    let old = get_or blocks i [] in
    let n = min (64 - within) (suc (length bytes)) in
    let new = splice old within (take n (x ∷ bytes)) in
    let i_lt = get_lt blocks i found in
    let left = length-drop n (x ∷ bytes) in
    let apart : copies i path ≡ 0 = omega (arith, once i, copies_here i path) in
    let (blocks', made, written, others, sized') =
      fill_lem fuel next (set blocks i new) following path 0 (drop n (x ∷ bytes))
        (AreSized-set blocks next i new sized
          (length-splice old within (take n (x ∷ bytes)) ∙ size))
        rest (λ j. omega (arith, once j)) (omega arith) (omega arith) (omega arith) in
    let here : get_or blocks' i [] ≡ new =
      others.other i apart ∙ get_or-set_self blocks i new [] i_lt in
    let behind : content (set blocks i new) path ≡ content blocks path =
      content_same blocks (set blocks i new) path (λ j more.
        get_or-set_ne blocks i j new [] (λ same.
          (let e : copies i path ≡ copies j path = ap (λ k. copies k path) same in
            absurd (omega arith)))) in
    (
      blocks',
      rw (e, go, found, at) made,
      ap₂ (λ l c. l ++ c) here (written ∙ ap (λ c. splice c 0 (drop n (x ∷ bytes))) behind)
          ∙ splice_block old (content blocks path) (x ∷ bytes) within n size lt refl,
      record {
        other = λ j away.
            (let ne : i ≢ j = ground (arith, away) in
              others.other j (omega (arith, away)) ∙ get_or-set_ne blocks i j new [] ne);
      },
      sized',
    )

-- The walk to a block of a chain, and the chain's two parts there.
pub walk_lem :
    (next : List ℕ) (blocks : List (List ℕ)) (steps block : ℕ) (path : List ℕ)
    → AreSized blocks next
    → Chain next block path
    → steps < length path
    → (mid : ℕ) × (front : List ℕ) × (back : List ℕ) × (path ≡ front ++ back)
      × (length front ≡ steps)
      × (length (content blocks front) ≡ 64 * steps)
      × Chain next mid back
      × (walk next steps block ≡ some (some mid))
unfolding walk Chain content
walk_lem next blocks steps block [] sized chain lt = absurd (omega arith)
walk_lem next blocks zero block (i ∷ path) sized chain lt =
    (block, [], i ∷ path, refl, refl, refl, chain, refl)
walk_lem next blocks (suc steps) block (i ∷ path) sized (e, following, at, rest) lt =
    let (mid, front, back, parts, len, bytes, chain, found) =
      walk_lem next blocks steps following path sized rest (omega arith) in
    let go : (following == no_block) ≡ false =
      ground (arith, head_lt next following path rest (omega arith), sized.small) in
    let (here, size, real) = block_at blocks next i following sized at in
    (
      mid,
      i ∷ front,
      back,
      ap (◌∷◌ i) parts,
      ap suc len,
      omega (arith, length-append (get_or blocks i []) (content blocks front)),
      chain,
      rw (e, at, go) found,
    )

-- A write within the message succeeds, and writes its bytes and no others.
pub write_at_stored :
    (a : Arena) (m : Message) (offset : ℕ) (bytes : List ℕ)
    → AreSized a.blocks a.next
    → IsStored a.next m
    → ((i : ℕ) → copies i m.1 ≤ 1)
    → offset + length bytes ≤ m.0.count
    → (blocks : List (List ℕ)) × (write_at a m.0 offset bytes
        ≡ some (record a { blocks = blocks }, true))
      × (bytes_of (record a { blocks = blocks }) m ≡ splice (bytes_of a m) offset bytes)
      × LeavesOthers m.1 a.blocks blocks
      × AreSized blocks a.next
unfolding write_at IsStored
write_at_stored a (message, path) offset [] sized (chain, len) once fits =
    let lt = head_lt a.next message.start path chain (omega arith) in
    let real : (message.start == no_block) ≡ false = ground (arith, sized.small) in
    let room : ltb message.count (offset + 0) ≡ false = ground arith in
    (a.blocks, rw (real, room) refl, refl, record { other = λ i away. refl }, sized)
write_at_stored a (message, path) offset (x ∷ bytes) sized (chain, len) once fits =
    let lt = head_lt a.next message.start path chain (omega arith) in
    let real : (message.start == no_block) ≡ false = ground (arith, sized.small) in
    let room : ltb message.count (offset + suc (length bytes)) ≡ false = ground arith in
    let (mid, front, back, parts, front_len, front_bytes, back_chain, found) =
      walk_lem a.next a.blocks (offset / 64) message.start path sized chain (omega arith) in
    let both : (i : ℕ) → copies i path ≡ copies i front + copies i back =
      λ i. ap (copies i) parts ∙ copies-append i front back in
    let path_len : length path ≡ length front + length back =
      ap length parts ∙ length-append front back in
    let (blocks', made, written, others, sized') =
      fill_lem (suc (length bytes)) a.next a.blocks mid back (offset % 64) (x ∷ bytes) sized
        back_chain (λ i. omega (arith, both i, once i)) (omega arith) (omega arith) (omega arith) in
    let same_front : content blocks' front ≡ content a.blocks front =
      content_same a.blocks blocks' front
        (λ i more. others.other i (omega (arith, both i, once i))) in
    let at : length (content a.blocks front) + offset % 64 ≡ offset = omega arith in
    let whole : content blocks' path ≡ splice (content a.blocks path) offset (x ∷ bytes) =
      ap (content blocks') parts
      ∙ content-append blocks' front back
      ∙ ap₂ (λ l c. l ++ c) same_front written
      ∙ sym (
          splice-append_back (content a.blocks front) (content a.blocks back) (offset % 64)
            (x ∷ bytes))
      ∙ ap₂ (λ c k. splice c k (x ∷ bytes))
          (sym (content-append a.blocks front back) ∙ ap (content a.blocks) (sym parts)) at in
    let some_bytes : (suc (length bytes) == 0) ≡ false = ground arith in
    (
      blocks',
      rw (real, room, some_bytes, found, made) refl,
      ap (take message.count) whole
          ∙ take-splice_prefix message.count (content a.blocks path) offset (x ∷ bytes),
      record { other = λ i away. others.other i (omega (arith, both i)) },
      sized',
    )
