-- ===== src/Arena/Content.antt =====
-- The bytes of a chain in hex-net-core/src/arena.rs, and `load`.
use hex_net.Common.{
  ℕ, zero, suc, ◌+◌, ◌-◌, ◌*◌, ◌≤◌, ◌<◌, ◌≡◌, refl, ap, ap₂, sym, ◌∙◌, List, [], ◌∷◌, ◌++◌, some,
  length, arith, get_elem?, get_or, take, min, ◌==◌, ltb, true, false, Bool-cases, inl, inr,
  get_elem?-eq-get_or, length-append, length-take,
}
use hex_net.Common.Slices.{splice, take_all, append_assoc}
use hex_net.Common.Splices.{splice-append, take-append}
use hex_net.Arena.{Arena, no_block, copy_out, load}
use hex_net.Arena.Valid.{Chain, copies, IsStored, IsValid, Message}
use hex_net.Slab.Valid.{get_lt}

unfoldable pub content : List (List ℕ) → List ℕ → List ℕ
content blocks [] = []
content blocks (i ∷ path) = get_or blocks i [] ++ content blocks path

-- The bytes of a message.
abbrev pub bytes_of : Arena → Message → List ℕ
bytes_of a (message, path) = take message.count (content a.blocks path)

-- What a chain's blocks have in common: they stand in both arrays, and have the size of a block.
pub record AreSized (blocks : List (List ℕ)) (next : List ℕ) : Type 0 where
  pub small : length next < no_block
  pub same_len : length blocks ≡ length next
  pub sized : (i : ℕ) (b : List ℕ) → get_elem? blocks i ≡ some b → length b ≡ 64

pub sized_of :
    (a : Arena) (free : List ℕ) (live : List Message)
    → IsValid a free live
    → AreSized a.blocks a.next
sized_of a free live valid = record {
  small = valid.small;
  same_len = valid.same_len;
  sized = valid.sized;
}

pub block_at :
    (blocks : List (List ℕ)) (next : List ℕ) (i following : ℕ)
    → AreSized blocks next
    → get_elem? next i ≡ some following
    → (get_elem? blocks i ≡ some (get_or blocks i []))
      × (length (get_or blocks i []) ≡ 64)
      × ((i == no_block) ≡ false)
block_at blocks next i following sized at =
    let lt = get_lt next i at in
    let found = get_elem?-eq-get_or blocks i [] (omega (arith, sized.same_len)) in
    (
      found,
      sized.sized i (get_or blocks i []) found,
      let lt' : i < no_block = omega (arith, sized.small) in ground arith,
    )

-- The bytes that one block gives to a copy.
pub take_block :
    (b c : List ℕ) (left : ℕ)
    → length b ≡ 64
    → take left (b ++ c) ≡ take (min left 64) b ++ take (left - min left 64) c
take_block b c left size =
    take-append left b c
    ∙ ap₂ (λ x y. x ++ y)
        (elim (Bool-cases (ltb left 64)) [
          | inl less ↦ (let e : min left 64 ≡ left = ground arith in rw e refl)
          | inr more ↦
              let all : 64 ≤ left = ground arith in
              take_all b left (omega arith) ∙ sym (take_all b (min left 64) (omega arith))
        ])
        (ap (λ n. take n c) (omega arith))

-- The loop of `load` copies the chain's bytes.
pub copy_out_lem :
    (fuel : ℕ) (a : Arena) (block : ℕ) (path : List ℕ) (read left : ℕ) (out : List ℕ)
    → AreSized a.blocks a.next
    → Chain a.next block path
    → left ≤ 64 * length path
    → left ≤ fuel
    → copy_out fuel a block read left out
      ≡ some (true, splice out read (take left (content a.blocks path)))
unfolding copy_out Chain content
copy_out_lem fuel a block path read zero out sized chain room enough = refl
copy_out_lem zero a block path read (suc left) out sized chain room enough = absurd (omega arith)
copy_out_lem (suc fuel) a block [] read (suc left) out sized chain room enough =
    absurd (omega arith)
copy_out_lem (suc fuel) a block (i ∷ path) read (suc left) out sized (e, following, at, rest) room
      enough =
    let (found, size, go) = block_at a.blocks a.next i following sized at in
    let b = get_or a.blocks i [] in
    let n = min (suc left) 64 in
    let next_read =
      copy_out_lem fuel a following path (read + n) (suc left - n) (splice out read (take n b))
        sized rest (omega arith) (omega arith) in
    let step : copy_out (suc fuel) a block read (suc left) out
        ≡ copy_out fuel a following (read + n) (suc left - n) (splice out read (take n b)) =
      rw (e, go, found, at) refl in
    step
    ∙ next_read
    ∙ ap (λ l. some (true, l))
        (ap
            (λ k.
              splice (splice out read (take n b)) (read + k)
                (take (suc left - n) (content a.blocks path)))
            (omega (arith, length-take n b))
          ∙ sym (splice-append out read (take n b) (take (suc left - n) (content a.blocks path)))
          ∙ ap (splice out read) (sym (take_block b (content a.blocks path) (suc left) size)))

-- A stored message is loaded whole into a buffer that has room for it.
pub load_stored :
    (a : Arena) (m : Message) (out : List ℕ)
    → AreSized a.blocks a.next
    → IsStored a.next m
    → m.0.count ≤ length out
    → load a m.0 out ≡ some (some m.0.count, splice out 0 (bytes_of a m))
unfolding load IsStored Chain
load_stored a (message, []) out sized (chain, len) room = absurd (omega arith)
load_stored a (message, i ∷ path) out sized ((e, following, at, rest), len) room =
    let (found, size, go) = block_at a.blocks a.next i following sized at in
    let here : (message.start == no_block) ≡ false = rw e go in
    let fits : ltb (length out) message.count ≡ false = ground arith in
    let copied =
      copy_out_lem message.count a message.start (i ∷ path) 0 message.count out sized
        (e, following, at, rest) (omega arith) (omega arith) in
    rw (here, fits, copied) refl

-- Blocks that are the same have the same bytes.
pub content_same :
    (blocks blocks' : List (List ℕ)) (path : List ℕ)
    → ((i : ℕ) → 1 ≤ copies i path → get_or blocks' i [] ≡ get_or blocks i [])
    → content blocks' path ≡ content blocks path
unfolding content
content_same blocks blocks' [] same = refl
content_same blocks blocks' (i ∷ path) same =
    ap₂ (λ x y. x ++ y) (same i (let e : (i == i) ≡ true = ground arith in rw e (omega arith)))
      (content_same blocks blocks' path (λ j more. same j (omega arith)))

pub content-append :
    (blocks : List (List ℕ)) (p q : List ℕ)
    → content blocks (p ++ q) ≡ content blocks p ++ content blocks q
unfolding content
content-append blocks [] q = refl
content-append blocks (i ∷ p) q =
    ap (λ c. get_or blocks i [] ++ c) (content-append blocks p q)
    ∙ sym (append_assoc (get_or blocks i []) (content blocks p) (content blocks q))

-- A chain's blocks hold the bytes that its message may have.
pub length-content :
    (blocks : List (List ℕ)) (next : List ℕ) (head : ℕ) (path : List ℕ)
    → AreSized blocks next
    → Chain next head path
    → length (content blocks path) ≡ 64 * length path
unfolding content Chain
length-content blocks next head [] sized chain = refl
length-content blocks next head (i ∷ path) sized (e, following, at, rest) =
    let (found, size, go) = block_at blocks next i following sized at in
    omega (
      arith,
      length-append (get_or blocks i []) (content blocks path),
      length-content blocks next following path sized rest,
    )

pub length-bytes_of :
    (a : Arena) (m : Message)
    → AreSized a.blocks a.next
    → IsStored a.next m
    → length (bytes_of a m) ≡ m.0.count
unfolding IsStored
length-bytes_of a (message, path) sized (chain, len) = omega (
  arith,
  length-take message.count (content a.blocks path),
  length-content a.blocks a.next message.start path sized chain,
)

pub IsValid-written :
    (a : Arena) (free : List ℕ) (live : List Message) (blocks : List (List ℕ))
    → IsValid a free live
    → AreSized blocks a.next
    → IsValid (record a { blocks = blocks }) free live
IsValid-written a free live blocks valid sized = record {
  small = valid.small;
  same_len = sized.same_len;
  sized = sized.sized;
  chain = valid.chain;
  counted = valid.counted;
  all = valid.all;
  once = valid.once;
  stored = valid.stored;
}
