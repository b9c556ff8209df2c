-- ===== src/Arena/Reserve.antt =====
-- `Arena::reserve` of hex-net-core/src/arena.rs: blocks are detached from the free list.
use hex_net.Common.{
  ℕ, zero, suc, ◌+◌, ◌-◌, ◌≤◌, ◌≡◌, ◌≢◌, refl, ap, ◌∙◌, List, [], ◌∷◌, ◌++◌, some, length, arith,
  get_elem?, set, ltb, false, length-append, length-set, get_elem?-set_self, get_elem?-set_ne,
  u16_max,
}
use hex_net.Arena.{Arena, ByteRef, no_block, blocks_for, detach, reserve}
use hex_net.Arena.Valid.{
  Chain, Chain-set, copies, copies_here, copies-append, copies-total, IsStored, IsStored-grown,
  IsStored_same, IsValid, Message,
}
use hex_net.Slab.Valid.{get_lt}

-- The detached blocks are a chain of their own, and the rest is the free list.
detach_lem :
    (next : List ℕ) (steps block : ℕ) (free : List ℕ)
    → Chain next block free
    → ((i : ℕ) → copies i free ≤ 1)
    → 1 ≤ steps
    → steps ≤ length free
    → (next' : List ℕ) × (head : ℕ) × (taken : List ℕ) × (rest : List ℕ) × (detach next steps block
        ≡ some (next', head))
      × (free ≡ taken ++ rest)
      × (length taken ≡ steps)
      × Chain next' block taken
      × Chain next' head rest
      × (length next' ≡ length next)
      × ((i : ℕ) → copies i taken ≡ 0 → get_elem? next' i ≡ get_elem? next i)
unfolding detach Chain
detach_lem next zero block free chain once some_step room = absurd (omega arith)
detach_lem next (suc steps) block [] chain once some_step room = absurd (omega arith)
detach_lem next (suc zero) block (i ∷ free) (e, following, at, rest) once some_step room = (
  set next block no_block,
  following,
  i ∷ [],
  free,
  (let at' : get_elem? next block ≡ some following = rw e at in rw at' refl),
  refl,
  refl,
  (e, no_block, rw e (get_elem?-set_self next i no_block (get_lt next i at)), refl),
  Chain-set next following block no_block free
      (omega (arith, once i, copies_here i free, ap (λ k. copies k free) e)) rest,
  length-set next block no_block,
  λ j away. (let ne : block ≢ j = ground arith in get_elem?-set_ne next block j no_block ne),
)
detach_lem next (suc (suc steps)) block (i ∷ free) (e, following, at, rest) once some_step room =
    let (next', head, taken, left, made, parts, len, chain, chain', same_len, same) =
      detach_lem next (suc steps) following free rest (λ j. omega (arith, once j)) (omega arith)
        (omega arith) in
    let both : copies i free ≡ copies i taken + copies i left =
      ap (copies i) parts ∙ copies-append i taken left in
    (
      next',
      head,
      i ∷ taken,
      left,
      (let at' : get_elem? next block ≡ some following = rw e at in rw at' made),
      ap (◌∷◌ i) parts,
      ap suc len,
      (e, following, same i (omega (arith, once i, copies_here i free)) ∙ at, chain),
      chain',
      same_len,
      λ j away. same j (omega arith),
    )

-- With room for it, a message is reserved, and the other messages keep their chains.
pub reserve_stored :
    (a : Arena) (free : List ℕ) (live : List Message) (len : ℕ)
    → IsValid a free live
    → len ≤ u16_max
    → blocks_for len ≤ a.free_count
    → (a' : Arena) × (free' : List ℕ) × (path : List ℕ) × (reserve a len
        ≡ some (a', some (record { start = a.free_head; count = len })))
      × IsValid a' free' ((record { start = a.free_head; count = len }, path) ∷ live)
      × (a'.blocks ≡ a.blocks)
      × (a'.free_count + blocks_for len ≡ a.free_count)
unfolding reserve IsStored
reserve_stored a free live len valid short room =
    let (next', head, taken, left, made, parts, taken_len, chain, chain', same_len, same) =
      detach_lem a.next (blocks_for len) a.free_head free valid.chain
        (λ i. omega (arith, valid.once i)) (omega arith) (omega (arith, valid.counted)) in
    let both : (i : ℕ) → copies i free ≡ copies i taken + copies i left =
      λ i. ap (copies i) parts ∙ copies-append i taken left in
    let both_len : length free ≡ length taken + length left =
      ap length parts ∙ length-append taken left in
    let fits : ltb u16_max len ≡ false = ground arith in
    let enough : ltb a.free_count (blocks_for len) ≡ false = ground arith in
    let message : ByteRef = record { start = a.free_head; count = len } in
    (
      record a { next = next'; free_head = head; free_count = a.free_count - blocks_for len },
      left,
      taken,
      rw (fits, enough, made) refl,
      record {
        small = omega (arith, valid.small);
        same_len = omega (arith, valid.same_len);
        sized = valid.sized;
        chain = chain';
        counted = omega (arith, valid.counted);
        all = omega (arith, valid.all);
        once = λ i. omega (arith, valid.once i, both i);
        stored =
            IsStored-grown next' (message, taken) live (chain, taken_len)
              (λ k m at.
                IsStored_same a.next next' m
                  (λ i more.
                    same i (omega (arith, valid.once i, both i, copies-total i live k m at)))
                  (valid.stored k m at));
      },
      refl,
      omega arith,
    )
