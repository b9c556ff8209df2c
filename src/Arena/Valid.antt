-- ===== src/Arena/Valid.antt =====
-- The chains of hex-net-core/src/arena.rs as lists of blocks, and the validity of an arena: no block is
-- on two chains.
use hex_net.Common.{
  ℕ, zero, suc, ◌+◌, ◌≤◌, ◌<◌, ◌≡◌, ◌≢◌, ◌∙◌, List, [], ◌∷◌, ◌++◌, some, length, arith, get_elem?,
  set, ◌==◌, if◌then◌else◌, true, ap, subst, get_elem?-set_ne,
}
use hex_net.Slab.Valid.{get_lt}
use hex_net.Arena.{Arena, ByteRef, no_block, blocks_for}

-- From a head on, the links lead through the blocks of the list, and to the end mark.
unfoldable pub Chain : List ℕ → ℕ → List ℕ → Type 0
Chain next head [] = head ≡ no_block
Chain next head (i ∷ path) =
    (head ≡ i) × (following : ℕ) × (get_elem? next i ≡ some following) × Chain next following path

-- How often a block is in a list.
abbrev pub copies : ℕ → List ℕ → ℕ
copies i [] = 0
copies i (j ∷ path) = (if i == j then 1 else 0) + copies i path

-- A message and the blocks of its chain.
abbrev pub Message : Type 0
Message = ByteRef × List ℕ

abbrev pub total : ℕ → List Message → ℕ
total i [] = 0
total i ((message, path) ∷ live) = copies i path + total i live

abbrev pub blocks_of : List Message → ℕ
blocks_of [] = 0
blocks_of ((message, path) ∷ live) = length path + blocks_of live

-- A message's chain has the blocks that its length asks for.
unfoldable pub IsStored : List ℕ → Message → Type 0
IsStored next (message, path) =
    Chain next message.start path × (length path ≡ blocks_for message.count)

-- Every block is on the free list or in one message, once.
pub record IsValid (a : Arena) (free : List ℕ) (live : List Message) : Type 0 where
  pub small : length a.next < no_block
  pub same_len : length a.blocks ≡ length a.next
  pub sized : (i : ℕ) (b : List ℕ) → get_elem? a.blocks i ≡ some b → length b ≡ 64
  pub chain : Chain a.next a.free_head free
  pub counted : length free ≡ a.free_count
  pub all : length free + blocks_of live ≡ length a.next
  pub once : (i : ℕ) → copies i free + total i live ≤ 1
  pub stored : (k : ℕ) (m : Message) → get_elem? live k ≡ some m → IsStored a.next m

pub Chain-set :
    (next : List ℕ) (head i v : ℕ) (path : List ℕ)
    → copies i path ≡ 0
    → Chain next head path
    → Chain (set next i v) head path
unfolding Chain
Chain-set next head i v [] away e = e
Chain-set next head i v (j ∷ path) away (e, following, at, rest) =
    let ne : i ≢ j = ground arith in
    (
      e,
      following,
      get_elem?-set_ne next i j v ne ∙ at,
      Chain-set next following i v path (omega arith) rest,
    )

pub copies_here : (i : ℕ) (path : List ℕ) → copies i (i ∷ path) ≡ suc (copies i path)
copies_here i path = let e : (i == i) ≡ true = ground arith in rw e (omega arith)

pub copies-append : (i : ℕ) (p q : List ℕ) → copies i (p ++ q) ≡ copies i p + copies i q
copies-append i [] q = omega arith
copies-append i (j ∷ p) q = omega (arith, copies-append i p q)

-- The head of a chain that has a block is a block.
pub head_lt :
    (next : List ℕ) (head : ℕ) (path : List ℕ)
    → Chain next head path
    → 1 ≤ length path
    → head < length next
unfolding Chain
head_lt next head [] chain some_block = absurd (omega arith)
head_lt next head (i ∷ path) (e, following, at, rest) some_block = omega (arith, get_lt next i at)

-- A chain whose links are as they were.
pub Chain-same :
    (next next' : List ℕ) (head : ℕ) (path : List ℕ)
    → ((i : ℕ) → 1 ≤ copies i path → get_elem? next' i ≡ get_elem? next i)
    → Chain next head path
    → Chain next' head path
unfolding Chain
Chain-same next next' head [] same chain = chain
Chain-same next next' head (i ∷ path) same (e, following, at, rest) = (
  e,
  following,
  same i (omega (arith, copies_here i path)) ∙ at,
  Chain-same next next' following path (λ j more. same j (omega arith)) rest,
)

pub copies-total :
    (i : ℕ) (live : List Message) (k : ℕ) (m : Message)
    → get_elem? live k ≡ some m
    → copies i m.1 ≤ total i live
copies-total i [] k m at = absurd cc
copies-total i ((message, path) ∷ live) zero m at =
    let e : (message, path) ≡ m = ground arith in
    let same : copies i path ≡ copies i m.1 = ap (λ (x : Message). copies i x.1) e in omega arith
copies-total i ((message, path) ∷ live) (suc k) m at = omega (arith, copies-total i live k m at)

pub IsStored-grown :
    (next : List ℕ) (new : Message) (live : List Message)
    → IsStored next new
    → ((k : ℕ) (m : Message) → get_elem? live k ≡ some m → IsStored next m)
    → (k : ℕ) (m : Message) → get_elem? (new ∷ live) k ≡ some m
    → IsStored next m
IsStored-grown next new live here others zero m at =
    let e : new ≡ m = ground arith in subst (IsStored next) e here
IsStored-grown next new live here others (suc k) m at = others k m at

-- A message whose links are as they were.
pub IsStored_same :
    (next next' : List ℕ) (m : Message)
    → ((i : ℕ) → 1 ≤ copies i m.1 → get_elem? next' i ≡ get_elem? next i)
    → IsStored next m
    → IsStored next' m
unfolding IsStored
IsStored_same next next' (message, path) same (chain, len) =
    (Chain-same next next' message.start path same chain, len)
