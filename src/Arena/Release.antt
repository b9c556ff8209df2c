-- ===== src/Arena/Release.antt =====
-- `Arena::release` of hex-net-core/src/arena.rs: a message's blocks go back to the free list.
use hex_net.Common.{
  ℕ, zero, suc, ◌+◌, ◌≤◌, ◌<◌, ◌≡◌, ◌≢◌, refl, ap, sym, ◌∙◌, List, [], ◌∷◌, some, length, arith,
  get_elem?, set, u16_max, ◌==◌, true, false, length-set, get_elem?-set_self, get_elem?-set_ne, leb,
}
use hex_net.Common.Slices.{erase_at}
use hex_net.Arena.{Arena, no_block, blocks_for, give_back, release, load}
use hex_net.Arena.Valid.{
  Chain, Chain-set, copies, copies_here, copies-total, head_lt, IsStored, IsStored_same, IsValid,
  Message,
}
use hex_net.Arena.Content.{content}
use hex_net.Arena.Others.{total-erase_at, blocks_of-erase_at, kept_was_there}
use hex_net.Arena.Store.{load_other}
use hex_net.Slab.Valid.{get_lt}

pub record GivenBack (a a' : Arena) (path free free' : List ℕ) : Type 0 where
  pub chain : Chain a'.next a'.free_head free'
  pub moved : (i : ℕ) → copies i free' ≡ copies i path + copies i free
  pub longer : length free' ≡ length path + length free
  pub count : a'.free_count ≡ a.free_count + length path
  pub blocks : a'.blocks ≡ a.blocks
  pub same_len : length a'.next ≡ length a.next
  pub other : (i : ℕ) → copies i path ≡ 0 → get_elem? a'.next i ≡ get_elem? a.next i

-- One block goes to the front of the free list.
one_back :
    (a : Arena) (i following : ℕ) (free : List ℕ)
    → get_elem? a.next i ≡ some following
    → Chain a.next a.free_head free
    → copies i free ≡ 0
    → GivenBack a
        (record a { next = set a.next i a.free_head; free_head = i; free_count = a.free_count + 1 })
        (i ∷ [])
        free
        (i ∷ free)
unfolding Chain
one_back a i following free at chain away = record {
  chain = (
    refl,
    a.free_head,
    get_elem?-set_self a.next i a.free_head (get_lt a.next i at),
    Chain-set a.next a.free_head i a.free_head free away chain,
  );
  moved = λ j. omega arith;
  longer = omega arith;
  count = omega arith;
  blocks = refl;
  same_len = length-set a.next i a.free_head;
  other = λ j away. (let ne : i ≢ j = ground arith in get_elem?-set_ne a.next i j a.free_head ne);
}

-- The loop of `release` gives back the chain, within as much fuel as it has blocks.
give_back_lem :
    (fuel : ℕ) (a : Arena) (block : ℕ) (path free : List ℕ)
    → Chain a.next block path
    → Chain a.next a.free_head free
    → ((i : ℕ) → copies i path + copies i free ≤ 1)
    → length a.next < no_block
    → a.free_count + length path ≤ u16_max
    → 1 ≤ length path
    → length path ≤ fuel
    → (a' : Arena) × (free' : List ℕ) × (give_back fuel a block ≡ some a')
      × GivenBack a a' path free free'
unfolding give_back Chain
give_back_lem fuel a block [] free path_chain chain once small room some_block enough =
    absurd (omega arith)
give_back_lem zero a block (i ∷ path) free path_chain chain once small room some_block enough =
    absurd (omega arith)
give_back_lem (suc fuel) a block (i ∷ []) free (e, following, at, end) chain once small room
      some_block enough =
    let at' : get_elem? a.next block ≡ some following = rw e at in
    let fits : leb (a.free_count + 1) u16_max ≡ true = ground arith in
    let last : (following == no_block) ≡ true = ground arith in
    (
      record a { next = set a.next i a.free_head; free_head = i; free_count = a.free_count + 1 },
      i ∷ free,
      rw (at', fits, last, e) refl,
      one_back a i following free at chain (omega (arith, once i, copies_here i [])),
    )
give_back_lem (suc fuel) a block (i ∷ j ∷ path) free (e, following, at, rest) chain once small room
      some_block enough =
    let at' : get_elem? a.next block ≡ some following = rw e at in
    let fits : leb (a.free_count + 1) u16_max ≡ true = ground arith in
    let on : (following == no_block) ≡ false =
      ground (arith, head_lt a.next following (j ∷ path) rest (omega arith)) in
    let a1 : Arena = record a {
      next = set a.next i a.free_head;
      free_head = i;
      free_count = a.free_count + 1;
    } in
    let one =
      one_back a i following free at chain (omega (arith, once i, copies_here i (j ∷ path))) in
    let rest' =
      Chain-set a.next following i a.free_head (j ∷ path)
        (omega (arith, once i, copies_here i (j ∷ path))) rest in
    let (a', free', made, given) =
      give_back_lem fuel a1 following (j ∷ path) (i ∷ free) rest' one.chain
        (λ k. omega (arith, once k)) (omega (arith, one.same_len)) (omega arith) (omega arith)
        (omega arith) in
    (
      a',
      free',
      rw (at', fits, on, e) made,
      record {
        chain = given.chain;
        moved = λ k. omega (arith, given.moved k);
        longer = omega (arith, given.longer);
        count = omega (arith, given.count);
        blocks = given.blocks;
        same_len = omega (arith, given.same_len, one.same_len);
        other = λ k away. given.other k (omega arith) ∙ one.other k (omega (arith));
      },
    )

-- In a valid arena, the release of a stored message returns, the arena stays valid without it, as many
-- blocks more are free as the message occupied, and every other message loads as it did.
pub release_lem :
    (a : Arena) (free : List ℕ) (live : List Message) (k : ℕ) (m : Message)
    → IsValid a free live
    → get_elem? live k ≡ some m
    → (a' : Arena) × (free' : List ℕ) × (release a m.0 ≡ some a')
      × IsValid a' free' (erase_at live k)
      × (a'.free_count ≡ a.free_count + blocks_for m.0.count)
      × ((j : ℕ) (other : Message) (out : List ℕ)
          → get_elem? (erase_at live k) j ≡ some other
          → other.0.count ≤ length out
          → load a' other.0 out ≡ load a other.0 out)
unfolding release IsStored
release_lem a free live k (message, path) valid at =
    let (chain, len) = valid.stored k (message, path) at in
    let lt = head_lt a.next message.start path chain (omega arith) in
    let real : (message.start == no_block) ≡ false = ground (arith, valid.small) in
    let sum = λ (i : ℕ). total-erase_at i live k (message, path) at in
    let blocks_sum = blocks_of-erase_at live k (message, path) at in
    let (a', free', made, given) =
      give_back_lem (length a.next) a message.start path free chain valid.chain
        (λ i. omega (arith, valid.once i, sum i)) valid.small
        (omega (arith, valid.all, valid.counted, valid.small)) (omega arith)
        (omega (arith, valid.all)) in
    let kept : (j : ℕ) (other : Message)
        → get_elem? (erase_at live k) j ≡ some other
        → IsStored a'.next other =
      λ j other there.
        (let (j', was) = kept_was_there live k j other there in
          IsStored_same a.next a'.next other
            (λ i more.
              given.other i (
                omega (arith, valid.once i, sum i, copies-total i (erase_at live k) j other there)))
            (valid.stored j' other was)) in
    let valid' : IsValid a' free' (erase_at live k) = record {
      small = omega (arith, given.same_len, valid.small);
      same_len = ap length given.blocks ∙ valid.same_len ∙ sym given.same_len;
      sized = λ i b found. valid.sized i b (ap (λ l. get_elem? l i) (sym given.blocks) ∙ found);
      chain = given.chain;
      counted = omega (arith, given.longer, given.count, valid.counted);
      all = omega (arith, given.longer, given.same_len, valid.all);
      once = λ i. omega (arith, given.moved i, valid.once i, sum i);
      stored = kept;
    } in
    (
      a',
      free',
      rw (real) made,
      valid',
      omega (arith, given.count),
      λ j other out there fits.
          (let (j', was) = kept_was_there live k j other there in
            load_other a a' free free' live (erase_at live k) other out valid valid'
              (valid.stored j' other was) (kept j other there)
              (ap (λ l. content l other.1) given.blocks) fits),
    )
