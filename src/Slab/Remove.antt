-- ===== src/Slab/Remove.antt =====
-- Removal from the slab of hex-net-core/src/slab.rs.
use hex_net.Common.{
  ℕ, suc, ◌+◌, ◌-◌, ◌%◌, ◌^◌, ◌≤◌, ◌<◌, ◌≡◌, ◌≢◌, refl, subst, sym, ◌∙◌, none, some, List, ◌∷◌,
  arith, length, get_elem?, set, get_elem?-set_self, Option-cases, Bool-cases, inl, inr, ◌⊎◌, true,
  false, ◌==◌,
}
use hex_net.Common.Slices.{get_of_lt}
use hex_net.Slab.{Slab, Slot, Handle, get, released, remove, dense_index}
use hex_net.Slab.Valid.{
  Chain, Chain-set, occupied_not_free, AllDistinct, IsValid, get_lt, get_dead, get_live,
  get_of_no_slot,
}
use hex_net.Slab.Hole.{
  closed, swap_remove_lem, last_index, Leaving, leaving, Repointed, repoint-Repointed,
}
use hex_net.Slab.After.{after, after-IsValid, after-get}
use hex_net.Slab.Claim.{Handle_ext}
use native.Mathlib.Decide.{ℕ_discrete}

-- The free list after a slot is released: the slot is in front of it, unless its generation wrapped.
Released : List Slot → ℕ → Slot → ℕ → ℕ → List ℕ → Type 0
Released slots i slot' head free_head free =
    (slot'.generation % 2 ≡ 0)
    × (slot'.generation < 2 ^ 32)
    × (free' : List ℕ) × Chain (set slots i slot') head free'
    × AllDistinct free'
    × (length free' ≤ suc (length free))

released-Released :
    (slots : List Slot) (i : ℕ) (slot : Slot) (free_head : ℕ) (free : List ℕ)
    → get_elem? slots i ≡ some slot
    → slot.generation % 2 ≡ 1
    → Chain slots free_head free
    → AllDistinct free
    → Released slots i (released slot i free_head).0 (released slot i free_head).1 free_head free
unfolding released Released Chain
released-Released slots i slot free_head free at odd chain distinct =
    let away = occupied_not_free slots free_head i slot free chain at odd in
    elim (Bool-cases ((slot.generation + 1) % 2 ^ 32 == 0)) [
      | inl wrapped ↦
          let slot' : Slot = record {
            generation = (slot.generation + 1) % 2 ^ 32;
            index_or_free = slot.index_or_free;
          } in
          rw wrapped (
            omega arith,
            omega arith,
            free,
            Chain-set slots free_head i slot' free away chain,
            distinct,
            omega arith,
          )
      | inr more ↦
          let slot' : Slot = record {
            generation = (slot.generation + 1) % 2 ^ 32;
            index_or_free = free_head;
          } in
          let e : (slot.generation + 1) % 2 ^ 32 % 2 ≡ 0 = omega arith in
          rw more (
            e,
            omega arith,
            i ∷ free,
            (
              refl,
              slot',
              get_elem?-set_self slots i slot' (get_lt slots i at),
              e,
              Chain-set slots free_head i slot' free away chain,
            ),
            (away, distinct),
            omega arith,
          )
    ]

apart :
    (k h : Handle) (slot : Slot)
    → slot.generation ≡ h.generation
    → k ≢ h
    → (slot.generation ≢ k.generation) ⊎ (k.index ≢ h.index)
apart k h slot same ne = elim (ℕ_discrete k.index h.index) [
  | no away ↦ inr away
  | yes here ↦ inl (λ g. ne (Handle_ext k h here (sym g ∙ same)))
]

module _ {A : Type 0} where
  Repointed-Chain :
      (s : Slab A) (free : List ℕ) (valid : IsValid s free) (i : ℕ) (slot : Slot) (m : ℕ)
      (moved : Slot)
      → Leaving s free valid i slot m moved
      → (slots : List Slot) → Repointed s free valid i slot m moved slots
      → Chain slots s.free_head free
  unfolding Repointed
  Repointed-Chain s free valid i slot m moved l slots (inl (last, same, e)) =
      subst (λ t. Chain t s.free_head free) (sym e) valid.chain
  Repointed-Chain s free valid i slot m moved l slots (inr (before, away, e)) =
      subst (λ t. Chain t s.free_head free) (sym e)
        (Chain-set s.slots s.free_head m (record moved { index_or_free = slot.index_or_free }) free
          (occupied_not_free s.slots s.free_head m moved free valid.chain l.moved_at l.moved_odd)
          valid.chain)

  -- What removing a found item does.
  Removed : Slab A → Slab A → Handle → Type 0
  Removed s s' h =
      ((free' : List ℕ) × IsValid s' free')
      × (get s' h ≡ some none)
      × ((k : Handle) → k.generation % 2 ≡ 1 → k ≢ h → get s' k ≡ get s k)
      × (suc (length s'.items) ≡ length s.items)

  remove_live :
      (s : Slab A) (free : List ℕ) (h : Handle) (slot : Slot)
      → IsValid s free
      → h.generation % 2 ≡ 1
      → get_elem? s.slots h.index ≡ some slot
      → slot.generation ≡ h.generation
      → (x : A) × (s' : Slab A) × (get s h ≡ some (some x))
        × (remove s h ≡ some (s', some x))
        × Removed s s' h
  unfolding remove dense_index last_index after Released Removed Repointed
  remove_live s free h slot valid odd at same =
      let i = h.index in
      let d = slot.index_or_free in
      let (m, moved, l) = leaving s free valid i slot at (omega arith) in
      let (x, item, found) = get_live s free h slot valid odd at same in
      let (y, last) =
        get_of_lt s.items (length s.items - 1) (omega (arith, get_lt s.items d item)) in
      let (items, items_len) = swap_remove_lem s.items d item last in
      let (owners, owners_len) = swap_remove_lem s.owners d l.owner l.moved_owner in
      let (slots, repointed, here, len, r) =
        repoint-Repointed s free valid i slot m moved (length (closed s.items d y)) l
          (omega (arith, valid.owners_len)) in
      let freed = (released slot i s.free_head).0 in
      let head = (released slot i s.free_head).1 in
      let (even, word, free', chain, distinct, more) =
        released-Released slots i slot s.free_head free here (omega arith)
          (Repointed-Chain s free valid i slot m moved l slots r) valid.distinct in
      let valid' =
        after-IsValid s free valid i slot m moved l slots r freed even y last head free' word len
          items_len owners_len chain distinct more in
      let finds = after-get s free valid i slot m moved l slots r freed even y last head free' in
      let go : (slot.generation == h.generation) ≡ true = ground arith in
      (
        x,
        after s free valid i slot m moved l slots r freed even y last head,
        found,
        rw (at, go, items, owners, repointed, here) refl,
        (
          (free', valid'),
          get_dead (after s free valid i slot m moved l slots r freed even y last head) h freed
              (get_elem?-set_self slots i freed (get_lt slots i here)) (λ e. absurd (omega arith)),
          λ k odd_k ne. finds k valid' (get_lt slots i here) (apart k h slot same ne) odd_k,
          items_len,
        ),
      )

  -- Removal under a handle of an occupied generation, from a valid slab: a handle that finds nothing
  -- changes nothing. One that finds an item takes that item out and finds nothing from then on, and
  -- every other handle of an occupied generation still finds what it found. The slab stays valid.
  pub remove_lem :
      (s : Slab A) (free : List ℕ) (h : Handle)
      → IsValid s free
      → h.generation % 2 ≡ 1
      → ((get s h ≡ some none) × (remove s h ≡ some (s, none)))
        ⊎ ((x : A) × (s' : Slab A) × (get s h ≡ some (some x))
            × (remove s h ≡ some (s', some x))
            × ((free' : List ℕ) × IsValid s' free')
            × (get s' h ≡ some none)
            × ((k : Handle) → k.generation % 2 ≡ 1 → k ≢ h → get s' k ≡ get s k)
            × (suc (length s'.items) ≡ length s.items))
  unfolding remove dense_index Removed
  remove_lem s free h valid odd = elim (Option-cases (get_elem? s.slots h.index)) [
    | inl nothing ↦ inl (get_of_no_slot s h nothing, rw nothing refl)
    | inr (slot, at) ↦ elim (ℕ_discrete slot.generation h.generation) [
      | no stale ↦
          let go : (slot.generation == h.generation) ≡ false = ground arith in
          inl (get_dead s h slot at stale, rw (at, go) refl)
      | yes same ↦
          let (x, s', found, made, (valid', gone, others, len)) =
            remove_live s free h slot valid odd at same in
          inr (x, s', found, made, valid', gone, others, len)
    ]
  ]
