-- ===== src/Slab/After.antt =====
-- The slab of hex-net-core/src/slab.rs with one slot released: its invariant and what handles find.
use hex_net.Common.{
  ℕ, suc, ◌-◌, ◌%◌, ◌^◌, ◌≤◌, ◌<◌, ◌≡◌, ◌≢◌, refl, ap, sym, ◌∙◌, none, some, List, arith, length,
  length-set, get_elem?, set, get_elem?-set_self, Option-cases, inl, inr, ◌⊎◌,
}
use hex_net.Slab.{Slab, Slot, Handle, get}
use hex_net.Slab.Valid.{Chain, AllDistinct, IsValid, get_dead, get_live, get_of_no_slot}
use hex_net.Slab.Hole.{
  closed, closed_cases, last_index, Leaving, Repointed, Relocated, Relocated-get, relocated,
  came_from,
}
use native.Mathlib.Decide.{ℕ_discrete}

module _ {A : Type 0} (s : Slab A) (free : List ℕ) (valid : IsValid s free) (i : ℕ) (slot : Slot)
    (m : ℕ) (moved : Slot) (l : Leaving s free valid i slot m moved) (slots : List Slot)
    (r : Repointed s free valid i slot m moved slots) (freed : Slot)
    (even : freed.generation % 2 ≡ 0) (y : A)
    (last : get_elem? s.items (length s.items - 1) ≡ some y) where
  -- The slab with the slot released, and a free list from `head` on.
  unfoldable pub after : ℕ → Slab A
  after head = record s {
    slots = set slots i freed;
    items = closed s.items slot.index_or_free y;
    owners = closed s.owners slot.index_or_free m;
    free_head = head;
  }

  filled_hole : slot.index_or_free < length s.owners - 1 → m ≢ i
  unfolding last_index Repointed
  filled_hole h = elim r [
    | inl (at_end, same, e) ↦ absurd (omega arith)
    | inr (before, apart, e) ↦ apart
  ]

  after-owned :
      (d j : ℕ)
      → get_elem? (closed s.owners slot.index_or_free m) d ≡ some j
      → (x : Slot) × (get_elem? (set slots i freed) j ≡ some x)
        × (x.index_or_free ≡ d)
        × (x.generation % 2 ≡ 1)
  unfolding last_index Repointed Relocated
  after-owned d j e =
      let (lt, what) = closed_cases s.owners slot.index_or_free d m j e in
      elim what [
        | inl (here, same) ↦
            let apart = filled_hole (omega arith) in
            let (x, at, (g, place)) =
              relocated s free valid i slot m moved l slots r freed m moved apart l.moved_at
                l.moved_odd in
            (
              x,
              ap (get_elem? (set slots i freed)) same ∙ at,
              omega (arith, l.moved_index),
              omega (arith, g, l.moved_odd),
            )
        | inr (ne, old) ↦
            let (x, at, index, odd) = valid.owned d j old in
            let away : j ≢ i = λ e'.
              (let both : some slot ≡ some x = sym l.at ∙ ap (get_elem? s.slots) (sym e') ∙ at in
                let same : slot.index_or_free ≡ x.index_or_free = ground arith in
                ne (same ∙ index)) in
            let (x', at', (g, place)) =
              relocated s free valid i slot m moved l slots r freed j x away at odd in
            (x', at', omega (arith, place), omega (arith, g))
      ]

  after-occupied :
      (j : ℕ) (x : Slot)
      → get_elem? (set slots i freed) j ≡ some x
      → x.generation % 2 ≡ 1
      → get_elem? (closed s.owners slot.index_or_free m) x.index_or_free ≡ some j
  after-occupied j x e odd = elim (came_from s free valid i slot m moved l slots r freed j x e) [
    | inl (here, same) ↦
        let g : x.generation ≡ freed.generation = ap (λ (t : Slot). t.generation) same in
        absurd (omega arith)
    | inr (away, old, at, g) ↦
        let (x', at', place) =
          relocated s free valid i slot m moved l slots r freed j old away at (omega arith) in
        let both : some x ≡ some x' = sym e ∙ at' in
        let index : x.index_or_free ≡ x'.index_or_free = ground arith in
        ap (get_elem? (closed s.owners slot.index_or_free m)) index
        ∙ Relocated-get s free valid s.owners slot.index_or_free old x' m refl l.moved_owner place
        ∙ valid.occupied j old at (omega arith)
  ]

  pub after-IsValid :
      (head : ℕ) (free' : List ℕ)
      → freed.generation < 2 ^ 32
      → length slots ≡ length s.slots
      → suc (length (closed s.items slot.index_or_free y)) ≡ length s.items
      → suc (length (closed s.owners slot.index_or_free m)) ≡ length s.owners
      → Chain (set slots i freed) head free'
      → AllDistinct free'
      → length free' ≤ suc (length free)
      → IsValid (after head) free'
  unfolding after
  after-IsValid head free' word len items owners chain distinct more = record {
    owners_len = omega (arith, valid.owners_len);
    slots_len = omega (arith, valid.slots_len, length-set slots i freed);
    capacity_word = valid.capacity_word;
    words = λ j x e. elim (came_from s free valid i slot m moved l slots r freed j x e) [
      | inl (here, same) ↦
          let g : x.generation ≡ freed.generation = ap (λ (t : Slot). t.generation) same in
          omega arith
      | inr (away, old, at, g) ↦ let small = valid.words j old at in omega arith
    ];
    owned = after-owned;
    occupied = after-occupied;
    chain = chain;
    distinct = distinct;
    count = omega (arith, valid.count, length-set slots i freed);
  }

  -- Every other handle of an occupied generation finds what it found.
  pub after-get :
      (head : ℕ) (free' : List ℕ) (k : Handle)
      → IsValid (after head) free'
      → i < length slots
      → (slot.generation ≢ k.generation) ⊎ (k.index ≢ i)
      → k.generation % 2 ≡ 1
      → get (after head) k ≡ get s k
  unfolding after last_index Relocated
  after-get head free' k valid' size other odd = elim (ℕ_discrete k.index i) [
    | yes here ↦
        let stale : slot.generation ≢ k.generation = elim other [
          | inl ne ↦ ne
          | inr ne ↦ absurd (ne here)
        ] in
        get_dead (after head) k freed
          (ap (get_elem? (set slots i freed)) here ∙ get_elem?-set_self slots i freed size)
          (λ e. absurd (omega arith))
        ∙ sym (get_dead s k slot (ap (get_elem? s.slots) here ∙ l.at) stale)
    | no away ↦ elim (Option-cases (get_elem? s.slots k.index)) [
      | inl nothing ↦ elim (Option-cases (get_elem? (set slots i freed) k.index)) [
        | inl still ↦ get_of_no_slot (after head) k still ∙ sym (get_of_no_slot s k nothing)
        | inr (x', at) ↦
            elim (came_from s free valid i slot m moved l slots r freed k.index x' at) [
              | inl (same, e) ↦ absurd (away same)
              | inr (ne, x, old, g) ↦ let clash : none ≡ some x = sym nothing ∙ old in absurd cc
            ]
      ]
      | inr (x, found) ↦ elim (ℕ_discrete x.generation k.generation) [
        | yes live ↦
            let (x', at, place) =
              relocated s free valid i slot m moved l slots r freed k.index x away found
                (omega arith) in
            let (v, there, e) = get_live s free k x valid odd found live in
            let (v', there', e') =
              get_live (after head) free' k x' valid' odd at (omega (arith, place.0)) in
            let last' : get_elem? s.items (length s.owners - 1) ≡ some y =
              rw valid.owners_len last in
            let both : some v' ≡ some v =
              sym there'
              ∙ Relocated-get s free valid s.items slot.index_or_free x x' y (sym valid.owners_len)
                  last' place
              ∙ there in
            e' ∙ ap some both ∙ sym e
        | no stale ↦ elim (Option-cases (get_elem? (set slots i freed) k.index)) [
          | inl gone ↦ get_of_no_slot (after head) k gone ∙ sym (get_dead s k x found stale)
          | inr (x', at) ↦
              elim (came_from s free valid i slot m moved l slots r freed k.index x' at) [
                | inl (same, e) ↦ absurd (away same)
                | inr (ne, old, found', g) ↦
                    let both : some x ≡ some old = sym found ∙ found' in
                    let g' : x.generation ≡ old.generation = ground arith in
                    get_dead (after head) k x' at (λ e. stale (omega arith))
                    ∙ sym (get_dead s k x found stale)
              ]
        ]
      ]
    ]
  ]
