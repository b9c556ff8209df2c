-- ===== src/Slab/Hole.antt =====
-- The hole that `Slab::remove` of hex-net-core/src/slab.rs leaves, and the item that fills it.
use hex_net.Common.{
  ℕ, suc, ◌-◌, ◌%◌, ◌^◌, ◌<◌, ◌≡◌, ◌≢◌, refl, ap, sym, ◌∙◌, some, List, arith, length, length-set,
  length-take, take, get_elem?, set, get_elem?-set_self, get_elem?-set_ne, Bool-cases, inl, inr,
  ◌⊎◌, ltb,
}
use hex_net.Common.Slices.{get_of_lt, get_elem?-take}
use hex_net.Slab.{Slab, Slot, swap_remove, repoint}
use hex_net.Slab.Valid.{IsValid, get_lt, set_cases}
use native.Mathlib.Decide.{ℕ_discrete}

module _ {B : Type 0} where
  -- The list after the last item filled the hole.
  unfoldable pub closed : List B → ℕ → B → List B
  closed xs at y = take (length xs - 1) (set xs at y)

  pub swap_remove_lem :
      (xs : List B) (at : ℕ) {x y : B}
      → get_elem? xs at ≡ some x
      → get_elem? xs (length xs - 1) ≡ some y
      → (swap_remove xs at ≡ some (x, closed xs at y)) × (suc (length (closed xs at y)) ≡ length xs)
  unfolding swap_remove closed
  swap_remove_lem xs at {x} {y} e last =
      let lt = get_lt xs at e in
      (
        rw (e, last) refl,
        omega (arith, length-take (length xs - 1) (set xs at y), length-set xs at y),
      )

  closed-other :
      (xs : List B) (at k : ℕ) (y : B)
      → k < length xs - 1
      → at ≢ k
      → get_elem? (closed xs at y) k ≡ get_elem? xs k
  unfolding closed
  closed-other xs at k y lt ne =
      get_elem?-take (set xs at y) (length xs - 1) k lt ∙ get_elem?-set_ne xs at k y ne

  closed-hole :
      (xs : List B) (at : ℕ) (y : B) → at < length xs - 1 → get_elem? (closed xs at y) at ≡ some y
  unfolding closed
  closed-hole xs at y lt =
      get_elem?-take (set xs at y) (length xs - 1) at lt ∙ get_elem?-set_self xs at y (omega arith)

  pub closed_cases :
      (xs : List B) (at k : ℕ) (y z : B)
      → get_elem? (closed xs at y) k ≡ some z
      → (k < length xs - 1) × (((k ≡ at) × (z ≡ y)) ⊎ ((at ≢ k) × (get_elem? xs k ≡ some z)))
  unfolding closed
  closed_cases xs at k y z e =
      let short = get_lt (closed xs at y) k e in
      let lt : k < length xs - 1 = omega (arith, length-take (length xs - 1) (set xs at y)) in
      (lt, set_cases xs at k y z (sym (get_elem?-take (set xs at y) (length xs - 1) k lt) ∙ e))

-- An occupied slot of a valid slab, the item that moves into its place, and that item's slot.
module _ {A : Type 0} (s : Slab A) (free : List ℕ) (valid : IsValid s free) where
  unfoldable pub last_index : ℕ
  last_index = length s.owners - 1

  pub record Leaving (i : ℕ) (slot : Slot) (m : ℕ) (moved : Slot) : Type 0 where
    pub at : get_elem? s.slots i ≡ some slot
    pub odd : slot.generation % 2 ≡ 1
    pub owner : get_elem? s.owners slot.index_or_free ≡ some i
    pub moved_at : get_elem? s.slots m ≡ some moved
    pub moved_odd : moved.generation % 2 ≡ 1
    pub moved_owner : get_elem? s.owners last_index ≡ some m
    pub moved_index : moved.index_or_free ≡ last_index
    pub inside : slot.index_or_free < length s.owners

  pub leaving :
      (i : ℕ) (slot : Slot)
      → get_elem? s.slots i ≡ some slot
      → slot.generation % 2 ≡ 1
      → (m : ℕ) × (moved : Slot) × Leaving i slot m moved
  unfolding last_index
  leaving i slot at odd =
      let owner = valid.occupied i slot at odd in
      let lt = get_lt s.owners slot.index_or_free owner in
      let (m, last) = get_of_lt s.owners (length s.owners - 1) (omega arith) in
      let (moved, moved_at, index, moved_odd) = valid.owned (length s.owners - 1) m last in
      (
        m,
        moved,
        record {
          at = at;
          odd = odd;
          owner = owner;
          moved_at = moved_at;
          moved_odd = moved_odd;
          moved_owner = last;
          moved_index = index;
          inside = lt;
        },
      )

  -- The slots after the moved one is repointed: its place in the arrays is the hole.
  unfoldable pub Repointed : ℕ → Slot → ℕ → Slot → List Slot → Type 0
  Repointed i slot m moved slots =
      ((slot.index_or_free ≡ last_index) × (m ≡ i) × (slots ≡ s.slots))
      ⊎ ((slot.index_or_free < last_index)
          × (m ≢ i)
          × (slots ≡ set s.slots m (record moved { index_or_free = slot.index_or_free })))

  pub repoint-Repointed :
      (i : ℕ) (slot : Slot) (m : ℕ) (moved : Slot) (count : ℕ)
      → Leaving i slot m moved
      → count ≡ last_index
      → (slots : List Slot) × (repoint s.slots
            (closed s.owners slot.index_or_free m)
            count
            slot.index_or_free
          ≡ some slots)
        × (get_elem? slots i ≡ some slot)
        × (length slots ≡ length s.slots)
        × Repointed i slot m moved slots
  unfolding repoint Repointed last_index
  repoint-Repointed i slot m moved count l e = elim (Bool-cases (ltb slot.index_or_free count)) [
    | inr last ↦
        let here : slot.index_or_free ≡ length s.owners - 1 = ground (arith, l.inside) in
        let same : some m ≡ some i =
          sym l.moved_owner ∙ ap (get_elem? s.owners) (sym here) ∙ l.owner in
        (s.slots, rw last refl, l.at, refl, inl (here, ground arith, refl))
    | inl before ↦
        let lt : slot.index_or_free < length s.owners - 1 = ground arith in
        let hole = closed-hole s.owners slot.index_or_free m lt in
        let d : slot.index_or_free % 2 ^ 32 ≡ slot.index_or_free =
          omega (arith, valid.slots_len, valid.capacity_word, valid.owners_len, valid.count) in
        let apart : m ≢ i = λ same.
          (let both : some slot ≡ some moved =
              sym l.at ∙ ap (get_elem? s.slots) (sym same) ∙ l.moved_at in
            let index : slot.index_or_free ≡ moved.index_or_free = ground arith in
            absurd (omega (arith, l.moved_index))) in
        (
          set s.slots m (record moved { index_or_free = slot.index_or_free }),
          rw (before, hole, l.moved_at, d) refl,
          get_elem?-set_ne s.slots m i (record moved { index_or_free = slot.index_or_free }) apart
              ∙ l.at,
          length-set s.slots m (record moved { index_or_free = slot.index_or_free }),
          inr (lt, apart, refl),
        )
  ]

  -- Where an item that stays is found: in its place, or in the hole if it was the last.
  unfoldable pub Relocated : ℕ → Slot → Slot → Type 0
  Relocated d x x' =
      (x'.generation ≡ x.generation)
      × (((x'.index_or_free ≡ x.index_or_free)
            × (x.index_or_free ≢ d)
            × (x.index_or_free < last_index))
          ⊎ ((x'.index_or_free ≡ d) × (x.index_or_free ≡ last_index) × (d < last_index)))

  pub Relocated-get :
      {B : Type 0} (xs : List B) (d : ℕ) (x x' : Slot) (y : B)
      → length xs ≡ length s.owners
      → get_elem? xs last_index ≡ some y
      → Relocated d x x'
      → get_elem? (closed xs d y) x'.index_or_free ≡ get_elem? xs x.index_or_free
  unfolding Relocated last_index
  Relocated-get xs d x x' y len last (g, inl (same, ne, lt)) =
      ap (get_elem? (closed xs d y)) same
      ∙ closed-other xs d x.index_or_free y (omega arith) (λ e. ne (sym e))
  Relocated-get xs d x x' y len last (g, inr (hole, end_at, lt)) =
      ap (get_elem? (closed xs d y)) hole
      ∙ closed-hole xs d y (omega arith)
      ∙ sym last
      ∙ ap (get_elem? xs) (sym end_at)

  module _ (i : ℕ) (slot : Slot) (m : ℕ) (moved : Slot) (l : Leaving i slot m moved)
      (slots : List Slot) (r : Repointed i slot m moved slots) (freed : Slot) where
    -- Every other occupied slot is still occupied.
    pub relocated :
        (j : ℕ) (x : Slot)
        → j ≢ i
        → get_elem? s.slots j ≡ some x
        → x.generation % 2 ≡ 1
        → (x' : Slot) × (get_elem? (set slots i freed) j ≡ some x')
          × Relocated slot.index_or_free x x'
    unfolding Repointed Relocated last_index
    relocated j x ne found odd =
        let owner = valid.occupied j x found odd in
        let inside = get_lt s.owners x.index_or_free owner in
        let other : x.index_or_free ≢ slot.index_or_free = λ e.
          (let same : some j ≡ some i = sym owner ∙ ap (get_elem? s.owners) e ∙ l.owner in
            ne (ground arith)) in
        let kept : get_elem? (set slots i freed) j ≡ get_elem? slots j =
          get_elem?-set_ne slots i j freed (λ e. ne (sym e)) in
        elim r [
          | inl (last, same, e) ↦
              (x, kept ∙ ap (λ t. get_elem? t j) e ∙ found, (refl, inl (refl, other, omega arith)))
          | inr (before, apart, e) ↦ elim (ℕ_discrete m j) [
            | yes here ↦
                let both : some x ≡ some moved =
                  sym found ∙ ap (get_elem? s.slots) (sym here) ∙ l.moved_at in
                let g : moved.generation ≡ x.generation = ground arith in
                let index : x.index_or_free ≡ moved.index_or_free = ground arith in
                let moved' : Slot = record moved { index_or_free = slot.index_or_free } in
                (
                  moved',
                  kept
                      ∙ ap (λ t. get_elem? t j) e
                      ∙ ap (get_elem? (set s.slots m moved')) (sym here)
                      ∙ get_elem?-set_self s.slots m moved' (get_lt s.slots m l.moved_at),
                  (g, inr (refl, omega (arith, l.moved_index), before)),
                )
            | no away ↦
                let short : x.index_or_free ≢ length s.owners - 1 = λ e'.
                  (let same : some j ≡ some m =
                      sym owner ∙ ap (get_elem? s.owners) e' ∙ l.moved_owner in
                    away (ground arith)) in
                (
                  x,
                  kept
                      ∙ ap (λ t. get_elem? t j) e
                      ∙ get_elem?-set_ne s.slots m j
                          (record moved { index_or_free = slot.index_or_free }) away
                      ∙ found,
                  (refl, inl (refl, other, omega arith)),
                )
          ]
        ]

    -- Every slot that is there afterwards was there, with its generation.
    pub came_from :
        (j : ℕ) (x' : Slot)
        → get_elem? (set slots i freed) j ≡ some x'
        → ((j ≡ i) × (x' ≡ freed))
          ⊎ ((j ≢ i) × (x : Slot) × (get_elem? s.slots j ≡ some x) × (x'.generation ≡ x.generation))
    unfolding Repointed
    came_from j x' e = elim (set_cases slots i j freed x' e) [
      | inl here ↦ inl here
      | inr (away, there) ↦ elim r [
        | inl (last, same, e') ↦
            inr (λ t. away (sym t), x', ap (λ t. get_elem? t j) (sym e') ∙ there, refl)
        | inr (before, apart, e') ↦
            elim (set_cases s.slots m j (record moved { index_or_free = slot.index_or_free }) x'
              (ap (λ t. get_elem? t j) (sym e') ∙ there)) [
                | inl (same, written) ↦ inr (
                  λ t. away (sym t),
                  moved,
                  ap (get_elem? s.slots) same ∙ l.moved_at,
                  ap (λ (y : Slot). y.generation) written,
                )
                | inr (ne, old) ↦ inr (λ t. away (sym t), x', old, refl)
              ]
      ]
    ]
