-- ===== src/Slab/Insert.antt =====
-- Insertion into the slab of hex-net-core/src/slab.rs.
use hex_net.Common.{
  ℕ, suc, ◌+◌, ◌%◌, ◌^◌, ◌≡◌, ◌≢◌, refl, ap, sym, ◌∙◌, none, some, List, [], ◌∷◌, ◌++◌, arith,
  length, length-append, length-set, get_elem?, set, get_elem?-set_self, get_elem?-set_ne,
  Option-cases, inl, inr, ◌⊎◌, ok, err, true, ◌==◌,
}
use hex_net.Slab.{Slab, Slot, Handle, fill, insert, get}
use hex_net.Slab.Claim.{
  get-append_old, get-append_new, get-append_cases, Handle_ext, Claimed, claim_cases, claim-get,
}
use hex_net.Slab.Valid.{
  Chain-set, IsValid, get_lt, set_cases, get_dead, get_live, get_of_no_slot, get_of_slot,
}
use native.Mathlib.Decide.{ℕ_discrete}

module _ {A : Type 0} where
  -- What occupying a claimed slot does.
  Filled : Slab A → List ℕ → A → Slab A → Handle → Type 0
  Filled s free item s' h =
      IsValid s' free
      × (h.generation % 2 ≡ 1)
      × (get s h ≡ some none)
      × (get s' h ≡ some (some item))
      × ((k : Handle) → k.generation % 2 ≡ 1 → k ≢ h → get s' k ≡ get s k)
      × (length s'.items ≡ suc (length s.items))

  other_slot :
      (s : Slab A) (j : ℕ) (slot x : Slot) (i : ℕ)
      → i ≡ j
      → get_elem? s.slots i ≡ some slot
      → get_elem? s.slots j ≡ some x
      → slot.generation % 2 ≡ 0
      → x.generation % 2 ≡ 1
      → ⊥
  other_slot s j slot x i same at at' even odd =
      let both : some slot ≡ some x = sym at ∙ ap (get_elem? s.slots) same ∙ at' in
      let g : slot.generation ≡ x.generation = ground arith in omega arith

  fill-get :
      (s s' : Slab A) (free : List ℕ) (slot new : Slot) (item : A) (h : Handle)
      → IsValid s free
      → IsValid s' free
      → get_elem? s.slots h.index ≡ some slot
      → slot.generation % 2 ≡ 0
      → s'.slots ≡ set s.slots h.index new
      → s'.items ≡ s.items ++ (item ∷ [])
      → new.generation ≡ h.generation
      → (k : Handle) → k.generation % 2 ≡ 1
      → k ≢ h
      → get s' k ≡ get s k
  fill-get s s' free slot new item h valid valid' at even slots items g k odd ne =
      elim (ℕ_discrete h.index k.index) [
        | yes same ↦
            let at' : get_elem? s.slots k.index ≡ some slot =
              sym (ap (get_elem? s.slots) same) ∙ at in
            let new_at : get_elem? s'.slots k.index ≡ some new =
              ap (λ l. get_elem? l k.index) slots
              ∙ sym (ap (get_elem? (set s.slots h.index new)) same)
              ∙ get_elem?-set_self s.slots h.index new (get_lt s.slots h.index at) in
            let other : new.generation ≢ k.generation =
              λ e. ne (Handle_ext k h (sym same) (sym e ∙ g)) in
            get_dead s' k new new_at other ∙ sym (get_dead s k slot at' (λ e. absurd (omega arith)))
        | no apart ↦
            let kept : get_elem? s'.slots k.index ≡ get_elem? s.slots k.index =
              ap (λ l. get_elem? l k.index) slots
              ∙ get_elem?-set_ne s.slots h.index k.index new apart in
            elim (Option-cases (get_elem? s.slots k.index)) [
              | inl nothing ↦
                  get_of_no_slot s' k (kept ∙ nothing) ∙ sym (get_of_no_slot s k nothing)
              | inr (x, found) ↦ elim (ℕ_discrete x.generation k.generation) [
                | no stale ↦ get_dead s' k x (kept ∙ found) stale ∙ sym (get_dead s k x found stale)
                | yes live ↦
                    let (y, there, e) = get_live s free k x valid odd found live in
                    let (y', there', e') = get_live s' free k x valid' odd (kept ∙ found) live in
                    let still = get-append_old s.items (item ∷ []) x.index_or_free there in
                    let both : some y' ≡ some y =
                      sym there' ∙ ap (λ l. get_elem? l x.index_or_free) items ∙ still in
                    e' ∙ ap some both ∙ sym e
              ]
            ]
      ]

  fill-Filled :
      (s : Slab A) (free : List ℕ) (i : ℕ) (item : A)
      → Claimed s free i
      → (s' : Slab A) × (h : Handle) × (fill s i item ≡ some (s', h))
        × (h.index ≡ i)
        × Filled s free item s' h
  unfolding fill Claimed Filled
  fill-Filled s free i item (valid, away, slot, at, even, room) =
      let small = valid.words i slot at in
      let g : (slot.generation + 1) % 2 ^ 32 ≡ slot.generation + 1 = omega arith in
      let d : length s.items % 2 ^ 32 ≡ length s.items =
        omega (arith, valid.slots_len, valid.capacity_word) in
      let new : Slot = record {
        generation = (slot.generation + 1) % 2 ^ 32;
        index_or_free = length s.items % 2 ^ 32;
      } in
      let h : Handle = record { index = i; generation = (slot.generation + 1) % 2 ^ 32 } in
      let s' : Slab A = record s {
        items = s.items ++ (item ∷ []);
        owners = s.owners ++ (i ∷ []);
        slots = set s.slots i new;
      } in
      let written = get_elem?-set_self s.slots i new (get_lt s.slots i at) in
      let others = get_elem?-set_ne s.slots i in
      let last : get_elem? (s.owners ++ (i ∷ [])) (length s.items % 2 ^ 32) ≡ some i =
        ap (get_elem? (s.owners ++ (i ∷ []))) (omega (arith, valid.owners_len))
        ∙ get-append_new s.owners i in
      let valid' : IsValid s' free = record {
        owners_len = omega (
          arith,
          valid.owners_len,
          length-append s.owners (i ∷ []),
          length-append s.items (item ∷ []),
        );
        slots_len = omega (arith, valid.slots_len, length-set s.slots i new);
        capacity_word = valid.capacity_word;
        words = λ j x e. elim (set_cases s.slots i j new x e) [
          | inl (same, written') ↦
              let n : x.generation ≡ (slot.generation + 1) % 2 ^ 32 =
                ap (λ (y : Slot). y.generation) written' in
              omega arith
          | inr (ne, old) ↦ valid.words j x old
        ];
        owned = λ k j e. elim (get-append_cases s.owners i j k e) [
          | inl old ↦
              let (x, at', index, odd) = valid.owned k j old in
              (
                x,
                others j new (λ same. other_slot s j slot x i same at at' even odd) ∙ at',
                index,
                odd,
              )
          | inr (last_one, same) ↦ (
            new,
            ap (get_elem? (set s.slots i new)) same ∙ written,
            omega (arith, valid.owners_len),
            omega arith,
          )
        ];
        occupied = λ j x e odd. elim (set_cases s.slots i j new x e) [
          | inl (same, written') ↦
              ap (λ (y : Slot). get_elem? (s.owners ++ (i ∷ [])) y.index_or_free) written'
              ∙ last
              ∙ ap some (sym same)
          | inr (ne, old) ↦
              get-append_old s.owners (i ∷ []) x.index_or_free (valid.occupied j x old odd)
        ];
        chain = Chain-set s.slots s.free_head i new free away valid.chain;
        distinct = valid.distinct;
        count = omega (arith, room, length-set s.slots i new, length-append s.items (item ∷ []));
      } in
      let same_generation : (new.generation == h.generation) ≡ true = ground arith in
      (
        s',
        h,
        rw at refl,
        refl,
        (
          valid',
          omega arith,
          get_dead s h slot at (omega arith),
          get_of_slot s' h new written
              ∙ rw (same_generation, d) (rw (get-append_new s.items item) refl),
          fill-get s s' free slot new item h valid valid' at even refl refl refl,
          omega (arith, length-append s.items (item ∷ [])),
        ),
      )

  -- An insertion into a valid slab either finds it full, with no slot on the free list, and gives the
  -- item back; or gives a handle that found nothing before and finds the item now, while every other
  -- handle of an occupied generation finds what it found before. The slab stays valid.
  pub insert_lem :
      (s : Slab A) (free : List ℕ) (item : A)
      → IsValid s free
      → ((length s.slots ≡ s.capacity) × (free ≡ []) × (insert s item ≡ some (s, err item)))
        ⊎ ((s' : Slab A) × (h : Handle) × (free' : List ℕ) × (insert s item ≡ some (s', ok h))
            × IsValid s' free'
            × (h.generation % 2 ≡ 1)
            × (get s h ≡ some none)
            × (get s' h ≡ some (some item))
            × ((k : Handle) → k.generation % 2 ≡ 1 → k ≢ h → get s' k ≡ get s k)
            × (length s'.items ≡ suc (length s.items)))
  unfolding insert Claimed Filled
  insert_lem s free item valid = elim (claim_cases s free valid) [
    | inl (full, none_free, made) ↦ inl (full, none_free, rw made refl)
    | inr (s', i, free', made, claimed, items, owners, old, fresh) ↦
        let (valid', away, slot, at, even, room) = claimed in
        let unseen = claim-get s s' i slot at even items old fresh in
        let (s'', h, filled, index, (valid'', odd, before, now, others, len)) =
          fill-Filled s' free' i item claimed in
        inr (
          s'',
          h,
          free',
          rw (made, filled) refl,
          valid'',
          odd,
          sym (unseen h odd) ∙ before,
          now,
          λ k odd_k ne. others k odd_k ne ∙ unseen k odd_k,
          len ∙ ap (λ l. suc (length l)) items,
        )
  ]
