-- ===== src/Slab/Claim.antt =====
-- `Slab::claim` of hex-net-core/src/slab.rs: a slot is taken, and no handle sees it.
use hex_net.Common.{
  ℕ, zero, suc, ◌+◌, ◌%◌, ◌^◌, ◌<◌, ◌≡◌, ◌≢◌, refl, ap, ap₂, sym, ◌∙◌, subst, none, some, List, [],
  ◌∷◌, ◌++◌, arith, length, length-append, get_elem?, u32_max, Option-cases, Bool-cases, inl, inr,
  ◌⊎◌, ltb, true, false, ◌==◌,
}
use hex_net.Slab.{Slab, Slot, Handle, none_index, claim, get, item_at, dense_of}
use hex_net.Slab.Valid.{Chain, Absent, IsValid, get_lt, get_dead, get_of_no_slot, get_of_slot}
use native.Mathlib.Decide.{ℕ_discrete}

module _ {B : Type 0} where
  pub get-append_old :
      (xs ys : List B) (i : ℕ) {x : B} → get_elem? xs i ≡ some x → get_elem? (xs ++ ys) i ≡ some x
  get-append_old [] ys i e = absurd cc
  get-append_old (y ∷ xs) ys zero e = e
  get-append_old (y ∷ xs) ys (suc i) e = get-append_old xs ys i e

  pub get-append_new : (xs : List B) (x : B) → get_elem? (xs ++ (x ∷ [])) (length xs) ≡ some x
  get-append_new [] x = refl
  get-append_new (y ∷ xs) x = get-append_new xs x

  pub get-append_cases :
      (xs : List B) (x y : B) (i : ℕ)
      → get_elem? (xs ++ (x ∷ [])) i ≡ some y
      → (get_elem? xs i ≡ some y) ⊎ ((i ≡ length xs) × (y ≡ x))
  get-append_cases [] x y zero e = inr (refl, ground arith)
  get-append_cases [] x y (suc i) e = absurd cc
  get-append_cases (z ∷ xs) x y zero e = inl e
  get-append_cases (z ∷ xs) x y (suc i) e = elim (get-append_cases xs x y i e) [
    | inl old ↦ inl old
    | inr (at, new) ↦ inr (ap suc at, new)
  ]

-- The free list of longer slots.
Chain-append :
    (slots more : List Slot) (head : ℕ) (free : List ℕ)
    → Chain slots head free
    → Chain (slots ++ more) head free
unfolding Chain
Chain-append slots more head [] e = e
Chain-append slots more head (j ∷ free) (e, slot, at, even, rest) = (
  e,
  slot,
  get-append_old slots more j at,
  even,
  Chain-append slots more slot.index_or_free free rest,
)

-- Past the end of the slots, an index is in no free list.
past_not_free :
    (slots : List Slot) (head : ℕ) (free : List ℕ)
    → Chain slots head free
    → Absent (length slots) free
unfolding Chain
past_not_free slots head [] c = tt
past_not_free slots head (j ∷ free) (e, slot, at, even, rest) = (
  let lt = get_lt slots j at in λ same. absurd (omega arith),
  past_not_free slots slot.index_or_free free rest,
)

pub Handle_ext : (a b : Handle) → a.index ≡ b.index → a.generation ≡ b.generation → a ≡ b
Handle_ext a b i g = ap₂ (λ i' g'. record { index = i'; generation = g' }) i g

module _ {A : Type 0} where
  -- A slot that is free, and not on the free list any more.
  unfoldable pub Claimed : Slab A → List ℕ → ℕ → Type 0
  Claimed s free i =
      IsValid s free
      × Absent i free
      × (slot : Slot) × (get_elem? s.slots i ≡ some slot)
      × (slot.generation % 2 ≡ 0)
      × (length s.items + length free < length s.slots)

  -- `claim` takes a slot, and no item or handle sees it; or the slab is full.
  pub claim_cases :
      (s : Slab A) (free : List ℕ)
      → IsValid s free
      → ((length s.slots ≡ s.capacity) × (free ≡ []) × (claim s ≡ some (s, none)))
        ⊎ ((s' : Slab A) × (i : ℕ) × (free' : List ℕ) × (claim s ≡ some (s', some i))
            × Claimed s' free' i
            × (s'.items ≡ s.items)
            × (s'.owners ≡ s.owners)
            × ((j : ℕ) (slot : Slot)
                → get_elem? s.slots j ≡ some slot
                → get_elem? s'.slots j ≡ some slot)
            × ((j : ℕ) → j ≢ i → get_elem? s.slots j ≡ none → get_elem? s'.slots j ≡ none))
  unfolding claim Claimed Chain none_index
  claim_cases s (i ∷ free) valid =
      let (head, slot, at, even, rest) = valid.chain in
      let (away, apart) = valid.distinct in
      let lt = get_lt s.slots i at in
      let real : (s.free_head == u32_max) ≡ false =
        ground (arith, valid.slots_len, valid.capacity_word) in
      let at' : get_elem? s.slots s.free_head ≡ some slot = rw head at in
      inr (
        record s { free_head = slot.index_or_free },
        s.free_head,
        free,
        rw (real, at') refl,
        (
          record {
            owners_len = valid.owners_len;
            slots_len = valid.slots_len;
            capacity_word = valid.capacity_word;
            words = valid.words;
            owned = valid.owned;
            occupied = valid.occupied;
            chain = rest;
            distinct = apart;
            count = omega (arith, valid.count);
          },
          subst (λ n. Absent n free) (sym head) away,
          slot,
          at',
          even,
          omega (arith, valid.count),
        ),
        refl,
        refl,
        λ j slot' e. e,
        λ j ne e. e,
      )
  claim_cases s [] valid = elim (Bool-cases (ltb (length s.slots % 2 ^ 32) s.capacity)) [
    | inr full ↦
        let end_mark : (s.free_head == u32_max) ≡ true = ground (arith, valid.chain) in
        let all : length s.slots ≡ s.capacity =
          ground (arith, valid.slots_len, valid.capacity_word) in
        inl (all, refl, rw (end_mark, full) refl)
    | inl room ↦
        let end_mark : (s.free_head == u32_max) ≡ true = ground (arith, valid.chain) in
        let n : length s.slots % 2 ^ 32 ≡ length s.slots =
          omega (arith, valid.slots_len, valid.capacity_word) in
        let more : length s.slots < s.capacity = ground (arith, n) in
        let fresh : Slot = record { generation = 0; index_or_free = none_index } in
        let longer = length-append s.slots (fresh ∷ []) in
        let new_or_old = get-append_cases s.slots fresh in
        inr (
          record s { slots = s.slots ++ (fresh ∷ []) },
          length s.slots,
          [],
          rw (end_mark, room, n) refl,
          (
            record {
              owners_len = valid.owners_len;
              slots_len = omega (arith, longer);
              capacity_word = valid.capacity_word;
              words = λ i slot e. elim (new_or_old slot i e) [
                | inl old ↦ valid.words i slot old
                | inr (at, new) ↦
                    let g : slot.generation ≡ 0 = ap (λ (x : Slot). x.generation) new in
                    omega (arith, g)
              ];
              owned = λ d i e.
                  (let (slot, at, index, odd) = valid.owned d i e in
                    (slot, get-append_old s.slots (fresh ∷ []) i at, index, odd));
              occupied = λ i slot e odd. elim (new_or_old slot i e) [
                | inl old ↦ valid.occupied i slot old odd
                | inr (at, new) ↦
                    let g : slot.generation ≡ 0 = ap (λ (x : Slot). x.generation) new in
                    absurd (omega arith)
              ];
              chain = valid.chain;
              distinct = tt;
              count = omega (arith, longer, valid.count);
            },
            tt,
            fresh,
            get-append_new s.slots fresh,
            refl,
            omega (arith, longer, valid.count),
          ),
          refl,
          refl,
          λ j slot e. get-append_old s.slots (fresh ∷ []) j e,
          λ j ne e. elim (Option-cases (get_elem? (s.slots ++ (fresh ∷ [])) j)) [
            | inl nothing ↦ nothing
            | inr (slot, at) ↦ elim (new_or_old slot j at) [
              | inl old ↦ let clash : none ≡ some slot = sym e ∙ old in absurd cc
              | inr (same, new) ↦ absurd (ne same)
            ]
          ],
        )
  ]

  -- Claiming a slot shows at no handle.
  pub claim-get :
      (s s' : Slab A) (i : ℕ) (slot : Slot)
      → get_elem? s'.slots i ≡ some slot
      → slot.generation % 2 ≡ 0
      → s'.items ≡ s.items
      → ((j : ℕ) (x : Slot) → get_elem? s.slots j ≡ some x → get_elem? s'.slots j ≡ some x)
      → ((j : ℕ) → j ≢ i → get_elem? s.slots j ≡ none → get_elem? s'.slots j ≡ none)
      → (k : Handle) → k.generation % 2 ≡ 1
      → get s' k ≡ get s k
  claim-get s s' i slot at even items old fresh k odd =
      elim (Option-cases (get_elem? s.slots k.index)) [
        | inr (x, found) ↦
            get_of_slot s' k x (old k.index x found)
            ∙ ap (λ l. item_at l (dense_of x k.generation)) items
            ∙ sym (get_of_slot s k x found)
        | inl nothing ↦ elim (ℕ_discrete k.index i) [
          | no ne ↦
              get_of_no_slot s' k (fresh k.index ne nothing) ∙ sym (get_of_no_slot s k nothing)
          | yes same ↦
              get_dead s' k slot (ap (get_elem? s'.slots) same ∙ at) (λ e. absurd (omega arith))
              ∙ sym (get_of_no_slot s k nothing)
        ]
      ]
