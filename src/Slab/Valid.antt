-- ===== src/Slab/Valid.antt =====
-- The invariant of hex-net-core/src/slab.rs: items, owners, slots and the free list agree.
use hex_net.Common.{
  ℕ, zero, suc, ◌+◌, ◌%◌, ◌^◌, ◌≤◌, ◌<◌, ◌≡◌, ◌≢◌, refl, ap, sym, ◌∙◌, none, some, List, [], ◌∷◌,
  arith, length, get_elem?, u32_max, inl, inr, ◌⊎◌, ltb, set, get_elem?-set_ne, get_elem?-set_self,
  length-set, true, false, ◌==◌,
}
use hex_net.Common.Slices.{get_of_lt}
use native.Mathlib.Decide.{ℕ_discrete}
use hex_net.Slab.{
  Slab, Slot, Handle, none_index, with_capacity, get, dense_index, dense_of, item_at,
}

-- The free list from a head on: its slots exist and are free, and its end is the sentinel.
unfoldable pub Chain : List Slot → ℕ → List ℕ → Type 0
Chain slots head [] = head ≡ none_index
Chain slots head (i ∷ free) =
    (head ≡ i)
    × (slot : Slot) × (get_elem? slots i ≡ some slot)
    × (slot.generation % 2 ≡ 0)
    × Chain slots slot.index_or_free free

-- Not in the list.
abbrev pub Absent : ℕ → List ℕ → Type 0
Absent i [] = Unit {0}
Absent i (j ∷ free) = (i ≢ j) × Absent i free

abbrev pub AllDistinct : List ℕ → Type 0
AllDistinct [] = Unit {0}
AllDistinct (i ∷ free) = Absent i free × AllDistinct free

pub get_lt : {B : Type 0} (xs : List B) (i : ℕ) {x : B} → get_elem? xs i ≡ some x → i < length xs
get_lt [] i e = absurd cc
get_lt (y ∷ ys) zero e = omega arith
get_lt (y ∷ ys) (suc i) e = omega (arith, get_lt ys i e)

-- What stands at an index after a write.
pub set_cases :
    {B : Type 0} (xs : List B) (i j : ℕ) (v y : B)
    → get_elem? (set xs i v) j ≡ some y
    → ((j ≡ i) × (y ≡ v)) ⊎ ((i ≢ j) × (get_elem? xs j ≡ some y))
set_cases xs i j v y e = elim (ℕ_discrete i j) [
  | no ne ↦ inr (ne, sym (get_elem?-set_ne xs i j v ne) ∙ e)
  | yes same ↦
      let lt = get_lt (set xs i v) j e in
      let e' : some v ≡ some y =
        sym (get_elem?-set_self xs i v (omega (arith, length-set xs i v)))
        ∙ ap (get_elem? (set xs i v)) same
        ∙ e in
      inl (sym same, ground arith)
]

-- A write outside the free list does not change the list.
pub Chain-set :
    (slots : List Slot) (head i : ℕ) (slot : Slot) (free : List ℕ)
    → Absent i free
    → Chain slots head free
    → Chain (set slots i slot) head free
unfolding Chain
Chain-set slots head i slot [] away e = e
Chain-set slots head i slot (j ∷ free) (ne, away) (e, free_slot, at, even, rest) = (
  e,
  free_slot,
  get_elem?-set_ne slots i j slot ne ∙ at,
  even,
  Chain-set slots free_slot.index_or_free i slot free away rest,
)

-- The slots of the free list are free.
pub occupied_not_free :
    (slots : List Slot) (head i : ℕ) (slot : Slot) (free : List ℕ)
    → Chain slots head free
    → get_elem? slots i ≡ some slot
    → slot.generation % 2 ≡ 1
    → Absent i free
unfolding Chain
occupied_not_free slots head i slot [] c at odd = tt
occupied_not_free slots head i slot (j ∷ free) (e, free_slot, at', even, rest) at odd = (
  λ same.
      (let both : some slot ≡ some free_slot = sym at ∙ ap (get_elem? slots) same ∙ at' in
        let g : slot.generation ≡ free_slot.generation = ground arith in absurd (omega arith)),
  occupied_not_free slots free_slot.index_or_free i slot free rest at odd,
)

module _ {A : Type 0} where
  pub record IsValid (s : Slab A) (free : List ℕ) : Type 0 where
    pub owners_len : length s.owners ≡ length s.items
    pub slots_len : length s.slots ≤ s.capacity
    pub capacity_word : s.capacity < u32_max
    pub words : (i : ℕ) (slot : Slot) → get_elem? s.slots i ≡ some slot → slot.generation < 2 ^ 32
    pub owned :
        (d i : ℕ)
        → get_elem? s.owners d ≡ some i
        → (slot : Slot) × (get_elem? s.slots i ≡ some slot)
          × (slot.index_or_free ≡ d)
          × (slot.generation % 2 ≡ 1)
    pub occupied :
        (i : ℕ) (slot : Slot)
        → get_elem? s.slots i ≡ some slot
        → slot.generation % 2 ≡ 1
        → get_elem? s.owners slot.index_or_free ≡ some i
    pub chain : Chain s.slots s.free_head free
    pub distinct : AllDistinct free
    pub count : length s.items + length free ≤ length s.slots

  -- A slot under an odd generation is read without a panic.
  pub get_of_slot :
      (s : Slab A) (h : Handle) (slot : Slot)
      → get_elem? s.slots h.index ≡ some slot
      → get s h ≡ item_at s.items (dense_of slot h.generation)
  unfolding get dense_index
  get_of_slot s h slot at = rw at refl

  pub get_of_no_slot :
      (s : Slab A) (h : Handle) → get_elem? s.slots h.index ≡ none → get s h ≡ some none
  unfolding get dense_index
  get_of_no_slot s h at = rw at refl

  pub get_dead :
      (s : Slab A) (h : Handle) (slot : Slot)
      → get_elem? s.slots h.index ≡ some slot
      → slot.generation ≢ h.generation
      → get s h ≡ some none
  get_dead s h slot at ne =
      let go : (slot.generation == h.generation) ≡ false = ground arith in
      get_of_slot s h slot at ∙ rw go refl

  pub get_live :
      (s : Slab A) (free : List ℕ) (h : Handle) (slot : Slot)
      → IsValid s free
      → h.generation % 2 ≡ 1
      → get_elem? s.slots h.index ≡ some slot
      → slot.generation ≡ h.generation
      → (x : A) × (get_elem? s.items slot.index_or_free ≡ some x) × (get s h ≡ some (some x))
  get_live s free h slot valid odd at same =
      let go : (slot.generation == h.generation) ≡ true = ground arith in
      let owner = valid.occupied h.index slot at (omega arith) in
      let (x, item) =
        get_of_lt s.items slot.index_or_free
          (omega (arith, valid.owners_len, get_lt s.owners slot.index_or_free owner)) in
      (x, item, get_of_slot s h slot at ∙ rw (go, item) refl)

  pub with_capacity-IsValid :
      (capacity : ℕ)
      → capacity < u32_max
      → (s : Slab A) × (with_capacity capacity ≡ some s) × IsValid s []
  unfolding with_capacity Chain none_index
  with_capacity-IsValid capacity h =
      let go : ltb capacity u32_max ≡ true = ground arith in
      (
        record { slots = []; items = []; owners = []; free_head = none_index; capacity = capacity },
        rw go refl,
        record {
          owners_len = refl;
          slots_len = omega arith;
          capacity_word = h;
          words = λ i slot e. absurd cc;
          owned = λ d i e. absurd cc;
          occupied = λ i slot e odd. absurd cc;
          chain = refl;
          distinct = tt;
          count = omega arith;
        },
      )
