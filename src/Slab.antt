-- ===== src/Slab.antt =====
-- hex-net-core/src/slab.rs: storage with stable handles and contiguous items. `none` of an operation is
-- a panic: an index past an array.
pub mod Valid
pub mod Claim
pub mod Insert
pub mod Hole
pub mod After
pub mod Remove
use hex_net.Common.{
  ℕ, ◌+◌, ◌-◌, ◌%◌, ◌^◌, Bool, true, false, not, Option, none, some, List, [], ◌∷◌, ◌++◌, Result,
  ok, err, ltb, ◌==◌, ◌&&◌, if◌then◌else◌, ◌>>=◌, length, get_elem?, set, take, u32_max,
}

pub record Handle : Type 0 where
  pub index : ℕ
  pub generation : ℕ

unfoldable pub none_index : ℕ
none_index = u32_max

-- The generation is odd while the slot is occupied, and even while it is free.
pub record Slot : Type 0 where
  pub generation : ℕ
  pub index_or_free : ℕ

pub record Slab (A : Type 0) : Type 0 where
  pub slots : List Slot
  pub items : List A
  pub owners : List ℕ
  pub free_head : ℕ
  pub capacity : ℕ

abbrev pub dense_of : Slot → ℕ → Option ℕ
dense_of slot generation = if slot.generation == generation then some slot.index_or_free else none

abbrev pub occupant : ℕ → Slot → Option Handle
occupant index slot =
    if slot.generation % 2 == 1
    then some (record { index = index; generation = slot.generation })
    else none

module _ {A : Type 0} where
  -- `none` is the assertion on the capacity.
  unfoldable pub with_capacity : ℕ → Option (Slab A)
  with_capacity capacity =
      if ltb capacity none_index
      then some (record {
        slots = [];
        items = [];
        owners = [];
        free_head = none_index;
        capacity = capacity;
      })
      else none

  -- A free slot off the list, or a fresh one.
  unfoldable pub claim : Slab A → Option (Slab A × Option ℕ)
  claim s =
      if not (s.free_head == none_index)
      then (do
        slot ← get_elem? s.slots s.free_head
        some (record s { free_head = slot.index_or_free }, some s.free_head))
      else (if ltb (length s.slots % 2 ^ 32) s.capacity
          then some (
            record s {
              slots = s.slots ++ (record { generation = 0; index_or_free = none_index } ∷ []);
            },
            some (length s.slots % 2 ^ 32),
          )
          else some (s, none))

  unfoldable pub fill : Slab A → ℕ → A → Option (Slab A × Handle)
  fill s index item = do
    slot ← get_elem? s.slots index
    some (
      record s {
        items = s.items ++ (item ∷ []);
        owners = s.owners ++ (index ∷ []);
        slots = set s.slots index (record {
          generation = (slot.generation + 1) % 2 ^ 32;
          index_or_free = length s.items % 2 ^ 32;
        });
      },
      record { index = index; generation = (slot.generation + 1) % 2 ^ 32 },
    )

  abbrev pub insert_claimed : A → Slab A × Option ℕ → Option (Slab A × Result Handle A)
  insert_claimed item (s, none) = some (s, err item)
  insert_claimed item (s, some index) = do (s', handle) ← fill s index item; some (s', ok handle)

  unfoldable pub insert : Slab A → A → Option (Slab A × Result Handle A)
  insert s item = do claimed ← claim s; insert_claimed item claimed

  abbrev insert_made : (Handle → A) → Slab A × Option ℕ → Option (Slab A × Option Handle)
  insert_made make (s, none) = some (s, none)
  insert_made make (s, some index) = do
    slot ← get_elem? s.slots index
    (s', handle) ←
        fill s index (make (record { index = index; generation = (slot.generation + 1) % 2 ^ 32 }))
    some (s', some handle)

  unfoldable pub insert_with : Slab A → (Handle → A) → Option (Slab A × Option Handle)
  insert_with s make = do claimed ← claim s; insert_made make claimed

  unfoldable pub dense_index : Slab A → Handle → Option ℕ
  dense_index s h = do slot ← get_elem? s.slots h.index; dense_of slot h.generation

  unfoldable pub handle_at : Slab A → ℕ → Option Handle
  handle_at s index = do slot ← get_elem? s.slots index; occupant index slot

  abbrev pub item_at : List A → Option ℕ → Option (Option A)
  item_at items none = some none
  item_at items (some dense) = do item ← get_elem? items dense; some (some item)

  -- The outer `none` is a panic.
  unfoldable pub get : Slab A → Handle → Option (Option A)
  get s h = item_at s.items (dense_index s h)

-- `Vec::swap_remove`: the last item fills the hole.
unfoldable pub swap_remove : {B : Type 0} → List B → ℕ → Option (B × List B)
swap_remove xs at = do
  x ← get_elem? xs at
  last ← get_elem? xs (length xs - 1)
  some (x, take (length xs - 1) (set xs at last))

-- The slot of the item that filled the hole points at its new place.
unfoldable pub repoint : List Slot → List ℕ → ℕ → ℕ → Option (List Slot)
repoint slots owners count dense =
    if ltb dense count
    then (do
      moved ← get_elem? owners dense
      slot ← get_elem? slots moved
      some (set slots moved (record slot { index_or_free = dense % 2 ^ 32 })))
    else some slots

-- The slot with its next generation, in front of the free list unless the generation wrapped, and the
-- head of that list.
unfoldable pub released : Slot → ℕ → ℕ → Slot × ℕ
released slot index free_head =
    let generation = (slot.generation + 1) % 2 ^ 32 in
    if not (generation == 0)
    then (record { generation = generation; index_or_free = free_head }, index)
    else (record { generation = generation; index_or_free = slot.index_or_free }, free_head)

module _ {A : Type 0} where
  abbrev pub remove_dense : Slab A → ℕ → Option ℕ → Option (Slab A × Option A)
  remove_dense s index none = some (s, none)
  remove_dense s index (some dense) = do
    (item, items) ← swap_remove s.items dense
    (owner, owners) ← swap_remove s.owners dense
    slots ← repoint s.slots owners (length items) dense
    slot ← get_elem? slots index
    (let (slot', free_head) = released slot index s.free_head in
        some (
          record s {
            slots = set slots index slot';
            items = items;
            owners = owners;
            free_head = free_head;
          },
          some item,
        ))

  unfoldable pub remove : Slab A → Handle → Option (Slab A × Option A)
  remove s h = remove_dense s h.index (dense_index s h)
