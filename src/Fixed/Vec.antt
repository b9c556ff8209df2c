-- ===== src/Fixed/Vec.antt =====
-- `FixedVec<T, CAP>` of hex-net-core/src/fixed.rs. The array is a list of `size` items, of which the
-- first `len` are the vector's. Where the source mutates, the model returns the new vector.
pub mod Laws
use hex_net.Common.{
  ℕ, zero, suc, ◌+◌, ◌-◌, ◌≤◌, ◌≡◌, Bool, true, false, Option, none, some, List, [], ◌∷◌, ltb, leb,
  ◌==◌, if◌then◌else◌, length, get_elem?, set, take, replicate,
}
use hex_net.Common.Slices.{splice}

pub record FixedVec {ℓ} (A : Type ℓ) : Type ℓ where
  pub items : List A
  pub len : ℕ

module _ {ℓ} {A : Type ℓ} where
  -- `new`, from the default value.
  unfoldable pub new : ℕ → A → FixedVec A
  new size default = record { items = replicate size default; len = 0 }

  -- `Deref`: the items in use.
  abbrev pub contents : FixedVec A → List A
  contents v = take v.len v.items

  unfoldable pub from_slice : ℕ → A → List A → Option (FixedVec A)
  unfolding new
  from_slice size default source =
      if ltb size (length source)
      then none
      else some (record { items = splice (replicate size default) 0 source; len = length source })

  abbrev pub is_empty : FixedVec A → Bool
  is_empty v = v.len == 0

  abbrev pub is_full : ℕ → FixedVec A → Bool
  is_full size v = v.len == size

  unfoldable pub push : ℕ → FixedVec A → A → FixedVec A × Bool
  push size v item =
      if is_full size v
      then (v, false)
      else (record { items = set v.items v.len item; len = v.len + 1 }, true)

  unfoldable pub extend_from_slice : ℕ → FixedVec A → List A → FixedVec A × Bool
  extend_from_slice size v source =
      let end_at = v.len + length source in
      if ltb size end_at
      then (v, false)
      else (record { items = splice v.items v.len source; len = end_at }, true)

  -- `items[i] = items[j]`.
  abbrev pub copy_within : List A → ℕ → ℕ → List A
  copy_within xs i j = elim (get_elem? xs j) [ none ↦ xs | some x ↦ set xs i x ]

  -- The loop of `remove` from `index` on, with `rounds` left.
  pub shift_left : ℕ → ℕ → List A → List A
  shift_left zero index xs = xs
  shift_left (suc rounds) index xs =
      shift_left rounds (suc index) (copy_within xs index (suc index))

  unfoldable pub remove : FixedVec A → ℕ → FixedVec A × Option A
  unfolding shift_left
  remove v at = if leb v.len at then (v, none) else (
    record { items = shift_left (v.len - 1 - at) at v.items; len = v.len - 1 },
    get_elem? v.items at,
  )

  -- The loop of `retain` from `read` on: the items, and where the next kept one goes.
  pub retain_from : (A → Bool) → ℕ → ℕ → ℕ → List A → List A × ℕ
  retain_from f zero read write xs = (xs, write)
  retain_from f (suc rounds) read write xs = elim (get_elem? xs read) [
    | none ↦ (xs, write)
    | some x ↦
        retain_from f rounds (suc read) (if f x then suc write else write)
          (if f x then set xs write x else xs)
  ]

  unfoldable pub retain : (A → Bool) → FixedVec A → FixedVec A
  unfolding retain_from
  retain f v =
      let (xs, write) = retain_from f v.len 0 0 v.items in record { items = xs; len = write }

  unfoldable pub clear : FixedVec A → FixedVec A
  clear v = record v { len = 0 }

  pub record IsValid (size : ℕ) (v : FixedVec A) : Type 0 where
    pub storage : length v.items ≡ size
    pub within : v.len ≤ size
