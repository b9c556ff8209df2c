-- ===== src/Fixed/Vec/Laws.antt =====
-- What the operations of `FixedVec` do to the items in use.
use hex_net.Common.{
  ℕ, zero, suc, ◌+◌, ◌-◌, ◌≤◌, ◌<◌, ◌≡◌, ◌↔◌, refl, sym, ap, ap₂, ◌∙◌, Bool, none, some, List, [],
  ◌∷◌, ◌++◌, arith, ltb, leb, if◌then◌else◌, length, get_elem?, set, take, drop, replicate,
  length-set, length-replicate, length-take, get_elem?-above, Bool-cases, inl, inr,
}
use hex_net.Common.Slices.{
  splice, filter, erase_at, take-suc-set, take-splice, length-splice, erase_at_above, erase_at-take,
  get_elem?-take, drop-set_below, drop_of_get, get_of_lt, append_assoc, append-nil,
}
use hex_net.Fixed.Vec.{
  FixedVec, IsValid, from_slice, contents, push, extend_from_slice, copy_within, shift_left, remove,
  retain_from, retain,
}

module _ {A : Type 0} where
  -- A push onto a vector with room appends the item and answers true; onto a full one it changes
  -- nothing and answers false.
  pub push_lem :
      (size : ℕ) (v : FixedVec A) (x : A)
      → IsValid size v
      → let (w, done) = push size v x in
        IsValid size w
        × (done ≡ ltb v.len size)
        × (contents w ≡ (if ltb v.len size then contents v ++ (x ∷ []) else contents v))
  unfolding push
  push_lem size v x ok = ground (arith, take-suc-set v.items v.len x, length-set v.items v.len x)

  -- On a valid vector a slice that fits is appended whole and the answer is true; one that does
  -- not leaves the vector as it was and the answer is false; the vector stays valid.
  extend_lem :
      (size : ℕ) (v : FixedVec A) (source : List A)
      → IsValid size v
      → let (w, done) = extend_from_slice size v source in
        IsValid size w
        × (done ≡ leb (v.len + length source) size)
        × (contents w
            ≡ (if leb (v.len + length source) size then contents v ++ source else contents v))
  unfolding extend_from_slice
  extend_lem size v source ok =
      ground (arith, take-splice v.items v.len source, length-splice v.items v.len source)

  -- A slice that fits becomes a vector of its items.
  pub from_slice_lem :
      (size : ℕ) (default : A) (source : List A)
      → length source ≤ size
      → (v : FixedVec A) × (from_slice size default source ≡ some v)
        × IsValid size v
        × (contents v ≡ source)
  unfolding from_slice
  from_slice_lem size default source h =
      let blank = replicate size default in
      let whole = length-replicate size default in
      (
        record { items = splice blank 0 source; len = length source },
        ground arith,
        record { storage = length-splice blank 0 source ∙ whole; within = h },
        (let n : length source ≡ 0 + length source = omega arith in
            rw n (take-splice blank 0 source (omega (arith, whole)))),
      )

  -- A slice is refused exactly when it is longer than the vector may be.
  pub from_slice-none :
      (size : ℕ) (default : A) (source : List A)
      → (from_slice size default source ≡ none) ↔ (size < length source)
  unfolding from_slice
  from_slice-none size default source = ground arith

  copy_of_lt :
      (xs : List A) (i : ℕ)
      → suc i < length xs
      → (x : A) × (copy_within xs i (suc i) ≡ set xs i x)
        × (drop (suc i) xs ≡ x ∷ drop (suc (suc i)) xs)
  copy_of_lt xs i h =
      let (x, e) = get_of_lt xs (suc i) h in (x, rw (e, copy_within), drop_of_get xs (suc i) x e)

  -- The loop of `remove` moves `rounds` items one place down.
  take-shift_left :
      (rounds i : ℕ) (xs : List A)
      → i + rounds < length xs
      → take (i + rounds) (shift_left rounds i xs) ≡ take i xs ++ take rounds (drop (suc i) xs)
  unfolding shift_left
  take-shift_left zero i xs h = ap (λ n. take n xs) (omega arith) ∙ sym (append-nil (take i xs))
  take-shift_left (suc rounds) i xs h =
      let (x, copied, tail) = copy_of_lt xs i (omega arith) in
      let moved = set xs i x in
      rw (copied, tail)
        (ap (λ n. take n (shift_left rounds (suc i) moved)) (omega arith)
          ∙ take-shift_left rounds (suc i) moved (omega (arith, length-set xs i x))
          ∙ ap₂ ◌++◌ (take-suc-set xs i x (omega arith))
              (ap (take rounds) (drop-set_below xs i (suc (suc i)) x (omega arith)))
          ∙ append_assoc (take i xs) (x ∷ []) (take rounds (drop (suc (suc i)) xs)))

  length-copy_within : (xs : List A) (i j : ℕ) → length (copy_within xs i j) ≡ length xs
  length-copy_within xs i j =
      elim (get_elem? xs j)
        as (λ o. length (elim o as (λ _. List A) [ none ↦ xs | some x ↦ set xs i x ]) ≡ length xs) [
          | none ↦ refl
          | some x ↦ length-set xs i x
        ]

  length-shift_left : (rounds i : ℕ) (xs : List A) → length (shift_left rounds i xs) ≡ length xs
  unfolding shift_left
  length-shift_left zero i xs = refl
  length-shift_left (suc rounds) i xs =
      length-shift_left rounds (suc i) (copy_within xs i (suc i)) ∙ length-copy_within xs i (suc i)

  -- The items in use after a removal in range.
  contents-shift_left :
      (xs : List A) (n at : ℕ)
      → at < n
      → n ≤ length xs
      → take (n - 1) (shift_left (n - 1 - at) at xs) ≡ erase_at (take n xs) at
  contents-shift_left xs n at h le =
      let rounds = n - 1 - at in
      ap (λ k. take k (shift_left rounds at xs)) (omega arith)
      ∙ take-shift_left rounds at xs (omega arith)
      ∙ sym (erase_at-take xs n at h le)

  -- On a valid vector `remove` in range returns the item at the index and closes the gap in
  -- order; out of range it returns nothing and changes nothing; the vector stays valid.
  remove_lem :
      (size : ℕ) (v : FixedVec A) (at : ℕ)
      → IsValid size v
      → let (w, out) = remove v at in
        IsValid size w × (out ≡ get_elem? (contents v) at) × (contents w ≡ erase_at (contents v) at)
  unfolding remove
  remove_lem size v at ok = elim (Bool-cases (leb v.len at)) [
    | inl out ↦
        let h : v.len ≤ at = ground arith in
        rw out (
          ok,
          sym (get_elem?-above (contents v) at (omega (arith, length-take v.len v.items))),
          sym (erase_at_above (contents v) at (omega (arith, length-take v.len v.items))),
        )
    | inr inside ↦
        let h : at < v.len = ground arith in
        let rounds = v.len - 1 - at in
        let whole = length-shift_left rounds at v.items in
        rw inside (
          record { storage = omega arith; within = omega arith },
          sym (get_elem?-take v.items v.len at h),
          contents-shift_left v.items v.len at h (omega arith),
        )
  ]

  -- The loop of `retain`, with `write` items kept so far.
  retain_from_lem :
      (f : A → Bool) (rounds read write : ℕ) (xs : List A)
      → write ≤ read
      → read + rounds ≤ length xs
      → let (ys, n) = retain_from f rounds read write xs in
        (length ys ≡ length xs)
        × (n ≤ write + rounds)
        × (take n ys ≡ take write xs ++ filter f (take rounds (drop read xs)))
  unfolding retain_from
  retain_from_lem f zero read write xs le fits =
      (refl, omega arith, sym (append-nil (take write xs)))
  retain_from_lem f (suc rounds) read write xs le fits =
      let (x, e) = get_of_lt xs read (omega arith) in
      let tail = drop_of_get xs read x e in
      elim (Bool-cases (f x)) [
        | inl kept ↦
            let moved = set xs write x in
            let whole = length-set xs write x in
            let (l, n, t) =
              retain_from_lem f rounds (suc read) (suc write) moved (omega arith) (omega arith) in
            let t' =
              t
              ∙ ap₂ (λ a b. a ++ filter f (take rounds b)) (take-suc-set xs write x (omega arith))
                  (drop-set_below xs write (suc read) x (omega arith))
              ∙ append_assoc (take write xs) (x ∷ []) _ in
            rw (e, retain_from, tail, kept) (omega arith, omega arith, t')
        | inr out ↦
            let (l, n, t) =
              retain_from_lem f rounds (suc read) write xs (omega arith) (omega arith) in
            rw (e, retain_from, tail, out) (l, omega arith, t)
      ]

  -- On a valid vector `retain` keeps the items that pass, in their order, and the vector stays
  -- valid.
  retain_lem :
      (size : ℕ) (f : A → Bool) (v : FixedVec A)
      → IsValid size v
      → IsValid size (retain f v) × (contents (retain f v) ≡ filter f (contents v))
  unfolding retain
  retain_lem size f v ok =
      let (whole, n, kept) = retain_from_lem f v.len 0 0 v.items (omega arith) (omega arith) in
      (record { storage = omega arith; within = omega arith }, kept)
