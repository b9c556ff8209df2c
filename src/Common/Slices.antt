-- ===== src/Common/Slices.antt =====
-- Slices of an array: prefixes and suffixes of a list under writes.
use Prim.Native.Nat.{ℕ, zero, suc, ◌+◌, ◌-◌, ◌≤◌, ◌<◌}
use mathlib.Core.Path.{◌≡◌, refl, ap, ◌∙◌}
use mathlib.Core.Bool.{Bool}
use mathlib.Core.List.{List, [], ◌∷◌, ◌++◌}
use mathlib.Core.Option.{some}
use native.Mathlib.Omega.{arith}
use hex_net.Common.Tests.{if◌then◌else◌}
use hex_net.Common.Lists.{length, get_elem?, set, take, drop, length-set}

module _ {ℓ} {A : Type ℓ} where
  -- `copy_from_slice` at an offset. What would pass the end is cut off.
  abbrev pub splice : List A → ℕ → List A → List A
  splice xs i [] = xs
  splice xs i (y ∷ ys) = splice (set xs i y) (suc i) ys

  abbrev pub filter : (A → Bool) → List A → List A
  filter f [] = []
  filter f (x ∷ xs) = if f x then x ∷ filter f xs else filter f xs

  -- The list without its element at an index.
  abbrev pub erase_at : List A → ℕ → List A
  erase_at [] i = []
  erase_at (x ∷ xs) zero = xs
  erase_at (x ∷ xs) (suc i) = x ∷ erase_at xs i

  pub append_assoc : (xs ys zs : List A) → (xs ++ ys) ++ zs ≡ xs ++ (ys ++ zs)
  append_assoc [] ys zs = refl
  append_assoc (x ∷ xs) ys zs = ap (◌∷◌ x) (append_assoc xs ys zs)

  pub append-nil : (xs : List A) → xs ++ [] ≡ xs
  append-nil [] = refl
  append-nil (x ∷ xs) = ap (◌∷◌ x) (append-nil xs)

  pub take-suc-set :
      (xs : List A) (n : ℕ) (v : A)
      → n < length xs
      → take (suc n) (set xs n v) ≡ take n xs ++ (v ∷ [])
  take-suc-set [] n v h = absurd (omega arith)
  take-suc-set (x ∷ xs) zero v h = refl
  take-suc-set (x ∷ xs) (suc n) v h = ap (◌∷◌ x) (take-suc-set xs n v (omega arith))

  pub drop-set_below : (xs : List A) (i n : ℕ) (v : A) → i < n → drop n (set xs i v) ≡ drop n xs
  drop-set_below [] i n v h = refl
  drop-set_below (x ∷ xs) i zero v h = absurd (omega arith)
  drop-set_below (x ∷ xs) zero (suc n) v h = refl
  drop-set_below (x ∷ xs) (suc i) (suc n) v h = drop-set_below xs i n v (omega arith)

  pub take-set_above : (xs : List A) (i n : ℕ) (v : A) → n ≤ i → take n (set xs i v) ≡ take n xs
  take-set_above xs i zero v h = refl
  take-set_above [] i (suc n) v h = refl
  take-set_above (x ∷ xs) zero (suc n) v h = absurd (omega arith)
  take-set_above (x ∷ xs) (suc i) (suc n) v h = ap (◌∷◌ x) (take-set_above xs i n v (omega arith))

  -- Read at `i`, what is left from `i` on begins with the element.
  pub drop_of_get :
      (xs : List A) (i : ℕ) (v : A) → get_elem? xs i ≡ some v → drop i xs ≡ v ∷ drop (suc i) xs
  drop_of_get [] i v e = cc
  drop_of_get (x ∷ xs) zero v e = ap (λ y. y ∷ xs) (ground arith)
  drop_of_get (x ∷ xs) (suc i) v e = drop_of_get xs i v e

  pub get_of_lt : (xs : List A) (i : ℕ) → i < length xs → (v : A) × (get_elem? xs i ≡ some v)
  get_of_lt [] i h = absurd (omega arith)
  get_of_lt (x ∷ xs) zero h = (x, refl)
  get_of_lt (x ∷ xs) (suc i) h = get_of_lt xs i (omega arith)

  pub take_all : (xs : List A) (n : ℕ) → length xs ≤ n → take n xs ≡ xs
  take_all [] zero h = refl
  take_all [] (suc n) h = refl
  take_all (x ∷ xs) zero h = absurd (omega arith)
  take_all (x ∷ xs) (suc n) h = ap (◌∷◌ x) (take_all xs n (omega arith))

  pub length-splice : (xs : List A) (i : ℕ) (ys : List A) → length (splice xs i ys) ≡ length xs
  length-splice xs i [] = refl
  length-splice xs i (y ∷ ys) = rw (length-splice (set xs i y) (suc i) ys) (length-set xs i y)

  -- A written slice stands behind the prefix that it was written after.
  pub take-splice :
      (xs : List A) (i : ℕ) (ys : List A)
      → i + length ys ≤ length xs
      → take (i + length ys) (splice xs i ys) ≡ take i xs ++ ys
  take-splice xs i [] h = rw (append-nil (take i xs)) (ap (λ n. take n xs) (omega arith))
  take-splice xs i (y ∷ ys) h =
      ap (λ n. take n (splice (set xs i y) (suc i) ys)) (omega arith)
      ∙ take-splice (set xs i y) (suc i) ys (omega (arith, length-set xs i y))
      ∙ ap (λ l. l ++ ys) (take-suc-set xs i y (omega arith))
      ∙ append_assoc (take i xs) (y ∷ []) ys

  pub get_elem?-take : (xs : List A) (n i : ℕ) → i < n → get_elem? (take n xs) i ≡ get_elem? xs i
  get_elem?-take xs zero i h = absurd (omega arith)
  get_elem?-take [] (suc n) i h = refl
  get_elem?-take (x ∷ xs) (suc n) zero h = refl
  get_elem?-take (x ∷ xs) (suc n) (suc i) h = get_elem?-take xs n i (omega arith)

  pub erase_at_above : (xs : List A) (at : ℕ) → length xs ≤ at → erase_at xs at ≡ xs
  erase_at_above [] at h = refl
  erase_at_above (x ∷ xs) zero h = absurd (omega arith)
  erase_at_above (x ∷ xs) (suc at) h = ap (◌∷◌ x) (erase_at_above xs at (omega arith))

  pub erase_at-take :
      (xs : List A) (n at : ℕ)
      → at < n
      → n ≤ length xs
      → erase_at (take n xs) at ≡ take at xs ++ take (n - 1 - at) (drop (suc at) xs)
  erase_at-take xs zero at h le = absurd (omega arith)
  erase_at-take [] (suc n) at h le = absurd (omega arith)
  erase_at-take (x ∷ xs) (suc n) zero h le = ap (λ k. take k xs) (omega arith)
  erase_at-take (x ∷ xs) (suc n) (suc at) h le = ap (◌∷◌ x) (
      erase_at-take xs n at (omega arith) (omega arith)
      ∙ ap (λ k. take at xs ++ take k (drop (suc at) xs)) (omega arith))
