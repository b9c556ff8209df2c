-- ===== src/Common/Ranges.antt =====
-- Ranges of an array before, inside and behind a written slice.
use Prim.Native.Nat.{ℕ, zero, suc, ◌+◌, ◌≤◌}
use mathlib.Core.Path.{◌≡◌, refl, ap, sym, ◌∙◌}
use mathlib.Core.List.{List, [], ◌∷◌, ◌++◌}
use native.Mathlib.Omega.{arith}
use hex_net.Common.Lists.{length, set, take, drop, length-take, length-drop}
use hex_net.Common.Slices.{splice, take-splice, drop-set_below}

module _ {ℓ} {A : Type ℓ} where
  -- The `m` items from `a` on.
  abbrev pub range : List A → ℕ → ℕ → List A
  range xs a m = take m (drop a xs)

  take_nothing : (n : ℕ) → take {A = A} n [] ≡ []
  take_nothing zero = refl
  take_nothing (suc n) = refl

  drop-take : (xs : List A) (i m : ℕ) → drop i (take (i + m) xs) ≡ take m (drop i xs)
  drop-take xs zero m = ap (λ n. take n xs) (omega arith)
  drop-take [] (suc i) m = ap (drop (suc i)) (take_nothing (suc i + m)) ∙ sym (take_nothing m)
  drop-take (x ∷ xs) (suc i) m =
      (let e : suc i + m ≡ suc (i + m) = omega arith in rw e refl) ∙ drop-take xs i m

  drop-append : (xs ys : List A) (i : ℕ) → length xs ≡ i → drop i (xs ++ ys) ≡ ys
  drop-append [] ys zero e = refl
  drop-append [] ys (suc i) e = absurd (omega arith)
  drop-append (x ∷ xs) ys zero e = absurd (omega arith)
  drop-append (x ∷ xs) ys (suc i) e = drop-append xs ys i (omega arith)

  -- The written slice itself.
  pub range-splice :
      (xs : List A) (i : ℕ) (ys : List A)
      → i + length ys ≤ length xs
      → range (splice xs i ys) i (length ys) ≡ ys
  range-splice xs i ys h =
      sym (drop-take (splice xs i ys) i (length ys))
      ∙ ap (drop i) (take-splice xs i ys h)
      ∙ drop-append (take i xs) ys i (omega (arith, length-take i xs))

  range-set_above :
      (xs : List A) (i a m : ℕ) (v : A) → a + m ≤ i → range (set xs i v) a m ≡ range xs a m
  range-set_above xs i a zero v h = refl
  range-set_above [] i a (suc m) v h = refl
  range-set_above (x ∷ xs) zero a (suc m) v h = absurd (omega arith)
  range-set_above (x ∷ xs) (suc i) zero (suc m) v h =
      ap (◌∷◌ x) (range-set_above xs i zero m v (omega arith))
  range-set_above (x ∷ xs) (suc i) (suc a) (suc m) v h =
      range-set_above xs i a (suc m) v (omega arith)

  -- A range that ends before the written slice.
  pub range-splice_above :
      (xs : List A) (i a m : ℕ) (ys : List A)
      → a + m ≤ i
      → range (splice xs i ys) a m ≡ range xs a m
  range-splice_above xs i a m [] h = refl
  range-splice_above xs i a m (y ∷ ys) h =
      range-splice_above (set xs i y) (suc i) a m ys (omega arith) ∙ range-set_above xs i a m y h

  -- A range that begins behind the written slice.
  pub range-splice_below :
      (xs : List A) (i a m : ℕ) (ys : List A)
      → i + length ys ≤ a
      → range (splice xs i ys) a m ≡ range xs a m
  range-splice_below xs i a m [] h = refl
  range-splice_below xs i a m (y ∷ ys) h =
      range-splice_below (set xs i y) (suc i) a m ys (omega arith)
      ∙ ap (take m) (drop-set_below xs i a y (omega arith))

  pub length-range : (xs : List A) (a m : ℕ) → a + m ≤ length xs → length (range xs a m) ≡ m
  length-range xs a m h = omega (arith, length-take m (drop a xs), length-drop a xs)
