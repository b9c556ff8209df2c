-- ===== src/Common/Splices.antt =====
-- Slices written in two pieces, and into lists that are joined.
use Prim.Native.Nat.{ℕ, zero, suc, ◌+◌, ◌-◌, ◌≤◌}
use mathlib.Core.Path.{◌≡◌, refl, ap, sym, ◌∙◌}
use mathlib.Core.List.{List, [], ◌∷◌, ◌++◌}
use native.Mathlib.Omega.{arith}
use hex_net.Common.Lists.{length, set, take, drop, length-set}
use hex_net.Common.Slices.{splice, take-splice, take_all, length-splice}

module _ {ℓ} {A : Type ℓ} where
  pub splice-append :
      (xs : List A) (i : ℕ) (ys zs : List A)
      → splice xs i (ys ++ zs) ≡ splice (splice xs i ys) (i + length ys) zs
  splice-append xs i [] zs = ap (λ n. splice xs n zs) (omega arith)
  splice-append xs i (y ∷ ys) zs =
      splice-append (set xs i y) (suc i) ys zs
      ∙ ap (λ n. splice (splice (set xs i y) (suc i) ys) n zs) (omega arith)

  pub take-append :
      (n : ℕ) (xs ys : List A) → take n (xs ++ ys) ≡ take n xs ++ take (n - length xs) ys
  take-append zero xs ys = let e : 0 - length xs ≡ 0 = omega arith in rw e refl
  take-append (suc n) [] ys = (let e : suc n - 0 ≡ suc n = omega arith in rw e refl)
  take-append (suc n) (x ∷ xs) ys =
      ap (◌∷◌ x) (take-append n xs ys)
      ∙ (let e : suc n - suc (length xs) ≡ n - length xs = omega arith in rw e refl)

  pub take-drop : (n : ℕ) (xs : List A) → take n xs ++ drop n xs ≡ xs
  take-drop zero xs = refl
  take-drop (suc n) [] = refl
  take-drop (suc n) (x ∷ xs) = ap (◌∷◌ x) (take-drop n xs)

  pub drop_all : (n : ℕ) (xs : List A) → length xs ≤ n → drop n xs ≡ []
  drop_all zero [] h = refl
  drop_all (suc n) [] h = refl
  drop_all zero (x ∷ xs) h = absurd (omega arith)
  drop_all (suc n) (x ∷ xs) h = drop_all n xs (omega arith)

  set-append_front :
      (xs ys : List A) (i : ℕ) (v : A) → suc i ≤ length xs → set (xs ++ ys) i v ≡ set xs i v ++ ys
  set-append_front [] ys i v h = absurd (omega arith)
  set-append_front (x ∷ xs) ys zero v h = refl
  set-append_front (x ∷ xs) ys (suc i) v h = ap (◌∷◌ x) (set-append_front xs ys i v (omega arith))

  set-append_back :
      (xs ys : List A) (i : ℕ) (v : A) → set (xs ++ ys) (length xs + i) v ≡ xs ++ set ys i v
  set-append_back [] ys i v = ap (λ n. set ys n v) (omega arith)
  set-append_back (x ∷ xs) ys i v =
      (let e : suc (length xs) + i ≡ suc (length xs + i) = omega arith in rw e refl)
      ∙ ap (◌∷◌ x) (set-append_back xs ys i v)

  -- A slice that ends within the first of two joined lists.
  pub splice-append_front :
      (xs ys : List A) (i : ℕ) (zs : List A)
      → i + length zs ≤ length xs
      → splice (xs ++ ys) i zs ≡ splice xs i zs ++ ys
  splice-append_front xs ys i [] h = refl
  splice-append_front xs ys i (z ∷ zs) h =
      ap (λ l. splice l (suc i) zs) (set-append_front xs ys i z (omega arith))
      ∙ splice-append_front (set xs i z) ys (suc i) zs (omega (arith, length-set xs i z))

  -- A slice that begins in the second of two joined lists.
  pub splice-append_back :
      (xs ys : List A) (i : ℕ) (zs : List A)
      → splice (xs ++ ys) (length xs + i) zs ≡ xs ++ splice ys i zs
  splice-append_back xs ys i [] = refl
  splice-append_back xs ys i (z ∷ zs) =
      ap (λ l. splice l (suc (length xs + i)) zs) (set-append_back xs ys i z)
      ∙ ap (λ n. splice (xs ++ set ys i z) n zs) (omega arith)
      ∙ splice-append_back xs (set ys i z) (suc i) zs

  take-set : (n : ℕ) (xs : List A) (i : ℕ) (v : A) → take n (set xs i v) ≡ set (take n xs) i v
  take-set zero xs i v = refl
  take-set (suc n) [] i v = refl
  take-set (suc n) (x ∷ xs) zero v = refl
  take-set (suc n) (x ∷ xs) (suc i) v = ap (◌∷◌ x) (take-set n xs i v)

  -- A prefix of a written list is the prefix, written.
  pub take-splice_prefix :
      (n : ℕ) (xs : List A) (i : ℕ) (ys : List A)
      → take n (splice xs i ys) ≡ splice (take n xs) i ys
  take-splice_prefix n xs i [] = refl
  take-splice_prefix n xs i (y ∷ ys) =
      take-splice_prefix n (set xs i y) (suc i) ys
      ∙ ap (λ l. splice l (suc i) ys) (take-set n xs i y)

  -- A list written over from its start to its end.
  pub splice_over : (xs ys : List A) → length xs ≡ length ys → splice xs 0 ys ≡ ys
  splice_over xs ys same =
      sym (take_all (splice xs 0 ys) (0 + length ys) (omega (arith, length-splice xs 0 ys)))
      ∙ take-splice xs 0 ys (omega arith)
