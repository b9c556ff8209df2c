-- ===== src/Bits/Written.antt =====
-- The number that a byte buffer stands for, and its parts: what bits.rs is specified against.
use hex_net.Common.{
  ℕ, zero, suc, ◌+◌, ◌-◌, ◌*◌, ◌/◌, ◌%◌, ◌^◌, ◌≤◌, ◌<◌, ◌≡◌, refl, ap, sym, ◌∙◌, List, [], ◌∷◌,
  ◌++◌, arith, length, set, take, drop, length-take,
}
use hex_net.Common.Slices.{splice, take-splice}
use hex_net.Wire.Bytes.{to_le, from_le}
use native.Mathlib.Nat.{
  pow-suc, one-le-pow, add-mul-mod_self_right, add-mul-div_right, mod-eq_of_lt, div-eq_of_lt,
  mul-le-mul_left, mul-le-mul_right, mod-lt,
}

pub pow_add : (a b : ℕ) → 2 ^ (a + b) ≡ 2 ^ a * 2 ^ b
pow_add zero b = let e : zero + b ≡ b = omega arith in rw e (omega arith)
pow_add (suc a) b =
    let e : suc a + b ≡ suc (a + b) = omega arith in
    rw e (omega (arith, pow-suc 2 (a + b), ap (λ t. t * 2 ^ b) (pow-suc 2 a), pow_add a b))

-- The weight of the byte at an index.
unfoldable pub weight : ℕ → ℕ
weight n = 2 ^ (8 * n)

pub weight-suc : (n : ℕ) → weight (suc n) ≡ 256 * weight n
unfolding weight
weight-suc n = let e : 8 * suc n ≡ 8 + 8 * n = omega arith in rw e (pow_add 8 (8 * n))

pub from_le-append :
    (xs ys : List ℕ) → from_le (xs ++ ys) ≡ from_le xs + weight (length xs) * from_le ys
unfolding weight
from_le-append [] ys = omega arith
from_le-append (x ∷ xs) ys = omega (
  arith,
  from_le-append xs ys,
  weight-suc (length xs),
  ap (λ t. t * from_le ys) (weight-suc (length xs)),
)

pub take-drop : {A : Type 0} (n : ℕ) (xs : List A) → take n xs ++ drop n xs ≡ xs
take-drop zero xs = refl
take-drop (suc n) [] = refl
take-drop (suc n) (x ∷ xs) = ap (◌∷◌ x) (take-drop n xs)

drop_nothing : {A : Type 0} (n : ℕ) → drop {A = A} n [] ≡ []
drop_nothing zero = refl
drop_nothing (suc n) = refl

pub drop-drop : {A : Type 0} (at n : ℕ) (xs : List A) → drop n (drop at xs) ≡ drop (at + n) xs
drop-drop zero n xs = ap (λ k. drop k xs) (omega arith)
drop-drop (suc at) n [] = drop_nothing n ∙ sym (drop_nothing (suc at + n))
drop-drop (suc at) n (x ∷ xs) =
    let e : suc at + n ≡ suc (at + n) = omega arith in rw e (drop-drop at n xs)

-- A buffer of bytes.
abbrev pub AreBytes : List ℕ → Type 0
AreBytes [] = Unit {0}
AreBytes (b ∷ bs) = (b < 256) × AreBytes bs

pub from_le-lt : (xs : List ℕ) → AreBytes xs → from_le xs < weight (length xs)
unfolding weight
from_le-lt [] b = omega arith
from_le-lt (x ∷ xs) (h, b) = omega (arith, weight-suc (length xs), from_le-lt xs b)

pub AreBytes-take : (n : ℕ) (xs : List ℕ) → AreBytes xs → AreBytes (take n xs)
AreBytes-take zero xs b = tt
AreBytes-take (suc n) [] b = tt
AreBytes-take (suc n) (x ∷ xs) (h, b) = (h, AreBytes-take n xs b)

pub AreBytes-drop : (n : ℕ) (xs : List ℕ) → AreBytes xs → AreBytes (drop n xs)
AreBytes-drop zero xs b = b
AreBytes-drop (suc n) [] b = tt
AreBytes-drop (suc n) (x ∷ xs) (h, b) = AreBytes-drop n xs b

AreBytes-set : (xs : List ℕ) (i v : ℕ) → AreBytes xs → v < 256 → AreBytes (set xs i v)
AreBytes-set [] i v b h = tt
AreBytes-set (x ∷ xs) zero v (hx, b) h = (h, b)
AreBytes-set (x ∷ xs) (suc i) v (hx, b) h = (hx, AreBytes-set xs i v b h)

pub AreBytes-splice :
    (xs : List ℕ) (i : ℕ) (ys : List ℕ) → AreBytes xs → AreBytes ys → AreBytes (splice xs i ys)
AreBytes-splice xs i [] b c = b
AreBytes-splice xs i (y ∷ ys) b (h, c) =
    AreBytes-splice (set xs i y) (suc i) ys (AreBytes-set xs i y b h) c

pub AreBytes-to_le : (k v : ℕ) → AreBytes (to_le k v)
AreBytes-to_le zero v = tt
AreBytes-to_le (suc k) v = (omega arith, AreBytes-to_le k (v / 256))

-- Digits base `2 ^ p`.
pub low_part : (p a b : ℕ) → a < 2 ^ p → (a + b * 2 ^ p) % 2 ^ p ≡ a
low_part p a b h = add-mul-mod_self_right a b (2 ^ p) ∙ mod-eq_of_lt h

pub high_part : (p a b : ℕ) → a < 2 ^ p → (a + b * 2 ^ p) / 2 ^ p ≡ b
high_part p a b h =
    add-mul-div_right a b {z = 2 ^ p} (omega arith)
    ∙ ap (λ t. t + b) (div-eq_of_lt h)
    ∙ (omega arith)

-- A digit above a number of `p` bits.
pub above_lt : (p q a b : ℕ) → a < 2 ^ p → b < 2 ^ q → a + b * 2 ^ p < 2 ^ (p + q)
above_lt p q a b ha hb =
    omega
      (arith, pow_add p q, mul-le-mul_right (2 ^ p) (let le : suc b ≤ 2 ^ q = omega arith in le))

pub pow_le : (a b : ℕ) → a ≤ b → 2 ^ a ≤ 2 ^ b
pow_le a b h =
    let e : a + (b - a) ≡ b = omega arith in
    omega (
      arith,
      ap (λ t. 2 ^ t) e,
      pow_add a (b - a),
      mul-le-mul_left (2 ^ a) (one-le-pow (b - a) 2 (omega arith)),
    )

pub mod_lt_pow : (n p : ℕ) → n % 2 ^ p < 2 ^ p
mod_lt_pow n p = mod-lt n {m = 2 ^ p} (one-le-pow p 2 (omega arith))

-- A buffer cut at an index.
pub from_le-take-drop :
    (n : ℕ) (xs : List ℕ)
    → n ≤ length xs
    → from_le xs ≡ from_le (take n xs) + weight n * from_le (drop n xs)
from_le-take-drop n xs h =
    ap from_le (sym (take-drop n xs))
    ∙ from_le-append (take n xs) (drop n xs)
    ∙ ap (λ m. from_le (take n xs) + weight m * from_le (drop n xs))
        (omega (arith, length-take n xs))

-- A prefix as it grows by what is written behind it.
pub from_le-written :
    (buf : List ℕ) (at : ℕ) (bytes : List ℕ)
    → at + length bytes ≤ length buf
    → from_le (take (at + length bytes) (splice buf at bytes))
      ≡ from_le (take at buf) + weight at * from_le bytes
from_le-written buf at bytes h =
    ap from_le (take-splice buf at bytes h)
    ∙ from_le-append (take at buf) bytes
    ∙ ap (λ m. from_le (take at buf) + weight m * from_le bytes) (omega (arith, length-take at buf))

-- What stands at bit `q` and above does not weigh on the bits below `p`.
pub mod_high : (p q a b : ℕ) → p ≤ q → (a + b * 2 ^ q) % 2 ^ p ≡ a % 2 ^ p
mod_high p q a b le =
    let e : q ≡ q - p + p = omega arith in
    let shift : b * 2 ^ q ≡ b * 2 ^ (q - p) * 2 ^ p =
      ap (λ t. b * 2 ^ t) e ∙ omega (arith, ap (λ t. b * t) (pow_add (q - p) p)) in
    ap (λ t. (a + t) % 2 ^ p) shift ∙ add-mul-mod_self_right a (b * 2 ^ (q - p)) (2 ^ p)
