-- ===== src/Arena/New.antt =====
-- `Arena::new` of hex-net-core/src/arena.rs.
use hex_net.Common.{
  ℕ, zero, suc, ◌+◌, ◌≤◌, ◌<◌, ◌≡◌, refl, ap, sym, ◌∙◌, List, [], ◌∷◌, some, length, arith,
  get_elem?, replicate, length-replicate, ltb, true, false, ◌==◌, if◌then◌else◌,
}
use native.Mathlib.Decide.{ℕ_discrete}
use hex_net.Arena.{no_block, links, new}
use hex_net.Arena.Valid.{Chain, copies, IsValid}

-- The numbers from one on.
abbrev pub count_up : ℕ → ℕ → List ℕ
count_up i zero = []
count_up i (suc k) = i ∷ count_up (i + 1) k

length-count_up : (i k : ℕ) → length (count_up i k) ≡ k
length-count_up i zero = refl
length-count_up i (suc k) = ap suc (length-count_up (i + 1) k)

copies-count_up :
    (j i k : ℕ) → (copies j (count_up i k) ≤ 1) × (j < i → copies j (count_up i k) ≡ 0)
copies-count_up j i zero = (omega arith, λ less. refl)
copies-count_up j i (suc k) =
    let (once, below) = copies-count_up j (i + 1) k in
    elim (ℕ_discrete j i) [
      | yes e ↦ let none_more = below (omega arith) in (ground arith, λ less. absurd (omega arith))
      | no ne ↦
          let zero_here : (j == i) ≡ false = ground arith in
          (rw zero_here (omega arith), λ less. rw zero_here (omega (arith, below (omega arith))))
    ]

length-links : (n i k : ℕ) → length (links n i k) ≡ k
unfolding links
length-links n i zero = refl
length-links n i (suc k) = ap suc (length-links n (i + 1) k)

get-links :
    (n i k j : ℕ)
    → j < k
    → get_elem? (links n i k) j ≡ some (if ltb (i + j + 1) n then i + j + 1 else no_block)
unfolding links
get-links n i zero j lt = absurd (omega arith)
get-links n i (suc k) zero lt = (let e : i + 0 + 1 ≡ i + 1 = omega arith in rw e refl)
get-links n i (suc k) (suc j) lt =
    get-links n (i + 1) k j (omega arith)
    ∙ (let e : i + 1 + j + 1 ≡ i + suc j + 1 = omega arith in rw e refl)

Chain-from : (n i k : ℕ) → i + suc k ≡ n → Chain (links n 0 n) i (count_up i (suc k))
unfolding Chain
Chain-from n i zero last =
    let over : ltb (0 + i + 1) n ≡ false = ground arith in
    (refl, no_block, get-links n 0 n i (omega arith) ∙ rw over refl, refl)
Chain-from n i (suc k) more =
    let on : ltb (0 + i + 1) n ≡ true = ground arith in
    (
      refl,
      i + 1,
      get-links n 0 n i (omega arith)
          ∙ (let e : 0 + i + 1 ≡ i + 1 = omega arith in rw (on, e) refl),
      Chain-from n (i + 1) k (omega arith),
    )

get-replicate : (n i : ℕ) (b c : List ℕ) → get_elem? (replicate n b) i ≡ some c → c ≡ b
get-replicate zero i b c at = absurd cc
get-replicate (suc n) zero b c at = ground arith
get-replicate (suc n) (suc i) b c at = get-replicate n i b c at

-- A new arena is valid: all of its blocks are free.
pub new-IsValid : (n : ℕ) → 0 < n → n < no_block → IsValid (new n) (count_up 0 n) []
unfolding new
new-IsValid zero some_block small = absurd (omega arith)
new-IsValid (suc n) some_block small = record {
  small = omega (arith, length-links (suc n) 0 (suc n));
  same_len = length-replicate (suc n) (replicate 64 0) ∙ sym (length-links (suc n) 0 (suc n));
  sized = λ i b at.
      ap length (get-replicate (suc n) i (replicate 64 0) b at) ∙ length-replicate {A = ℕ} 64 0;
  chain = Chain-from (suc n) 0 n (omega arith);
  counted = length-count_up 0 (suc n);
  all = omega (arith, length-count_up 0 (suc n), length-links (suc n) 0 (suc n));
  once = λ i. (let (once, below) = copies-count_up i 0 (suc n) in omega arith);
  stored = λ k m at. absurd cc;
}
