-- ===== src/Seq/Window.antt =====
-- The receive window of hex-net-core/src/seq.rs against the history of what was inserted.
use hex_net.Common.{
  ℕ, suc, ◌+◌, ◌-◌, ◌*◌, ◌/◌, ◌%◌, ◌^◌, ◌≤◌, ◌<◌, ◌≡◌, refl, sym, ◌∙◌, ap, subst, max, bit_or, Bool,
  true, false, ◌&&◌, Option, none, some, List, [], ◌∷◌, arith, ltb, leb, ◌==◌, if◌then◌else◌, ok,
  err, Bool-cases, inl, inr,
}
use hex_net.Common.Bits.{
  bit, bit-zero, bit-lt, bit-bit_or, bit-pow_self, bit-pow_ne, bit-shl, bit-shl_below, bit-trunc,
  bit-shr,
}
use native.Mathlib.Decide.{dec_lt}
use hex_net.Common.Masks.{bit_and-pow_test}
use hex_net.Seq.{
  Sequence, ReceiveWindow, Check, duplicate, too_old, empty, check, insert, ack_bits, shl64,
}

-- The inserted sequences, latest insertion first.
abbrev pub History : Type 0
History = List Sequence

unfoldable pub contains : Sequence → History → Bool
contains s [] = false
contains s (x ∷ h) = if s == x then true else contains s h

unfoldable pub newest_of : History → Option Sequence
newest_of [] = none
newest_of (s ∷ h) = elim (newest_of h) [ none ↦ some s | some n ↦ some (max n s) ]

unfoldable pub after : History → ReceiveWindow
after [] = empty
after (s ∷ h) = insert (after h) s

-- Bit `i` of a mask whose newest sequence is `n`.
abbrev flag : Sequence → ℕ → History → ℕ
flag n i h = if leb i n && contains (n - i) h then 1 else 0

-- The window shows the history.
abbrev Shows : Option Sequence → ℕ → History → Type 0
Shows none mask h = (h ≡ []) × (mask ≡ 0)
Shows (some n) mask h =
    (newest_of h ≡ some n)
    × ((s : Sequence) → contains s h ≡ true → s ≤ n)
    × ((i : ℕ) → i < 64 → bit i mask ≡ flag n i h)

-- What `check` answers, said of the history alone.
unfoldable pub verdict : Option Sequence → History → Sequence → Check
verdict none h s = ok tt
verdict (some n) h s =
    if ltb n s
    then ok tt
    else (if leb (s + 64) n then err too_old else (if contains s h then err duplicate else ok tt))

one_bits : (i : ℕ) → bit i 1 ≡ (if i == 0 then 1 else 0)
one_bits i = ground (arith, bit-pow_self 0, bit-pow_ne i 0)

single : (s : Sequence) → Shows (some s) 1 (s ∷ [])
unfolding newest_of contains
single s = (refl, (λ t h. ground arith), λ i lt. ground (arith, one_bits i))

mark_bit : (i d m : ℕ) → bit i (bit_or m (2 ^ d)) ≡ (if i == d then 1 else bit i m)
mark_bit i d m = ground (arith, bit-bit_or i m (2 ^ d), bit-pow_self d, bit-pow_ne i d, bit-lt i m)

shift_bit : (i k m : ℕ) → i < 64 → bit i (shl64 m k) ≡ (if ltb i k then 0 else bit (i - k) m)
shift_bit i k m lt = elim (dec_lt i k) [
  | yes p ↦ ground (arith, bit-trunc i 64 (m * 2 ^ k) lt, bit-shl_below i k m p)
  | no p ↦ ground (arith, bit-trunc i 64 (m * 2 ^ k) lt, high (omega arith))
]
  where
    high : k ≤ i → bit i (m * 2 ^ k) ≡ bit (i - k) m
    high le =
        let e : i ≡ k + (i - k) = omega arith in ap (λ j. bit j (m * 2 ^ k)) e ∙ bit-shl (i - k) k m

within :
    (n s : Sequence) (m : ℕ) (h : History)
    → s ≤ n
    → Shows (some n) m h
    → Shows (some n) (if ltb (n - s) 64 then bit_or m (2 ^ (n - s)) else m) (s ∷ h)
unfolding newest_of contains
within n s m h le (e, top, bits) = (
  ground arith,
  (λ t c. ground (arith, top t)),
  λ i lt. ground (arith, mark_bit i (n - s) m, bits i lt),
)

beyond :
    (n s : Sequence) (m : ℕ) (h : History)
    → n < s
    → Shows (some n) m h
    → Shows (some s) (bit_or (if leb 64 (s - n) then 0 else shl64 m (s - n)) 1) (s ∷ h)
unfolding newest_of contains
beyond n s m h le (e, top, bits) = (
  ground arith,
  (λ t c. ground (arith, top t)),
  λ i lt. ground (
    arith,
    bit-bit_or i (shl64 m (s - n)) 1,
    bit-bit_or i 0 1,
    bit-zero i,
    one_bits i,
    shift_bit i (s - n) m lt,
    bits (i - (s - n)),
    top (s - i),
  ),
)

step_Shows :
    (newest : Option Sequence) (mask : ℕ) (s : Sequence) (h : History)
    → Shows newest mask h
    → let w = insert (record { newest = newest; mask = mask }) s in Shows w.newest w.mask (s ∷ h)
unfolding insert
step_Shows none mask s h (e, z) = rw e (single s)
step_Shows (some n) mask s h sh = elim (Bool-cases (leb s n)) [
  | inl p ↦ rw p (within n s mask h (ground arith) sh)
  | inr p ↦ rw p (beyond n s mask h (ground arith) sh)
]

pub after-Shows : (h : History) → Shows (after h).newest (after h).mask h
unfolding after
after-Shows [] = (refl, refl)
after-Shows (s ∷ h) = step_Shows (after h).newest (after h).mask s h (after-Shows h)

verdict_of_Shows :
    (newest : Option Sequence) (mask : ℕ) (s : Sequence) (h : History)
    → Shows newest mask h
    → check (record { newest = newest; mask = mask }) s ≡ verdict (newest_of h) h s
unfolding check verdict newest_of
verdict_of_Shows none mask s h (e, z) = rw e
verdict_of_Shows (some n) mask s h (e, top, bits) =
    rw e (ground (arith, bit_and-pow_test mask (n - s), bits (n - s)))

-- After any history `check` passes a sequence newer than the newest, and one of the 64 newest
-- positions that the history lacks; one that the history holds there is a duplicate, and one 64 or
-- more behind the newest is too old.
check-after : (h : History) (s : Sequence) → check (after h) s ≡ verdict (newest_of h) h s
check-after h s = verdict_of_Shows (after h).newest (after h).mask s h (after-Shows h)

passed_verdict :
    (n s : Sequence) (h : History)
    → newest_of h ≡ some n
    → (contains s h ≡ true → s ≤ n)
    → verdict (newest_of h) h s ≡ ok tt
    → contains s h ≡ false
unfolding verdict
passed_verdict n s h e top v = let v' : verdict (some n) h s ≡ ok tt = rw e at v in ground arith

passed_of_Shows :
    (newest : Option Sequence) (mask : ℕ) (s : Sequence) (h : History)
    → Shows newest mask h
    → check (record { newest = newest; mask = mask }) s ≡ ok tt
    → contains s h ≡ false
unfolding contains
passed_of_Shows none mask s h (e, z) c = rw e
passed_of_Shows (some n) mask s h sh c =
    let v = sym (verdict_of_Shows (some n) mask s h sh) ∙ c in
    ground (arith, passed_verdict n s h sh.0 (sh.1 s) v)

-- A sequence that passes the check is not in the history.
pub not_contains_of_check :
    (h : History) (s : Sequence) → check (after h) s ≡ ok tt → contains s h ≡ false
not_contains_of_check h s = passed_of_Shows (after h).newest (after h).mask s h (after-Shows h)

newest_of-Shows :
    (newest : Option Sequence) (mask : ℕ) (h : History) → Shows newest mask h → newest ≡ newest_of h
unfolding newest_of
newest_of-Shows none mask h (e, z) = rw e
newest_of-Shows (some n) mask h (e, top, bits) = sym e

-- The window's newest sequence is the greatest of the history.
pub newest-after : (h : History) → (after h).newest ≡ newest_of h
newest-after h = newest_of-Shows (after h).newest (after h).mask h (after-Shows h)

ack_bits_of_Shows :
    (newest : Option Sequence) (mask n i : ℕ) (h : History)
    → Shows newest mask h
    → newest_of h ≡ some n
    → i < 32
    → bit i (mask / 2 % 2 ^ 32) ≡ flag n (suc i) h
unfolding newest_of
ack_bits_of_Shows none mask n i h (e, z) en lt =
    absurd (let en' : none ≡ some n = subst (λ l. newest_of l ≡ some n) e en in cc)
ack_bits_of_Shows (some m) mask n i h (e, top, bits) en lt =
    let m≡n : m ≡ n = cc in
    bit-trunc i 32 (mask / 2) lt
    ∙ bit-shr i 1 mask
    ∙ ap (λ j. bit j mask) (omega arith)
    ∙ bits (suc i) (omega arith)
    ∙ ap (λ k. flag k (suc i) h) m≡n

-- Below the newest sequence `n` of a history, acknowledgement bit `i` is 1 exactly if the
-- history holds `n - 1 - i`, for each of the 32 bits.
ack_bits-after :
    (h : History) (n i : ℕ)
    → newest_of h ≡ some n
    → i < 32
    → bit i (ack_bits (after h)) ≡ (if ltb i n && contains (n - 1 - i) h then 1 else 0)
unfolding ack_bits
ack_bits-after h n i e lt =
    ack_bits_of_Shows (after h).newest (after h).mask n i h (after-Shows h) e lt ∙ shape
  where
    shape : flag n (suc i) h ≡ (if ltb i n && contains (n - 1 - i) h then 1 else 0)
    shape = let d : n - suc i ≡ n - 1 - i = omega arith in rw d (ground arith)
