-- ===== src/Seq/Buffer.antt =====
-- `SequenceBuffer<T, N>` of hex-net-core/src/seq.rs: a ring of `n` slots keyed by sequence.
use native.Mathlib.Decide.{ℕ_discrete}
use hex_net.Common.{
  ℕ, ◌+◌, ◌-◌, ◌%◌, ◌^◌, ◌<◌, ◌≡◌, ◌≢◌, ◌⊎◌, inl, inr, refl, sym, ◌∙◌, ap, bit_and, Option, none,
  some, List, arith, ◌==◌, if◌then◌else◌, get_or, set, replicate, length, get_or-set_self,
  get_or-set_ne,
}
use hex_net.Common.Modular.{mod_distinct, mask-mod, mask-lt}
use hex_net.Seq.{Sequence}

pub record Entry {ℓ} (A : Type ℓ) : Type ℓ where
  pub seq : Sequence
  pub item : A

pub record SequenceBuffer {ℓ} (A : Type ℓ) : Type ℓ where
  pub slots : List (Option (Entry A))

-- `seq & (N - 1)`.
unfoldable pub slot : ℕ → Sequence → ℕ
slot n seq = bit_and seq (n - 1)

module _ {ℓ} {A : Type ℓ} where
  -- The item of a slot's entry, if the entry is the one asked for.
  abbrev pub item_for : Sequence → Option (Entry A) → Option A
  item_for seq none = none
  item_for seq (some e) = if e.seq == seq then some e.item else none

  abbrev pub evicted : Option (Entry A) → Option (Sequence × A)
  evicted none = none
  evicted (some e) = some (e.seq, e.item)

  abbrev taken : List (Option (Entry A)) → ℕ → Option A → SequenceBuffer A × Option A
  taken slots i none = (record { slots = slots }, none)
  taken slots i (some x) = (record { slots = set slots i none }, some x)

-- Writes in range; `N` is a power of two, so the mask is below the slot count.
module _ {ℓ} {A : Type ℓ} (n : ℕ) where
  unfoldable pub new_buffer : SequenceBuffer A
  new_buffer = record { slots = replicate n none }

  unfoldable pub insert : SequenceBuffer A → Sequence → A → SequenceBuffer A × Option (Sequence × A)
  insert b seq item = (
    record { slots = set b.slots (slot n seq) (some (record { seq = seq; item = item })) },
    evicted (get_or b.slots (slot n seq) none),
  )

  unfoldable pub get : SequenceBuffer A → Sequence → Option A
  get b seq = item_for seq (get_or b.slots (slot n seq) none)

  unfoldable pub remove : SequenceBuffer A → Sequence → SequenceBuffer A × Option A
  remove b seq = taken b.slots (slot n seq) (item_for seq (get_or b.slots (slot n seq) none))

-- The slot of a sequence is its remainder.
pub slot-mod : (n k : ℕ) (seq : Sequence) → n ≡ 2 ^ k → slot n seq ≡ seq % n
unfolding slot
slot-mod n k seq e = mask-mod n k seq e

pub slot-lt : (n k : ℕ) (seq : Sequence) → n ≡ 2 ^ k → slot n seq < n
unfolding slot
slot-lt n k seq e = mask-lt n k seq e

-- Distinct sequences fewer than `N` apart take distinct slots, so `N` consecutive ones all fit.
pub slot_distinct : (n k : ℕ) (a b : Sequence) → n ≡ 2 ^ k → a < b → b < a + n → slot n a ≢ slot n b
slot_distinct n k a b e lt near same =
    mod_distinct n a b lt near (sym (slot-mod n k a e) ∙ same ∙ slot-mod n k b e)

occupant {ℓ} :
    {A : Type ℓ} (t : Sequence) (o : Option (Entry A)) (y : A)
    → item_for t o ≡ some y
    → evicted o ≡ some (t, y)
occupant t none y found = cc
occupant t (some e) y found = ground arith

other_item {ℓ} :
    {A : Type ℓ} (s t : Sequence) (o : Option (Entry A)) (x : A)
    → item_for s o ≡ some x
    → t ≢ s
    → item_for t o ≡ none
other_item s t none x found ne = refl
other_item s t (some e) x found ne = ground arith

-- What `remove` leaves, by whether the lookup found an item.
after_taken {ℓ} :
    {A : Type ℓ} (slots : List (Option (Entry A))) (i j : ℕ) (s t : Sequence) (found : Option A)
    → i < length slots
    → (t ≡ s → j ≡ i)
    → item_for s (get_or slots i none) ≡ found
    → ((taken slots i found).1 ≡ found)
      × (item_for t (get_or (taken slots i found).0.slots j none)
          ≡ (if t == s then none else item_for t (get_or slots j none)))
after_taken slots i j s t none lt cong e = (
  refl,
  elim (ℕ_discrete t s) [
    | yes same ↦ rw (cong same, same) (ground (arith, e))
    | no ne ↦ ground arith
  ],
)
after_taken slots i j s t (some x) lt cong e = (
  refl,
  elim (ℕ_discrete i j) [
    | yes same ↦ elim (ℕ_discrete t s) [
      | yes p ↦ rw (← same, get_or-set_self slots i none none lt) (ground arith)
      | no ne ↦
          rw (← same, get_or-set_self slots i none none lt)
            (ground (arith, other_item s t (get_or slots i none) x e ne))
    ]
    | no other ↦
        rw (get_or-set_ne slots i j none none other)
          (ground (arith, λ (p : t ≡ s). other (sym (cong p))))
  ],
)

module _ {ℓ} {A : Type ℓ} (n k : ℕ) (b : SequenceBuffer A) (s : Sequence) where
  -- In a buffer of 2^k slots, a lookup after an insertion finds the new item under its own
  -- sequence, nothing under another sequence of the same slot, and what it found before under a
  -- sequence of another slot.
  get-insert :
      (x : A) (t : Sequence)
      → n ≡ 2 ^ k
      → length b.slots ≡ n
      → get n (insert n b s x).0 t
        ≡ (if t == s then some x else (if slot n t == slot n s then none else get n b t))
  unfolding get insert
  get-insert x t e len =
      let entry : Option (Entry A) = some (record { seq = s; item = x }) in
      let i = slot n s in
      let j = slot n t in
      elim (ℕ_discrete i j) [
        | yes same ↦
            rw (← same, get_or-set_self b.slots i entry none (omega (arith, slot-lt n k s e)))
              (ground arith)
        | no other ↦ rw (get_or-set_ne b.slots i j entry none other) (ground arith)
      ]

  -- In a buffer of 2^k slots an insertion loses no item: what a lookup found before it is found
  -- after it, or is handed back as evicted, under its own sequence.
  insert_keeps :
      (x y : A) (t : Sequence)
      → n ≡ 2 ^ k
      → length b.slots ≡ n
      → get n b t ≡ some y
      → (get n (insert n b s x).0 t ≡ some y) ⊎ ((insert n b s x).1 ≡ some (t, y))
  unfolding get insert
  insert_keeps x y t e len found =
      let entry : Option (Entry A) = some (record { seq = s; item = x }) in
      let i = slot n s in
      let j = slot n t in
      elim (ℕ_discrete i j) [
        | yes same ↦ inr (rw same (occupant t (get_or b.slots j none) y found))
        | no other ↦ inl (rw (get_or-set_ne b.slots i j entry none other) found)
      ]

  -- In a buffer of 2^k slots a removal returns what the lookup found, and only that sequence's
  -- item is gone after it.
  get-remove :
      (t : Sequence)
      → n ≡ 2 ^ k
      → length b.slots ≡ n
      → ((remove n b s).1 ≡ get n b s)
        × (get n (remove n b s).0 t ≡ (if t == s then none else get n b t))
  unfolding get remove
  get-remove t e len =
      after_taken b.slots (slot n s) (slot n t) s t (item_for s (get_or b.slots (slot n s) none))
        (omega (arith, slot-lt n k s e)) (ap (slot n)) refl
