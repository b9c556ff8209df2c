-- ===== src/Fixed/Ring/Refine.antt =====
-- `RingQueue` refines a bounded list that forgets its oldest entries.
use native.Mathlib.Nat.{mod-lt, mod-eq_of_lt, suc-mod, mod-mod}
use hex_net.Common.{
  ℕ, zero, suc, ◌+◌, ◌-◌, ◌%◌, ◌^◌, ◌<◌, ◌≡◌, ◌≢◌, refl, sym, ap, ap₂, ◌∙◌, bit_and, Option, none,
  some, List, [], ◌∷◌, ◌++◌, arith, ◌==◌, if◌then◌else◌, length, get_or, set, length-set,
  get_or-set_self, get_or-set_ne, get_elem?-eq-get_or, Bool-cases, inl, inr,
}
use hex_net.Common.Modular.{mod_distinct, mask-mod, mask-lt, pow_pos}
use hex_net.Fixed.Ring.{RingQueue, IsValid, advance, make_room, store, push, pop}

-- The specification: a list, oldest first, of at most `size` entries, and how many were lost.
pub record Bounded (A : Type 0) : Type 0 where
  pub queue : List A
  pub lost : ℕ

module _ {A : Type 0} (size : ℕ) where
  abbrev pub tail : List A → List A
  tail [] = []
  tail (x ∷ xs) = xs

  unfoldable pub put : Bounded A → A → Bounded A
  put b x =
      if length b.queue == size
      then record { queue = tail b.queue ++ (x ∷ []); lost = b.lost + 1 }
      else record b { queue = b.queue ++ (x ∷ []) }

  unfoldable pub take_oldest : Bounded A → Option A × Bounded A
  take_oldest b = elim b.queue [ [] ↦ (none, b) | x ∷ xs ↦ (some x, record b { queue = xs }) ]

  -- The `k` entries from position `h` on, round the ring.
  listed : A → List A → ℕ → ℕ → List A
  listed d xs h zero = []
  listed d xs h (suc k) = get_or xs (h % size) d ∷ listed d xs (suc h) k

  length-listed : (d : A) (xs : List A) (h k : ℕ) → length (listed d xs h k) ≡ k
  unfolding listed
  length-listed d xs h zero = refl
  length-listed d xs h (suc k) = ap suc (length-listed d xs (suc h) k)

  -- Only the remainder of the position counts.
  listed_mod :
      (d : A) (xs : List A) (a b k : ℕ) → a % size ≡ b % size → listed d xs a k ≡ listed d xs b k
  unfolding listed
  listed_mod d xs a b zero e = refl
  listed_mod d xs a b (suc k) e = ap₂ ◌∷◌ (ap (λ i. get_or xs i d) e) (
      listed_mod d xs (suc a) (suc b) k
        (suc-mod a size ∙ ap (λ i. suc i % size) e ∙ sym (suc-mod b size)))

  listed-split :
      (d : A) (xs : List A) (h k : ℕ)
      → k ≢ 0
      → listed d xs h k ≡ get_or xs (h % size) d ∷ listed d xs (suc h) (k - 1)
  unfolding listed
  listed-split d xs h zero ne = absurd (ne refl)
  listed-split d xs h (suc k) ne =
      ap (λ n. get_or xs (h % size) d ∷ listed d xs (suc h) n) (omega arith)

  -- An entry written behind the last one is listed last.
  listed-set :
      (d x : A) (xs : List A) (h k i : ℕ)
      → length xs ≡ size
      → k < size
      → i ≡ (h + k) % size
      → listed d (set xs i x) h (suc k) ≡ listed d xs h k ++ (x ∷ [])
  unfolding listed
  listed-set d x xs h zero i whole lt e =
      let at : i ≡ h % size = e ∙ ap (λ j. j % size) (omega arith) in
      let low = mod-lt h {m = size} lt in
      ap (λ y. y ∷ []) (rw (← at) (get_or-set_self xs i x d (omega arith)))
  listed-set d x xs h (suc k) i whole lt e =
      ap₂ ◌∷◌
        (get_or-set_ne xs i (h % size) x d (λ same.
          mod_distinct size h (h + suc k) (omega arith) (omega arith) (sym (sym e ∙ same))))
        (listed-set d x xs (suc h) k i whole (omega arith) (e ∙ ap (λ j. j % size) (omega arith)))

  contents : A → RingQueue A → List A
  contents d q = listed d q.items q.head q.len

  -- What a queue stands for.
  pub view : A → RingQueue A → Bounded A
  view d q = record { queue = contents d q; lost = q.dropped }

  pub length-view : (d : A) (q : RingQueue A) → length (view d q).queue ≡ q.len
  unfolding view contents
  length-view d q = length-listed d q.items q.head q.len

  empty_contents : (d : A) (q : RingQueue A) → q.len ≡ 0 → contents d q ≡ []
  unfolding contents listed
  empty_contents d q e = rw e refl

  module _ (d : A) (k : ℕ) (power : size ≡ 2 ^ k) (q : RingQueue A) (ok : IsValid size q) where
    advance_lem : (advance size q.head < size) × (advance size q.head ≡ suc q.head % size)
    advance_lem = (
      mask-lt size k (q.head + 1) power,
      mask-mod size k (q.head + 1) power ∙ ap (λ j. j % size) (omega arith),
    )

    split_contents :
        q.len ≢ 0
        → contents d q
          ≡ get_or q.items q.head d ∷ listed d q.items (advance size q.head) (q.len - 1)
    unfolding contents
    split_contents ne =
        listed-split d q.items q.head q.len ne
        ∙ ap₂ ◌∷◌ (ap (λ i. get_or q.items i d) (mod-eq_of_lt ok.head_in)) (
            sym (
              listed_mod d q.items (advance size q.head) (suc q.head) (q.len - 1)
                (ap (λ j. j % size) advance_lem.1 ∙ mod-mod (suc q.head) size)))

    -- Stepping past the head leaves the tail of the contents.
    tail-contents :
        q.len ≢ 0 → listed d q.items (advance size q.head) (q.len - 1) ≡ tail (contents d q)
    tail-contents ne = ap tail (sym (split_contents ne))

    make_room-IsValid : IsValid size (make_room size q) × ((make_room size q).len < size)
    unfolding make_room
    make_room-IsValid =
        let positive = pow_pos size k power in let step = advance_lem in ground arith

    contents-make_room :
        contents d (make_room size q)
        ≡ (if length (contents d q) == size then tail (contents d q) else contents d q)
    unfolding make_room contents
    contents-make_room = elim (Bool-cases (q.len == size)) [
      | inl full ↦
          let positive = pow_pos size k power in
          let all : q.len ≡ size = ground arith in
          rw (length-listed d q.items q.head q.len, full) (tail-contents (omega arith))
      | inr room ↦ rw (length-listed d q.items q.head q.len, room) refl
    ]

    store_lem :
        (x : A)
        → q.len < size
        → IsValid size (store size q x) × (contents d (store size q x) ≡ contents d q ++ (x ∷ []))
    unfolding store contents
    store_lem x lt =
        let i = bit_and (q.head + q.len) (size - 1) in
        let whole = length-set q.items i x in
        (
          record { storage = omega arith; head_in = omega arith; len_in = omega arith },
          ap (listed d (set q.items i x) q.head) (omega arith)
              ∙ listed-set d x q.items q.head q.len i (omega arith) lt
                  (mask-mod size k (q.head + q.len) power),
        )

    dropped-make_room :
        (make_room size q).dropped
        ≡ (if length (contents d q) == size then q.dropped + 1 else q.dropped)
    unfolding make_room contents
    dropped-make_room = rw (length-listed d q.items q.head q.len) (ground arith)

    dropped-store : (x : A) → (store size q x).dropped ≡ q.dropped
    unfolding store
    dropped-store x = refl

  -- In a valid queue of 2^k slots a push refines that of the bounded list, and keeps the queue
  -- valid: at the capacity the oldest entry goes and is counted, and the item is the newest in
  -- any case.
  pub push_refines :
      (d : A) (k : ℕ) (q : RingQueue A) (x : A)
      → size ≡ 2 ^ k
      → IsValid size q
      → IsValid size (push size q x) × (view d (push size q x) ≡ put (view d q) x)
  unfolding push view put
  push_refines d k q x power ok =
      let (ready, room) = make_room-IsValid d k power q ok in
      let (valid, added) = store_lem d k power (make_room size q) ready x room in
      let before = contents-make_room d k power q ok in
      let lost = dropped-make_room d k power q ok in
      let same = dropped-store d k power (make_room size q) ready x in
      (
        valid,
        elim (Bool-cases (length (contents d q) == size)) [
          | inl full ↦ rw (added, same, before, lost, full) refl
          | inr free ↦ rw (added, same, before, lost, free) refl
        ],
      )

  -- In a valid queue of 2^k slots a pop refines that of the bounded list, and keeps the queue
  -- valid: the oldest entry comes out, or nothing from an empty queue.
  pub pop_refines :
      (d : A) (k : ℕ) (q : RingQueue A)
      → size ≡ 2 ^ k
      → IsValid size q
      → IsValid size (pop size q).1
        × ((pop size q).0 ≡ (take_oldest (view d q)).0)
        × (view d (pop size q).1 ≡ (take_oldest (view d q)).1)
  unfolding pop view take_oldest contents
  pop_refines d k q power ok = elim (Bool-cases (q.len == 0)) [
    | inl nothing ↦
        let none_left = empty_contents d q (ground arith) in
        rw (nothing, none_left) (ok, refl, refl)
    | inr more ↦
        let ne : q.len ≢ 0 = ground arith in
        let front = advance_lem d k power q ok in
        rw (more, split_contents d k power q ok ne)
          (
            record { storage = ok.storage; head_in = front.0; len_in = omega arith },
            get_elem?-eq-get_or q.items q.head d (omega arith),
            refl,
          )
  ]
