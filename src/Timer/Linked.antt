-- ===== src/Timer/Linked.antt =====
-- The entries and the position table of hex-net-core/src/timer.rs agree.
use hex_net.Common.{
  ℕ, zero, suc, ◌+◌, ◌≤◌, ◌<◌, ◌≡◌, ◌≢◌, ◌⊎◌, inl, inr, refl, ap, sym, subst, ◌∙◌, Option, none,
  some, List, [], ◌∷◌, length, get_or, set, arith, ◌==◌, if◌then◌else◌, true, false,
  get_elem?-eq-get_or,
}
use hex_net.Timer.{Entry, TimerHeap, absent, deadline}
use native.Mathlib.Decide.{ℕ_discrete}

abbrev pub no_entry : Entry
no_entry = record { at = 0; slot = 0 }

abbrev pub entry_at : TimerHeap → ℕ → Entry
entry_at t i = get_or t.entries i no_entry

abbrev pub place_of : TimerHeap → ℕ → ℕ
place_of t slot = get_or t.positions slot 0

abbrev pub one : ℕ → ℕ
one position = if position == absent then 0 else 1

pub one_le : (p : ℕ) → one p ≤ 1
one_le p = ground arith

-- How many slots have a place.
abbrev pub present : List ℕ → ℕ
present [] = 0
present (p ∷ positions) = one p + present positions

-- The deadline that the tables give a slot.
unfoldable pub due : TimerHeap → ℕ → Option ℕ
due t slot = if place_of t slot == absent then none else some (entry_at t (place_of t slot)).at

pub record IsLinked (t : TimerHeap) : Type 0 where
  pub room : t.len ≤ length t.entries
  pub same_len : length t.entries ≡ length t.positions
  pub small : length t.positions < absent
  pub count : present t.positions ≡ t.len
  pub forth :
      (i : ℕ)
      → i < t.len
      → ((entry_at t i).slot < length t.positions) × (place_of t (entry_at t i).slot ≡ i)
  pub back :
      (slot : ℕ)
      → slot < length t.positions
      → (place_of t slot ≡ absent)
        ⊎ ((place_of t slot < t.len) × ((entry_at t (place_of t slot)).slot ≡ slot))

pub present-set :
    (positions : List ℕ) (slot p : ℕ)
    → slot < length positions
    → present (set positions slot p) + one (get_or positions slot 0) ≡ present positions + one p
present-set [] slot p lt = absurd (omega arith)
present-set (q ∷ positions) zero p lt = omega arith
present-set (q ∷ positions) (suc slot) p lt =
    omega (arith, present-set positions slot p (omega arith))

pub deadline-due :
    (t : TimerHeap) (slot : ℕ)
    → IsLinked t
    → slot < length t.positions
    → deadline t slot ≡ some (due t slot)
unfolding deadline due
deadline-due t slot linked lt =
    let here = get_elem?-eq-get_or t.positions slot 0 lt in
    elim (linked.back slot lt) [
      | inl nowhere ↦
          let gone : (place_of t slot == absent) ≡ true = ground arith in rw (here, gone) refl
      | inr (inside, same) ↦
          let there : (place_of t slot == absent) ≡ false =
            ground (arith, linked.room, linked.small, linked.same_len) in
          rw
            (
              here,
              there,
              get_elem?-eq-get_or t.entries (place_of t slot) no_entry (omega (arith, linked.room)),
            )
            refl
    ]

module _ (t : TimerHeap) (slot : ℕ) where
  pub due_there : (i : ℕ) → place_of t slot ≡ i → i ≢ absent → due t slot ≡ some (entry_at t i).at
  unfolding due
  due_there i here real =
      let there : (place_of t slot == absent) ≡ false = ground arith in
      rw there (ap (λ k. some (entry_at t k).at) here)

  pub due_nowhere : place_of t slot ≡ absent → due t slot ≡ none
  unfolding due
  due_nowhere e = let gone : (place_of t slot == absent) ≡ true = ground arith in rw gone refl

  -- A slot that has its place and its entry still has its deadline.
  pub due_kept :
      (t' : TimerHeap)
      → IsLinked t
      → slot < length t.positions
      → place_of t' slot ≡ place_of t slot
      → (place_of t slot < t.len
          → (entry_at t (place_of t slot)).slot ≡ slot
          → entry_at t' (place_of t slot) ≡ entry_at t (place_of t slot))
      → due t' slot ≡ due t slot
  unfolding due
  due_kept t' linked lt same entry = elim (linked.back slot lt) [
    | inl nowhere ↦
        let gone : (place_of t slot == absent) ≡ true = ground arith in rw (same, gone) refl
    | inr (inside, there) ↦ rw same (
        ap (λ (x : Entry). if place_of t slot == absent then none else some x.at)
          (entry inside there))
  ]

-- The entries at two positions changed places, and the table follows.
pub record IsSwapped (t t' : TimerHeap) (i j : ℕ) : Type 0 where
  pub len : t'.len ≡ t.len
  pub entries_len : length t'.entries ≡ length t.entries
  pub positions_len : length t'.positions ≡ length t.positions
  pub count : present t'.positions ≡ present t.positions
  pub at_i : entry_at t' i ≡ entry_at t j
  pub at_j : entry_at t' j ≡ entry_at t i
  pub other : (k : ℕ) → k ≢ i → k ≢ j → entry_at t' k ≡ entry_at t k
  pub of_i : place_of t' (entry_at t i).slot ≡ j
  pub of_j : place_of t' (entry_at t j).slot ≡ i
  pub of_other :
      (slot : ℕ)
      → slot ≢ (entry_at t i).slot
      → slot ≢ (entry_at t j).slot
      → place_of t' slot ≡ place_of t slot

module _ (t t' : TimerHeap) (i j : ℕ) (linked : IsLinked t) (swapped : IsSwapped t t' i j)
    (i_lt : i < t.len) (j_lt : j < t.len) where
  swapped_forth :
      (k : ℕ)
      → k < t.len
      → ((entry_at t' k).slot < length t.positions) × (place_of t' (entry_at t' k).slot ≡ k)
  swapped_forth k lt = elim (ℕ_discrete k i) [
    | yes e ↦
        let here : entry_at t' k ≡ entry_at t j = ap (entry_at t') e ∙ swapped.at_i in
        subst (λ (x : Entry). (x.slot < length t.positions) × (place_of t' x.slot ≡ k)) (sym here)
          ((linked.forth j j_lt).0, swapped.of_j ∙ sym e)
    | no ne ↦ elim (ℕ_discrete k j) [
      | yes e ↦
          let here : entry_at t' k ≡ entry_at t i = ap (entry_at t') e ∙ swapped.at_j in
          subst (λ (x : Entry). (x.slot < length t.positions) × (place_of t' x.slot ≡ k)) (sym here)
            ((linked.forth i i_lt).0, swapped.of_i ∙ sym e)
      | no ne' ↦
          let (inside, back) = linked.forth k lt in
          subst (λ (x : Entry). (x.slot < length t.positions) × (place_of t' x.slot ≡ k))
            (sym (swapped.other k ne ne'))
            (
              inside,
              swapped.of_other (entry_at t k).slot
                    (λ e. ne (sym back ∙ ap (place_of t) e ∙ (linked.forth i i_lt).1))
                    (λ e. ne' (sym back ∙ ap (place_of t) e ∙ (linked.forth j j_lt).1))
                  ∙ back,
            )
    ]
  ]

  -- Where a slot is now, and what it has there.
  swapped_back :
      (slot : ℕ)
      → slot < length t.positions
      → ((place_of t' slot ≡ absent) × (place_of t slot ≡ absent))
        ⊎ ((place_of t' slot < t.len)
            × (place_of t slot < t.len)
            × ((entry_at t' (place_of t' slot)) ≡ entry_at t (place_of t slot))
            × ((entry_at t (place_of t slot)).slot ≡ slot))
  swapped_back slot lt = elim (ℕ_discrete slot (entry_at t i).slot) [
    | yes e ↦
        let now : place_of t' slot ≡ j = ap (place_of t') e ∙ swapped.of_i in
        let was : place_of t slot ≡ i = ap (place_of t) e ∙ (linked.forth i i_lt).1 in
        inr (
          omega arith,
          omega arith,
          ap (entry_at t') now ∙ swapped.at_j ∙ sym (ap (entry_at t) was),
          ap (λ p. (entry_at t p).slot) was ∙ sym e,
        )
    | no ne ↦ elim (ℕ_discrete slot (entry_at t j).slot) [
      | yes e ↦
          let now : place_of t' slot ≡ i = ap (place_of t') e ∙ swapped.of_j in
          let was : place_of t slot ≡ j = ap (place_of t) e ∙ (linked.forth j j_lt).1 in
          inr (
            omega arith,
            omega arith,
            ap (entry_at t') now ∙ swapped.at_i ∙ sym (ap (entry_at t) was),
            ap (λ p. (entry_at t p).slot) was ∙ sym e,
          )
      | no ne' ↦
          let same = swapped.of_other slot ne ne' in
          elim (linked.back slot lt) [
            | inl nowhere ↦ inl (same ∙ nowhere, nowhere)
            | inr (inside, there) ↦ inr (
              omega (arith, same),
              inside,
              ap (entry_at t') same
                  ∙ swapped.other (place_of t slot)
                      (λ e. ne (sym there ∙ ap (λ p. (entry_at t p).slot) e))
                      (λ e. ne' (sym there ∙ ap (λ p. (entry_at t p).slot) e)),
              there,
            )
          ]
    ]
  ]

  pub swapped-IsLinked : IsLinked t'
  swapped-IsLinked = record {
    room = omega (arith, linked.room, swapped.len, swapped.entries_len);
    same_len = omega (arith, linked.same_len, swapped.entries_len, swapped.positions_len);
    small = omega (arith, linked.small, swapped.positions_len);
    count = omega (arith, linked.count, swapped.count, swapped.len);
    forth = λ k lt.
        (let (inside, back) = swapped_forth k (omega (arith, swapped.len)) in
          (omega (arith, swapped.positions_len), back));
    back = λ slot lt. elim (swapped_back slot (omega (arith, swapped.positions_len))) [
      | inl (nowhere, was) ↦ inl nowhere
      | inr (now, was, same, there) ↦
          inr (omega (arith, swapped.len), ap (λ (x : Entry). x.slot) same ∙ there)
    ];
  }

  -- Every slot keeps its deadline.
  pub swapped-due : (slot : ℕ) → slot < length t.positions → due t' slot ≡ due t slot
  unfolding due
  swapped-due slot lt = elim (swapped_back slot lt) [
    | inl (nowhere, was) ↦
        let now_gone : (place_of t' slot == absent) ≡ true = ground arith in
        let was_gone : (place_of t slot == absent) ≡ true = ground arith in
        rw (now_gone, was_gone) refl
    | inr (now, was, same, there) ↦
        let now_there : (place_of t' slot == absent) ≡ false =
          ground (arith, linked.room, linked.small, linked.same_len) in
        let was_there : (place_of t slot == absent) ≡ false =
          ground (arith, linked.room, linked.small, linked.same_len) in
        rw (now_there, was_there) (ap (λ (x : Entry). some x.at) same)
  ]
