-- ===== src/Timer/Down.antt =====
-- `sift_down` of hex-net-core/src/timer.rs: an entry sinks until it precedes its children.
use hex_net.Common.{
  ℕ, zero, suc, ◌+◌, ◌*◌, ◌≤◌, ◌<◌, ◌≡◌, ◌≢◌, refl, ap, ap₂, sym, subst, ◌∙◌, some, length, arith,
  Bool-cases, inl, inr, true, false, ltb, leb, length-set, get_elem?-eq-get_or,
}
use hex_net.Timer.{Entry, TimerHeap, precedes, placed, parent, first_child, sink}
use hex_net.Timer.Linked.{IsLinked, IsSwapped, no_entry, entry_at, swapped-IsLinked}
use hex_net.Timer.Swap.{place_made, moved-IsSwapped}
use hex_net.Timer.Up.{
  precedes_not_after, not_before_itself, not_before_trans, IsOrdered, IsSifted, IsSifted-refl,
  swap-IsSifted, hole_entry, other_entry,
}
use native.Mathlib.Decide.{ℕ_discrete}

-- The order, but for the entry at a position, which its children may precede.
pub record IsSinking (t : TimerHeap) (position : ℕ) : Type 0 where
  pub ordered :
      (i : ℕ)
      → 0 < i
      → i < t.len
      → parent i ≢ position
      → precedes (entry_at t i) (entry_at t (parent i)) ≡ false
  pub below :
      (i : ℕ)
      → 0 < i
      → i < t.len
      → parent i ≡ position
      → 0 < position
      → precedes (entry_at t i) (entry_at t (parent position)) ≡ false

-- A child that no other child precedes.
pub record IsFirst (t : TimerHeap) (position child : ℕ) : Type 0 where
  pub pos : 0 < child
  pub inside : child < t.len
  pub above : parent child ≡ position
  pub first :
      (i : ℕ)
      → 0 < i
      → i < t.len
      → parent i ≡ position
      → precedes (entry_at t i) (entry_at t child) ≡ false

-- An entry that its first child precedes changes places with it.
IsSinking-step :
    (t t' : TimerHeap) (position child : ℕ)
    → IsSwapped t t' position child
    → IsSinking t position
    → IsFirst t position child
    → precedes (entry_at t child) (entry_at t position) ≡ true
    → IsSinking t' child
IsSinking-step t t' position child swapped sinking chosen before =
    let up = chosen.above in
    let down : child ≢ position = λ same. absurd (omega (arith, chosen.pos)) in
    record {
      ordered = λ i pos i_lt ne. elim (ℕ_discrete i position) [
        | yes e ↦
            ap₂ precedes (ap (entry_at t') e ∙ swapped.at_i) (
              ap (λ k. entry_at t' (parent k)) e
              ∙ swapped.other (parent position) (λ same. absurd (omega arith))
                  (λ same. absurd (omega arith)))
            ∙ sinking.below child chosen.pos chosen.inside up (omega arith)
        | no ne1 ↦ elim (ℕ_discrete i child) [
          | yes e ↦
              ap₂ precedes (ap (entry_at t') e ∙ swapped.at_j)
                (ap (λ k. entry_at t' (parent k)) e ∙ ap (entry_at t') up ∙ swapped.at_i)
              ∙ precedes_not_after (entry_at t child) (entry_at t position) before
          | no ne2 ↦ elim (ℕ_discrete (parent i) position) [
            | yes e ↦
                ap₂ precedes (swapped.other i ne1 ne2) (ap (entry_at t') e ∙ swapped.at_i)
                ∙ chosen.first i pos (omega (arith, swapped.len)) e
            | no ne3 ↦
                ap₂ precedes (swapped.other i ne1 ne2) (swapped.other (parent i) ne3 ne)
                ∙ sinking.ordered i pos (omega (arith, swapped.len)) ne3
          ]
        ]
      ];
      below = λ i pos i_lt e child_pos.
          ap₂ precedes
            (swapped.other i (λ same. absurd (omega arith)) (λ same. absurd (omega arith)))
            (ap (entry_at t') up ∙ swapped.at_i)
          ∙ ap (λ k. precedes (entry_at t i) (entry_at t k)) (sym e)
          ∙ sinking.ordered i pos (omega (arith, swapped.len)) (λ same. absurd (omega arith));
    }

first_child_lem :
    (t : TimerHeap) (position : ℕ) (e : Entry)
    → IsLinked (placed t position e)
    → 2 * position + 1 < t.len
    → (child : ℕ) × (first_child t (2 * position + 1) ≡ some child)
      × IsFirst (placed t position e) position child
unfolding first_child
first_child_lem t position e linked lt =
    let v = placed t position e in
    let left = 2 * position + 1 in
    let room : t.len ≤ length t.entries =
      omega (arith, linked.room, length-set t.entries position e) in
    let v_left = other_entry t position left e (λ same. absurd (omega arith)) in
    let v_right = other_entry t position (left + 1) e (λ same. absurd (omega arith)) in
    elim (Bool-cases (ltb (left + 1) t.len)) [
      | inr alone ↦ (
        left,
        rw alone refl,
        record {
          pos = omega arith;
          inside = lt;
          above = omega arith;
          first = λ i pos i_lt e'.
              (let same : i ≡ left = ground arith in
                ap (λ k. precedes (entry_at v k) (entry_at v left)) same
                ∙ not_before_itself (entry_at v left));
        },
      )
      | inl both ↦
          let more : left + 1 < t.len = ground arith in
          let found = get_elem?-eq-get_or t.entries left no_entry (omega arith) in
          let found' = get_elem?-eq-get_or t.entries (left + 1) no_entry (omega arith) in
          elim (Bool-cases (precedes (entry_at t (left + 1)) (entry_at t left))) [
            | inl right ↦ (
              left + 1,
              rw (both, found, found', right) refl,
              record {
                pos = omega arith;
                inside = more;
                above = omega arith;
                first = λ i pos i_lt e'. elim (ℕ_discrete i left) [
                  | yes same ↦
                      ap (λ k. precedes (entry_at v k) (entry_at v (left + 1))) same
                      ∙ ap₂ precedes v_left v_right
                      ∙ precedes_not_after (entry_at t (left + 1)) (entry_at t left) right
                  | no ne ↦
                      let same : i ≡ left + 1 = omega arith in
                      ap (λ k. precedes (entry_at v k) (entry_at v (left + 1))) same
                      ∙ not_before_itself (entry_at v (left + 1))
                ];
              },
            )
            | inr stays ↦ (
              left,
              rw (both, found, found', stays) refl,
              record {
                pos = omega arith;
                inside = lt;
                above = omega arith;
                first = λ i pos i_lt e'. elim (ℕ_discrete i left) [
                  | yes same ↦
                      ap (λ k. precedes (entry_at v k) (entry_at v left)) same
                      ∙ not_before_itself (entry_at v left)
                  | no ne ↦
                      let same : i ≡ left + 1 = omega arith in
                      ap (λ k. precedes (entry_at v k) (entry_at v left)) same
                      ∙ ap₂ precedes v_right v_left
                      ∙ stays
                ];
              },
            )
          ]
    ]

-- An entry that no child precedes is in order.
sunk-IsOrdered :
    (t : TimerHeap) (position : ℕ)
    → IsSinking t position
    → ((i : ℕ)
        → 0 < i
        → i < t.len
        → parent i ≡ position
        → precedes (entry_at t i) (entry_at t position) ≡ false)
    → IsOrdered t
sunk-IsOrdered t position sinking no_child = record {
  ordered = λ i pos i_lt. elim (ℕ_discrete (parent i) position) [
    | yes e ↦ ap (λ k. precedes (entry_at t i) (entry_at t k)) e ∙ no_child i pos i_lt e
    | no ne ↦ sinking.ordered i pos i_lt ne
  ];
}

-- With fuel for the rest of the heap, the entry sinks to where the order holds.
pub sink_lem :
    (fuel : ℕ) (t : TimerHeap) (position : ℕ) (e : Entry)
    → IsLinked (placed t position e)
    → IsSinking (placed t position e) position
    → position < t.len
    → e.slot < length t.positions
    → t.len < position + fuel
    → (t' : TimerHeap) × (sink fuel t position e ≡ some t') × IsSifted (placed t position e) t'
unfolding sink
sink_lem zero t position e linked sinking lt slot_lt enough = absurd (omega arith)
sink_lem (suc fuel) t position e linked sinking lt slot_lt enough =
    let v = placed t position e in
    let inside : position < length t.entries =
      omega (arith, linked.room, length-set t.entries position e) in
    let made = place_made t position e inside slot_lt in
    elim (Bool-cases (leb t.len (2 * position + 1))) [
      | inl leaf ↦
          let no_left : t.len ≤ 2 * position + 1 = ground arith in
          (
            v,
            rw (leaf, made) refl,
            IsSifted-refl v linked
                (sunk-IsOrdered v position sinking (λ i pos i_lt up. absurd (omega arith))),
          )
      | inr inner ↦
          let some_left : 2 * position + 1 < t.len = ground arith in
          let (child, chose, chosen) = first_child_lem t position e linked some_left in
          let up = chosen.above in
          let child_lt = chosen.inside in
          let child_pos = chosen.pos in
          let ne : position ≢ child = λ same. absurd (omega arith) in
          let x = entry_at t child in
          let found =
            get_elem?-eq-get_or t.entries child no_entry
              (omega (arith, linked.room, length-set t.entries position e)) in
          let v_i = hole_entry t position e inside in
          let v_j = other_entry t position child e ne in
          elim (Bool-cases (precedes x e)) [
            | inr stays ↦ (
              v,
              rw (inner, chose, found, stays, made) refl,
              IsSifted-refl v linked (
                  sunk-IsOrdered v position sinking (λ i pos i_lt over.
                    not_before_trans (entry_at v i) (entry_at v child) (entry_at v position)
                      (chosen.first i pos i_lt over) (ap₂ precedes v_j v_i ∙ stays))),
            )
            | inl before ↦
                let swapped = moved-IsSwapped t position child e linked lt child_lt ne slot_lt in
                let t1 = placed t position x in
                let x_lt : x.slot < length t.positions =
                  subst (λ (y : Entry). y.slot < length t.positions) v_j
                    (omega (
                      arith,
                      (linked.forth child child_lt).0,
                      length-set t.positions e.slot position,
                    )) in
                let made1 = place_made t position x inside x_lt in
                let (t', done, sifted) =
                  sink_lem fuel t1 child e
                    (swapped-IsLinked v (placed t1 child e) position child linked swapped lt
                      child_lt)
                    (IsSinking-step v (placed t1 child e) position child swapped sinking chosen
                      (ap₂ precedes v_j v_i ∙ before))
                    child_lt (omega (arith, length-set t.positions x.slot position))
                    (omega arith) in
                (
                  t',
                  rw (inner, chose, found, before, made1) done,
                  swap-IsSifted v (placed t1 child e) t' position child linked swapped lt child_lt
                      sifted,
                )
          ]
    ]
