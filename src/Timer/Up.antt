-- ===== src/Timer/Up.antt =====
-- `sift_up` of hex-net-core/src/timer.rs: an entry rises until its parent precedes it.
use hex_net.Common.{
  ℕ, zero, suc, ◌<◌, ◌≡◌, ◌≢◌, refl, ap, ap₂, sym, subst, ◌∙◌, some, length, arith, Bool-cases, inl,
  inr, true, false, ltb, length-set, get_elem?-eq-get_or, get_or-set_self, get_or-set_ne,
}
use hex_net.Timer.{Entry, TimerHeap, precedes, placed, parent, rise}
use hex_net.Timer.Linked.{
  IsLinked, IsSwapped, no_entry, entry_at, due, swapped-IsLinked, swapped-due,
}
use hex_net.Timer.Swap.{place_made, moved-IsSwapped}
use native.Mathlib.Decide.{ℕ_discrete}

pub precedes_not_after : (a b : Entry) → precedes a b ≡ true → precedes b a ≡ false
unfolding precedes
precedes_not_after a b h = ground arith

pub not_before_itself : (a : Entry) → precedes a a ≡ false
unfolding precedes
not_before_itself a = ground arith

pub not_before_trans :
    (a b c : Entry) → precedes a b ≡ false → precedes b c ≡ false → precedes a c ≡ false
unfolding precedes
not_before_trans a b c h k = ground arith

pub not_before_lower :
    (a b c : Entry) → precedes a b ≡ false → precedes c b ≡ true → precedes a c ≡ false
unfolding precedes
not_before_lower a b c h k = ground arith

-- No entry precedes its parent's.
pub record IsOrdered (t : TimerHeap) : Type 0 where
  pub ordered :
      (i : ℕ) → 0 < i → i < t.len → precedes (entry_at t i) (entry_at t (parent i)) ≡ false

-- In order, an entry precedes neither its parent's nor the one above.
pub under_parent :
    (t : TimerHeap) (k i : ℕ)
    → IsOrdered t
    → 0 < k
    → k < t.len
    → parent k ≡ i
    → precedes (entry_at t k) (entry_at t i) ≡ false
under_parent t k i order pos lt e =
    ap (λ m. precedes (entry_at t k) (entry_at t m)) (sym e) ∙ order.ordered k pos lt

pub under_grandparent :
    (t : TimerHeap) (k i : ℕ)
    → IsOrdered t
    → 0 < k
    → k < t.len
    → parent k ≡ i
    → 0 < i
    → precedes (entry_at t k) (entry_at t (parent i)) ≡ false
under_grandparent t k i order pos lt e i_pos =
    not_before_trans (entry_at t k) (entry_at t i) (entry_at t (parent i))
      (under_parent t k i order pos lt e) (order.ordered i i_pos (omega arith))

-- The order, but for the entry at a position, which may precede its parent's.
pub record IsRising (t : TimerHeap) (position : ℕ) : Type 0 where
  pub ordered :
      (i : ℕ)
      → 0 < i
      → i < t.len
      → i ≢ position
      → precedes (entry_at t i) (entry_at t (parent i)) ≡ false
  pub below :
      (i : ℕ)
      → 0 < i
      → i < t.len
      → parent i ≡ position
      → 0 < position
      → precedes (entry_at t i) (entry_at t (parent position)) ≡ false

-- A state that a sift leads to: linked, ordered, and with the same deadlines.
pub record IsSifted (t t' : TimerHeap) : Type 0 where
  pub linked : IsLinked t'
  pub ordered : IsOrdered t'
  pub len : t'.len ≡ t.len
  pub slots : length t'.positions ≡ length t.positions
  pub same : (slot : ℕ) → slot < length t.positions → due t' slot ≡ due t slot

-- An entry that precedes its parent's changes places with it.
IsRising-step :
    (t t' : TimerHeap) (position : ℕ)
    → IsSwapped t t' position (parent position)
    → 0 < position
    → position < t.len
    → IsRising t position
    → precedes (entry_at t position) (entry_at t (parent position)) ≡ true
    → IsRising t' (parent position)
IsRising-step t t' position swapped some_above lt rising first =
    let above = parent position in
    let ordered : (i : ℕ)
        → 0 < i
        → i < t'.len
        → i ≢ above
        → precedes (entry_at t' i) (entry_at t' (parent i)) ≡ false =
      λ i pos i_lt ne. elim (ℕ_discrete i position) [
        | yes e ↦
            ap₂ precedes (ap (entry_at t') e ∙ swapped.at_i)
              (ap (λ k. entry_at t' (parent k)) e ∙ swapped.at_j)
            ∙ precedes_not_after (entry_at t position) (entry_at t above) first
        | no ne' ↦ elim (ℕ_discrete (parent i) position) [
          | yes e ↦
              ap₂ precedes (swapped.other i ne' ne) (ap (entry_at t') e ∙ swapped.at_i)
              ∙ rising.below i pos (omega (arith, swapped.len)) e some_above
          | no ne2 ↦ elim (ℕ_discrete (parent i) above) [
            | yes e ↦
                ap₂ precedes (swapped.other i ne' ne) (ap (entry_at t') e ∙ swapped.at_j)
                ∙ not_before_lower (entry_at t i) (entry_at t above) (entry_at t position)
                    (ap (λ k. precedes (entry_at t i) (entry_at t k)) (sym e)
                      ∙ rising.ordered i pos (omega (arith, swapped.len)) ne')
                    first
            | no ne3 ↦
                ap₂ precedes (swapped.other i ne' ne) (swapped.other (parent i) ne2 ne3)
                ∙ rising.ordered i pos (omega (arith, swapped.len)) ne'
          ]
        ]
      ] in
    record {
      ordered = ordered;
      below = λ i pos i_lt e above_pos.
          (let top =
              swapped.other (parent above) (λ same. absurd (omega arith))
                (λ same. absurd (omega arith)) in
            let over =
              rising.ordered above above_pos (omega arith) (λ same. absurd (omega arith)) in
            elim (ℕ_discrete i position) [
              | yes here ↦ ap₂ precedes (ap (entry_at t') here ∙ swapped.at_i) top ∙ over
              | no ne ↦
                  ap₂ precedes (swapped.other i ne (λ same. absurd (omega arith))) top
                  ∙ not_before_trans (entry_at t i) (entry_at t above) (entry_at t (parent above))
                      (ap (λ k. precedes (entry_at t i) (entry_at t k)) (sym e)
                        ∙ rising.ordered i pos (omega (arith, swapped.len)) ne)
                      over
            ]);
    }

pub IsSifted-refl : (t : TimerHeap) → IsLinked t → IsOrdered t → IsSifted t t
IsSifted-refl t linked ordered = record {
  linked = linked;
  ordered = ordered;
  len = refl;
  slots = refl;
  same = λ slot lt. refl;
}

-- A swap and what is sifted from there.
pub swap-IsSifted :
    (t t' t'' : TimerHeap) (i j : ℕ)
    → IsLinked t
    → IsSwapped t t' i j
    → i < t.len
    → j < t.len
    → IsSifted t' t''
    → IsSifted t t''
swap-IsSifted t t' t'' i j linked swapped i_lt j_lt sifted = record {
  linked = sifted.linked;
  ordered = sifted.ordered;
  len = sifted.len ∙ swapped.len;
  slots = sifted.slots ∙ swapped.positions_len;
  same = λ slot lt.
      sifted.same slot (omega (arith, swapped.positions_len))
      ∙ swapped-due t t' i j linked swapped i_lt j_lt slot lt;
}

-- What the hole's entry and another one are.
pub hole_entry :
    (t : TimerHeap) (i : ℕ) (e : Entry) → i < length t.entries → entry_at (placed t i e) i ≡ e
hole_entry t i e lt = get_or-set_self t.entries i e no_entry lt

pub other_entry :
    (t : TimerHeap) (i j : ℕ) (e : Entry) → i ≢ j → entry_at (placed t i e) j ≡ entry_at t j
other_entry t i j e ne = get_or-set_ne t.entries i j e no_entry ne

-- With fuel past its position, the entry rises to where the order holds.
pub rise_lem :
    (fuel : ℕ) (t : TimerHeap) (position : ℕ) (e : Entry)
    → IsLinked (placed t position e)
    → IsRising (placed t position e) position
    → position < t.len
    → e.slot < length t.positions
    → position < fuel
    → (t' : TimerHeap) × (rise fuel t position e ≡ some t') × IsSifted (placed t position e) t'
unfolding rise
rise_lem zero t position e linked rising lt slot_lt enough = absurd (omega arith)
rise_lem (suc fuel) t position e linked rising lt slot_lt enough =
    let v = placed t position e in
    let above = parent position in
    let inside : position < length t.entries =
      omega (arith, linked.room, length-set t.entries position e) in
    let made = place_made t position e inside slot_lt in
    elim (Bool-cases (ltb 0 position)) [
      | inr top ↦
          let zero_at : position ≡ 0 = ground arith in
          (
            v,
            rw (top, made) refl,
            IsSifted-refl v linked (record {
              ordered = λ i pos i_lt. rising.ordered i pos i_lt (λ same. absurd (omega arith));
            }),
          )
      | inl more ↦
          let pos : 0 < position = ground arith in
          let ne : position ≢ above = λ same. absurd (omega arith) in
          let x = entry_at t above in
          let found = get_elem?-eq-get_or t.entries above no_entry (omega arith) in
          let v_i = hole_entry t position e inside in
          let v_j = other_entry t position above e ne in
          elim (Bool-cases (precedes e x)) [
            | inr stays ↦ (
              v,
              rw (more, found, stays, made) refl,
              IsSifted-refl v linked (record {
                ordered = λ i i_pos i_lt. elim (ℕ_discrete i position) [
                  | yes same ↦
                      ap₂ precedes (ap (entry_at v) same ∙ v_i)
                        (ap (λ k. entry_at v (parent k)) same ∙ v_j)
                      ∙ stays
                  | no differ ↦ rising.ordered i i_pos i_lt differ
                ];
              }),
            )
            | inl first ↦
                let swapped =
                  moved-IsSwapped t position above e linked lt (omega arith) ne slot_lt in
                let t1 = placed t position x in
                let x_lt : x.slot < length t.positions =
                  subst (λ (y : Entry). y.slot < length t.positions) v_j
                    (omega (
                      arith,
                      (linked.forth above (omega arith)).0,
                      length-set t.positions e.slot position,
                    )) in
                let made1 = place_made t position x inside x_lt in
                let (t', done, sifted) =
                  rise_lem fuel t1 above e
                    (swapped-IsLinked v (placed t1 above e) position above linked swapped lt
                      (omega arith))
                    (IsRising-step v (placed t1 above e) position swapped pos lt rising
                      (ap₂ precedes v_i v_j ∙ first))
                    (omega arith) (omega (arith, length-set t.positions x.slot position))
                    (omega arith) in
                (
                  t',
                  rw (more, found, first, made1) done,
                  swap-IsSifted v (placed t1 above e) t' position above linked swapped lt
                      (omega arith) sifted,
                )
          ]
    ]
