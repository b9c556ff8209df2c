-- ===== src/Timer/Remove.antt =====
-- `TimerHeap::remove_at`, `cancel` and `pop_due` of hex-net-core/src/timer.rs.
use hex_net.Common.{
  ◌-◌, ℕ, ◌<◌, ◌≡◌, ◌≢◌, ◌⊎◌, refl, ap, ap₂, sym, ◌∙◌, some, none, length, arith,
  get_elem?-eq-get_or, length-set, ◌==◌, ltb, true, false, Bool-cases, inl, inr,
}
use hex_net.Timer.{TimerHeap, absent, precedes, parent, deadline}
use hex_net.Timer.Linked.{no_entry, entry_at, place_of, due_nowhere, deadline-due}
use hex_net.Timer.Swap.{place_made}
use hex_net.Timer.Up.{not_before_lower, under_grandparent, IsOrdered, IsRising, IsSifted-refl}
use hex_net.Timer.Down.{IsSinking}
use hex_net.Timer.Sift.{IsValid, sift_up_lem, sift_down_lem}
use native.Mathlib.Decide.{ℕ_discrete}
use hex_net.Timer.{remove_at, belongs_above, cancel}
use hex_net.Timer.Set.{updated-deadline}
use hex_net.Timer.Fill.{cut, filled, cut-IsUpdated, filled-IsUpdated, filled_here, filled_other}

cut-IsOrdered : (t : TimerHeap) (i : ℕ) → IsOrdered t → IsOrdered (cut t i)
cut-IsOrdered t i order = record { ordered = λ k pos k_lt. order.ordered k pos (omega arith) }

module _ (t : TimerHeap) (i : ℕ) (valid : IsValid t) (lt : i < t.len - 1) where
  -- The last entry, where it precedes the parent of the place that it fills.
  filled-IsRising :
      0 < i
      → precedes (entry_at t (t.len - 1)) (entry_at t (parent i)) ≡ true
      → IsRising (filled t i) i
  filled-IsRising i_above first = record {
    ordered = λ k pos k_lt ne. elim (ℕ_discrete (parent k) i) [
      | yes e ↦
          ap₂ precedes (filled_other t i valid lt k ne)
            (ap (entry_at (filled t i)) e ∙ filled_here t i valid lt)
          ∙ not_before_lower (entry_at t k) (entry_at t (parent i)) (entry_at t (t.len - 1))
              (under_grandparent t k i valid.order pos (omega arith) e i_above) first
      | no up ↦
          ap₂ precedes (filled_other t i valid lt k ne) (filled_other t i valid lt (parent k) up)
          ∙ valid.order.ordered k pos (omega arith)
    ];
    below = λ k pos k_lt e i_pos.
        ap₂ precedes (filled_other t i valid lt k (λ same. absurd (omega arith)))
          (filled_other t i valid lt (parent i) (λ same. absurd (omega arith)))
        ∙ under_grandparent t k i valid.order pos (omega arith) e i_pos;
  }

  filled-IsSinking :
      (0 < i → precedes (entry_at t (t.len - 1)) (entry_at t (parent i)) ≡ false)
      → IsSinking (filled t i) i
  filled-IsSinking stays = record {
    ordered = λ k pos k_lt up. elim (ℕ_discrete k i) [
      | yes e ↦
          ap₂ precedes (ap (entry_at (filled t i)) e ∙ filled_here t i valid lt)
            (filled_other t i valid lt (parent k) up)
          ∙ ap (λ m. precedes (entry_at t (t.len - 1)) (entry_at t (parent m))) e
          ∙ stays (omega arith)
      | no ne ↦
          ap₂ precedes (filled_other t i valid lt k ne) (filled_other t i valid lt (parent k) up)
          ∙ valid.order.ordered k pos (omega arith)
    ];
    below = λ k pos k_lt e i_pos.
        ap₂ precedes (filled_other t i valid lt k (λ same. absurd (omega arith)))
          (filled_other t i valid lt (parent i) (λ same. absurd (omega arith)))
        ∙ under_grandparent t k i valid.order pos (omega arith) e i_pos;
  }

-- Whether the last entry rises from there.
belongs_above_lem :
    (t : TimerHeap) (i : ℕ)
    → IsValid t
    → i < t.len - 1
    → ((0 < i)
        × (precedes (entry_at t (t.len - 1)) (entry_at t (parent i)) ≡ true)
        × (belongs_above (filled t i) i (entry_at t (t.len - 1)) ≡ some true))
      ⊎ ((0 < i → precedes (entry_at t (t.len - 1)) (entry_at t (parent i)) ≡ false)
          × (belongs_above (filled t i) i (entry_at t (t.len - 1)) ≡ some false))
unfolding belongs_above
belongs_above_lem t i valid lt =
    let last = entry_at t (t.len - 1) in
    elim (Bool-cases (ltb 0 i)) [
      | inr top ↦ inr (λ pos. absurd (ground arith), rw top refl)
      | inl more ↦
          let pos : 0 < i = ground arith in
          let found =
            get_elem?-eq-get_or (filled t i).entries (parent i) no_entry
              (omega (arith, length-set t.entries i last, valid.linked.room)) in
          let above = filled_other t i valid lt (parent i) (λ e. absurd (omega arith)) in
          elim (Bool-cases (precedes last (entry_at t (parent i)))) [
            | inl first ↦
                inl (pos, first, rw (more, found) (ap some (ap (precedes last) above ∙ first)))
            | inr stays ↦
                inr (λ pos'. stays, rw (more, found) (ap some (ap (precedes last) above ∙ stays)))
          ]
    ]

-- The entry at a place is taken out: its slot has no deadline any more, and the others have theirs.
pub remove_at_lem :
    (t : TimerHeap) (i : ℕ)
    → IsValid t
    → i < t.len
    → (t' : TimerHeap) × (remove_at t i ≡ some t')
      × IsValid t'
      × (length t'.positions ≡ length t.positions)
      × (deadline t' (entry_at t i).slot ≡ some none)
      × ((other : ℕ) → other ≢ (entry_at t i).slot → deadline t' other ≡ deadline t other)
unfolding remove_at
remove_at_lem t i valid lt =
    let linked = valid.linked in
    let slot = (entry_at t i).slot in
    let slot_lt = (linked.forth i lt).0 in
    let found = get_elem?-eq-get_or t.entries i no_entry (omega (arith, linked.room)) in
    elim (Bool-cases (i == t.len - 1)) [
      | inl is_last ↦
          let last : i ≡ t.len - 1 = ground arith in
          let updated = cut-IsUpdated t i valid lt last in
          let (ok_now, same_len, here, others) =
            updated-deadline t (cut t i) (cut t i) slot none linked slot_lt updated
              (IsSifted-refl (cut t i) updated.linked (cut-IsOrdered t i valid.order)) in
          (cut t i, rw (found, is_last) refl, ok_now, same_len, here, others)
      | inr inner ↦
          let less : i < t.len - 1 = ground arith in
          let last = entry_at t (t.len - 1) in
          let found' =
            get_elem?-eq-get_or t.entries (t.len - 1) no_entry (omega (arith, linked.room)) in
          let updated = filled-IsUpdated t i valid less in
          let made = place_made (cut t i) i last (omega (arith, linked.room)) (
            omega (
              arith,
              (linked.forth (t.len - 1) (omega arith)).0,
              length-set t.positions slot absent,
            )) in
          elim (belongs_above_lem t i valid less) [
            | inl (pos, first, up) ↦
                let (t', done, sifted) =
                  sift_up_lem (filled t i) i updated.linked
                    (filled-IsRising t i valid less pos first) less in
                let (ok_now, same_len, here, others) =
                  updated-deadline t (filled t i) t' slot none linked slot_lt updated sifted in
                (t', rw (found, inner, found', made, up) done, ok_now, same_len, here, others)
            | inr (stays, down) ↦
                let (t', done, sifted) =
                  sift_down_lem (filled t i) i updated.linked
                    (filled-IsSinking t i valid less stays) less in
                let (ok_now, same_len, here, others) =
                  updated-deadline t (filled t i) t' slot none linked slot_lt updated sifted in
                (t', rw (found, inner, found', made, down) done, ok_now, same_len, here, others)
          ]
    ]

-- In a valid heap, cancelling a slot that the heap has works: the heap stays valid, the slot has no
-- deadline, whether it had one or not, and every other slot has the one it had.
pub cancel_lem :
    (t : TimerHeap) (slot : ℕ)
    → IsValid t
    → slot < length t.positions
    → (t' : TimerHeap) × (cancel t slot ≡ some t')
      × IsValid t'
      × (length t'.positions ≡ length t.positions)
      × (deadline t' slot ≡ some none)
      × ((other : ℕ) → other ≢ slot → deadline t' other ≡ deadline t other)
unfolding cancel
cancel_lem t slot valid lt =
    let linked = valid.linked in
    let found = get_elem?-eq-get_or t.positions slot 0 lt in
    elim (linked.back slot lt) [
      | inl gone ↦
          let free : (place_of t slot == absent) ≡ true = ground arith in
          (
            t,
            rw (found, free) refl,
            valid,
            refl,
            deadline-due t slot linked lt ∙ ap some (due_nowhere t slot gone),
            λ other ne. refl,
          )
      | inr (inside, there) ↦
          let taken : (place_of t slot == absent) ≡ false =
            ground (arith, linked.room, linked.small, linked.same_len) in
          let (t', done, ok_now, same_len, here, others) =
            remove_at_lem t (place_of t slot) valid inside in
          (
            t',
            rw (found, taken) done,
            ok_now,
            same_len,
            ap (deadline t') (sym there) ∙ here,
            λ other ne. others other (λ e. ne (e ∙ there)),
          )
    ]
