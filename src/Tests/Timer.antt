-- ===== src/Tests/Timer.antt =====
-- Examples for hex-net-core/src/timer.rs.
use hex_net.Common.{
  ℕ, zero, suc, ◌-◌, ◌/◌, ◌≤◌, ◌<◌, ◌≡◌, ◌≢◌, ◌⊎◌, inl, inr, refl, some, none, [], ◌∷◌, arith,
  length, false,
}
use hex_net.Timer.{
  Entry, TimerHeap, absent, precedes, deadline, set_deadline, cancel, pop_due, sift_up, rise, place,
}
use hex_net.Timer.Linked.{entry_at, place_of}
use hex_net.Timer.Sift.{IsValid}
use hex_net.Timer.Set.{set_deadline_lem}
use hex_net.Timer.Remove.{cancel_lem}
use hex_net.Timer.Peek.{pop_due_lem}

-- Slot 2 is due at 5 and slot 0 at 9, of four slots.
abbrev heap : TimerHeap
heap = record {
  entries =
      record { at = 5; slot = 2 }
      ∷ record { at = 9; slot = 0 }
      ∷ record { at = 0; slot = absent }
      ∷ record { at = 0; slot = absent }
      ∷ [];
  len = 2;
  positions = 1 ∷ absent ∷ 0 ∷ absent ∷ [];
}

heap_forth :
    (i : ℕ) → i < 2 → ((entry_at heap i).slot < 4) × (place_of heap (entry_at heap i).slot ≡ i)
heap_forth zero lt = (omega arith, refl)
heap_forth (suc zero) lt = (omega arith, refl)
heap_forth (suc (suc i)) lt = absurd (omega arith)

heap_back :
    (slot : ℕ)
    → slot < 4
    → (place_of heap slot ≡ absent)
      ⊎ ((place_of heap slot < 2) × ((entry_at heap (place_of heap slot)).slot ≡ slot))
heap_back zero lt = inr (omega arith, refl)
heap_back (suc zero) lt = inl refl
heap_back (suc (suc zero)) lt = inr (omega arith, refl)
heap_back (suc (suc (suc zero))) lt = inl refl
heap_back (suc (suc (suc (suc i)))) lt = absurd (omega arith)

heap_ordered :
    (i : ℕ) → 0 < i → i < 2 → precedes (entry_at heap i) (entry_at heap ((i - 1) / 2)) ≡ false
unfolding precedes
heap_ordered zero pos lt = absurd (omega arith)
heap_ordered (suc zero) pos lt = refl
heap_ordered (suc (suc i)) pos lt = absurd (omega arith)

heap-IsValid : IsValid heap
heap-IsValid = record {
  linked = record {
    room = omega arith;
    same_len = refl;
    small = omega arith;
    count = refl;
    forth = heap_forth;
    back = heap_back;
  };
  order = record { ordered = heap_ordered };
}

-- An earlier deadline for a new slot goes to the front.
set_run :
    set_deadline heap 3 4
    ≡ some (record {
      entries =
          record { at = 4; slot = 3 }
          ∷ record { at = 9; slot = 0 }
          ∷ record { at = 5; slot = 2 }
          ∷ record { at = 0; slot = absent }
          ∷ [];
      len = 3;
      positions = 1 ∷ absent ∷ 2 ∷ 0 ∷ [];
    })
unfolding set_deadline place sift_up rise precedes
set_run = refl

set_deadline_lem_example :
    (t : TimerHeap) × (set_deadline heap 3 4 ≡ some t)
    × IsValid t
    × (length t.positions ≡ 4)
    × (deadline t 3 ≡ some (some 4))
    × ((other : ℕ) → other ≢ 3 → deadline t other ≡ deadline heap other)
set_deadline_lem_example = set_deadline_lem heap 3 4 heap-IsValid (omega arith)

cancel_lem_example :
    (t : TimerHeap) × (cancel heap 2 ≡ some t)
    × IsValid t
    × (length t.positions ≡ 4)
    × (deadline t 2 ≡ some none)
    × ((other : ℕ) → other ≢ 2 → deadline t other ≡ deadline heap other)
cancel_lem_example = cancel_lem heap 2 heap-IsValid (omega arith)

pop_due_lem_example :
    ((pop_due heap 7 ≡ some (heap, none))
      × ((slot at : ℕ) → deadline heap slot ≡ some (some at) → 7 < at))
    ⊎ ((t : TimerHeap) × (first : Entry) × (pop_due heap 7 ≡ some (t, some first.slot))
        × (deadline heap first.slot ≡ some (some first.at))
        × (first.at ≤ 7)
        × ((slot at : ℕ)
            → deadline heap slot ≡ some (some at)
            → (first.at < at) ⊎ ((first.at ≡ at) × (first.slot ≤ slot)))
        × IsValid t
        × (deadline t first.slot ≡ some none)
        × ((other : ℕ) → other ≢ first.slot → deadline t other ≡ deadline heap other))
pop_due_lem_example = pop_due_lem heap 7 heap-IsValid
