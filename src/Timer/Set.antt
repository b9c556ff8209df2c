-- ===== src/Timer/Set.antt =====
-- `TimerHeap::set` of hex-net-core/src/timer.rs.
use hex_net.Common.{
  Option, ℕ, ◌+◌, ◌<◌, ◌≡◌, ◌≢◌, ap, subst, ◌∙◌, some, length, arith, get_elem?-eq-get_or, ◌==◌,
  ltb, true, false, Bool-cases, inl, inr,
}
use hex_net.Timer.{TimerHeap, absent, set_deadline, deadline}
use hex_net.Timer.Linked.{IsLinked, no_entry, entry_at, place_of, deadline-due}
use hex_net.Timer.Swap.{place_made}
use hex_net.Timer.Up.{IsSifted}
use hex_net.Timer.Sift.{
  IsValid, IsUpdated, sifted-IsUpdated, sift_up_lem, sift_down_lem, deadline_same,
}
use hex_net.Timer.Move.{moved_state, moved-IsUpdated, moved-IsRising, moved-IsSinking}
use hex_net.Timer.Add.{added_state, room_for_one, added-IsUpdated, added-IsRising}

-- What an update and the sift behind it show, in the words of `deadline`.
pub updated-deadline :
    (t t1 t' : TimerHeap) (slot : ℕ) (now : Option ℕ)
    → IsLinked t
    → slot < length t.positions
    → IsUpdated t t1 slot now
    → IsSifted t1 t'
    → IsValid t'
      × (length t'.positions ≡ length t.positions)
      × (deadline t' slot ≡ some now)
      × ((other : ℕ) → other ≢ slot → deadline t' other ≡ deadline t other)
updated-deadline t t1 t' slot now linked lt first sifted =
    let updated = sifted-IsUpdated t t1 t' slot now lt first sifted in
    (
      record { linked = sifted.linked; order = sifted.ordered },
      updated.slots,
      deadline-due t' slot updated.linked (omega (arith, updated.slots)) ∙ ap some updated.here,
      λ other ne.
          deadline_same t t' other linked updated.linked updated.slots
            (λ other_lt. updated.others other other_lt ne),
    )

-- In a valid heap, a deadline set for a slot that the heap has is set: no write is out of range, the
-- sift ends, the heap stays valid, the slot has the deadline, and every other slot has the one it had.
pub set_deadline_lem :
    (t : TimerHeap) (slot at : ℕ)
    → IsValid t
    → slot < length t.positions
    → (t' : TimerHeap) × (set_deadline t slot at ≡ some t')
      × IsValid t'
      × (length t'.positions ≡ length t.positions)
      × (deadline t' slot ≡ some (some at))
      × ((other : ℕ) → other ≢ slot → deadline t' other ≡ deadline t other)
unfolding set_deadline
set_deadline_lem t slot at valid lt =
    let linked = valid.linked in
    let found = get_elem?-eq-get_or t.positions slot 0 lt in
    elim (linked.back slot lt) [
      | inl gone ↦
          let free : (place_of t slot == absent) ≡ true = ground arith in
          let updated = added-IsUpdated t slot at valid lt gone in
          let room = room_for_one t slot at valid lt gone in
          let made =
            place_made (record t { len = t.len + 1 }) t.len (record { at = at; slot = slot }) room
              lt in
          let (t', done, sifted) =
            sift_up_lem (added_state t slot at) t.len updated.linked
              (added-IsRising t slot at valid lt gone) (omega arith) in
          let (ok_now, same_len, here, others) =
            updated-deadline t (added_state t slot at) t' slot (some at) linked lt updated sifted in
          (t', rw (found, free, made) done, ok_now, same_len, here, others)
      | inr (inside, there) ↦
          let i = place_of t slot in
          let taken : (place_of t slot == absent) ≡ false =
            ground (arith, linked.room, linked.small, linked.same_len) in
          let e_found = get_elem?-eq-get_or t.entries i no_entry (omega (arith, linked.room)) in
          let updated =
            subst (λ s. IsUpdated t (moved_state t i at) s (some at)) there
              (moved-IsUpdated t i at valid inside) in
          elim (Bool-cases (ltb at (entry_at t i).at)) [
            | inl earlier ↦
                let (t', done, sifted) =
                  sift_up_lem (moved_state t i at) i updated.linked
                    (moved-IsRising t i at valid inside (ground arith)) inside in
                let (ok_now, same_len, here, others) =
                  updated-deadline t (moved_state t i at) t' slot (some at) linked lt updated
                    sifted in
                (t', rw (found, taken, e_found, earlier) done, ok_now, same_len, here, others)
            | inr later ↦
                let (t', done, sifted) =
                  sift_down_lem (moved_state t i at) i updated.linked
                    (moved-IsSinking t i at valid inside (ground arith)) inside in
                let (ok_now, same_len, here, others) =
                  updated-deadline t (moved_state t i at) t' slot (some at) linked lt updated
                    sifted in
                (t', rw (found, taken, e_found, later) done, ok_now, same_len, here, others)
          ]
    ]
