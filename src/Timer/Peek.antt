-- ===== src/Timer/Peek.antt =====
-- `TimerHeap::peek` and `pop_due` of hex-net-core/src/timer.rs: the earliest deadline is at the front.
use hex_net.Common.{
  ℕ, zero, suc, ◌≤◌, ◌<◌, ◌≡◌, ◌≢◌, ◌⊎◌, refl, ap, sym, ◌∙◌, some, none, length, arith,
  get_elem?-eq-get_or, ltb, false, Bool-cases, inl, inr,
}
use hex_net.Timer.{Entry, TimerHeap, precedes, parent, deadline, peek, pop_due}
use hex_net.Timer.Linked.{
  IsLinked, no_entry, entry_at, place_of, due, due_there, due_nowhere, deadline-due,
}
use hex_net.Timer.Up.{not_before_itself, not_before_trans, IsOrdered}
use hex_net.Timer.Sift.{IsValid, deadline-above}
use hex_net.Timer.Remove.{remove_at_lem}
use native.Mathlib.Decide.{ℕ_discrete}

-- In order, no entry precedes the first.
first_precedes :
    (fuel : ℕ) (t : TimerHeap) (i : ℕ)
    → IsOrdered t
    → i < fuel
    → i < t.len
    → precedes (entry_at t i) (entry_at t 0) ≡ false
first_precedes zero t i order enough lt = absurd (omega arith)
first_precedes (suc fuel) t i order enough lt = elim (ℕ_discrete i 0) [
  | yes e ↦ ap (λ k. precedes (entry_at t k) (entry_at t 0)) e ∙ not_before_itself (entry_at t 0)
  | no ne ↦
      not_before_trans (entry_at t i) (entry_at t (parent i)) (entry_at t 0)
        (order.ordered i (omega arith) lt)
        (first_precedes fuel t (parent i) order (omega arith) (omega arith))
]

-- A deadline is that of an entry.
deadline_cases :
    (t : TimerHeap) (slot at : ℕ)
    → IsLinked t
    → deadline t slot ≡ some (some at)
    → (i : ℕ) × (i < t.len) × ((entry_at t i).at ≡ at) × ((entry_at t i).slot ≡ slot)
deadline_cases t slot at linked set = elim (Bool-cases (ltb slot (length t.positions))) [
  | inr past ↦
      let clash : some none ≡ some (some at) = sym (deadline-above t slot (ground arith)) ∙ set in
      absurd cc
  | inl inside ↦
      let lt : slot < length t.positions = ground arith in
      let has : some (due t slot) ≡ some (some at) = sym (deadline-due t slot linked lt) ∙ set in
      elim (linked.back slot lt) [
        | inl gone ↦
            let clash : some none ≡ some (some at) =
              ap some (sym (due_nowhere t slot gone)) ∙ has in
            absurd cc
        | inr (below, there) ↦
            let same : some (some (entry_at t (place_of t slot)).at) ≡ some (some at) =
              ap some (
                sym (
                  due_there t slot (place_of t slot) refl
                    (λ e. absurd (omega (arith, linked.room, linked.same_len, linked.small)))))
              ∙ has in
            (place_of t slot, below, ground arith, there)
      ]
]

not_before_cases :
    (a b : Entry) → precedes b a ≡ false → (a.at < b.at) ⊎ ((a.at ≡ b.at) × (a.slot ≤ b.slot))
unfolding precedes
not_before_cases a b h = elim (Bool-cases (ltb a.at b.at)) [
  | inl less ↦ inl (ground arith)
  | inr not_less ↦ inr (ground arith, ground arith)
]

-- In a valid heap, `peek` is empty when no slot has a deadline; otherwise it shows a slot's deadline,
-- and the deadline of every slot is later, or as late with a slot that is not smaller.
pub peek_lem :
    (t : TimerHeap)
    → IsValid t
    → ((peek t ≡ some none) × ((slot at : ℕ) → deadline t slot ≢ some (some at)))
      ⊎ ((first : Entry) × (peek t ≡ some (some first))
          × (deadline t first.slot ≡ some (some first.at))
          × ((slot at : ℕ)
              → deadline t slot ≡ some (some at)
              → (first.at < at) ⊎ ((first.at ≡ at) × (first.slot ≤ slot))))
unfolding peek
peek_lem t valid =
    let linked = valid.linked in
    elim (Bool-cases (ltb 0 t.len)) [
      | inr empty ↦
          let nothing : t.len ≡ 0 = ground arith in
          inl (
            rw empty refl,
            λ slot at set.
                (let (i, lt, same_at, same_slot) = deadline_cases t slot at linked set in
                  absurd (omega arith)),
          )
      | inl some_entry ↦
          let more : 0 < t.len = ground arith in
          let found = get_elem?-eq-get_or t.entries 0 no_entry (omega (arith, linked.room)) in
          let (slot_lt, back) = linked.forth 0 more in
          inr (
            entry_at t 0,
            rw (some_entry, found) refl,
            deadline-due t (entry_at t 0).slot linked slot_lt
                ∙ ap some (due_there t (entry_at t 0).slot 0 back (λ e. absurd (omega arith))),
            λ slot at set.
                (let (i, lt, same_at, same_slot) = deadline_cases t slot at linked set in
                  let last = first_precedes (suc i) t i valid.order (omega arith) lt in
                  elim (not_before_cases (entry_at t 0) (entry_at t i) last) [
                    | inl less ↦ inl (omega arith)
                    | inr (same, low) ↦ inr (omega arith, omega arith)
                  ]),
          )
    ]

peek_first :
    (t : TimerHeap) (first : Entry)
    → IsLinked t
    → peek t ≡ some (some first)
    → (0 < t.len) × (entry_at t 0 ≡ first)
unfolding peek
peek_first t first linked shown = elim (Bool-cases (ltb 0 t.len)) [
  | inr empty ↦ let clash : some none ≡ some (some first) = rw empty at shown in absurd cc
  | inl some_entry ↦
      let found = get_elem?-eq-get_or t.entries 0 no_entry (ground (arith, linked.room)) in
      let shown' : some (some (entry_at t 0)) ≡ some (some first) =
        rw (some_entry, found) at shown in
      (ground arith, ground arith)
]

-- In a valid heap, `pop_due` works and the heap stays valid. It returns no slot when every deadline is
-- later than `now`, and then nothing changes. Otherwise it returns the slot of the earliest deadline,
-- the smallest of those slots, which is at or before `now`, that slot has no deadline any more, and
-- every other slot has the one it had.
pub pop_due_lem :
    (t : TimerHeap) (now : ℕ)
    → IsValid t
    → ((pop_due t now ≡ some (t, none))
        × ((slot at : ℕ) → deadline t slot ≡ some (some at) → now < at))
      ⊎ ((t' : TimerHeap) × (first : Entry) × (pop_due t now ≡ some (t', some first.slot))
          × (deadline t first.slot ≡ some (some first.at))
          × (first.at ≤ now)
          × ((slot at : ℕ)
              → deadline t slot ≡ some (some at)
              → (first.at < at) ⊎ ((first.at ≡ at) × (first.slot ≤ slot)))
          × IsValid t'
          × (deadline t' first.slot ≡ some none)
          × ((other : ℕ) → other ≢ first.slot → deadline t' other ≡ deadline t other))
unfolding pop_due
pop_due_lem t now valid = elim (peek_lem t valid) [
  | inl (empty, no_deadline) ↦ inl (rw empty refl, λ slot at set. absurd (no_deadline slot at set))
  | inr (first, shown, has, earliest) ↦ elim (Bool-cases (ltb now first.at)) [
    | inl later ↦
        let not_yet : now < first.at = ground arith in
        inl (
          rw (shown, later) refl,
          λ slot at set. elim (earliest slot at set) [
            | inl less ↦ omega arith
            | inr (same, low) ↦ omega arith
          ],
        )
    | inr past ↦
        let (more, is_first) = peek_first t first valid.linked shown in
        let (t', done, ok_now, same_len, here, others) = remove_at_lem t 0 valid more in
        let slot = ap (λ (x : Entry). x.slot) is_first in
        inr (
          t',
          first,
          rw (shown, past, done) refl,
          has,
          ground arith,
          earliest,
          ok_now,
          ap (deadline t') (sym slot) ∙ here,
          λ other ne. others other (λ e. ne (e ∙ slot)),
        )
  ]
]
