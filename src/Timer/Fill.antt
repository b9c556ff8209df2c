-- ===== src/Timer/Fill.antt =====
-- An entry taken out, and the last one in its place, in `TimerHeap::remove_at` of
-- hex-net-core/src/timer.rs.
use hex_net.Common.{
  ◌-◌, ℕ, ◌+◌, ◌<◌, ◌≡◌, ◌≢◌, refl, ap, sym, ◌∙◌, some, none, length, arith, set, length-set,
  get_or-set_self, get_or-set_ne, inl, inr,
}
use hex_net.Timer.{Entry, TimerHeap, absent, placed}
use hex_net.Timer.Linked.{
  entry_at, place_of, one, present, present-set, due_nowhere, due_there, due_kept,
}
use hex_net.Timer.Swap.{one_present}
use hex_net.Timer.Up.{hole_entry, other_entry}
use hex_net.Timer.Sift.{IsValid, IsUpdated}
use native.Mathlib.Decide.{ℕ_discrete}

-- The last entry taken out: the slot's place is gone, and the heap is shorter.
abbrev pub cut : TimerHeap → ℕ → TimerHeap
cut t i = record t { positions = set t.positions (entry_at t i).slot absent; len = t.len - 1 }

-- Another entry taken out, and the last one in its place.
abbrev pub filled : TimerHeap → ℕ → TimerHeap
filled t i = placed (cut t i) i (entry_at t (t.len - 1))

module _ (t : TimerHeap) (i : ℕ) (valid : IsValid t) (lt : i < t.len) where
  slot_in : (entry_at t i).slot < length t.positions
  slot_in = (valid.linked.forth i lt).0

  cut_here : place_of (cut t i) (entry_at t i).slot ≡ absent
  cut_here = get_or-set_self t.positions (entry_at t i).slot absent 0 slot_in

  cut_other :
      (other : ℕ) → other ≢ (entry_at t i).slot → place_of (cut t i) other ≡ place_of t other
  cut_other other ne =
      get_or-set_ne t.positions (entry_at t i).slot other absent 0 (λ e. ne (sym e))

  -- The entries at two places have two slots.
  pub slots_differ : (k : ℕ) → k < t.len → k ≢ i → (entry_at t k).slot ≢ (entry_at t i).slot
  slots_differ k k_lt ne e =
      ne (sym (valid.linked.forth k k_lt).1 ∙ ap (place_of t) e ∙ (valid.linked.forth i lt).1)

  present-cut : present (cut t i).positions + 1 ≡ t.len
  present-cut =
      let linked = valid.linked in
      let was : one (place_of t (entry_at t i).slot) ≡ 1 =
        ap one (linked.forth i lt).1
        ∙ one_present i (λ e. absurd (omega (arith, linked.room, linked.same_len, linked.small))) in
      omega (arith, was, linked.count, present-set t.positions (entry_at t i).slot absent slot_in)

  pub cut-IsUpdated : i ≡ t.len - 1 → IsUpdated t (cut t i) (entry_at t i).slot none
  cut-IsUpdated last =
      let linked = valid.linked in
      let len_p = length-set t.positions (entry_at t i).slot absent in
      record {
        linked = record {
          room = omega (arith, linked.room);
          same_len = omega (arith, linked.same_len);
          small = omega (arith, linked.small);
          count = omega (arith, present-cut);
          forth = λ k k_lt.
              (let ne : k ≢ i = λ e. absurd (omega arith) in
                let (s_lt, back) = linked.forth k (omega arith) in
                (
                  omega arith,
                  cut_other (entry_at t k).slot (slots_differ k (omega arith) ne) ∙ back,
                ));
          back = λ s s_lt. elim (ℕ_discrete s (entry_at t i).slot) [
            | yes e ↦ inl (ap (place_of (cut t i)) e ∙ cut_here)
            | no ne ↦
                let same = cut_other s ne in
                elim (linked.back s (omega arith)) [
                  | inl nowhere ↦ inl (same ∙ nowhere)
                  | inr (inside, there) ↦
                      let off : place_of t s ≢ i =
                        λ e. ne (sym there ∙ ap (λ k. (entry_at t k).slot) e) in
                      inr (
                        (let off' : place_of t s ≢ t.len - 1 = λ e. off (e ∙ sym last) in
                            ground (arith, same)),
                        ap (λ k. (entry_at t k).slot) same ∙ there,
                      )
                ]
          ];
        };
        slots = len_p;
        here = due_nowhere (cut t i) (entry_at t i).slot cut_here;
        others = λ other other_lt ne.
            due_kept t other (cut t i) linked other_lt (cut_other other ne) (λ inside there. refl);
      }

module _ (t : TimerHeap) (i : ℕ) (valid : IsValid t) (lt : i < t.len - 1) where
  last_in : (entry_at t (t.len - 1)).slot < length t.positions
  last_in = (valid.linked.forth (t.len - 1) (omega arith)).0

  last_differs : (entry_at t (t.len - 1)).slot ≢ (entry_at t i).slot
  last_differs =
      slots_differ t i valid (omega arith) (t.len - 1) (omega arith) (λ e. absurd (omega arith))

  pub filled_here : entry_at (filled t i) i ≡ entry_at t (t.len - 1)
  filled_here = hole_entry t i (entry_at t (t.len - 1)) (omega (arith, valid.linked.room))

  pub filled_other : (k : ℕ) → k ≢ i → entry_at (filled t i) k ≡ entry_at t k
  filled_other k ne = other_entry t i k (entry_at t (t.len - 1)) (λ e. ne (sym e))

  place-filled_last : place_of (filled t i) (entry_at t (t.len - 1)).slot ≡ i
  place-filled_last =
      get_or-set_self (cut t i).positions (entry_at t (t.len - 1)).slot i 0
        (omega (arith, last_in, length-set t.positions (entry_at t i).slot absent))

  place-filled_other :
      (other : ℕ)
      → other ≢ (entry_at t (t.len - 1)).slot
      → place_of (filled t i) other ≡ place_of (cut t i) other
  place-filled_other other ne =
      get_or-set_ne (cut t i).positions (entry_at t (t.len - 1)).slot other i 0 (λ e. ne (sym e))

  pub filled-IsUpdated : IsUpdated t (filled t i) (entry_at t i).slot none
  filled-IsUpdated =
      let linked = valid.linked in
      let last = entry_at t (t.len - 1) in
      let r = (entry_at t i).slot in
      let i_lt : i < t.len = omega arith in
      let was_last = (linked.forth (t.len - 1) (omega arith)).1 in
      let cut_last = cut_other t i valid i_lt last.slot last_differs in
      let len_e = length-set t.entries i last in
      let len_c = length-set t.positions r absent in
      let len_p = length-set (cut t i).positions last.slot i in
      let real : i ≢ absent =
        λ e. absurd (omega (arith, linked.room, linked.same_len, linked.small)) in
      let last_real : t.len - 1 ≢ absent =
        λ e. absurd (omega (arith, linked.room, linked.same_len, linked.small)) in
      let gone = place-filled_other r (λ e. last_differs (sym e)) ∙ cut_here t i valid i_lt in
      let place_kept : (s : ℕ) → s ≢ last.slot → s ≢ r → place_of (filled t i) s ≡ place_of t s =
        λ s ne ne'. place-filled_other s ne ∙ cut_other t i valid i_lt s ne' in
      let not_i : (s : ℕ) → s ≢ r → (entry_at t (place_of t s)).slot ≡ s → place_of t s ≢ i =
        λ s ne there e. ne (sym there ∙ ap (λ k. (entry_at t k).slot) e) in
      record {
        linked = record {
          room = omega (arith, linked.room);
          same_len = omega (arith, linked.same_len);
          small = omega (arith, linked.small);
          count = omega (
            arith,
            present-cut t i valid i_lt,
            one_present i real,
            ap one (cut_last ∙ was_last),
            one_present (t.len - 1) last_real,
            present-set (cut t i).positions last.slot i (omega (arith, last_in)),
          );
          forth = λ k k_lt. elim (ℕ_discrete k i) [
            | yes e ↦
                let s =
                  ap (λ m. (entry_at (filled t i) m).slot) e
                  ∙ ap (λ (x : Entry). x.slot) filled_here in
                (omega (arith, last_in), ap (place_of (filled t i)) s ∙ place-filled_last ∙ sym e)
            | no ne ↦
                let s = ap (λ (x : Entry). x.slot) (filled_other k ne) in
                let (s_lt, back) = linked.forth k (omega arith) in
                (
                  omega arith,
                  ap (place_of (filled t i)) s
                      ∙ place_kept (entry_at t k).slot
                          (slots_differ t (t.len - 1) valid (omega arith) k (omega arith)
                            (λ e. absurd (omega arith)))
                          (slots_differ t i valid i_lt k (omega arith) ne)
                      ∙ back,
                )
          ];
          back = λ s s_lt. elim (ℕ_discrete s last.slot) [
            | yes e ↦
                let at_i = ap (place_of (filled t i)) e ∙ place-filled_last in
                inr (
                  omega arith,
                  ap (λ m. (entry_at (filled t i) m).slot) at_i
                      ∙ ap (λ (x : Entry). x.slot) filled_here
                      ∙ sym e,
                )
            | no ne ↦ elim (ℕ_discrete s r) [
              | yes e ↦ inl (ap (place_of (filled t i)) e ∙ gone)
              | no ne' ↦
                  let same = place_kept s ne ne' in
                  elim (linked.back s (omega arith)) [
                    | inl nowhere ↦ inl (same ∙ nowhere)
                    | inr (inside, there) ↦
                        let off_last : place_of t s ≢ t.len - 1 =
                          λ e. ne (sym there ∙ ap (λ k. (entry_at t k).slot) e) in
                        inr (
                          ground (arith, same),
                          ap (λ m. (entry_at (filled t i) m).slot) same
                              ∙ ap (λ (x : Entry). x.slot)
                                  (filled_other (place_of t s) (not_i s ne' there))
                              ∙ there,
                        )
                  ]
            ]
          ];
        };
        slots = omega arith;
        here = due_nowhere (filled t i) r gone;
        others = λ other other_lt ne. elim (ℕ_discrete other last.slot) [
          | yes e ↦
              due_there (filled t i) other i (ap (place_of (filled t i)) e ∙ place-filled_last) real
              ∙ ap (λ (x : Entry). some x.at) filled_here
              ∙ sym (due_there t other (t.len - 1) (ap (place_of t) e ∙ was_last) last_real)
          | no ne' ↦
              due_kept t other (filled t i) linked other_lt (place_kept other ne' ne)
                (λ inside there. filled_other (place_of t other) (not_i other ne there))
        ];
      }
