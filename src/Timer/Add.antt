-- ===== src/Timer/Add.antt =====
-- A slot that gets its first deadline, in `TimerHeap::set` of hex-net-core/src/timer.rs.
use hex_net.Common.{
  List, [], ◌∷◌, ℕ, zero, suc, ◌+◌, ◌≤◌, ◌<◌, ◌≡◌, ◌≢◌, refl, ap, ap₂, sym, ◌∙◌, some, length,
  arith, get_or, length-set, get_or-set_self, get_or-set_ne, ◌==◌, true, inl, inr,
}
use hex_net.Timer.{Entry, TimerHeap, absent, precedes, placed, parent}
use hex_net.Timer.Linked.{
  entry_at, place_of, one, one_le, present, present-set, due_there, due_kept,
}
use hex_net.Timer.Swap.{one_present}
use hex_net.Timer.Up.{IsRising, hole_entry, other_entry}
use hex_net.Timer.Sift.{IsValid, IsUpdated}
use native.Mathlib.Decide.{ℕ_discrete}

present_le : (positions : List ℕ) → present positions ≤ length positions
present_le [] = omega arith
present_le (p ∷ positions) = omega (arith, one_le p, present_le positions)

-- Where a slot has no place, there is room for one more entry.
present_lt :
    (positions : List ℕ) (slot : ℕ)
    → slot < length positions
    → get_or positions slot 0 ≡ absent
    → present positions < length positions
present_lt [] slot lt gone = absurd (omega arith)
present_lt (p ∷ positions) zero lt gone =
    let zero_here : (p == absent) ≡ true = ground arith in
    let nothing : one p ≡ 0 = rw zero_here refl in omega (arith, nothing, present_le positions)
present_lt (p ∷ positions) (suc slot) lt gone =
    omega (arith, one_le p, present_lt positions slot (omega arith) gone)

-- The heap with an entry behind its last.
abbrev pub added_state : TimerHeap → ℕ → ℕ → TimerHeap
added_state t slot at =
    placed (record t { len = t.len + 1 }) t.len (record { at = at; slot = slot })

module _ (t : TimerHeap) (slot at : ℕ) (valid : IsValid t) (lt : slot < length t.positions)
    (gone : place_of t slot ≡ absent) where
  pub room_for_one : t.len < length t.entries
  room_for_one =
      omega (arith, present_lt t.positions slot lt gone, valid.linked.count, valid.linked.same_len)

  added_here : entry_at (added_state t slot at) t.len ≡ record { at = at; slot = slot }
  added_here = hole_entry t t.len (record { at = at; slot = slot }) room_for_one

  added_other : (k : ℕ) → k < t.len → entry_at (added_state t slot at) k ≡ entry_at t k
  added_other k k_lt =
      other_entry t t.len k (record { at = at; slot = slot }) (λ e. absurd (omega arith))

  place_here : place_of (added_state t slot at) slot ≡ t.len
  place_here = get_or-set_self t.positions slot t.len 0 lt

  place_other :
      (other : ℕ) → other ≢ slot → place_of (added_state t slot at) other ≡ place_of t other
  place_other other ne = get_or-set_ne t.positions slot other t.len 0 (λ e. ne (sym e))

  added_forth :
      (k : ℕ)
      → k < t.len + 1
      → ((entry_at (added_state t slot at) k).slot < length t.positions)
        × (place_of (added_state t slot at) (entry_at (added_state t slot at) k).slot ≡ k)
  added_forth k k_lt = elim (ℕ_discrete k t.len) [
    | yes e ↦
        let here = ap (entry_at (added_state t slot at)) e ∙ added_here in
        let s = ap (λ (x : Entry). x.slot) here in
        (omega arith, ap (place_of (added_state t slot at)) s ∙ place_here ∙ sym e)
    | no ne ↦
        let inside : k < t.len = omega arith in
        let (s_lt, back) = valid.linked.forth k inside in
        let s = ap (λ (x : Entry). x.slot) (added_other k inside) in
        let differ : (entry_at t k).slot ≢ slot = λ e.
          (let both : absent ≡ k = sym gone ∙ ap (place_of t) (sym e) ∙ back in
            absurd (omega (arith, room_for_one, valid.linked.same_len, valid.linked.small))) in
        (
          omega arith,
          ap (place_of (added_state t slot at)) s ∙ place_other (entry_at t k).slot differ ∙ back,
        )
  ]

  pub added-IsUpdated : IsUpdated t (added_state t slot at) slot (some at)
  added-IsUpdated =
      let linked = valid.linked in
      let room = room_for_one in
      let len_e = length-set t.entries t.len (record { at = at; slot = slot }) in
      let len_p = length-set t.positions slot t.len in
      let real : t.len ≢ absent = λ e. absurd (omega (arith, linked.same_len, linked.small)) in
      record {
        linked = record {
          room = omega arith;
          same_len = omega (arith, linked.same_len);
          small = omega (arith, linked.small);
          count = omega (
            arith,
            present-set t.positions slot t.len lt,
            linked.count,
            ap one gone,
            one_present t.len real,
          );
          forth = λ k k_lt. (let (s_lt, back) = added_forth k k_lt in (omega arith, back));
          back = λ other other_lt. elim (ℕ_discrete other slot) [
            | yes e ↦
                let at_end = ap (place_of (added_state t slot at)) e ∙ place_here in
                inr (
                  omega arith,
                  ap (λ p. (entry_at (added_state t slot at) p).slot) at_end
                      ∙ ap (λ (x : Entry). x.slot) added_here
                      ∙ sym e,
                )
            | no ne ↦
                let same = place_other other ne in
                elim (linked.back other (omega arith)) [
                  | inl nowhere ↦ inl (same ∙ nowhere)
                  | inr (inside, there) ↦ inr (
                    omega arith,
                    ap (λ p. (entry_at (added_state t slot at) p).slot) same
                        ∙ ap (λ (x : Entry). x.slot) (added_other (place_of t other) inside)
                        ∙ there,
                  )
                ]
          ];
        };
        slots = len_p;
        here =
            due_there (added_state t slot at) slot t.len place_here real
            ∙ ap (λ (x : Entry). some x.at) added_here;
        others = λ other other_lt ne.
            due_kept t other (added_state t slot at) linked other_lt (place_other other ne)
              (λ inside there. added_other (place_of t other) inside);
      }

  pub added-IsRising : IsRising (added_state t slot at) t.len
  added-IsRising = record {
    ordered = λ k pos k_lt ne.
        ap₂ precedes (added_other k (omega arith)) (added_other (parent k) (omega arith))
        ∙ valid.order.ordered k pos (omega arith);
    below = λ k pos k_lt e len_pos. absurd (omega arith);
  }
