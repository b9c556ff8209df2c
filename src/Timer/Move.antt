-- ===== src/Timer/Move.antt =====
-- A slot whose deadline moves, in `TimerHeap::set` of hex-net-core/src/timer.rs.
use hex_net.Common.{
  ℕ, ◌≤◌, ◌<◌, ◌≡◌, ◌≢◌, refl, ap, ap₂, sym, ◌∙◌, some, arith, set, length-set, get_or-set_self,
  get_or-set_ne, true, false, inl, inr,
}
use hex_net.Timer.{Entry, TimerHeap, precedes, parent}
use hex_net.Timer.Linked.{no_entry, entry_at, place_of, due, due_there, due_kept}
use hex_net.Timer.Up.{not_before_trans, not_before_lower, under_parent, under_grandparent, IsRising}
use hex_net.Timer.Down.{IsSinking}
use hex_net.Timer.Sift.{IsValid, IsUpdated}
use native.Mathlib.Decide.{ℕ_discrete}

earlier_precedes : (a b : Entry) → a.at < b.at → precedes a b ≡ true
unfolding precedes
earlier_precedes a b h = ground arith

later_not_before : (a b : Entry) → b.at ≤ a.at → a.slot ≡ b.slot → precedes a b ≡ false
unfolding precedes
later_not_before a b h e = ground arith

-- The entry of a slot with another deadline.
abbrev pub moved_state : TimerHeap → ℕ → ℕ → TimerHeap
moved_state t i at = record t {
  entries = set t.entries i (record { at = at; slot = (entry_at t i).slot });
}

module _ (t : TimerHeap) (i at : ℕ) (valid : IsValid t) (lt : i < t.len) where
  moved_here : entry_at (moved_state t i at) i ≡ record { at = at; slot = (entry_at t i).slot }
  moved_here =
      get_or-set_self t.entries i (record { at = at; slot = (entry_at t i).slot }) no_entry
        (omega (arith, valid.linked.room))

  moved_other : (k : ℕ) → k ≢ i → entry_at (moved_state t i at) k ≡ entry_at t k
  moved_other k ne =
      get_or-set_ne t.entries i k (record { at = at; slot = (entry_at t i).slot }) no_entry
        (λ e. ne (sym e))

  moved_slot : (k : ℕ) → (entry_at (moved_state t i at) k).slot ≡ (entry_at t k).slot
  moved_slot k = elim (ℕ_discrete k i) [
    | yes e ↦
        ap (λ k'. (entry_at (moved_state t i at) k').slot) e
        ∙ ap (λ (x : Entry). x.slot) moved_here
        ∙ ap (λ k'. (entry_at t k').slot) (sym e)
    | no ne ↦ ap (λ (x : Entry). x.slot) (moved_other k ne)
  ]

  pub moved-IsUpdated : IsUpdated t (moved_state t i at) (entry_at t i).slot (some at)
  unfolding due
  moved-IsUpdated =
      let linked = valid.linked in
      let len = length-set t.entries i (record { at = at; slot = (entry_at t i).slot }) in
      let (slot_lt, back) = linked.forth i lt in
      record {
        linked = record {
          room = omega (arith, linked.room, len);
          same_len = omega (arith, linked.same_len, len);
          small = linked.small;
          count = linked.count;
          forth = λ k k_lt.
              (let (inside, k_back) = linked.forth k k_lt in
                (omega (arith, moved_slot k), ap (place_of t) (moved_slot k) ∙ k_back));
          back = λ slot s_lt. elim (linked.back slot s_lt) [
            | inl nowhere ↦ inl nowhere
            | inr (inside, there) ↦ inr (inside, moved_slot (place_of t slot) ∙ there)
          ];
        };
        slots = refl;
        here =
            due_there (moved_state t i at) (entry_at t i).slot i back
              (λ e. absurd (omega (arith, linked.room, linked.small, linked.same_len)))
            ∙ ap (λ (x : Entry). some x.at) moved_here;
        others = λ other other_lt ne.
            due_kept t other (moved_state t i at) linked other_lt refl (λ inside there.
              moved_other (place_of t other)
                (λ e. ne (sym there ∙ ap (λ k. (entry_at t k).slot) e)));
      }

  -- An earlier deadline may only belong further up.
  pub moved-IsRising : at < (entry_at t i).at → IsRising (moved_state t i at) i
  moved-IsRising earlier =
      let new : Entry = record { at = at; slot = (entry_at t i).slot } in
      record {
        ordered = λ k pos k_lt ne. elim (ℕ_discrete (parent k) i) [
          | yes e ↦
              ap₂ precedes (moved_other k ne) (ap (entry_at (moved_state t i at)) e ∙ moved_here)
              ∙ not_before_lower (entry_at t k) (entry_at t i) new
                  (under_parent t k i valid.order pos k_lt e)
                  (earlier_precedes new (entry_at t i) earlier)
          | no up ↦
              ap₂ precedes (moved_other k ne) (moved_other (parent k) up)
              ∙ valid.order.ordered k pos (omega arith)
        ];
        below = λ k pos k_lt e i_pos.
            ap₂ precedes (moved_other k (λ same. absurd (omega arith)))
              (moved_other (parent i) (λ same. absurd (omega arith)))
            ∙ under_grandparent t k i valid.order pos k_lt e i_pos;
      }

  -- A later deadline may only belong further down.
  pub moved-IsSinking : (entry_at t i).at ≤ at → IsSinking (moved_state t i at) i
  moved-IsSinking later =
      let new : Entry = record { at = at; slot = (entry_at t i).slot } in
      record {
        ordered = λ k pos k_lt up. elim (ℕ_discrete k i) [
          | yes e ↦
              ap₂ precedes (ap (entry_at (moved_state t i at)) e ∙ moved_here)
                (moved_other (parent k) up)
              ∙ not_before_trans new (entry_at t i) (entry_at t (parent k))
                  (later_not_before new (entry_at t i) later refl)
                  (ap (λ m. precedes (entry_at t m) (entry_at t (parent k))) (sym e)
                    ∙ valid.order.ordered k pos (omega arith))
          | no ne ↦
              ap₂ precedes (moved_other k ne) (moved_other (parent k) up)
              ∙ valid.order.ordered k pos (omega arith)
        ];
        below = λ k pos k_lt e i_pos.
            ap₂ precedes (moved_other k (λ same. absurd (omega arith)))
              (moved_other (parent i) (λ same. absurd (omega arith)))
            ∙ under_grandparent t k i valid.order pos k_lt e i_pos;
      }
