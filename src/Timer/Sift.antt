-- ===== src/Timer/Sift.antt =====
-- `TimerHeap::sift_up` and `sift_down` of hex-net-core/src/timer.rs from the entry's own position.
use hex_net.Common.{
  Option, ℕ, zero, suc, ◌≤◌, ◌<◌, ◌≡◌, ◌≢◌, refl, ap, ap₂, sym, subst, ◌∙◌, some, none, List, [],
  ◌∷◌, length, arith, get_or, set, get_elem?-eq-get_or, get_elem?-above, Bool-cases, ltb, inl, inr,
}
use hex_net.Timer.{TimerHeap, placed, sift_up, sift_down, deadline}
use hex_net.Timer.Linked.{IsLinked, no_entry, entry_at, due, deadline-due}
use hex_net.Timer.Up.{IsOrdered, IsRising, IsSifted, rise_lem}
use hex_net.Timer.Down.{IsSinking, sink_lem}

-- The tables agree, and the order is a heap's.
pub record IsValid (t : TimerHeap) : Type 0 where
  pub linked : IsLinked t
  pub order : IsOrdered t

set_same : {B : Type 0} (xs : List B) (i : ℕ) (d : B) → set xs i (get_or xs i d) ≡ xs
set_same [] i d = refl
set_same (x ∷ xs) zero d = refl
set_same (x ∷ xs) (suc i) d = ap (◌∷◌ x) (set_same xs i d)

-- An entry placed where it is changes nothing.
placed_same : (t : TimerHeap) (i : ℕ) → IsLinked t → i < t.len → placed t i (entry_at t i) ≡ t
placed_same t i linked lt =
    let (inside, back) = linked.forth i lt in
    ap₂ (λ entries positions. record t { entries = entries; positions = positions })
      (set_same t.entries i no_entry)
      (ap (set t.positions (entry_at t i).slot) (sym back)
        ∙ set_same t.positions (entry_at t i).slot 0)

pub sift_up_lem :
    (t : TimerHeap) (i : ℕ)
    → IsLinked t
    → IsRising t i
    → i < t.len
    → (t' : TimerHeap) × (sift_up t i ≡ some t') × IsSifted t t'
unfolding sift_up
sift_up_lem t i linked rising lt =
    let same = placed_same t i linked lt in
    let found = get_elem?-eq-get_or t.entries i no_entry (omega (arith, linked.room)) in
    let (t', done, sifted) =
      rise_lem (suc i) t i (entry_at t i) (subst IsLinked (sym same) linked)
        (subst (λ s. IsRising s i) (sym same) rising) lt (linked.forth i lt).0 (omega arith) in
    (t', rw found done, subst (λ s. IsSifted s t') same sifted)

pub sift_down_lem :
    (t : TimerHeap) (i : ℕ)
    → IsLinked t
    → IsSinking t i
    → i < t.len
    → (t' : TimerHeap) × (sift_down t i ≡ some t') × IsSifted t t'
unfolding sift_down
sift_down_lem t i linked sinking lt =
    let same = placed_same t i linked lt in
    let found = get_elem?-eq-get_or t.entries i no_entry (omega (arith, linked.room)) in
    let (t', done, sifted) =
      sink_lem (suc t.len) t i (entry_at t i) (subst IsLinked (sym same) linked)
        (subst (λ s. IsSinking s i) (sym same) sinking) lt (linked.forth i lt).0 (omega arith) in
    (t', rw found done, subst (λ s. IsSifted s t') same sifted)

-- Past the last slot there is no deadline.
pub deadline-above :
    (t : TimerHeap) (slot : ℕ) → length t.positions ≤ slot → deadline t slot ≡ some none
unfolding deadline
deadline-above t slot over = rw (get_elem?-above t.positions slot over) refl

-- Slots that are due alike have the same deadline.
pub deadline_same :
    (t t' : TimerHeap) (slot : ℕ)
    → IsLinked t
    → IsLinked t'
    → length t'.positions ≡ length t.positions
    → (slot < length t.positions → due t' slot ≡ due t slot)
    → deadline t' slot ≡ deadline t slot
deadline_same t t' slot linked linked' len same =
    elim (Bool-cases (ltb slot (length t.positions))) [
      | inl inside ↦
          let lt : slot < length t.positions = ground arith in
          deadline-due t' slot linked' (omega arith)
          ∙ ap some (same lt)
          ∙ sym (deadline-due t slot linked lt)
      | inr past ↦
          let over : length t.positions ≤ slot = ground arith in
          deadline-above t' slot (omega arith) ∙ sym (deadline-above t slot over)
    ]

-- One slot's deadline is another or gone, and the other slots have theirs.
pub record IsUpdated (t t' : TimerHeap) (slot : ℕ) (now : Option ℕ) : Type 0 where
  pub linked : IsLinked t'
  pub slots : length t'.positions ≡ length t.positions
  pub here : due t' slot ≡ now
  pub others : (other : ℕ) → other < length t.positions → other ≢ slot → due t' other ≡ due t other

-- An update, and what the sift behind it keeps.
pub sifted-IsUpdated :
    (t t1 t' : TimerHeap) (slot : ℕ) (now : Option ℕ)
    → slot < length t.positions
    → IsUpdated t t1 slot now
    → IsSifted t1 t'
    → IsUpdated t t' slot now
sifted-IsUpdated t t1 t' slot now lt updated sifted = record {
  linked = sifted.linked;
  slots = sifted.slots ∙ updated.slots;
  here = sifted.same slot (omega (arith, updated.slots)) ∙ updated.here;
  others = λ other other_lt ne.
      sifted.same other (omega (arith, updated.slots)) ∙ updated.others other other_lt ne;
}
