-- ===== src/Timer/New.antt =====
-- `TimerHeap::with_slots` of hex-net-core/src/timer.rs.
use hex_net.Common.{
  ℕ, zero, suc, ◌<◌, ◌≡◌, refl, ap, sym, ◌∙◌, some, none, length, arith, ltb, true, replicate,
  length-replicate, get_or, inl,
}
use hex_net.Timer.{Entry, TimerHeap, absent, with_slots, deadline}
use hex_net.Timer.Linked.{present, IsLinked, deadline-due, due_nowhere}
use hex_net.Timer.Sift.{IsValid}

get_or-replicate : (n i p : ℕ) → i < n → get_or (replicate n p) i 0 ≡ p
get_or-replicate zero i p lt = absurd (omega arith)
get_or-replicate (suc n) zero p lt = refl
get_or-replicate (suc n) (suc i) p lt = get_or-replicate n i p (omega arith)

present-replicate : (n : ℕ) → present (replicate n absent) ≡ 0
present-replicate zero = refl
present-replicate (suc n) = omega (arith, present-replicate n)

-- Fewer slots than the mark of absence make a valid heap in which no slot has a deadline.
pub with_slots-IsValid :
    (slots : ℕ)
    → slots < absent
    → (t : TimerHeap) × (with_slots slots ≡ some t)
      × IsValid t
      × (length t.positions ≡ slots)
      × ((slot : ℕ) → slot < slots → deadline t slot ≡ some none)
unfolding with_slots
with_slots-IsValid slots small =
    let go : ltb slots absent ≡ true = ground arith in
    let free : Entry = record { at = 0; slot = absent } in
    let t : TimerHeap = record {
      entries = replicate slots free;
      len = 0;
      positions = replicate slots absent;
    } in
    let len_p = length-replicate slots absent in
    let linked : IsLinked t = record {
      room = omega arith;
      same_len = length-replicate slots free ∙ sym len_p;
      small = omega (arith, len_p);
      count = present-replicate slots;
      forth = λ i lt. absurd (omega arith);
      back = λ slot lt. inl (get_or-replicate slots slot absent (omega (arith, len_p)));
    } in
    (
      t,
      rw go refl,
      record { linked = linked; order = record { ordered = λ i pos lt. absurd (omega arith) } },
      len_p,
      λ slot lt.
          deadline-due t slot linked (omega (arith, len_p))
          ∙ ap some (due_nowhere t slot (get_or-replicate slots slot absent lt)),
    )
