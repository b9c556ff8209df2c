-- ===== src/Timer/Swap.antt =====
-- Two writes of `TimerHeap::place` (hex-net-core/src/timer.rs) change two entries over.
use hex_net.Common.{
  ℕ, ◌<◌, ◌≡◌, ◌≢◌, refl, ap, sym, subst, ◌∙◌, length, length-set, get_or, set, arith,
  get_or-set_self, get_or-set_ne, ltb, true, some, List, ◌==◌, false,
}
use hex_net.Timer.{Entry, TimerHeap, absent, place, placed}
use hex_net.Timer.Linked.{
  IsLinked, IsSwapped, no_entry, entry_at, place_of, one, present, present-set,
}

pub place_made :
    (t : TimerHeap) (i : ℕ) (e : Entry)
    → i < length t.entries
    → e.slot < length t.positions
    → place t i e ≡ some (placed t i e)
unfolding place
place_made t i e i_lt slot_lt =
    let here : ltb i (length t.entries) ≡ true = ground arith in
    let there : ltb e.slot (length t.positions) ≡ true = ground arith in rw (here, there) refl

pub one_present : (p : ℕ) → p ≢ absent → one p ≡ 1
one_present p ne = let e : (p == absent) ≡ false = ground arith in rw e refl

-- As many slots have a place when one of them gives its place away for another.
present-moved :
    (positions : List ℕ) (x s i j : ℕ)
    → x < length positions
    → s < length positions
    → s ≢ x
    → get_or positions x 0 ≡ j
    → i ≢ absent
    → j ≢ absent
    → present (set (set positions x i) s j) ≡ present (set positions s i)
present-moved positions x s i j x_lt s_lt ne at i_real j_real =
    let was : one (get_or positions x 0) ≡ 1 = ap one at ∙ one_present j j_real in
    let left : one (get_or (set positions x i) s 0) ≡ one (get_or positions s 0) =
      ap one (get_or-set_ne positions x s i 0 (λ same. ne (sym same))) in
    omega (
      arith,
      was,
      left,
      one_present i i_real,
      one_present j j_real,
      present-set positions x i x_lt,
      present-set (set positions x i) s j (omega (arith, length-set positions x i)),
      present-set positions s i s_lt,
    )

-- The entry at `j` moves to the hole at `i`, and `e` from the hole to `j`.
pub moved-IsSwapped :
    (t : TimerHeap) (i j : ℕ) (e : Entry)
    → IsLinked (placed t i e)
    → i < t.len
    → j < t.len
    → i ≢ j
    → e.slot < length t.positions
    → IsSwapped (placed t i e) (placed (placed t i (entry_at t j)) j e) i j
moved-IsSwapped t i j e linked i_lt j_lt ne slot_lt =
    let v = placed t i e in
    let x = entry_at t j in
    let entries_len = length-set t.entries i e in
    let positions_len = length-set t.positions e.slot i in
    let i_in : i < length t.entries = omega (arith, linked.room) in
    let j_in : j < length t.entries = omega (arith, linked.room) in
    let v_i : entry_at v i ≡ e = get_or-set_self t.entries i e no_entry i_in in
    let v_j : entry_at v j ≡ x = get_or-set_ne t.entries i j e no_entry ne in
    let v_of_e : place_of v e.slot ≡ i = get_or-set_self t.positions e.slot i 0 slot_lt in
    let (x_lt, x_at) =
      subst (λ (y : Entry). (y.slot < length v.positions) × (place_of v y.slot ≡ j)) v_j
        (linked.forth j j_lt) in
    let apart : e.slot ≢ x.slot = λ same. ne (sym v_of_e ∙ ap (place_of v) same ∙ x_at) in
    let p_x : place_of t x.slot ≡ j =
      sym (get_or-set_ne t.positions e.slot x.slot i 0 apart) ∙ x_at in
    let e_len = length-set t.entries i x in
    let p_len = length-set t.positions x.slot i in
    record {
      len = refl;
      entries_len = omega (arith, entries_len, e_len, length-set (set t.entries i x) j e);
      positions_len =
          omega (arith, positions_len, p_len, length-set (set t.positions x.slot i) e.slot j);
      count =
          present-moved t.positions x.slot e.slot i j (omega arith) slot_lt apart p_x
            (λ same. absurd (omega (arith, linked.room, linked.small, linked.same_len)))
            (λ same. absurd (omega (arith, linked.room, linked.small, linked.same_len)));
      at_i =
          get_or-set_ne (set t.entries i x) j i e no_entry (λ same. ne (sym same))
          ∙ get_or-set_self t.entries i x no_entry i_in
          ∙ sym v_j;
      at_j = get_or-set_self (set t.entries i x) j e no_entry (omega arith) ∙ sym v_i;
      other = λ k ni nj.
          get_or-set_ne (set t.entries i x) j k e no_entry (λ same. nj (sym same))
          ∙ get_or-set_ne t.entries i k x no_entry (λ same. ni (sym same))
          ∙ sym (get_or-set_ne t.entries i k e no_entry (λ same. ni (sym same)));
      of_i =
          ap (λ (y : Entry). place_of (placed (placed t i x) j e) y.slot) v_i
          ∙ get_or-set_self (set t.positions x.slot i) e.slot j 0 (omega arith);
      of_j =
          ap (λ (y : Entry). place_of (placed (placed t i x) j e) y.slot) v_j
          ∙ get_or-set_ne (set t.positions x.slot i) e.slot x.slot j 0 apart
          ∙ get_or-set_self t.positions x.slot i 0 (omega arith);
      of_other = λ slot ni nj.
          (let ne_e : e.slot ≢ slot =
              λ same. ni (sym same ∙ ap (λ (y : Entry). y.slot) (sym v_i)) in
            let ne_x : x.slot ≢ slot =
              λ same. nj (sym same ∙ ap (λ (y : Entry). y.slot) (sym v_j)) in
            get_or-set_ne (set t.positions x.slot i) e.slot slot j 0 ne_e
            ∙ get_or-set_ne t.positions x.slot slot i 0 ne_x
            ∙ sym (get_or-set_ne t.positions e.slot slot i 0 ne_e));
    }
