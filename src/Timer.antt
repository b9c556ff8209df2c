-- ===== src/Timer.antt =====
-- hex-net-core/src/timer.rs: an indexed binary min-heap of deadlines. `none` of an operation is a panic
-- (an index past an array), or a sift that ran out of fuel.
pub mod Linked
pub mod Swap
pub mod Up
pub mod Down
pub mod Sift
pub mod Move
pub mod Add
pub mod Set
pub mod Fill
pub mod Remove
pub mod Peek
pub mod New
use hex_net.Common.{
  ℕ, zero, suc, ◌+◌, ◌-◌, ◌*◌, ◌/◌, Bool, true, false, not, ◌&&◌, ◌||◌, Option, none, some, List,
  ltb, leb, ◌==◌, if◌then◌else◌, ◌>>=◌, length, get_elem?, set, replicate, u32_max,
}

abbrev pub absent : ℕ
absent = u32_max

pub record Entry : Type 0 where
  pub at : ℕ
  pub slot : ℕ

-- The order of the pairs of deadline and slot.
unfoldable pub precedes : Entry → Entry → Bool
precedes a b = ltb a.at b.at || (a.at == b.at && ltb a.slot b.slot)

pub record TimerHeap : Type 0 where
  pub entries : List Entry
  pub len : ℕ
  pub positions : List ℕ

-- `none` is the assertion on the count.
unfoldable pub with_slots : ℕ → Option TimerHeap
with_slots slots =
    if ltb slots absent
    then some (record {
      entries = replicate slots (record { at = 0; slot = absent });
      len = 0;
      positions = replicate slots absent;
    })
    else none

abbrev pub is_empty : TimerHeap → Bool
is_empty t = t.len == 0

abbrev pub deadline_at : TimerHeap → Option ℕ → Option (Option ℕ)
deadline_at t none = some none
deadline_at t (some position) =
    if position == absent
    then some none
    else (do entry ← get_elem? t.entries position; some (some entry.at))

unfoldable pub deadline : TimerHeap → ℕ → Option (Option ℕ)
deadline t slot = deadline_at t (get_elem? t.positions slot)

unfoldable pub peek : TimerHeap → Option (Option Entry)
peek t = if ltb 0 t.len then (do entry ← get_elem? t.entries 0; some (some entry)) else some none

abbrev pub placed : TimerHeap → ℕ → Entry → TimerHeap
placed t position entry = record t {
  entries = set t.entries position entry;
  positions = set t.positions entry.slot position;
}

unfoldable pub place : TimerHeap → ℕ → Entry → Option TimerHeap
place t position entry =
    if ltb position (length t.entries) && ltb entry.slot (length t.positions)
    then some (placed t position entry)
    else none

abbrev pub parent : ℕ → ℕ
parent position = (position - 1) / 2

-- The loop of `sift_up` and the write behind it.
unfoldable pub rise : ℕ → TimerHeap → ℕ → Entry → Option TimerHeap
rise zero t position entry = none
rise (suc fuel) t position entry =
    if ltb 0 position
    then (do
      above ← get_elem? t.entries (parent position)
      (if precedes entry above
          then (do t' ← place t position above; rise fuel t' (parent position) entry)
          else place t position entry))
    else place t position entry

unfoldable pub sift_up : TimerHeap → ℕ → Option TimerHeap
sift_up t position = do entry ← get_elem? t.entries position; rise (suc position) t position entry

-- The child that comes first.
unfoldable pub first_child : TimerHeap → ℕ → Option ℕ
first_child t left =
    if ltb (left + 1) t.len
    then (do
      a ← get_elem? t.entries (left + 1)
      b ← get_elem? t.entries left
      some (if precedes a b then left + 1 else left))
    else some left

-- The loop of `sift_down` and the write behind it.
unfoldable pub sink : ℕ → TimerHeap → ℕ → Entry → Option TimerHeap
sink zero t position entry = none
sink (suc fuel) t position entry =
    if leb t.len (2 * position + 1) then place t position entry else (do
      child ← first_child t (2 * position + 1)
      below ← get_elem? t.entries child
      (if precedes below entry
          then (do t' ← place t position below; sink fuel t' child entry)
          else place t position entry))

unfoldable pub sift_down : TimerHeap → ℕ → Option TimerHeap
sift_down t position = do entry ← get_elem? t.entries position; sink (suc t.len) t position entry

-- The deadline of the entry at a position, moved.
abbrev pub move : TimerHeap → ℕ → ℕ → Option TimerHeap
move t position at = do
  entry ← get_elem? t.entries position
  (let t' = record t { entries = set t.entries position (record entry { at = at }) } in
      if ltb at entry.at then sift_up t' position else sift_down t' position)

abbrev pub add : TimerHeap → ℕ → ℕ → Option TimerHeap
add t slot at = do
  t' ← place (record t { len = t.len + 1 }) t.len (record { at = at; slot = slot })
  sift_up t' t.len

unfoldable pub set_deadline : TimerHeap → ℕ → ℕ → Option TimerHeap
set_deadline t slot at = do
  position ← get_elem? t.positions slot
  (if position == absent then add t slot at else move t position at)

-- Whether the entry belongs above its position.
unfoldable pub belongs_above : TimerHeap → ℕ → Entry → Option Bool
belongs_above t position entry =
    if ltb 0 position
    then (do above ← get_elem? t.entries (parent position); some (precedes entry above))
    else some false

unfoldable pub remove_at : TimerHeap → ℕ → Option TimerHeap
remove_at t position = do
  removed ← get_elem? t.entries position
  (let t1 = record t { positions = set t.positions removed.slot absent; len = t.len - 1 } in
      if position == t.len - 1 then some t1 else (do
        last ← get_elem? t.entries (t.len - 1)
        t2 ← place t1 position last
        above ← belongs_above t2 position last
        (if above then sift_up t2 position else sift_down t2 position)))

unfoldable pub cancel : TimerHeap → ℕ → Option TimerHeap
cancel t slot = do
  position ← get_elem? t.positions slot
  (if position == absent then some t else remove_at t position)

abbrev pub pop_peeked : TimerHeap → ℕ → Option Entry → Option (TimerHeap × Option ℕ)
pop_peeked t now none = some (t, none)
pop_peeked t now (some entry) =
    if ltb now entry.at then some (t, none) else (do t' ← remove_at t 0; some (t', some entry.slot))

unfoldable pub pop_due : TimerHeap → ℕ → Option (TimerHeap × Option ℕ)
pop_due t now = do first ← peek t; pop_peeked t now first
