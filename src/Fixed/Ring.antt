-- ===== src/Fixed/Ring.antt =====
-- `RingQueue<T, N>` of hex-net-core/src/fixed.rs: a FIFO that drops its oldest entry when full.
-- Counters are unbounded numbers: `dropped` would have to pass 2^64 pushes to wrap.
pub mod Refine
use hex_net.Common.{
  ℕ, ◌+◌, ◌-◌, ◌≤◌, ◌<◌, ◌≡◌, bit_and, Option, none, some, List, ◌==◌, if◌then◌else◌, length,
  get_elem?, set, replicate,
}

pub record RingQueue {ℓ} (A : Type ℓ) : Type ℓ where
  pub items : List A
  pub head : ℕ
  pub len : ℕ
  pub dropped : ℕ

-- `(head + 1) & (N - 1)`.
abbrev pub advance : ℕ → ℕ → ℕ
advance size head = bit_and (head + 1) (size - 1)

module _ {ℓ} {A : Type ℓ} (size : ℕ) where
  unfoldable pub new : A → RingQueue A
  new default = record { items = replicate size default; head = 0; len = 0; dropped = 0 }

  -- The oldest entry dropped from a full queue.
  pub make_room : RingQueue A → RingQueue A
  make_room q =
      if q.len == size
      then record q { head = advance size q.head; len = q.len - 1; dropped = q.dropped + 1 }
      else q

  pub store : RingQueue A → A → RingQueue A
  store q item = record q {
    items = set q.items (bit_and (q.head + q.len) (size - 1)) item;
    len = q.len + 1;
  }

  unfoldable pub push : RingQueue A → A → RingQueue A
  push q item = store (make_room q) item

  unfoldable pub pop : RingQueue A → Option A × RingQueue A
  pop q =
      if q.len == 0
      then (none, q)
      else (get_elem? q.items q.head, record q { head = advance size q.head; len = q.len - 1 })

  pub record IsValid (q : RingQueue A) : Type 0 where
    pub storage : length q.items ≡ size
    pub head_in : q.head < size
    pub len_in : q.len ≤ size
