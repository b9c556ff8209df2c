-- ===== src/Ack/Count.antt =====
-- The count of packets in flight in `Delivery` of hex-net-core/src/ack.rs is the number of slots that
-- hold one, and each record that leaves them is returned once.
use hex_net.Common.{
  ℕ, zero, suc, ◌+◌, ◌-◌, ◌%◌, ◌^◌, ◌≤◌, ◌<◌, ◌≡◌, refl, ap, Option, none, some, List, [], ◌∷◌,
  arith, Bool-cases, inl, inr, ◌==◌, if◌then◌else◌, get_or, set, length, length-set,
}
use hex_net.Time.Timestamp.{Timestamp}
use hex_net.Seq.{Sequence}
use hex_net.Seq.Buffer.{Entry, slot, slot-lt, item_for, evicted, get, insert}
use hex_net.Ack.Delivery.{
  Delivery, Sent, State, Resolved, acked, lost, spurious, in_flight, state_acked, state_lost,
  eliciting, newest_of, put_state, flies, advance_oldest, on_evicted, track, on_sent, settle,
  resolve,
}

module _ {P : Type 0} where
  abbrev pub weight : Option (Entry (Sent P)) → ℕ
  weight none = 0
  weight (some e) = if flies 0 e.item.state then 1 else 0

  -- The slots that hold a packet in flight.
  unfoldable pub flights : List (Option (Entry (Sent P))) → ℕ
  flights [] = 0
  flights (e ∷ rest) = weight e + flights rest

  -- The records that the notices return.
  unfoldable pub returned : List (Resolved P) → ℕ
  returned [] = 0
  returned (acked p ∷ rest) = suc (returned rest)
  returned (lost p ∷ rest) = suc (returned rest)
  returned (spurious ∷ rest) = returned rest

  flights-set :
      (xs : List (Option (Entry (Sent P)))) (i : ℕ) (v : Option (Entry (Sent P)))
      → i < length xs
      → flights (set xs i v) + weight (get_or xs i none) ≡ flights xs + weight v
  unfolding flights
  flights-set [] i v h = absurd (omega arith)
  flights-set (x ∷ xs) zero v h = omega arith
  flights-set (x ∷ xs) (suc i) v h = let ih = flights-set xs i v (omega arith) in omega arith

  flights-le : (xs : List (Option (Entry (Sent P)))) → flights xs ≤ length xs
  unfolding flights
  flights-le [] = omega arith
  flights-le (none ∷ xs) = let ih = flights-le xs in omega arith
  flights-le (some e ∷ xs) = let ih = flights-le xs in ground arith

  -- The ledger has its slots, and its counter is the number of packets in flight.
  pub record IsCounted (n : ℕ) (d : Delivery P) : Type 0 where
    pub storage : length d.sent.slots ≡ n
    pub counted : flights d.sent.slots ≡ d.in_flight

  module _ (n k : ℕ) (power : n ≡ 2 ^ k) (small : n < 2 ^ 32 - 1) where
    -- One slot written: the packets in flight before and after.
    slot_written :
        (d : Delivery P) (s : Sequence) (o v : Option (Entry (Sent P)))
        → IsCounted n d
        → get_or d.sent.slots (slot n s) none ≡ o
        → (length (set d.sent.slots (slot n s) v) ≡ n)
          × (flights (set d.sent.slots (slot n s) v) + weight o ≡ d.in_flight + weight v)
          × (d.in_flight < 2 ^ 32 - 1)
    slot_written d s o v c e =
        let inside : slot n s < length d.sent.slots =
          omega (arith, slot-lt n k s power, c.storage) in
        let f = flights-set d.sent.slots (slot n s) v inside in
        let w = ap weight e in
        (
          omega (arith, length-set d.sent.slots (slot n s) v, c.storage),
          omega (arith, c.counted),
          omega (arith, c.counted, c.storage, flights-le d.sent.slots),
        )

    settle_state :
        (d : Delivery P) (s t : Sequence) (at : Timestamp) (st : State P)
        → IsCounted n d
        → get_or d.sent.slots (slot n s) none
          ≡ some (record { seq = t; item = record { sent_at = at; state = st } })
        → let (d', sent_at, events) = settle n d s (some (record { sent_at = at; state = st })) in
          IsCounted n d' × (d'.in_flight + returned events ≡ d.in_flight)
    unfolding settle put_state returned
    settle_state d s t at (in_flight p) c e =
        let v : Entry (Sent P) = record {
          seq = s;
          item = record { sent_at = at; state = state_acked };
        } in
        let (whole, count, word) = slot_written d s _ (some v) c e in
        (record { storage = whole; counted = omega arith }, omega arith)
    settle_state d s t at state_acked c e =
        let v : Entry (Sent P) = record {
          seq = s;
          item = record { sent_at = at; state = state_acked };
        } in
        let (whole, count, word) = slot_written d s _ (some v) c e in
        (record { storage = whole; counted = omega arith }, omega arith)
    settle_state d s t at state_lost c e =
        let v : Entry (Sent P) = record {
          seq = s;
          item = record { sent_at = at; state = state_acked };
        } in
        let (whole, count, word) = slot_written d s _ (some v) c e in
        (record { storage = whole; counted = omega arith }, omega arith)

    settle_item :
        (d : Delivery P) (s : Sequence) (o : Option (Entry (Sent P)))
        → IsCounted n d
        → get_or d.sent.slots (slot n s) none ≡ o
        → let (d', sent_at, events) = settle n d s (item_for s o) in
          IsCounted n d' × (d'.in_flight + returned events ≡ d.in_flight)
    unfolding settle returned
    settle_item d s none c e = (c, omega arith)
    settle_item d s (some x) c e = elim (Bool-cases (x.seq == s)) [
      | inl q ↦ rw q (settle_state d s x.seq x.item.sent_at x.item.state c e)
      | inr q ↦ rw q (c, omega arith)
    ]

    -- In a ledger of 2^k slots, fewer than 2^32 - 1, whose counter is the number of packets in
    -- flight, marking a packet delivered keeps it so, and lowers the counter by the number of
    -- records that it returns.
    pub resolve-IsCounted :
        (d : Delivery P) (s : Sequence)
        → IsCounted n d
        → let (d', sent_at, events) = resolve n d s in
          IsCounted n d' × (d'.in_flight + returned events ≡ d.in_flight)
    unfolding resolve get
    resolve-IsCounted d s c = settle_item d s _ c refl

    evicted_state :
        (d : Delivery P) (s : Sequence) (o : Option (Entry (Sent P))) (now : Timestamp) (p : P)
        → IsCounted n d
        → get_or d.sent.slots (slot n s) none ≡ o
        → let (d', events) =
            on_evicted n
              (record d {
                last_eliciting = now;
                in_flight = (d.in_flight + 1) % 2 ^ 32;
                sent = record {
                  slots = set d.sent.slots (slot n s) (
                      some
                        (record { seq = s; item = record { sent_at = now; state = in_flight p } }));
                };
              })
              (evicted o) in
          IsCounted n d' × (d'.in_flight + returned events ≡ d.in_flight + 1)
    unfolding returned
    evicted_state d s none now p c e =
        let v : Entry (Sent P) = record {
          seq = s;
          item = record { sent_at = now; state = in_flight p };
        } in
        let (whole, count, word) = slot_written d s _ (some v) c e in
        (record { storage = whole; counted = omega arith }, omega arith)
    evicted_state d s (some x) now p c e = by_state x.item.state refl
      where
        by_state :
            (st : State P)
            → x.item.state ≡ st
            → let (d', events) =
                on_evicted n
                  (record d {
                    last_eliciting = now;
                    in_flight = (d.in_flight + 1) % 2 ^ 32;
                    sent = record {
                      slots = set d.sent.slots (slot n s) (
                          some (record {
                            seq = s;
                            item = record { sent_at = now; state = in_flight p };
                          }));
                    };
                  })
                  (some (x.seq, record { sent_at = x.item.sent_at; state = st })) in
              IsCounted n d' × (d'.in_flight + returned events ≡ d.in_flight + 1)
        by_state (in_flight p') q =
            let v : Entry (Sent P) = record {
              seq = s;
              item = record { sent_at = now; state = in_flight p };
            } in
            let (whole, count, word) = slot_written d s _ (some v) c e in
            let w = ap {B = ℕ} (λ (t : State P). if flies 0 t then 1 else 0) q in
            (record { storage = whole; counted = omega (arith, w) }, omega (arith, w))
        by_state state_acked q =
            let v : Entry (Sent P) = record {
              seq = s;
              item = record { sent_at = now; state = in_flight p };
            } in
            let (whole, count, word) = slot_written d s _ (some v) c e in
            let w = ap {B = ℕ} (λ (t : State P). if flies 0 t then 1 else 0) q in
            (record { storage = whole; counted = omega (arith, w) }, omega (arith, w))
        by_state state_lost q =
            let v : Entry (Sent P) = record {
              seq = s;
              item = record { sent_at = now; state = in_flight p };
            } in
            let (whole, count, word) = slot_written d s _ (some v) c e in
            let w = ap {B = ℕ} (λ (t : State P). if flies 0 t then 1 else 0) q in
            (record { storage = whole; counted = omega (arith, w) }, omega (arith, w))

    advance_lem :
        (d : Delivery P) (l : Option Sequence)
        → d.largest_sent ≡ l
        → IsCounted n d
        → IsCounted n (advance_oldest n d) × ((advance_oldest n d).in_flight ≡ d.in_flight)
    unfolding advance_oldest
    advance_lem d none e c = rw e (record { storage = c.storage; counted = c.counted }, refl)
    advance_lem d (some l) e c = rw e (record { storage = c.storage; counted = c.counted }, refl)

    -- In a ledger of 2^k slots, fewer than 2^32 - 1, whose counter is the number of packets in
    -- flight, sending a packet that the peer acknowledges keeps it so: the counter grows by one,
    -- less the record that is returned when the packet of the taken slot was in flight.
    pub on_sent-IsCounted :
        (d : Delivery P) (now : Timestamp) (s : Sequence) (p : P)
        → IsCounted n d
        → let (d', events) = on_sent n d now s (eliciting p) in
          IsCounted n d' × (d'.in_flight + returned events ≡ d.in_flight + 1)
    unfolding on_sent track insert
    on_sent-IsCounted d now s p c =
        let c' : IsCounted n (record d { largest_sent = some (newest_of d.largest_sent s) }) =
          record { storage = c.storage; counted = c.counted } in
        let (t, total) =
          evicted_state (record d { largest_sent = some (newest_of d.largest_sent s) }) s _ now p c'
            refl in
        let (u, same) = advance_lem _ _ refl t in (u, omega arith)
