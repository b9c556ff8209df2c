-- ===== src/Ack/Delivery.antt =====
-- `Delivery` of hex-net-core/src/ack.rs: the ledger of packets in flight. An operation returns the
-- ledger and, in order, what it notifies. The counter of a `u32` wraps; a sequence's successor is
-- taken below 2^64.
use hex_net.Common.{
  ℕ, zero, suc, ◌+◌, ◌-◌, ◌%◌, ◌^◌, min, Bool, true, false, Option, none, some, List, [], ◌∷◌, leb,
  if◌then◌else◌, set,
}
use hex_net.Time.Span.{Span}
use hex_net.Time.Timestamp.{Timestamp}
use hex_net.Seq.{Sequence, first}
use hex_net.Seq.Buffer.{SequenceBuffer, new_buffer, slot, get, insert}
use hex_net.Ack.Rtt.{Rtt, default, reset}

abbrev pub timer_granularity : Span
timer_granularity = 2_000_000

-- `ProbeBackoff`: how often the probe timeout has doubled.
unfoldable pub factor : ℕ → ℕ
factor probes = 2 ^ probes % 2 ^ 32

unfoldable pub doubled : ℕ → ℕ
doubled probes = min (probes + 1) 6

pub data Resolved (P : Type 0) : Type 0 where
  acked lost : P → Resolved P
  spurious : Resolved P

pub data Outgoing (P : Type 0) : Type 0 where
  ack_only : Outgoing P
  eliciting : P → Outgoing P

pub data State (P : Type 0) : Type 0 where
  in_flight : P → State P
  state_acked state_lost : State P

pub record Sent (P : Type 0) : Type 0 where
  pub sent_at : Timestamp
  pub state : State P

pub record Delivery (P : Type 0) : Type 0 where
  pub sent : SequenceBuffer (Sent P)
  pub largest_sent : Option Sequence
  pub oldest_unresolved : Sequence
  pub largest_acked : Option Sequence
  pub last_eliciting : Timestamp
  pub rtt : Rtt
  pub in_flight : ℕ
  pub probes : ℕ
  pub peer_ack_delay : Span

-- `Option<Sequence>::max`.
abbrev pub newest_of : Option Sequence → Sequence → Sequence
newest_of none s = s
newest_of (some l) s = if leb l s then s else l

-- `in_flight -= 1`.
abbrev pub one_less : ℕ → ℕ
one_less count = (count + 2 ^ 32 - 1) % 2 ^ 32

module _ {P : Type 0} (n : ℕ) where
  unfoldable pub new_delivery : Timestamp → Span → Delivery P
  new_delivery now peer_ack_delay = record {
    sent = new_buffer n;
    largest_sent = none;
    oldest_unresolved = first;
    largest_acked = none;
    last_eliciting = now;
    rtt = default;
    in_flight = 0;
    probes = 0;
    peer_ack_delay = peer_ack_delay;
  }

  unfoldable pub on_path_change : Delivery P → Delivery P
  on_path_change d = record d { rtt = reset d.rtt; probes = 0 }

  -- A write through `get_mut`, where the entry was found.
  unfoldable pub put_state :
      SequenceBuffer (Sent P) → Sequence → Sent P → State P → SequenceBuffer (Sent P)
  put_state b s was state = record {
    slots = set b.slots (slot n s) (some (record { seq = s; item = record was { state = state } }));
  }

  abbrev pub flies : State P → Bool
  flies (in_flight p) = true
  flies state_acked = false
  flies state_lost = false

  abbrev pub flying : Option (Sent P) → Option (Sent P)
  flying none = none
  flying (some r) = if flies r.state then some r else none

  unfoldable pub oldest_in_flight : Delivery P → Option (Sent P)
  oldest_in_flight d = flying (get n d.sent d.oldest_unresolved)

  -- Stops at the first packet in flight; the first argument is how many are left to look at.
  unfoldable pub first_flying : ℕ → SequenceBuffer (Sent P) → Sequence → Sequence
  first_flying zero b s = s
  first_flying (suc left) b s =
      let further = first_flying left b (s + 1) in
      elim (flying (get n b s)) [ none ↦ further | some r ↦ s ]

  unfoldable pub advance_oldest : Delivery P → Delivery P
  advance_oldest d = elim d.largest_sent [
    | none ↦ d
    | some l ↦ record d {
      oldest_unresolved = first_flying (l + 1 - d.oldest_unresolved) d.sent d.oldest_unresolved;
    }
  ]

  -- What becomes of an entry that another takes the slot of.
  abbrev pub on_evicted : Delivery P → Option (Sequence × Sent P) → Delivery P × List (Resolved P)
  on_evicted d none = (d, [])
  on_evicted d (some (s, r)) = elim r.state [
    | in_flight p ↦ (record d { in_flight = one_less d.in_flight }, lost p ∷ [])
    | state_acked ↦ (d, [])
    | state_lost ↦ (d, [])
  ]

  unfoldable pub track :
      Delivery P → Timestamp → Sequence → Outgoing P → Delivery P × List (Resolved P)
  track d now s ack_only = (d, [])
  track d now s (eliciting p) =
      let (b, evicted) = insert n d.sent s (record { sent_at = now; state = in_flight p }) in
      on_evicted
        (record d { last_eliciting = now; in_flight = (d.in_flight + 1) % 2 ^ 32; sent = b })
        evicted

  unfoldable pub on_sent :
      Delivery P → Timestamp → Sequence → Outgoing P → Delivery P × List (Resolved P)
  on_sent d now s outgoing =
      let (d', events) =
        track (record d { largest_sent = some (newest_of d.largest_sent s) }) now s outgoing in
      (advance_oldest d', events)

  -- The ledger, the send time where a packet in flight is confirmed, and the notice.
  unfoldable pub settle :
      Delivery P → Sequence → Option (Sent P) → Delivery P × Option Timestamp × List (Resolved P)
  settle d s none = (d, none, [])
  settle d s (some r) =
      let b = put_state d.sent s r state_acked in
      elim r.state [
        | in_flight p ↦
            (record d { sent = b; in_flight = one_less d.in_flight }, some r.sent_at, acked p ∷ [])
        | state_acked ↦ (record d { sent = b }, none, [])
        | state_lost ↦ (record d { sent = b }, none, spurious ∷ [])
      ]

  unfoldable pub resolve : Delivery P → Sequence → Delivery P × Option Timestamp × List (Resolved P)
  resolve d s = settle d s (get n d.sent s)
