-- ===== src/Ack/Loss.antt =====
-- Acknowledgements, loss detection and the probe timeout of `Delivery` in hex-net-core/src/ack.rs.
use hex_net.Common.{
  ℕ, zero, suc, ◌+◌, ◌-◌, ◌^◌, bit_and, Bool, true, false, ◌||◌, Option, none, some, List, [], ◌∷◌,
  ◌++◌, ltb, leb, ◌==◌, if◌then◌else◌, ◌>>=◌,
}
use hex_net.Time.Span.{Span, max as span_max, saturating_mul, scaled, saturating_add}
use hex_net.Time.Timestamp.{Timestamp, since, saturating_add as plus_span}
use hex_net.Seq.{Sequence, back}
use hex_net.Seq.Buffer.{get}
use hex_net.Ack.Rtt.{smoothed, latest, variation, update}
use hex_net.Ack.Delivery.{
  Delivery, Sent, Resolved, lost, in_flight, state_acked, state_lost, timer_granularity, factor,
  doubled, resolve, put_state, flying, oldest_in_flight, advance_oldest, one_less,
}

abbrev pub is_some {ℓ} : {A : Type ℓ} → Option A → Bool
is_some none = false
is_some (some a) = true

abbrev pub earlier : Option Timestamp → Option Timestamp → Option Timestamp
earlier none probe = probe
earlier (some loss) none = some loss
earlier (some loss) (some probe) = some (if leb loss probe then loss else probe)

-- `sequence <= threshold`, where `threshold` is three below the largest acknowledged.
unfoldable pub by_count : Option Sequence → Sequence → Bool
by_count none s = false
by_count (some threshold) s = leb s threshold

abbrev pub is_newer : Option Sequence → Sequence → Bool
is_newer none ack = true
is_newer (some largest) ack = ltb largest ack

module _ {P : Type 0} (n : ℕ) where
  unfoldable pub loss_delay : Delivery P → Span
  loss_delay d = span_max (scaled 9 8 (span_max (smoothed d.rtt) (latest d.rtt))) timer_granularity

  unfoldable pub loss_time : Delivery P → Option Timestamp
  loss_time d = do
    largest ← d.largest_acked
    oldest ← if leb largest d.oldest_unresolved then none else oldest_in_flight n d
    some (plus_span oldest.sent_at (loss_delay d))

  unfoldable pub probe_deadline : Delivery P → Option Timestamp
  probe_deadline d = do
    _ ← oldest_in_flight n d
    some (
        plus_span d.last_eliciting (
          saturating_mul
            (saturating_add
              (saturating_add (smoothed d.rtt)
                (span_max (saturating_mul (variation d.rtt) 4) timer_granularity))
              d.peer_ack_delay)
            (factor d.probes)))

  unfoldable pub next_timeout : Delivery P → Option Timestamp
  next_timeout d = earlier (loss_time d) (probe_deadline d)

  -- One packet written off.
  unfoldable pub write_off : Delivery P → Sequence → Sent P → Delivery P × List (Resolved P)
  write_off d s r = elim r.state [
    | in_flight p ↦ (
      record d { sent = put_state n d.sent s r state_lost; in_flight = one_less d.in_flight },
      lost p ∷ [],
    )
    | state_acked ↦ (d, [])
    | state_lost ↦ (d, [])
  ]

  -- The loop of `detect_lost`: `left` is how many sequences are before the largest acknowledged.
  unfoldable pub detect_from :
      ℕ
      → Delivery P
      → Timestamp
      → Span
      → Option Sequence
      → Sequence
      → Delivery P × List (Resolved P)
  detect_from zero d now delay threshold s = (d, [])
  detect_from (suc left) d now delay threshold s = elim (flying n (get n d.sent s)) [
    | none ↦ detect_from left d now delay threshold (s + 1)
    | some r ↦
        let (d', events) = write_off d s r in
        let (d'', later) = detect_from left d' now delay threshold (s + 1) in
        if by_count threshold s || leb delay (since now r.sent_at)
        then (d'', events ++ later)
        else (d, [])
  ]

  unfoldable pub detect_lost : Delivery P → Timestamp → Delivery P × List (Resolved P)
  detect_lost d now = elim d.largest_acked [
    | none ↦ (d, [])
    | some largest ↦
        let (d', events) =
          detect_from (largest - d.oldest_unresolved) d now (loss_delay d) (back largest 3)
            d.oldest_unresolved in
        (advance_oldest n d', events)
  ]

  unfoldable pub on_timeout : Delivery P → Timestamp → Delivery P × Option ℕ × List (Resolved P)
  on_timeout d now =
      let (d', events) = detect_lost d now in
      elim (probe_deadline d') [
        | none ↦ (d', none, events)
        | some deadline ↦
            if ltb now deadline
            then (d', none, events)
            else (record d' { probes = doubled d'.probes }, some 2, events)
      ]

  -- The 32 bits of history from `offset` on; whether any packet in flight was confirmed.
  unfoldable pub resolve_history :
      ℕ → ℕ → Delivery P → Sequence → ℕ → Delivery P × Bool × List (Resolved P)
  resolve_history zero offset d ack bits = (d, false, [])
  resolve_history (suc left) offset d ack bits =
      let (d', any, events) = resolve_one offset d ack bits in
      let (d'', any', later) = resolve_history left (offset + 1) d' ack bits in
      (d'', any || any', events ++ later)
    where
      resolve_one : ℕ → Delivery P → Sequence → ℕ → Delivery P × Bool × List (Resolved P)
      resolve_one offset d ack bits =
          if bit_and bits (2 ^ offset) == 0 then (d, false, []) else elim (back ack (offset + 1)) [
            | none ↦ (d, false, [])
            | some s ↦ let (d', at, events) = resolve n d s in (d', is_some at, events)
          ]

  -- The round-trip sample, of the newest acknowledged packet alone.
  abbrev pub sample : Delivery P → Timestamp → Option Timestamp → Option Span → Delivery P
  sample d now none delay = d
  sample d now (some sent_at) none = d
  sample d now (some sent_at) (some delay) = record d {
    rtt = update d.rtt now (since now sent_at) delay;
  }

  unfoldable pub on_ack :
      Delivery P → Timestamp → Sequence → Option Span → ℕ → Delivery P × List (Resolved P)
  on_ack d now ack ack_delay bits =
      let (d₁, sent_at, events) = resolve n d ack in
      let (d₂, any, history) = resolve_history 32 0 d₁ ack bits in
      let d₃ =
        if is_newer d₂.largest_acked ack
        then sample (record d₂ { largest_acked = some ack }) now sent_at ack_delay
        else d₂ in
      let d₄ = if is_some sent_at || any then record d₃ { probes = 0 } else d₃ in
      let (d₅, lost_now) = detect_lost d₄ now in (d₅, events ++ history ++ lost_now)
