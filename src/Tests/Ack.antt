-- ===== src/Tests/Ack.antt =====
-- Examples for hex-net-core/src/ack.rs.
use hex_net.Common.{ℕ, ◌+◌, ◌*◌, ◌≡◌, refl, some, List, [], ◌∷◌, arith}
use hex_net.Time.Span.{Span}
use hex_net.Ack.Rtt.{min, recent_min, latest, smoothed, variation}
use hex_net.Ack.Samples.{Sample, Ordered}
use hex_net.Ack.Delivery.{Delivery, acked, lost, new_delivery, eliciting, on_sent, resolve}
use hex_net.Ack.Loss.{on_ack}
use hex_net.Ack.Count.{IsCounted, returned, flights, on_sent-IsCounted, resolve-IsCounted}

abbrev first : Sample
first = record { at = 1_000_000_000; rtt = 40_000_000; ack_delay = 0 }

abbrev second : Sample
second = record { at = 1_100_000_000; rtt = 60_000_000; ack_delay = 10_000_000 }

abbrev third : Sample
third = record { at = 1_300_000_000; rtt = 50_000_000; ack_delay = 25_000_000 }

abbrev samples : List Sample
samples = third ∷ second ∷ first ∷ []

samples-Ordered : Ordered 1_320_000_000 samples
samples-Ordered = (omega arith, (omega arith, (omega arith, tt)))

abbrev ledger : Delivery ℕ
ledger = new_delivery 4 1_000 25_000_000

ledger-IsCounted : IsCounted 4 ledger
unfolding new_delivery hex_net.Seq.Buffer.new_buffer flights
ledger-IsCounted = record { storage = refl; counted = refl }

on_sent-IsCounted_example :
    let (d, events) = on_sent 4 ledger 2_000 1 (eliciting 11) in
    IsCounted 4 d × (d.in_flight + returned events ≡ ledger.in_flight + 1)
on_sent-IsCounted_example =
    on_sent-IsCounted 4 2 refl (omega arith) ledger 2_000 1 11 ledger-IsCounted

abbrev one_sent : Delivery ℕ
one_sent = (on_sent 4 ledger 2_000 1 (eliciting 11)).0

resolve-IsCounted_example :
    let (d, sent_at, events) = resolve 4 one_sent 1 in
    IsCounted 4 d × (d.in_flight + returned events ≡ one_sent.in_flight)
resolve-IsCounted_example =
    resolve-IsCounted 4 2 refl (omega arith) one_sent 1
      (on_sent-IsCounted 4 2 refl (omega arith) ledger 2_000 1 11 ledger-IsCounted).0

-- Five packets of which the last is acknowledged: the first two are past the reorder threshold.
send : Delivery ℕ → ℕ → Delivery ℕ
send d s = (on_sent 8 d s s (eliciting (10 * s))).0

abbrev five : Delivery ℕ
five = send (send (send (send (send (new_delivery 8 0 25_000_000) 1) 2) 3) 4) 5

late_losses : (on_ack 8 five 6 5 (some 0) 0).1 ≡ acked 50 ∷ lost 10 ∷ lost 20 ∷ []
unfolding on_ack resolve hex_net.Ack.Delivery.settle hex_net.Ack.Delivery.put_state
    hex_net.Ack.Delivery.first_flying hex_net.Seq.Buffer.get send on_sent
    hex_net.Ack.Delivery.advance_oldest hex_net.Ack.Delivery.track hex_net.Seq.Buffer.insert
    new_delivery hex_net.Seq.Buffer.new_buffer hex_net.Seq.Buffer.slot
    hex_net.Ack.Loss.resolve_history hex_net.Ack.Loss.detect_lost hex_net.Ack.Loss.detect_from
    hex_net.Ack.Loss.write_off hex_net.Ack.Loss.by_count hex_net.Ack.Loss.loss_delay
    hex_net.Seq.back smoothed hex_net.Ack.Rtt.latest hex_net.Ack.Rtt.update
    hex_net.Ack.Rtt.first_estimate hex_net.Time.Span.scaled hex_net.Time.Span.max
    hex_net.Time.Timestamp.since
late_losses = refl
