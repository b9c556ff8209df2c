-- ===== src/Ack/Samples.antt =====
-- The estimator of hex-net-core/src/ack.rs against the samples that it was given.
use hex_net.Common.{
  ℕ, zero, suc, ◌+◌, ◌/◌, ◌≤◌, ◌<◌, ◌≡◌, refl, Option, none, some, List, [], ◌∷◌, arith, get_elem?,
}
use hex_net.Time.Span.{Span, min as span_min}
use hex_net.Time.Timestamp.{Timestamp, since}
use hex_net.Ack.WindowedMin.{WindowedMin, new, get, update as update_min}
use hex_net.Ack.Rtt.{
  Rtt, Estimate, default, update, first_estimate, next_estimate, min, recent_min, min_rtt_window,
  recent_rtt_window,
}

-- A measured round trip, with the holding time that the peer reported.
pub record Sample : Type 0 where
  pub at : Timestamp
  pub rtt : Span
  pub ack_delay : Span

-- The estimator after the samples, latest first.
unfoldable pub rtt_after : List Sample → Rtt
rtt_after [] = default
rtt_after (s ∷ h) = update (rtt_after h) s.at s.rtt s.ack_delay

-- No sample is taken after `now`, nor before the ones that follow it in the list.
abbrev pub Ordered : Timestamp → List Sample → Type 0
Ordered now [] = Unit {0}
Ordered now (s ∷ h) = (s.at ≤ now) × Ordered s.at h

abbrev pub Between : Span → Span → List Sample → Type 0
Between lo hi [] = Unit {0}
Between lo hi (s ∷ h) = (lo ≤ s.rtt) × (s.rtt ≤ hi) × Between lo hi h

-- Every sample after the epoch bounds the current half, and one less than half a window before
-- the epoch bounds the minimum.
Covers : ℕ → WindowedMin → Timestamp → List Sample → Type 0
Covers nanos w now h =
    (w.epoch ≤ now)
    × ((i : ℕ) (s : Sample) → get_elem? h i ≡ some s → w.epoch < s.at → w.current ≤ s.rtt)
    × ((i : ℕ) (s : Sample) → get_elem? h i ≡ some s → w.epoch < s.at + nanos / 2 → get w ≤ s.rtt)

Covers-first :
    (nanos : ℕ) (s : Sample) → 0 < nanos / 2 → Covers nanos (new s.at s.rtt) s.at (s ∷ [])
unfolding Covers new get span_min
Covers-first nanos s half =
    (omega arith, (λ i t e lt. first i t e), λ i t e lt. ground (arith, first i t e))
  where
    first : (i : ℕ) (t : Sample) → get_elem? (s ∷ []) i ≡ some t → s.rtt ≤ t.rtt
    first zero t e = ground arith
    first (suc i) t e = ground arith

-- The samples of a list are none later than its order says.
Ordered-le :
    (h : List Sample) (now : Timestamp) (i : ℕ) (t : Sample)
    → Ordered now h
    → get_elem? h i ≡ some t
    → t.at ≤ now
Ordered-le [] now i t o e = ground arith
Ordered-le (s ∷ h) now zero t o e = ground arith
Ordered-le (s ∷ h) now (suc i) t (le, o) e = let p = Ordered-le h s.at i t o e in omega arith

Covers-update :
    (nanos : ℕ) (w : WindowedMin) (h : List Sample) (before : Timestamp) (s : Sample)
    → 0 < nanos / 2
    → before ≤ s.at
    → Ordered before h
    → Covers nanos w before h
    → Covers nanos (update_min nanos w s.at s.rtt) s.at (s ∷ h)
unfolding Covers update_min get span_min since
Covers-update nanos w h before s half le o (e, cur, all) = (ground arith, above, below)
  where
    above :
        (i : ℕ) (t : Sample)
        → get_elem? (s ∷ h) i ≡ some t
        → (update_min nanos w s.at s.rtt).epoch < t.at
        → (update_min nanos w s.at s.rtt).current ≤ t.rtt
    above zero t q lt = ground arith
    above (suc i) t q lt = ground (arith, cur i t q, Ordered-le h before i t o q)

    below :
        (i : ℕ) (t : Sample)
        → get_elem? (s ∷ h) i ≡ some t
        → (update_min nanos w s.at s.rtt).epoch < t.at + nanos / 2
        → get (update_min nanos w s.at s.rtt) ≤ t.rtt
    below zero t q lt = ground arith
    below (suc i) t q lt = ground (arith, cur i t q, all i t q, Ordered-le h before i t o q)

-- What an estimate shows of the samples up to `now`.
Shows : Option Estimate → Timestamp → List Sample → Type 0
Shows none now h = h ≡ []
Shows (some e) now h = Covers min_rtt_window e.min now h × Covers recent_rtt_window e.recent now h

Shows-update :
    (estimate : Option Estimate) (before : Timestamp) (s : Sample) (h : List Sample)
    → before ≤ s.at
    → Ordered before h
    → Shows estimate before h
    → Shows (update (record { estimate = estimate }) s.at s.rtt s.ack_delay).estimate s.at (s ∷ h)
unfolding Shows update first_estimate next_estimate
Shows-update none before s h le o e =
    rw e
      (Covers-first min_rtt_window s (omega arith), Covers-first recent_rtt_window s (omega arith))
Shows-update (some e) before s h le o (long, short) = (
  Covers-update min_rtt_window e.min h before s (omega arith) le o long,
  Covers-update recent_rtt_window e.recent h before s (omega arith) le o short,
)

-- The time of the latest sample.
last_at : List Sample → Timestamp
last_at [] = 0
last_at (s ∷ h) = s.at

rtt_after-Shows :
    (h : List Sample) (now : Timestamp)
    → Ordered now h
    → (last_at h ≤ now) × Ordered (last_at h) h × Shows (rtt_after h).estimate (last_at h) h
unfolding rtt_after last_at Shows
rtt_after-Shows [] now o = (omega arith, tt, refl)
rtt_after-Shows (s ∷ h) now (le, o) =
    let (le', o', sh) = rtt_after-Shows h s.at o in
    (le, (omega arith, o), Shows-update (rtt_after h).estimate (last_at h) s h le' o' sh)

covered :
    (estimate : Option Estimate) (last now : Timestamp) (h : List Sample) (i : ℕ) (s : Sample)
    → last ≤ now
    → Shows estimate last h
    → get_elem? h i ≡ some s
    → (now < s.at + 5_000_000_000
        → (m : Span) × (min (record { estimate = estimate }) ≡ some m) × (m ≤ s.rtt))
      × (now < s.at + 250_000_000
          → (m : Span) × (recent_min (record { estimate = estimate }) ≡ some m) × (m ≤ s.rtt))
unfolding Shows Covers min recent_min
covered none last now h i s le e q =
    absurd (let q' : get_elem? [] i ≡ some s = rw e at q in ground arith)
covered (some e) last now h i s le ((early, _, long), (early', _, short)) q = (
  (λ lt. (get e.min, refl, long i s q (omega arith))),
  (λ lt. (get e.recent, refl, short i s q (omega arith))),
)

-- With samples in order of time up to `now`, a sample less than five seconds old is covered: the
-- minimum is known and at most that sample.
min_covers :
    (h : List Sample) (now : Timestamp) (i : ℕ) (s : Sample)
    → Ordered now h
    → get_elem? h i ≡ some s
    → now < s.at + 5_000_000_000
    → (m : Span) × (min (rtt_after h) ≡ some m) × (m ≤ s.rtt)
min_covers h now i s o q lt =
    let (le, _, sh) = rtt_after-Shows h now o in
    (covered (rtt_after h).estimate (last_at h) now h i s le sh q).0 lt

-- With samples in order of time up to `now`, a sample less than a quarter of a second old is
-- covered: the recent minimum is known and at most that sample.
recent_min_covers :
    (h : List Sample) (now : Timestamp) (i : ℕ) (s : Sample)
    → Ordered now h
    → get_elem? h i ≡ some s
    → now < s.at + 250_000_000
    → (m : Span) × (recent_min (rtt_after h) ≡ some m) × (m ≤ s.rtt)
recent_min_covers h now i s o q lt =
    let (le, _, sh) = rtt_after-Shows h now o in
    (covered (rtt_after h).estimate (last_at h) now h i s le sh q).1 lt
