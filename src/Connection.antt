-- ===== src/Connection.antt =====
-- The acknowledgements that a connection of hex-net-core/src/connection.rs owes, and when it may spend a
-- packet of its own on one.
pub mod Steps
pub mod Control
pub mod Queue
pub mod Migration
pub mod Lifecycle
use hex_net.Common.{
  ℕ, zero, suc, ◌+◌, ◌-◌, ◌^◌, ◌≤◌, ◌<◌, ◌≡◌, refl, ap, sym, ◌∙◌, max, min, Bool, true, false, not,
  ◌&&◌, Option, none, some, List, [], ◌∷◌, arith, ltb, leb, if◌then◌else◌, u64_max, Bool-cases, inl,
  inr, ◌⊎◌,
}
use hex_net.Time.Span.{Span}
use hex_net.Time.Timestamp.{Timestamp, saturating_add}

pub data AckOwed : Type 0 where
  nothing : AckOwed
  held : Timestamp → AckOwed
  at_once : AckOwed

pub record Acks : Type 0 where
  pub owed : AckOwed
  pub delay : Span
  pub alone_after : Timestamp

unfoldable pub new_acks : Span → Acks
new_acks delay = record { owed = nothing; delay = delay; alone_after = 0 }

abbrev pub recorded : AckOwed → Timestamp → Bool → AckOwed
recorded owed now false = at_once
recorded nothing now true = held now
recorded (held since) now true = held since
recorded at_once now true = at_once

-- An eliciting packet arrives.
unfoldable pub record_arrival : Acks → Timestamp → Bool → Acks
record_arrival a now in_order = record a { owed = recorded a.owed now in_order }

abbrev pub ready_at : AckOwed → Span → Option Timestamp
ready_at nothing delay = none
ready_at at_once delay = some 0
ready_at (held since) delay = some (saturating_add since delay)

abbrev pub at_or_after : Timestamp → Option Timestamp → Option Timestamp
at_or_after alone_after none = none
at_or_after alone_after (some ready) = some (max ready alone_after)

unfoldable pub deadline : Acks → Option Timestamp
deadline a = at_or_after a.alone_after (ready_at a.owed a.delay)

abbrev pub has_come : Timestamp → Option Timestamp → Bool
has_come now none = false
has_come now (some at) = leb at now

unfoldable pub due : Acks → Timestamp → Bool
due a now = has_come now (deadline a)

-- A packet went out, with frames that ask for an acknowledgement or without.
unfoldable pub sent : Acks → Timestamp → Bool → Acks
sent a now eliciting = record a {
  owed = nothing;
  alone_after = if not eliciting then saturating_add now a.delay else a.alone_after;
}

-- What happens to a connection, as far as its acknowledgements go: a packet arrives, one goes out with
-- frames, or the connection asks whether to send an acknowledgement alone.
pub data Happening : Type 0 where
  arrives : Timestamp → Bool → Happening
  carries : Timestamp → Happening
  asks : Timestamp → Happening

abbrev pub happens : Acks → Happening → Acks
happens a (arrives now in_order) = record_arrival a now in_order
happens a (carries now) = sent a now true
happens a (asks now) = if due a now then sent a now false else a

abbrev pub went_alone : Acks → Happening → List Timestamp → List Timestamp
went_alone a (arrives now in_order) rest = rest
went_alone a (carries now) rest = rest
went_alone a (asks now) rest = if due a now then now ∷ rest else rest

-- When acknowledgements went out alone.
unfoldable pub alone : Acks → List Happening → List Timestamp
alone a [] = []
alone a (h ∷ rest) = went_alone a h (alone (happens a h) rest)

-- Each instant is a delay or more after the one before it, or the clock's end.
abbrev pub AreSpaced : Span → Timestamp → List Timestamp → Type 0
AreSpaced delay after [] = Unit {0}
AreSpaced delay after (now ∷ rest) = (after ≤ now) × AreSpaced delay (saturating_add now delay) rest

due-le : (a : Acks) (now : Timestamp) → due a now ≡ true → a.alone_after ≤ now
unfolding due deadline
due-le a now e = by_owed a.owed refl
  where
    by_owed : (o : AckOwed) → a.owed ≡ o → a.alone_after ≤ now
    by_owed nothing q = let e' : false ≡ true = rw q at e in absurd cc
    by_owed (held since) q =
        let e' : leb (max (saturating_add since a.delay) a.alone_after) now ≡ true = rw q at e in
        ground arith
    by_owed at_once q = let e' : leb (max 0 a.alone_after) now ≡ true = rw q at e in ground arith

-- Whatever arrives and goes out, and however often the connection asks, acknowledgements that go out
-- alone are a delay apart, or at the end of the clock's range.
pub alone-AreSpaced :
    (a : Acks) (happenings : List Happening) → AreSpaced a.delay a.alone_after (alone a happenings)
unfolding alone sent record_arrival
alone-AreSpaced a [] = tt
alone-AreSpaced a (arrives now in_order ∷ rest) =
    alone-AreSpaced (record_arrival a now in_order) rest
alone-AreSpaced a (carries now ∷ rest) = alone-AreSpaced (sent a now true) rest
alone-AreSpaced a (asks now ∷ rest) = elim (Bool-cases (due a now)) [
  | inl ready ↦ rw ready (due-le a now ready, alone-AreSpaced (sent a now false) rest)
  | inr early ↦ rw early (alone-AreSpaced a rest)
]

abbrev pub NoLater : Option Timestamp → Option Timestamp → Type 0
NoLater none before = Unit {0}
NoLater (some at) none = ⊥
NoLater (some at) (some at') = at' ≤ at

recorded-NoLater :
    (owed : AckOwed) (delay after now : ℕ) (in_order : Bool)
    → NoLater
        (at_or_after after (ready_at owed delay))
        (at_or_after after (ready_at (recorded owed now in_order) delay))
recorded-NoLater nothing delay after now in_order = tt
recorded-NoLater at_once delay after now true = omega arith
recorded-NoLater at_once delay after now false = omega arith
recorded-NoLater (held since) delay after now true = omega arith
recorded-NoLater (held since) delay after now false = omega arith

-- An arrival never puts off an acknowledgement that is owed.
pub record_arrival-NoLater :
    (a : Acks) (now : Timestamp) (in_order : Bool)
    → NoLater (deadline a) (deadline (record_arrival a now in_order))
unfolding deadline record_arrival
record_arrival-NoLater a now in_order = recorded-NoLater a.owed a.delay a.alone_after now in_order
