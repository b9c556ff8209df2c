-- ===== src/Seq/Resolve.antt =====
-- Truncated counters: hex-net-core/src/seq.rs, `reconstruct` and `Sequence::resolve`.
use hex_net.Common.{ℕ, ◌+◌, ◌%◌, ◌^◌, ◌≤◌, ◌<◌, ◌≡◌, ◌↔◌, ◌≢◌, Option, some, arith}
use hex_net.Seq.{Sequence, WireSequence, reconstruct, resolve, or_zero, to_wire}

-- Half a window below the reference, and one less above it.
abbrev pub Near : ℕ → ℕ → Type 0
Near reference v = (reference ≤ v + 32768) × (v ≤ reference + 32767)

-- For a 64-bit reference and a 16-bit counter off the wire, `reconstruct` returns `v` exactly
-- when `v` is a 64-bit value with those sixteen low bits, not more than 32,768 below nor more
-- than 32,767 above the reference.
pub reconstruct_iff :
    (reference : ℕ) (wire : WireSequence) (v : ℕ)
    → reference < 2 ^ 64
    → wire < 2 ^ 16
    → (reconstruct reference wire ≡ some v)
      ↔ ((v < 2 ^ 64) × (v % 2 ^ 16 ≡ wire) × Near reference v)
unfolding reconstruct
reconstruct_iff reference wire v hr hw = ground arith

-- A sequence survives truncation if it is within the window about the reference.
pub resolve-to_wire :
    (reference : Option Sequence) (s : Sequence)
    → or_zero reference < 2 ^ 64
    → s < 2 ^ 64
    → s ≢ 0
    → Near (or_zero reference) s
    → resolve reference (to_wire s) ≡ some s
unfolding resolve to_wire
resolve-to_wire reference s hr hs hz near =
    ground (arith, reconstruct_iff (or_zero reference) (s % 2 ^ 16) s hr (omega arith))
