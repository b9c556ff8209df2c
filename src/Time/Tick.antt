-- ===== src/Time/Tick.antt =====
-- `Tick` of hex-net-core/src/time.rs: a simulation step, the `u32` that it wraps.
use hex_net.Common.{
  ℕ, ◌+◌, ◌%◌, ◌^◌, ◌<◌, ◌≡◌, Option, some, arith, checked, checked_sub, u32_max, ◌>>=◌,
}
use hex_net.Seq.{WireSequence, reconstruct}
use hex_net.Seq.Resolve.{Near, reconstruct_iff}

abbrev pub Tick : Type 0
Tick = ℕ

abbrev pub tick_zero : Tick
tick_zero = 0

-- `none` is the panic on overflow.
unfoldable pub next : Tick → Option Tick
next t = checked u32_max (t + 1)

unfoldable pub checked_add : Tick → ℕ → Option Tick
checked_add t n = checked u32_max (t + n)

unfoldable pub checked_since : Tick → Tick → Option ℕ
checked_since t earlier = checked_sub t earlier

unfoldable pub to_wire : Tick → WireSequence
to_wire t = t % 2 ^ 16

unfoldable pub from_wire : Tick → WireSequence → Option Tick
from_wire reference wire = do full ← reconstruct reference wire; checked u32_max full

-- A tick within the window about the reference survives the wire.
pub from_wire-to_wire :
    (reference t : Tick)
    → reference < 2 ^ 32
    → t < 2 ^ 32
    → Near reference t
    → from_wire reference (to_wire t) ≡ some t
unfolding from_wire to_wire
from_wire-to_wire reference t hr ht near =
    ground (arith, reconstruct_iff reference (t % 2 ^ 16) t (omega arith) (omega arith))

-- What comes off the wire is a 32-bit tick with the bits that arrived, near the reference.
pub from_wire_lem :
    (reference : Tick) (wire : WireSequence) (t : Tick)
    → reference < 2 ^ 32
    → wire < 2 ^ 16
    → from_wire reference wire ≡ some t
    → (t < 2 ^ 32) × (to_wire t ≡ wire) × Near reference t
unfolding from_wire to_wire
from_wire_lem reference wire t hr hw e =
    ground (arith, reconstruct_iff reference wire t (omega arith) hw)
