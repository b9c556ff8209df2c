-- ===== src/Wire/Bytes.antt =====
-- Little-endian integers and ranges of byte slices, as hex-net-core/src/wire.rs reads them.
-- A byte is a number below 256.
use hex_net.Common.{
  ℕ, zero, suc, ◌+◌, ◌-◌, ◌*◌, ◌/◌, ◌%◌, ◌^◌, ◌≤◌, ◌<◌, ◌≡◌, Option, none, some, List, [], ◌∷◌,
  arith, leb, ◌&&◌, if◌then◌else◌, length, take, drop,
}
use hex_net.Common.Ranges.{range}

-- `to_le_bytes` of an integer of `k` bytes.
abbrev pub to_le : ℕ → ℕ → List ℕ
to_le zero v = []
to_le (suc k) v = (v % 256) ∷ to_le k (v / 256)

-- `from_le_bytes`.
abbrev pub from_le : List ℕ → ℕ
from_le [] = 0
from_le (b ∷ bs) = b + 256 * from_le bs

-- `packet.get(start..end)`.
unfoldable pub slice? {ℓ} : {A : Type ℓ} → List A → ℕ → ℕ → Option (List A)
slice? xs start stop =
    if leb start stop && leb stop (length xs)
    then some (take (stop - start) (drop start xs))
    else none

-- `read_array` of wire.rs: the `n` bytes at an offset, or none past the end.
unfoldable pub read_array : List ℕ → ℕ → ℕ → Option (List ℕ)
read_array input at n = if leb (at + n) (length input) then some (take n (drop at input)) else none

pub from_le-to_le16 : (v : ℕ) → v < 2 ^ 16 → from_le (to_le 2 v) ≡ v
from_le-to_le16 v h = omega arith

pub from_le-to_le32 : (v : ℕ) → v < 2 ^ 32 → from_le (to_le 4 v) ≡ v
from_le-to_le32 v h = omega arith

pub from_le-to_le64 : (v : ℕ) → v < 2 ^ 64 → from_le (to_le 8 v) ≡ v
from_le-to_le64 v h = omega arith

pub slice-range :
    (xs : List ℕ) (a m : ℕ) → a + m ≤ length xs → slice? xs a (a + m) ≡ some (range xs a m)
unfolding slice?
slice-range xs a m h = let e : a + m - a ≡ m = omega arith in rw e (ground arith)
