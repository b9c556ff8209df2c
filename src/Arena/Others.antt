-- ===== src/Arena/Others.antt =====
-- The messages of an arena (hex-net-core/src/arena.rs) besides one of them.
use hex_net.Common.{ℕ, zero, suc, ◌+◌, ◌≡◌, ap, List, [], ◌∷◌, some, length, arith, get_elem?}
use hex_net.Common.Slices.{erase_at}
use hex_net.Arena.Valid.{copies, total, blocks_of, Message}

pub total-erase_at :
    (i : ℕ) (live : List Message) (k : ℕ) (m : Message)
    → get_elem? live k ≡ some m
    → total i live ≡ copies i m.1 + total i (erase_at live k)
total-erase_at i [] k m at = absurd cc
total-erase_at i ((message, path) ∷ live) zero m at =
    let e : (message, path) ≡ m = ground arith in
    let same : copies i path ≡ copies i m.1 = ap (λ (x : Message). copies i x.1) e in omega arith
total-erase_at i ((message, path) ∷ live) (suc k) m at = omega (arith, total-erase_at i live k m at)

pub blocks_of-erase_at :
    (live : List Message) (k : ℕ) (m : Message)
    → get_elem? live k ≡ some m
    → blocks_of live ≡ length m.1 + blocks_of (erase_at live k)
blocks_of-erase_at [] k m at = absurd cc
blocks_of-erase_at ((message, path) ∷ live) zero m at =
    let e : (message, path) ≡ m = ground arith in
    let same : length path ≡ length m.1 = ap (λ (x : Message). length x.1) e in omega arith
blocks_of-erase_at ((message, path) ∷ live) (suc k) m at =
    omega (arith, blocks_of-erase_at live k m at)

-- What is left was there.
pub kept_was_there :
    (live : List Message) (k j : ℕ) (m : Message)
    → get_elem? (erase_at live k) j ≡ some m
    → (j' : ℕ) × (get_elem? live j' ≡ some m)
kept_was_there [] k j m at = absurd cc
kept_was_there (x ∷ live) zero j m at = (suc j, at)
kept_was_there (x ∷ live) (suc k) zero m at = (zero, at)
kept_was_there (x ∷ live) (suc k) (suc j) m at =
    let (j', found) = kept_was_there live k j m at in (suc j', found)
