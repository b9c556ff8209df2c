-- ===== src/Packet/Send.antt =====
-- The send counter of hex-net-core/src/packet.rs: what is sealed goes out under one sequence each.
use hex_net.Common.{
  ℕ, ◌+◌, ◌-◌, ◌%◌, ◌^◌, ◌≤◌, ◌<◌, ◌≡◌, ◌≢◌, subst, ap, sym, ◌∙◌, Option, none, some, List, [], ◌∷◌,
  ◌++◌, take, arith, leb, ◌⊎◌, Option-cases, Bool-cases, inl, inr, u64_max,
}
use hex_net.Seq.{Sequence, next}
use hex_net.Common.Slices.{splice}
use hex_net.Common.Ranges.{range}
use hex_net.Crypto.{Aead, Bytes, Cipher, nonce, sealed_shape}
use hex_net.Wire.Bytes.{to_le, from_le, from_le-to_le64}
use hex_net.Packet.{PacketCrypto, Sealed, encrypt}

-- A buffer with a header and a body to seal.
pub record Outgoing : Type 0 where
  pub buf : Bytes
  pub header_len : ℕ
  pub body_end : ℕ

-- What went out: the attempt, the sequence that was reported, and the buffer.
pub record SentPacket : Type 0 where
  pub given : Outgoing
  pub sequence : Sequence
  pub sealed : Bytes

abbrev pub sent_of : Outgoing → Bytes → Option Sealed → List SentPacket
sent_of o sealed none = []
sent_of o sealed (some s) = record { given = o; sequence = s.sequence; sealed = sealed } ∷ []

abbrev pub nonces : Cipher → List SentPacket → List Bytes
nonces c [] = []
nonces c (p ∷ ps) = nonce c p.sequence ∷ nonces c ps

module _ (aead : Aead) where
  -- What goes out, in order, up to a panic.
  unfoldable pub sent : PacketCrypto → List Outgoing → List SentPacket
  sent c [] = []
  sent c (o ∷ rest) = elim (encrypt aead c o.buf o.header_len o.body_end) [
    | none ↦ []
    | some (c', buf, sealed) ↦ sent_of o buf sealed ++ sent c' rest
  ]

  -- The AEAD was given the nonce of the reported sequence, the attempt's header as associated data and
  -- its body, and what it gave back stands in the buffer: the text in the body's place, the tag behind.
  abbrev pub IsSealed : Cipher → SentPacket → Type 0
  IsSealed c p =
      (text : Bytes) × (tag : Bytes) × (aead.encrypt_detached c.key (nonce c p.sequence)
          (take p.given.header_len p.given.buf)
          (range p.given.buf p.given.header_len (p.given.body_end - p.given.header_len))
        ≡ some (text, tag))
      × (p.sealed ≡ splice (splice p.given.buf p.given.header_len text) p.given.body_end tag)

  abbrev pub AllSealed : Cipher → List SentPacket → Type 0
  AllSealed c [] = Unit {0}
  AllSealed c (p ∷ ps) = IsSealed c p × AllSealed c ps

-- Differs from all of the list.
abbrev pub Apart : Bytes → List Bytes → Type 0
Apart x [] = Unit {0}
Apart x (y ∷ ys) = (x ≢ y) × Apart x ys

abbrev pub AllApart : List Bytes → Type 0
AllApart [] = Unit {0}
AllApart (x ∷ xs) = Apart x xs × AllApart xs

drop_four : Bytes → Bytes
drop_four (a ∷ b ∷ c ∷ d ∷ rest) = rest
drop_four _ = []

-- Distinct sequences have distinct nonces.
nonce_ne : (c : Cipher) (s t : Sequence) → s < 2 ^ 64 → t < 2 ^ 64 → s < t → nonce c s ≢ nonce c t
unfolding nonce drop_four
nonce_ne c s t hs ht lt e =
    let bytes : to_le 8 s ≡ to_le 8 t = ap drop_four e in
    let same : s ≡ t = sym (from_le-to_le64 s hs) ∙ ap from_le bytes ∙ from_le-to_le64 t ht in
    omega arith

-- Every sequence is `low` or later.
From : ℕ → List SentPacket → Type 0
From low [] = Unit {0}
From low (p ∷ ps) = (low ≤ p.sequence) × (p.sequence < 2 ^ 64) × From low ps

From-weaken : (low high : ℕ) (ps : List SentPacket) → low ≤ high → From high ps → From low ps
unfolding From
From-weaken low high [] le f = tt
From-weaken low high (p ∷ ps) le (ge, word, f) = (omega arith, word, From-weaken low high ps le f)

nonce-Apart :
    (c : Cipher) (s : Sequence) (ps : List SentPacket)
    → s < 2 ^ 64
    → From (s + 1) ps
    → Apart (nonce c s) (nonces c ps)
unfolding From
nonce-Apart c s [] word f = tt
nonce-Apart c s (p ∷ ps) word (ge, small, f) =
    (nonce_ne c s p.sequence word small (omega arith), nonce-Apart c s ps word f)

-- An attempt leaves the counter or moves it on by one, and the key stays.
encrypt_cases :
    (aead : Aead) (c c' : PacketCrypto) (buf out : Bytes) (header_len body_end : ℕ)
    (sealed : Option Sealed)
    → encrypt aead c buf header_len body_end ≡ some (c', out, sealed)
    → (c'.tx ≡ c.tx)
      × (((sealed ≡ none) × (c'.next_sequence ≡ c.next_sequence))
          ⊎ ((n : ℕ) × (sealed ≡ some (record { sequence = c.next_sequence; len = n }))
              × (c'.next_sequence ≡ c.next_sequence + 1)
              × (c.next_sequence + 1 < 2 ^ 64)
              × IsSealed aead c.tx (record {
                given = record { buf = buf; header_len = header_len; body_end = body_end };
                sequence = c.next_sequence;
                sealed = out;
              })))
unfolding encrypt next
encrypt_cases aead c c' buf out header_len body_end sealed e =
    elim (Option-cases (hex_net.Crypto.encrypt aead c.tx c.next_sequence buf header_len body_end)) [
      | inl failed ↦
          let e' : some (c, buf, none) ≡ some (c', out, sealed) = rw (failed, encrypt) at e in
          (ground arith, inl (ground arith, ground arith))
      | inr ((text, len), made) ↦ elim (Bool-cases (leb (c.next_sequence + 1) u64_max)) [
        | inl room ↦
            let e' : some (
              record c { next_sequence = c.next_sequence + 1 },
              text,
              some (record { sequence = c.next_sequence; len = len % 2 ^ 16 }),
            )
                ≡ some (c', out, sealed) =
              rw (made, room, encrypt) at e in
            let same : text ≡ out = ground arith in
            let (le, fits, total, body, tag, given, shape) =
              sealed_shape aead c.tx c.next_sequence header_len body_end len buf text made in
            (
              ground arith,
              inr (
                len % 2 ^ 16,
                ground arith,
                ground arith,
                ground arith,
                (body, tag, given, sym same ∙ shape),
              ),
            )
        | inr panics ↦
            let e' : none ≡ some (c', out, sealed) = rw (made, panics, encrypt) at e in absurd cc
      ]
    ]

module _ (aead : Aead) where
  IsApart : Cipher → ℕ → List SentPacket → Type 0
  IsApart c low ps = From low ps × AllSealed aead c ps × AllApart (nonces c ps)

  sent-IsApart :
      (c : PacketCrypto) (attempts : List Outgoing)
      → IsApart c.tx c.next_sequence (sent aead c attempts)
  unfolding sent From IsApart
  sent-IsApart c [] = (tt, tt, tt)
  sent-IsApart c (o ∷ rest) = elim (Option-cases (encrypt aead c o.buf o.header_len o.body_end)) [
    | inl panics ↦ rw (panics, sent) (tt, tt, tt)
    | inr ((c', out, sealed), made) ↦
        let (key, what) = encrypt_cases aead c c' o.buf out o.header_len o.body_end sealed made in
        let later : IsApart c.tx c'.next_sequence (sent aead c' rest) =
          subst (λ k. IsApart k c'.next_sequence (sent aead c' rest)) key (sent-IsApart c' rest) in
        rw (made, sent)
          (elim what [
            | inl (nothing, same) ↦
                rw nothing (subst (λ n. IsApart c.tx n (sent aead c' rest)) same later)
            | inr (n, reported, moved, word, whole) ↦
                let (from, all, apart) =
                  subst (λ k. IsApart c.tx k (sent aead c' rest)) moved later in
                rw reported (
                  (
                    omega arith,
                    omega arith,
                    From-weaken c.next_sequence (c.next_sequence + 1) (sent aead c' rest)
                        (omega arith) from,
                  ),
                  (whole, all),
                  (nonce-Apart c.tx c.next_sequence (sent aead c' rest) (omega arith) from, apart),
                )
          ])
  ]

  -- Whatever is sealed, in whatever order and however often sealing fails: the AEAD sealed each packet
  -- that goes out under the nonce of the sequence that is reported for it, and no two packets of a
  -- connection go out under the same nonce.
  pub sent-AllApart :
      (c : PacketCrypto) (attempts : List Outgoing)
      → AllSealed aead c.tx (sent aead c attempts) × AllApart (nonces c.tx (sent aead c attempts))
  unfolding IsApart
  sent-AllApart c attempts = let (from, all, apart) = sent-IsApart c attempts in (all, apart)
