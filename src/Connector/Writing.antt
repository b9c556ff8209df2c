-- ===== src/Connector/Writing.antt =====
-- The packets of the handshake that hex-net-core/src/connector.rs writes, as the server reads them.
use hex_net.Common.{ℕ, length, ◌+◌, ◌^◌, ◌≤◌, ◌<◌, ◌≡◌, ◌⊎◌, inl, inr, ap, ◌∙◌, some, List, [], ◌∷◌}
use hex_net.Connector.{
  Challenge, handshake_in, response_of, written, Connector, State, requesting, responding,
  write_handshake,
}
use hex_net.Stats.{Ctx}
use hex_net.Common.Ranges.{range}
use hex_net.Fixed.Vec.{contents}
use hex_net.Wire.Kinds.{PacketKind, packet_code}
use hex_net.Wire.Handshake.{
  handshake_len, body_offset, trailer_len, handshake_blob, request_nonce, blob-encode,
  encode_request_lem,
}

-- A connector in the handshake.
abbrev pub IsShaking : State → Type 0
IsShaking s = (s ≡ requesting) ⊎ (s ≡ responding)

-- The buffer holds a handshake packet, and what goes into it fits: the ticket with the nonce, or the cookie
-- of the challenge, which is there to be answered.
pub record CanWrite {Key Rest : Type 0} (c : Connector Key Rest) (out : List ℕ) : Type 0 where
  pub room : handshake_len ≤ length out
  pub nonce_fits : c.nonce < 2 ^ 64
  pub ticket_fits : body_offset + length c.ticket + trailer_len ≤ handshake_len
  pub cookie_fits :
      c.state ≡ responding
      → (ch : Challenge) × (c.challenge ≡ some ch)
        × (body_offset + length (contents ch.cookie) ≤ handshake_len)

-- The packet is the state's step of the handshake, as the server reads it.
abbrev pub Carries : {Key Rest : Type 0} → Connector Key Rest → List ℕ → Type 0
Carries c packet =
    ((c.state ≡ requesting)
      × (range packet 0 1 ≡ packet_code PacketKind.request ∷ [])
      × (handshake_blob packet ≡ some c.ticket)
      × (request_nonce packet ≡ some c.nonce))
    ⊎ ((c.state ≡ responding)
        × (ch : Challenge) × (c.challenge ≡ some ch)
        × (range packet 0 1 ≡ packet_code PacketKind.response ∷ [])
        × (handshake_blob packet ≡ some (contents ch.cookie)))

module _ {Key Rest : Type 0} where
  written_in :
      (c : Connector Key Rest) (out : List ℕ) (s : State)
      → c.state ≡ s
      → write_handshake c out ≡ handshake_in c out s
  unfolding write_handshake
  written_in c out s e = ap (handshake_in c out) e

  -- In the handshake its packet is written, where it fits.
  pub write_handshake-Carries :
      (c : Connector Key Rest) (out : List ℕ)
      → IsShaking c.state
      → CanWrite c out
      → (packet : List ℕ) × (write_handshake c out ≡ some packet) × Carries c packet
  write_handshake-Carries c out shaking can = elim shaking [
    | inl asks ↦
        let (packet, made, kind, blob, number) =
          encode_request_lem c.ticket out c.nonce can.room can.nonce_fits can.ticket_fits in
        (packet, written_in c out requesting asks ∙ ap written made, inl (asks, kind, blob, number))
    | inr answers ↦
        let (ch, there, fits) = can.cookie_fits answers in
        let (packet, made, kind, blob, size, padding) =
          blob-encode PacketKind.response (contents ch.cookie) out can.room fits in
        (
          packet,
          written_in c out responding answers ∙ ap (response_of out) there ∙ ap written made,
          inr (answers, ch, there, kind, blob),
        )
  ]

  -- A later attempt can be written as well.
  pub again :
      (c : Connector Key Rest) (ctx : Ctx) (out : List ℕ)
      → CanWrite c out
      → CanWrite (record c { last_attempt = some ctx.now }) out
  again c ctx out can = record {
    room = can.room;
    nonce_fits = can.nonce_fits;
    ticket_fits = can.ticket_fits;
    cookie_fits = can.cookie_fits;
  }
