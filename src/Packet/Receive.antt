-- ===== src/Packet/Receive.antt =====
-- The receive side of hex-net-core/src/packet.rs: which packets are taken, and what that changes.
use hex_net.Common.{
  ℕ, ◌+◌, ◌-◌, ◌%◌, ◌^◌, ◌<◌, ◌≡◌, refl, ap, subst, ◌∙◌, Option, none, some, List, [], ◌∷◌, Result,
  ok, err, arith, Option-cases, Bool-cases, inl, inr, take, ltb, length, false,
}
use hex_net.Seq.{Sequence, ReceiveWindow, Check, back, resolve, next, check, insert, empty}
use hex_net.Seq.Window.{History, after, not_contains_of_check}
use hex_net.Seq.Replay.{Fresh, Check-cases}
use hex_net.Seq.Resolve.{reconstruct_iff}
use hex_net.Wire.Header.{Header, ReadError, decode}
use hex_net.Crypto.{Aead, Bytes}
use hex_net.Packet.{
  PacketCrypto, new, Decrypted, DecryptError, decrypt, open_parsed, open_resolved, open_checked,
  is_payload, follows, resolve_ack,
}

-- What an attempt may do: take one sequence that the window lets through, or else report an error and
-- leave the state as it was.
pub data Outcome (c c' : PacketCrypto) (r : Result Decrypted DecryptError) : Type 0 where
  refused : (e : DecryptError) → r ≡ err e → c' ≡ c → Outcome c c' r
  accepted :
      (d : Decrypted)
      → r ≡ ok d
      → check c.replay d.sequence ≡ ok tt
      → c' ≡ record c { replay = insert c.replay d.sequence }
      → Outcome c c' r

module _ (aead : Aead) where
  open_checked-Outcome :
      (c c' : PacketCrypto) (buf out : Bytes) (len : ℕ) (h : Header) (at : ℕ) (s : Sequence)
      (r : Result Decrypted DecryptError)
      → check c.replay s ≡ ok tt
      → open_checked aead c buf len h at s ≡ some (c', out, r)
      → Outcome c c' r
  unfolding open_checked
  open_checked-Outcome c c' buf out len h at s r passed e =
      elim (Option-cases (follows c.replay.newest s)) [
        | inl panics ↦
            let e' : none ≡ some (c', out, r) = rw (panics, open_checked) at e in absurd cc
        | inr (in_order, known) ↦
            elim (Option-cases (hex_net.Crypto.decrypt aead c.rx s buf at len)) [
              | inl forged ↦
                  let e' : some (c, buf, err DecryptError.unauthenticated) ≡ some (c', out, r) =
                    rw (known, forged, open_checked) at e in
                  refused DecryptError.unauthenticated (ground arith) (ground arith)
              | inr ((opened, n), plain) ↦
                  let d : Decrypted = record {
                    sequence = s;
                    header = h;
                    body_start = at;
                    body_end = at + n;
                    in_order = in_order;
                  } in
                  let e' : some (record c { replay = insert c.replay s }, opened, ok d)
                      ≡ some (c', out, r) =
                    rw (known, plain, open_checked) at e in
                  accepted d (ground arith) passed (ground arith)
            ]
      ]

  open_resolved-Outcome :
      (c c' : PacketCrypto) (buf out : Bytes) (len : ℕ) (h : Header) (at : ℕ) (o : Option Sequence)
      (r : Result Decrypted DecryptError)
      → open_resolved aead c buf len h at o ≡ some (c', out, r)
      → Outcome c c' r
  unfolding open_resolved
  open_resolved-Outcome c c' buf out len h at none r e =
      refused DecryptError.malformed (ground arith) (ground arith)
  open_resolved-Outcome c c' buf out len h at (some s) r e = elim (Check-cases (check c.replay s)) [
    | inl passed ↦
        open_checked-Outcome c c' buf out len h at s r passed (rw (passed, open_resolved) at e)
    | inr (why, stopped) ↦
        let e' : some (c, buf, err (DecryptError.replay why)) ≡ some (c', out, r) =
          rw (stopped, open_resolved) at e in
        refused (DecryptError.replay why) (ground arith) (ground arith)
  ]

  decrypt-Outcome :
      (c c' : PacketCrypto) (buf out : Bytes) (len : ℕ) (r : Result Decrypted DecryptError)
      → decrypt aead c buf len ≡ some (c', out, r)
      → Outcome c c' r
  unfolding decrypt open_parsed
  decrypt-Outcome c c' buf out len r e = elim (Bool-cases (ltb (length buf) len)) [
    | inl panics ↦ let e' : none ≡ some (c', out, r) = rw (panics, decrypt) at e in absurd cc
    | inr fits ↦ parsed (decode (take len buf)) refl fits
  ]
    where
      parsed :
          (p : Result (Header × ℕ) ReadError)
          → decode (take len buf) ≡ p
          → ltb (length buf) len ≡ false
          → Outcome c c' r
      parsed (err x) q fits =
          let e' : some (c, buf, err DecryptError.malformed) ≡ some (c', out, r) =
            rw (fits, q, decrypt) at e in
          refused DecryptError.malformed (ground arith) (ground arith)
      parsed (ok (h, at)) q fits = elim (Bool-cases (is_payload h.kind)) [
        | inl payload ↦
            open_resolved-Outcome c c' buf out len h at (resolve c.replay.newest h.sequence) r
              (rw (fits, q, payload, decrypt, open_parsed) at e)
        | inr other ↦
            let e' : some (c, buf, err DecryptError.malformed) ≡ some (c', out, r) =
              rw (fits, q, other, decrypt, open_parsed) at e in
            refused DecryptError.malformed (ground arith) (ground arith)
      ]

  -- The sequences of the packets that are taken, in the order of arrival, up to a panic.
  unfoldable pub accepted_of : Result Decrypted DecryptError → List Sequence → List Sequence
  accepted_of (ok d) rest = d.sequence ∷ rest
  accepted_of (err e) rest = rest

  unfoldable pub receive : PacketCrypto → List (Bytes × ℕ) → List Sequence
  receive c [] = []
  receive c ((buf, len) ∷ rest) = elim (decrypt aead c buf len) [
    | none ↦ []
    | some (c', out, r) ↦ accepted_of r (receive c' rest)
  ]

  receive-Fresh_from :
      (c : PacketCrypto) (h : History) (arrivals : List (Bytes × ℕ))
      → c.replay ≡ after h
      → Fresh h (receive c arrivals)
  unfolding receive accepted_of after
  receive-Fresh_from c h [] w = tt
  receive-Fresh_from c h ((buf, len) ∷ rest) w = elim (Option-cases (decrypt aead c buf len)) [
    | inl panics ↦ rw (panics, receive) tt
    | inr ((c', out, r), made) ↦
        rw (made, receive)
          (elim (decrypt-Outcome c c' buf out len r made) [
            | refused e q same ↦
                rw q (receive-Fresh_from c' h rest (ap (λ (k : PacketCrypto). k.replay) same ∙ w))
            | accepted d q passed same ↦ rw q (
              not_contains_of_check h d.sequence (subst (λ k. check k d.sequence ≡ ok tt) w passed),
              receive-Fresh_from c' (d.sequence ∷ h) rest
                  (ap (λ (k : PacketCrypto). k.replay) same ∙ ap (λ k. insert k d.sequence) w),
            )
          ])
  ]

  -- A new connection never takes two packets of one sequence, whatever datagrams arrive and in
  -- whatever order, forged ones and repeated ones among them.
  pub receive-Fresh :
      (conn_id : ℕ) (tx_key rx_key : Bytes) (arrivals : List (Bytes × ℕ))
      → Fresh [] (receive (new conn_id tx_key rx_key) arrivals)
  unfolding after new
  receive-Fresh conn_id tx_key rx_key arrivals = receive-Fresh_from _ [] arrivals refl

  -- A datagram that is not taken, for whatever reason, leaves the receiver as it was.
  decrypt-err :
      (c c' : PacketCrypto) (buf out : Bytes) (len : ℕ) (e : DecryptError)
      → decrypt aead c buf len ≡ some (c', out, err e)
      → c' ≡ c
  decrypt-err c c' buf out len e made = elim (decrypt-Outcome c c' buf out len (err e) made) [
    | refused x q same ↦ same
    | accepted d q passed same ↦ absurd cc
  ]

-- A resolved acknowledgement names a sequence that was sent, and has the low bits that arrived.
resolve_ack_lem :
    (c : PacketCrypto) (wire : ℕ) (ack : Sequence)
    → c.next_sequence < 2 ^ 64
    → wire < 2 ^ 16
    → resolve_ack c wire ≡ some ack
    → (ack < c.next_sequence) × (0 < ack) × (ack % 2 ^ 16 ≡ wire)
unfolding resolve_ack back resolve hex_net.Seq.new
resolve_ack_lem c wire ack word small e =
    ground (arith, reconstruct_iff (c.next_sequence - 1) wire ack)
