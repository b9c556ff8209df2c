-- ===== src/Crypto.antt =====
-- hex-net-core/src/crypto.rs: one direction of a connection under an AEAD of a third-party crate,
-- which is a parameter.
use hex_net.Common.{
  ℕ, ◌+◌, ◌-◌, ◌≤◌, ◌≡◌, refl, ap, sym, ◌∙◌, ◌||◌, Option, none, some, List, ◌++◌, ◌>>=◌,
  Option-cases, false, arith, ltb, if◌then◌else◌, length, take, Bool-cases, inl, inr,
}
use hex_net.Common.Slices.{splice, length-splice}
use hex_net.Common.Ranges.{range, range-splice, range-splice_above, length-range}
use hex_net.Wire.Bytes.{to_le}
use hex_net.Config.{tag_len}

abbrev pub Bytes : Type 0
Bytes = List ℕ

-- `encrypt_inout_detached` and `decrypt_inout_detached` of the crate: key, nonce, associated data and
-- body, then the tag. A body keeps its length, a tag has sixteen bytes, and what was sealed opens.
pub record Aead : Type 0 where
  pub encrypt_detached : Bytes → Bytes → Bytes → Bytes → Option (Bytes × Bytes)
  pub decrypt_detached : Bytes → Bytes → Bytes → Bytes → Bytes → Option Bytes
  pub sealed_lengths :
      (key nonce aad body text tag : Bytes)
      → encrypt_detached key nonce aad body ≡ some (text, tag)
      → (length text ≡ length body) × (length tag ≡ 16)
  pub sealed_opens :
      (key nonce aad body text tag : Bytes)
      → encrypt_detached key nonce aad body ≡ some (text, tag)
      → decrypt_detached key nonce aad text tag ≡ some body

pub record Cipher : Type 0 where
  pub key : Bytes
  pub conn_id : ℕ

-- `conn_id || sequence`.
unfoldable pub nonce : Cipher → ℕ → Bytes
nonce c sequence = to_le 4 c.conn_id ++ to_le 8 sequence

module _ (aead : Aead) where
  -- The buffer with text and tag written into it, and the packet's length.
  unfoldable pub encrypt : Cipher → ℕ → Bytes → ℕ → ℕ → Option (Bytes × ℕ)
  encrypt c sequence buf header_len body_end =
      if ltb body_end header_len || ltb (length buf) (body_end + tag_len) then none else (do
        (text, tag) ←
            aead.encrypt_detached c.key (nonce c sequence) (take header_len buf)
              (range buf header_len (body_end - header_len))
        some (splice (splice buf header_len text) body_end tag, body_end + tag_len))

  -- The buffer with the plaintext written into it, and the plaintext's length.
  unfoldable pub decrypt : Cipher → ℕ → Bytes → ℕ → ℕ → Option (Bytes × ℕ)
  decrypt c sequence buf header_len packet_len =
      let body_len = packet_len - header_len - tag_len in
      if ltb (length buf) packet_len || ltb packet_len (header_len + tag_len) then none else (do
        body ←
            aead.decrypt_detached c.key (nonce c sequence) (take header_len buf)
              (range buf header_len body_len) (range buf (header_len + body_len) tag_len)
        some (splice buf header_len body, body_len))

  pub sealed_shape :
      (c : Cipher) (sequence header_len body_end n : ℕ) (buf sealed : Bytes)
      → encrypt c sequence buf header_len body_end ≡ some (sealed, n)
      → (header_len ≤ body_end)
        × (body_end + 16 ≤ length buf)
        × (n ≡ body_end + 16)
        × (text tag : Bytes) × (aead.encrypt_detached c.key
              (nonce c sequence)
              (take header_len buf)
              (range buf header_len (body_end - header_len))
            ≡ some (text, tag))
        × (sealed ≡ splice (splice buf header_len text) body_end tag)
  unfolding encrypt
  sealed_shape c sequence header_len body_end n buf sealed e =
      elim (Bool-cases (ltb body_end header_len || ltb (length buf) (body_end + 16))) [
        | inl bad ↦ let e' : none ≡ some (sealed, n) = rw bad at e in absurd (cc)
        | inr fits ↦
            elim (Option-cases (
              aead.encrypt_detached c.key (nonce c sequence) (take header_len buf)
                (range buf header_len (body_end - header_len)))) [
                  | inl failed ↦
                      let e' : none ≡ some (sealed, n) = rw (fits, failed) at e in absurd (cc)
                  | inr ((text, tag), made) ↦
                      let e' : some
                            (splice (splice buf header_len text) body_end tag, body_end + 16)
                          ≡ some (sealed, n) =
                        rw (fits, made) at e in
                      (ground arith, ground arith, ground arith, text, tag, made, ground arith)
                ]
      ]

  opened_shape :
      (c : Cipher) (sequence header_len body_end : ℕ) (sealed body : Bytes)
      → header_len ≤ body_end
      → body_end + 16 ≤ length sealed
      → aead.decrypt_detached c.key
          (nonce c sequence)
          (take header_len sealed)
          (range sealed header_len (body_end - header_len))
          (range sealed body_end 16)
        ≡ some body
      → decrypt c sequence sealed header_len (body_end + 16)
        ≡ some (splice sealed header_len body, body_end - header_len)
  unfolding decrypt
  opened_shape c sequence header_len body_end sealed body le fits e =
      let len : body_end + 16 - header_len - 16 ≡ body_end - header_len = omega arith in
      let at : header_len + (body_end - header_len) ≡ body_end = omega arith in
      let go : (ltb (length sealed) (body_end + 16) || ltb (body_end + 16) (header_len + 16))
          ≡ false =
        ground arith in
      rw (go, len, at, e) refl

  -- What one side seals, the other side opens, with the same key and connection id: the body and the
  -- header in front of it come back as they were.
  decrypt-encrypt :
      (c : Cipher) (sequence header_len body_end n : ℕ) (buf sealed : Bytes)
      → encrypt c sequence buf header_len body_end ≡ some (sealed, n)
      → (opened : Bytes) × (decrypt c sequence sealed header_len n
          ≡ some (opened, body_end - header_len))
        × (range opened header_len (body_end - header_len)
            ≡ range buf header_len (body_end - header_len))
        × (take header_len opened ≡ take header_len buf)
  decrypt-encrypt c sequence header_len body_end n buf sealed e =
      let (le, room, total, text, tag, made, shape) =
        sealed_shape c sequence header_len body_end n buf sealed e in
      let (text_len, tag_size) = aead.sealed_lengths _ _ _ _ text tag made in
      let body_len = length-range buf header_len (body_end - header_len) (omega arith) in
      let inner = splice buf header_len text in
      let whole = length-splice buf header_len text in
      let head : take header_len (splice inner body_end tag) ≡ take header_len buf =
        range-splice_above inner body_end 0 header_len tag (omega arith)
        ∙ range-splice_above buf header_len 0 header_len text (omega arith) in
      let middle : range (splice inner body_end tag) header_len (body_end - header_len) ≡ text =
        range-splice_above inner body_end header_len (body_end - header_len) tag (omega arith)
        ∙ (ap (range inner header_len) (omega arith)
            ∙ range-splice buf header_len text (omega arith)) in
      let last : range (splice inner body_end tag) body_end 16 ≡ tag =
        ap (range (splice inner body_end tag) body_end) (sym tag_size)
        ∙ range-splice inner body_end tag (omega arith) in
      let opens = aead.sealed_opens _ _ _ _ text tag made in
      let opened : Bytes =
        splice sealed header_len (range buf header_len (body_end - header_len)) in
      (
        opened,
        rw total (
            opened_shape c sequence header_len body_end sealed
              (range buf header_len (body_end - header_len)) le
              (rw shape (omega (arith, length-splice inner body_end tag)))
              (rw (shape, head, middle, last) opens)),
        (ap (range opened header_len) (sym body_len)
            ∙ range-splice sealed header_len (range buf header_len (body_end - header_len))
                (rw shape (omega (arith, length-splice inner body_end tag)))),
        (range-splice_above sealed header_len 0 header_len
              (range buf header_len (body_end - header_len)) (omega arith)
            ∙ rw shape head),
      )
