-- ===== src/Connector/Accepted.antt =====
-- How a connector of hex-net-core/src/connector.rs comes to be connected.
use hex_net.Common.{
  ℕ, ◌≡◌, ◌≢◌, inl, inr, refl, Option, none, some, List, Result, ok, err, ltb, ◌==◌, Bool-cases,
  Option-cases, arith, take,
}
use hex_net.Connector.{
  Session, RecvError, opened, accepted_parsed, dispatch_kind, Connector, Peer, State, requesting,
  responding, connected, failed, closed, Challenge, handle_datagram, dispatch, kind_of,
  on_challenge, challenged, on_accepted, accepted_with, answered,
}
use hex_net.Wire.Kinds.{PacketKind, payload, request, challenge, response}
use hex_net.Wire.Header.{Header, ReadError, decode}
use hex_net.Wire.Handshake.{handshake_blob, handshake_len, challenge_nonce}
use hex_net.Stats.{Ctx}
use hex_net.Fixed.Vec.{FixedVec, from_slice}
use hex_net.Connection.Queue.{max_blob}

module _ {Key Rest : Type 0} (peer : Peer Key Rest) where
  -- What the acceptance was: a datagram with a header, which the connection for the header's id and the
  -- nonces of both sides took for authentic.
  pub record WasAccepted (c c' : Connector Key Rest) (ctx : Ctx) (from : ℕ) (buf : List ℕ) (len : ℕ)
      : Type 0 where
    pub from_server : from ≡ c.server
    pub was_responding : c.state ≡ responding
    pub header : Header
    pub body : ℕ
    pub parsed : decode (take len buf) ≡ ok (header, body)
    pub answer : Challenge
    pub challenged_with : c.challenge ≡ some answer
    pub conn : Session Rest
    pub after : Ctx
    pub authentic :
        peer.receive
          (peer.start ctx.now header.conn_id
            (peer.for_connection c.keys header.conn_id c.nonce answer.server_nonce))
          ctx
          buf
          len
        ≡ (conn, after, ok tt)
    pub kept : c'.connection ≡ some conn

  challenged_no :
      {A : Type 0} (c : Connector Key Rest) (ctx : Ctx) (out : List ℕ)
      (cookie : Option (FixedVec ℕ)) (server_nonce : Option ℕ)
      → c.state ≢ connected
      → (challenged c ctx out cookie server_nonce).0.state ≡ connected
      → A
  challenged_no c ctx out none server_nonce before now = absurd (before now)
  challenged_no c ctx out (some cookie) none before now = absurd (before now)
  challenged_no c ctx out (some cookie) (some server_nonce) before now = absurd cc

  -- A challenge does not connect.
  on_challenge_no :
      {A : Type 0} (c : Connector Key Rest) (ctx : Ctx) (buf : List ℕ) (len : ℕ) (out : List ℕ)
      → c.state ≢ connected
      → (on_challenge c ctx buf len out).0.state ≡ connected
      → A
  unfolding on_challenge
  on_challenge_no c ctx buf len out before now = elim (Bool-cases (ltb len handshake_len)) [
    | inl short ↦ absurd (before (rw short at now))
    | inr long ↦ elim (Option-cases (handshake_blob (take len buf))) [
      | inl nothing ↦ absurd (before (rw (long, nothing) at now))
      | inr (blob, found) ↦
          challenged_no c ctx out (from_slice max_blob 0 blob) (challenge_nonce (take len buf))
            before (rw (long, found) at now)
    ]
  ]

  answered_was :
      (c : Connector Key Rest) (r : Session Rest × Ctx × Result (Unit {0}) RecvError)
      → c.state ≢ connected
      → (answered peer c r).0.state ≡ connected
      → (conn : Session Rest) × (after : Ctx) × (r ≡ (conn, after, ok tt))
        × ((answered peer c r).0.connection ≡ some conn)
  answered_was c (conn, ctx, ok _) before now = (conn, ctx, refl, refl)
  answered_was c (conn, ctx, err e) before now = absurd (before now)

  module _ (c : Connector Key Rest) (ctx : Ctx) (from : ℕ) (buf : List ℕ) (len : ℕ)
      (here : from ≡ c.server) (before : c.state ≢ connected) where
    accepted_was :
        (header : Header) (body : ℕ) (answer : Option Challenge)
        → c.state ≡ responding
        → decode (take len buf) ≡ ok (header, body)
        → c.challenge ≡ answer
        → (accepted_with peer c ctx buf len header answer).0.state ≡ connected
        → WasAccepted c (accepted_with peer c ctx buf len header answer).0 ctx from buf len
    accepted_was header body none e parsed held now = absurd (before now)
    accepted_was header body (some answer) e parsed held now =
        let (conn, after, ok_now, kept) =
          answered_was c (peer.receive (opened peer c ctx header answer) ctx buf len) before now in
        record {
          from_server = here;
          was_responding = e;
          header = header;
          body = body;
          parsed = parsed;
          answer = answer;
          challenged_with = held;
          conn = conn;
          after = after;
          authentic = ok_now;
          kept = kept;
        }

    parsed_was :
        (parsed : Result (Header × ℕ) ReadError)
        → c.state ≡ responding
        → decode (take len buf) ≡ parsed
        → (accepted_parsed peer c ctx buf len parsed).0.state ≡ connected
        → WasAccepted c (accepted_parsed peer c ctx buf len parsed).0 ctx from buf len
    parsed_was (err e') e parsed now = absurd (before now)
    parsed_was (ok (header, body)) e parsed now =
        accepted_was header body c.challenge e parsed refl now

    dispatch_was :
        (out : List ℕ) (s : State) (kind : PacketKind)
        → c.state ≡ s
        → (dispatch peer c ctx buf len out s kind).0.state ≡ connected
        → WasAccepted c (dispatch peer c ctx buf len out s kind).0 ctx from buf len
    unfolding on_accepted
    dispatch_was out requesting challenge e now = on_challenge_no c ctx buf len out before now
    dispatch_was out responding payload e now = parsed_was (decode (take len buf)) e refl now
    dispatch_was out connected payload e now = absurd (before e)
    dispatch_was out requesting payload e now = absurd (before now)
    dispatch_was out requesting request e now = absurd (before now)
    dispatch_was out requesting response e now = absurd (before now)
    dispatch_was out responding challenge e now = absurd (before now)
    dispatch_was out responding request e now = absurd (before now)
    dispatch_was out responding response e now = absurd (before now)
    dispatch_was out connected challenge e now = absurd (before now)
    dispatch_was out connected request e now = absurd (before now)
    dispatch_was out connected response e now = absurd (before now)
    dispatch_was out (failed r) kind e now = absurd (before now)
    dispatch_was out (closed r) kind e now = absurd (before now)

    kind_was :
        (out : List ℕ) (kind : Option PacketKind)
        → (dispatch_kind peer c ctx buf len out kind).0.state ≡ connected
        → WasAccepted c (dispatch_kind peer c ctx buf len out kind).0 ctx from buf len
    kind_was out none now = absurd (before now)
    kind_was out (some kind) now = dispatch_was out c.state kind refl now

  -- A connector that was not connected is connected after a datagram only if the datagram came from the
  -- server, the connector was responding, and a connection with the keys for the id in the datagram's
  -- header and the nonces of both sides took the datagram for authentic; that connection is then kept.
  pub handle_datagram-WasAccepted :
      (c : Connector Key Rest) (ctx : Ctx) (from : ℕ) (buf : List ℕ) (len : ℕ) (out : List ℕ)
      → c.state ≢ connected
      → (handle_datagram peer c ctx from buf len out).0.state ≡ connected
      → WasAccepted c (handle_datagram peer c ctx from buf len out).0 ctx from buf len
  unfolding handle_datagram
  handle_datagram-WasAccepted c ctx from buf len out before now =
      elim (Bool-cases (from == c.server)) [
        | inl known ↦
            let here : from ≡ c.server = ground arith in
            rw known
              (kind_was c ctx from buf len here before out (kind_of buf len) (rw known at now))
        | inr unknown ↦ absurd (before (rw unknown at now))
      ]
