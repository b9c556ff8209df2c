-- ===== src/Connector.antt =====
-- hex-net-core/src/connector.rs: the client's handshake. The connection it makes is a `Session`: the life
-- of Connection/Lifecycle with its queue of events, closed and polled as there, and the rest, whose part
-- in the handling of packets and timers is an interface, `Peer`. The server's address, the channels and the
-- transport's settings pass into the peer's `start`. What the connection hands to `on_message` is not
-- recorded.
pub mod States
pub mod Machine
pub mod Accepted
pub mod Writing
pub mod Retry
pub mod Events
use hex_net.Common.{
  ℕ, zero, suc, ◌+◌, ◌≤◌, ◌<◌, ◌≡◌, Bool, true, false, not, Option, none, some, List, Result, ok,
  err, ltb, leb, ◌==◌, if◌then◌else◌, get_elem?, take, length, min,
}
use hex_net.Time.Timestamp.{Timestamp, origin, since, saturating_add}
use hex_net.Time.Span.{Span, from_millis, from_secs}
use hex_net.Wire.Kinds.{
  PacketKind, payload, request, challenge, response, packet_from_byte, CloseReason, requested,
}
use hex_net.Wire.Header.{Header, ReadError, decode}
use hex_net.Wire.Ids.{ConnectionId}
use hex_net.Wire.Handshake.{
  WriteError, handshake_len, handshake_blob, challenge_nonce, encode_request, encode_handshake,
}
use hex_net.Fixed.Vec.{FixedVec, from_slice, contents}
use hex_net.Connection.Queue.{max_blob}
use hex_net.Connection.Lifecycle
use hex_net.Connection.Lifecycle.{Life, poll_event}
pub use hex_net.Connection.Lifecycle.{
  RecvError, malformed, duplicate, unauthenticated, bad_payload, is_closed, Event, migrated,
  ticket_received, has_closed,
}
use hex_net.Stats.{Ctx, Counter, counted, packets_malformed, packets_unknown_connection}

abbrev pub retry_interval : Span
retry_interval = from_millis 250

abbrev pub handshake_timeout : Span
handshake_timeout = from_secs 5

pub data ConnectError : Type 0 where
  no_answer : ConnectError

pub data State : Type 0 where
  requesting responding connected : State
  failed : ConnectError → State
  closed : CloseReason → State

-- A packet to send is given with its bytes.
pub data Action : Type 0 where
  done : Action
  send : List ℕ → Action
  now_connected ended : Action

pub record Challenge : Type 0 where
  pub cookie : FixedVec ℕ
  pub server_nonce : ℕ

-- A connection: what Connection/Lifecycle models of it, and the rest.
pub record Session (Rest : Type 0) : Type 0 where
  pub life : Life
  pub rest : Rest

-- What the connector uses of the rest of a connection.
pub record Peer (Key Rest : Type 0) : Type 0 where
  pub for_connection : Key → ConnectionId → ℕ → ℕ → Key
  pub start : Timestamp → ConnectionId → Key → Session Rest
  pub receive : Session Rest → Ctx → List ℕ → ℕ → Session Rest × Ctx × Result (Unit {0}) RecvError
  pub poll_transmit : Session Rest → Ctx → Session Rest × Ctx × Option (List ℕ)
  pub on_timeout : Session Rest → Ctx → Session Rest × Ctx
  pub next_due : Session Rest → Option Timestamp

pub record Connector (Key Rest : Type 0) : Type 0 where
  pub server : ℕ
  pub state : State
  pub ticket : List ℕ
  pub challenge : Option Challenge
  pub nonce : ℕ
  pub keys : Key
  pub started : Timestamp
  pub last_attempt : Option Timestamp
  pub connection : Option (Session Rest)

-- The nonce is drawn by the caller.
unfoldable pub connect : {Key Rest : Type 0} → Timestamp → ℕ → List ℕ → Key → ℕ → Connector Key Rest
connect now server ticket keys nonce = record {
  server = server;
  state = requesting;
  ticket = ticket;
  challenge = none;
  nonce = nonce;
  keys = keys;
  started = now;
  last_attempt = none;
  connection = none;
}

abbrev pub written : Result (List ℕ) WriteError → Option (List ℕ)
written (ok packet) = some packet
written (err e) = none

-- The kind of a datagram with a first byte.
abbrev pub kind_of : List ℕ → ℕ → Option PacketKind
kind_of buf len =
    if ltb 0 len
    then (elim (get_elem? buf 0) [ none ↦ none | some byte ↦ packet_from_byte byte ])
    else none

abbrev pub sent_or_done : Option (List ℕ) → Action
sent_or_done none = done
sent_or_done (some packet) = send packet

abbrev pub response_of : List ℕ → Option Challenge → Option (List ℕ)
response_of out none = none
response_of out (some c) = written (encode_handshake response (contents c.cookie) out)

module _ {Key Rest : Type 0} where
  abbrev pub handshake_in : Connector Key Rest → List ℕ → State → Option (List ℕ)
  handshake_in c out requesting = written (encode_request c.ticket c.nonce out)
  handshake_in c out responding = response_of out c.challenge
  handshake_in c out connected = none
  handshake_in c out (failed e) = none
  handshake_in c out (closed reason) = none

  unfoldable pub write_handshake : Connector Key Rest → List ℕ → Option (List ℕ)
  write_handshake c out = handshake_in c out c.state

  abbrev pub challenged :
      Connector Key Rest
      → Ctx
      → List ℕ
      → Option (FixedVec ℕ)
      → Option ℕ
      → Connector Key Rest × Ctx × Action
  challenged c ctx out (some cookie) (some server_nonce) =
      let c' = record c {
        challenge = some (record { cookie = cookie; server_nonce = server_nonce });
        state = responding;
        last_attempt = some ctx.now;
      } in
      (c', ctx, sent_or_done (write_handshake c' out))
  challenged c ctx out none _ = (c, counted ctx packets_malformed, done)
  challenged c ctx out (some cookie) none = (c, counted ctx packets_malformed, done)

  abbrev pub challenged_with :
      Connector Key Rest
      → Ctx
      → List ℕ
      → Option (List ℕ)
      → Option ℕ
      → Connector Key Rest × Ctx × Action
  challenged_with c ctx out none _ = (c, counted ctx packets_malformed, done)
  challenged_with c ctx out (some blob) server_nonce =
      challenged c ctx out (from_slice max_blob 0 blob) server_nonce

  unfoldable pub on_challenge :
      Connector Key Rest → Ctx → List ℕ → ℕ → List ℕ → Connector Key Rest × Ctx × Action
  on_challenge c ctx buf len out =
      if ltb len handshake_len
      then (c, counted ctx packets_malformed, done)
      else challenged_with c ctx out (handshake_blob (take len buf))
          (challenge_nonce (take len buf))

abbrev pub reason_of : Option CloseReason → Event → Option CloseReason
reason_of last (has_closed reason) = some reason
reason_of last (migrated address) = last
reason_of last ticket_received = last

-- `conn.poll_event()`.
unfoldable pub poll_session : {Rest : Type 0} → Session Rest → Session Rest × Option Event
poll_session conn = (record conn { life = (poll_event conn.life).0 }, (poll_event conn.life).1)

-- One turn of the loop over the events, and the turns behind it.
abbrev pub on_event :
    {Rest : Type 0}
    → (Session Rest → Option CloseReason → Session Rest × Option CloseReason)
    → Option CloseReason
    → Session Rest × Option Event
    → Session Rest × Option CloseReason
on_event more last (conn, none) = (conn, last)
on_event more last (conn, some event) = more conn (reason_of last event)

module _ {Rest : Type 0} where
  -- The loop over the events. Its bound is one turn more than events wait, the one that finds none.
  unfoldable pub drain : ℕ → Session Rest → Option CloseReason → Session Rest × Option CloseReason
  drain zero conn last = (conn, last)
  drain (suc fuel) conn last = on_event (drain fuel) last (poll_session conn)

module _ {Key Rest : Type 0} where
  abbrev pub after_events :
      Connector Key Rest → Session Rest × Option CloseReason → Connector Key Rest × Action
  after_events c (conn, none) = (record c { connection = some conn }, done)
  after_events c (conn, some reason) =
      (record c { connection = some conn; state = closed reason }, ended)

  abbrev pub drained : Connector Key Rest → Option (Session Rest) → Connector Key Rest × Action
  drained c none = (c, done)
  drained c (some conn) = after_events c (drain (suc conn.life.events.len) conn none)

  unfoldable pub drain_connection_events : Connector Key Rest → Connector Key Rest × Action
  drain_connection_events c = drained c c.connection

  abbrev pub with_ctx : Ctx → Connector Key Rest × Action → Connector Key Rest × Ctx × Action
  with_ctx ctx (c, action) = (c, ctx, action)

  abbrev pub close_by : Connector Key Rest → Option (Session Rest) → Connector Key Rest
  close_by c none = c
  close_by c (some conn) = record c {
    connection = some (record conn { life = Lifecycle.close conn.life requested });
  }

  unfoldable pub close : Connector Key Rest → Connector Key Rest
  close c = close_by c c.connection

module _ {Key Rest : Type 0} (peer : Peer Key Rest) where
  -- The connection that the header's id and both nonces make, where it accepts the datagram.
  abbrev pub answered :
      Connector Key Rest
      → Session Rest × Ctx × Result (Unit {0}) RecvError
      → Connector Key Rest × Ctx × Action
  answered c (conn, ctx, ok done') =
      (record c { connection = some conn; state = connected }, ctx, now_connected)
  answered c (conn, ctx, err e) = (c, ctx, done)

  abbrev pub opened : Connector Key Rest → Ctx → Header → Challenge → Session Rest
  opened c ctx header ch =
      peer.start ctx.now header.conn_id
        (peer.for_connection c.keys header.conn_id c.nonce ch.server_nonce)

  abbrev pub accepted_with :
      Connector Key Rest
      → Ctx
      → List ℕ
      → ℕ
      → Header
      → Option Challenge
      → Connector Key Rest × Ctx × Action
  accepted_with c ctx buf len header none = (c, ctx, done)
  accepted_with c ctx buf len header (some ch) =
      answered c (peer.receive (opened c ctx header ch) ctx buf len)

  abbrev pub accepted_parsed :
      Connector Key Rest
      → Ctx
      → List ℕ
      → ℕ
      → Result (Header × ℕ) ReadError
      → Connector Key Rest × Ctx × Action
  accepted_parsed c ctx buf len (err e) = (c, counted ctx packets_malformed, done)
  accepted_parsed c ctx buf len (ok (header, at)) = accepted_with c ctx buf len header c.challenge

  unfoldable pub on_accepted :
      Connector Key Rest → Ctx → List ℕ → ℕ → Connector Key Rest × Ctx × Action
  on_accepted c ctx buf len = accepted_parsed c ctx buf len (decode (take len buf))

  abbrev pub received :
      Connector Key Rest
      → Session Rest × Ctx × Result (Unit {0}) RecvError
      → Connector Key Rest × Ctx × Action
  received c (conn, ctx, ok done') =
      with_ctx ctx (drain_connection_events (record c { connection = some conn }))
  received c (conn, ctx, err bad_payload) =
      with_ctx ctx (drain_connection_events (record c { connection = some conn }))
  received c (conn, ctx, err malformed) = (record c { connection = some conn }, ctx, done)
  received c (conn, ctx, err duplicate) = (record c { connection = some conn }, ctx, done)
  received c (conn, ctx, err unauthenticated) = (record c { connection = some conn }, ctx, done)
  received c (conn, ctx, err is_closed) = (record c { connection = some conn }, ctx, done)

  abbrev pub payload_for :
      Connector Key Rest
      → Ctx
      → List ℕ
      → ℕ
      → Option (Session Rest)
      → Connector Key Rest × Ctx × Action
  payload_for c ctx buf len none = (c, ctx, done)
  payload_for c ctx buf len (some conn) = received c (peer.receive conn ctx buf len)

  unfoldable pub on_payload :
      Connector Key Rest → Ctx → List ℕ → ℕ → Connector Key Rest × Ctx × Action
  on_payload c ctx buf len = payload_for c ctx buf len c.connection

  abbrev pub dispatch :
      Connector Key Rest
      → Ctx
      → List ℕ
      → ℕ
      → List ℕ
      → State
      → PacketKind
      → Connector Key Rest × Ctx × Action
  dispatch c ctx buf len out requesting challenge = on_challenge c ctx buf len out
  dispatch c ctx buf len out responding payload = on_accepted c ctx buf len
  dispatch c ctx buf len out connected payload = on_payload c ctx buf len
  dispatch c ctx buf len out state kind = (c, counted ctx packets_malformed, done)

  abbrev pub dispatch_kind :
      Connector Key Rest
      → Ctx
      → List ℕ
      → ℕ
      → List ℕ
      → Option PacketKind
      → Connector Key Rest × Ctx × Action
  dispatch_kind c ctx buf len out none = (c, counted ctx packets_malformed, done)
  dispatch_kind c ctx buf len out (some kind) = dispatch c ctx buf len out c.state kind

  unfoldable pub handle_datagram :
      Connector Key Rest → Ctx → ℕ → List ℕ → ℕ → List ℕ → Connector Key Rest × Ctx × Action
  handle_datagram c ctx from buf len out =
      if not (from == c.server)
      then (c, counted ctx packets_unknown_connection, done)
      else dispatch_kind c ctx buf len out (kind_of buf len)

  -- Whether the last attempt is too recent for another.
  abbrev pub too_soon : Ctx → Option Timestamp → Bool
  too_soon ctx none = false
  too_soon ctx (some last) = ltb (since ctx.now last) retry_interval

  abbrev pub retried :
      Connector Key Rest → Ctx → List ℕ → Connector Key Rest × Ctx × Option (List ℕ)
  retried c ctx out = if too_soon ctx c.last_attempt then (c, ctx, none) else (
    record c { last_attempt = some ctx.now },
    ctx,
    write_handshake (record c { last_attempt = some ctx.now }) out,
  )

  abbrev pub passed_on :
      Connector Key Rest
      → Session Rest × Ctx × Option (List ℕ)
      → Connector Key Rest × Ctx × Option (List ℕ)
  passed_on c (conn, ctx, packet) = (record c { connection = some conn }, ctx, packet)

  abbrev pub transmit_by :
      Connector Key Rest → Ctx → Option (Session Rest) → Connector Key Rest × Ctx × Option (List ℕ)
  transmit_by c ctx none = (c, ctx, none)
  transmit_by c ctx (some conn) = passed_on c (peer.poll_transmit conn ctx)

  abbrev pub transmit_in :
      Connector Key Rest → Ctx → List ℕ → State → Connector Key Rest × Ctx × Option (List ℕ)
  transmit_in c ctx out requesting = retried c ctx out
  transmit_in c ctx out responding = retried c ctx out
  transmit_in c ctx out connected = transmit_by c ctx c.connection
  transmit_in c ctx out (failed e) = (c, ctx, none)
  transmit_in c ctx out (closed reason) = (c, ctx, none)

  unfoldable pub poll_transmit :
      Connector Key Rest → Ctx → List ℕ → Connector Key Rest × Ctx × Option (List ℕ)
  poll_transmit c ctx out = transmit_in c ctx out c.state

  abbrev pub gave_up : Connector Key Rest → Ctx → Connector Key Rest × Ctx × Action
  gave_up c ctx =
      if leb handshake_timeout (since ctx.now c.started)
      then (record c { state = failed no_answer }, ctx, ended)
      else (c, ctx, done)

  abbrev pub ticked : Connector Key Rest → Session Rest × Ctx → Connector Key Rest × Ctx × Action
  ticked c (conn, ctx) =
      with_ctx ctx (drain_connection_events (record c { connection = some conn }))

  abbrev pub timeout_by :
      Connector Key Rest → Ctx → Option (Session Rest) → Connector Key Rest × Ctx × Action
  timeout_by c ctx none = with_ctx ctx (drain_connection_events c)
  timeout_by c ctx (some conn) = ticked c (peer.on_timeout conn ctx)

  abbrev pub timeout_in : Connector Key Rest → Ctx → State → Connector Key Rest × Ctx × Action
  timeout_in c ctx requesting = gave_up c ctx
  timeout_in c ctx responding = gave_up c ctx
  timeout_in c ctx connected = timeout_by c ctx c.connection
  timeout_in c ctx (failed e) = (c, ctx, done)
  timeout_in c ctx (closed reason) = (c, ctx, done)

  unfoldable pub handle_timeout : Connector Key Rest → Ctx → Connector Key Rest × Ctx × Action
  handle_timeout c ctx = timeout_in c ctx c.state

  abbrev pub retry_at : Option Timestamp → Timestamp
  retry_at none = origin
  retry_at (some last) = saturating_add last retry_interval

  abbrev pub next_due_of : Option (Session Rest) → Option Timestamp
  next_due_of none = none
  next_due_of (some conn) = peer.next_due conn

  abbrev pub timeout_of : Connector Key Rest → State → Option Timestamp
  timeout_of c requesting =
      some (min (retry_at c.last_attempt) (saturating_add c.started handshake_timeout))
  timeout_of c responding =
      some (min (retry_at c.last_attempt) (saturating_add c.started handshake_timeout))
  timeout_of c connected = next_due_of c.connection
  timeout_of c (failed e) = none
  timeout_of c (closed reason) = none

  unfoldable pub next_timeout : Connector Key Rest → Option Timestamp
  next_timeout c = timeout_of c c.state
