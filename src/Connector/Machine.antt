-- ===== src/Connector/Machine.antt =====
-- What every operation of hex-net-core/src/connector.rs does to its state.
use hex_net.Common.{
  ℕ, suc, ◌≡◌, inl, inr, refl, sym, subst, Option, none, some, List, Result, ok, err, leb, ◌==◌,
  Bool-cases, take,
}
use hex_net.Connection.Lifecycle
use hex_net.Connector.{
  Session, RecvError, malformed, duplicate, unauthenticated, bad_payload, is_closed, opened,
  accepted_parsed, drained, payload_for, dispatch_kind, too_soon, transmit_by, timeout_by,
  handshake_timeout, close_by, Connector, Peer, State, requesting, responding, connected, failed,
  closed, no_answer, Challenge, handle_datagram, dispatch, kind_of, on_accepted, accepted_with,
  answered, on_payload, received, drain, drain_connection_events, after_events, poll_transmit,
  transmit_in, retried, handle_timeout, timeout_in, gave_up, close,
}
use hex_net.Wire.Kinds.{PacketKind, payload, request, challenge, response, CloseReason}
use hex_net.Wire.Header.{Header, ReadError, decode}
use hex_net.Stats.{Ctx}
use hex_net.Time.Timestamp.{since}
use hex_net.Connector.States.{
  Leads, stays, opens, gives_up_early, gives_up_late, closes, HasParts, Keeps, some_not_none, same,
  replaced, then_Keeps, on_challenge-Keeps,
}

-- A call of the connector.
pub data Call : Type 0 where
  datagram : ℕ → List ℕ → ℕ → List ℕ → Call
  transmit : List ℕ → Call
  timeout close_up : Call

module _ {Key Rest : Type 0} (peer : Peer Key Rest) where
  -- The connector after a call.
  unfoldable pub called : Connector Key Rest → Ctx → Call → Connector Key Rest
  called c ctx (datagram from buf len out) = (handle_datagram peer c ctx from buf len out).0
  called c ctx (transmit out) = (poll_transmit peer c ctx out).0
  called c ctx timeout = (handle_timeout peer c ctx).0
  called c ctx close_up = close c

  answered-Keeps :
      (c : Connector Key Rest) (r : Session Rest × Ctx × Result (Unit {0}) RecvError)
      → c.state ≡ responding
      → HasParts c
      → Keeps c (answered peer c r).0
  unfolding HasParts
  answered-Keeps c (conn, ctx, ok _) e parts = record {
    leads = subst (λ s. Leads s connected) (sym e) opens;
    parts = (λ e'. absurd cc, λ e'. some_not_none conn);
  }
  answered-Keeps c (conn, ctx, err e') e parts = same c parts

  accepted-Keeps :
      (c : Connector Key Rest) (ctx : Ctx) (buf : List ℕ) (len : ℕ) (header : Header)
      (ch : Option Challenge)
      → c.state ≡ responding
      → HasParts c
      → Keeps c (accepted_with peer c ctx buf len header ch).0
  accepted-Keeps c ctx buf len header none e parts = same c parts
  accepted-Keeps c ctx buf len header (some ch) e parts =
      answered-Keeps c (peer.receive (opened peer c ctx header ch) ctx buf len) e parts

  parsed-Keeps :
      (c : Connector Key Rest) (ctx : Ctx) (buf : List ℕ) (len : ℕ)
      (parsed : Result (Header × ℕ) ReadError)
      → c.state ≡ responding
      → HasParts c
      → Keeps c (accepted_parsed peer c ctx buf len parsed).0
  parsed-Keeps c ctx buf len (err e') e parts = same c parts
  parsed-Keeps c ctx buf len (ok (header, at)) e parts =
      accepted-Keeps c ctx buf len header c.challenge e parts

  after_events-Keeps :
      (c : Connector Key Rest) (r : Session Rest × Option CloseReason)
      → c.state ≡ connected
      → HasParts c
      → Keeps c (after_events c r).0
  unfolding HasParts
  after_events-Keeps c (conn, none) e parts = replaced c conn parts
  after_events-Keeps c (conn, some reason) e parts = record {
    leads = subst (λ s. Leads s (closed reason)) (sym e) closes;
    parts = (λ e'. absurd cc, λ e'. absurd cc);
  }

  drained-Keeps :
      (c : Connector Key Rest) (conn : Option (Session Rest))
      → c.state ≡ connected
      → HasParts c
      → Keeps c (drained c conn).0
  drained-Keeps c none e parts = same c parts
  drained-Keeps c (some conn) e parts =
      after_events-Keeps c (drain (suc conn.life.events.len) conn none) e parts

  -- The events of a connection that was put in place.
  events-Keeps :
      (c : Connector Key Rest) (conn : Session Rest)
      → c.state ≡ connected
      → HasParts c
      → Keeps c (drain_connection_events (record c { connection = some conn })).0
  unfolding drain_connection_events
  events-Keeps c conn e parts =
      let c1 = record c { connection = some conn } in
      then_Keeps c c1 (drained c1 (some conn)).0 refl
        (drained-Keeps c1 (some conn) e (replaced c conn parts).parts)

  received-Keeps :
      (c : Connector Key Rest) (r : Session Rest × Ctx × Result (Unit {0}) RecvError)
      → c.state ≡ connected
      → HasParts c
      → Keeps c (received peer c r).0
  received-Keeps c (conn, ctx, ok _) e parts = events-Keeps c conn e parts
  received-Keeps c (conn, ctx, err bad_payload) e parts = events-Keeps c conn e parts
  received-Keeps c (conn, ctx, err malformed) e parts = replaced c conn parts
  received-Keeps c (conn, ctx, err duplicate) e parts = replaced c conn parts
  received-Keeps c (conn, ctx, err unauthenticated) e parts = replaced c conn parts
  received-Keeps c (conn, ctx, err is_closed) e parts = replaced c conn parts

  payload-Keeps :
      (c : Connector Key Rest) (ctx : Ctx) (buf : List ℕ) (len : ℕ) (conn : Option (Session Rest))
      → c.state ≡ connected
      → HasParts c
      → Keeps c (payload_for peer c ctx buf len conn).0
  payload-Keeps c ctx buf len none e parts = same c parts
  payload-Keeps c ctx buf len (some conn) e parts =
      received-Keeps c (peer.receive conn ctx buf len) e parts

  dispatch-Keeps :
      (c : Connector Key Rest) (ctx : Ctx) (buf : List ℕ) (len : ℕ) (out : List ℕ) (s : State)
      (kind : PacketKind)
      → c.state ≡ s
      → HasParts c
      → Keeps c (dispatch peer c ctx buf len out s kind).0
  unfolding on_accepted on_payload
  dispatch-Keeps c ctx buf len out requesting challenge e parts =
      on_challenge-Keeps c ctx buf len out e parts
  dispatch-Keeps c ctx buf len out responding payload e parts =
      parsed-Keeps c ctx buf len (decode (take len buf)) e parts
  dispatch-Keeps c ctx buf len out connected payload e parts =
      payload-Keeps c ctx buf len c.connection e parts
  dispatch-Keeps c ctx buf len out requesting payload e parts = same c parts
  dispatch-Keeps c ctx buf len out requesting request e parts = same c parts
  dispatch-Keeps c ctx buf len out requesting response e parts = same c parts
  dispatch-Keeps c ctx buf len out responding challenge e parts = same c parts
  dispatch-Keeps c ctx buf len out responding request e parts = same c parts
  dispatch-Keeps c ctx buf len out responding response e parts = same c parts
  dispatch-Keeps c ctx buf len out connected challenge e parts = same c parts
  dispatch-Keeps c ctx buf len out connected request e parts = same c parts
  dispatch-Keeps c ctx buf len out connected response e parts = same c parts
  dispatch-Keeps c ctx buf len out (failed r) kind e parts = same c parts
  dispatch-Keeps c ctx buf len out (closed r) kind e parts = same c parts

  kind-Keeps :
      (c : Connector Key Rest) (ctx : Ctx) (buf : List ℕ) (len : ℕ) (out : List ℕ)
      (kind : Option PacketKind)
      → HasParts c
      → Keeps c (dispatch_kind peer c ctx buf len out kind).0
  kind-Keeps c ctx buf len out none parts = same c parts
  kind-Keeps c ctx buf len out (some kind) parts =
      dispatch-Keeps c ctx buf len out c.state kind refl parts

  retried-Keeps :
      (c : Connector Key Rest) (ctx : Ctx) (out : List ℕ)
      → HasParts c
      → Keeps c (retried peer c ctx out).0
  unfolding HasParts
  retried-Keeps c ctx out parts = elim (Bool-cases (too_soon peer ctx c.last_attempt)) [
    | inl soon ↦ rw soon (same c parts)
    | inr ready ↦ rw ready (record { leads = stays; parts = parts })
  ]

  transmit-Keeps :
      (c : Connector Key Rest) (ctx : Ctx) (out : List ℕ) (s : State)
      → c.state ≡ s
      → HasParts c
      → Keeps c (transmit_in peer c ctx out s).0
  transmit-Keeps c ctx out requesting e parts = retried-Keeps c ctx out parts
  transmit-Keeps c ctx out responding e parts = retried-Keeps c ctx out parts
  transmit-Keeps c ctx out connected e parts = by c.connection
    where
      by : (conn : Option (Session Rest)) → Keeps c (transmit_by peer c ctx conn).0
      by none = same c parts
      by (some conn) = replaced c (peer.poll_transmit conn ctx).0 parts
  transmit-Keeps c ctx out (failed r) e parts = same c parts
  transmit-Keeps c ctx out (closed r) e parts = same c parts

  gave_up-Keeps :
      (c : Connector Key Rest) (ctx : Ctx)
      → Leads c.state (failed no_answer)
      → HasParts c
      → Keeps c (gave_up peer c ctx).0
  unfolding HasParts
  gave_up-Keeps c ctx leads parts =
      elim (Bool-cases (leb handshake_timeout (since ctx.now c.started))) [
        | inl late ↦ rw late (record { leads = leads; parts = (λ e. absurd cc, λ e. absurd cc) })
        | inr early ↦ rw early (same c parts)
      ]

  timeout-Keeps :
      (c : Connector Key Rest) (ctx : Ctx) (s : State)
      → c.state ≡ s
      → HasParts c
      → Keeps c (timeout_in peer c ctx s).0
  unfolding drain_connection_events
  timeout-Keeps c ctx requesting e parts =
      gave_up-Keeps c ctx (subst (λ s. Leads s (failed no_answer)) (sym e) gives_up_early) parts
  timeout-Keeps c ctx responding e parts =
      gave_up-Keeps c ctx (subst (λ s. Leads s (failed no_answer)) (sym e) gives_up_late) parts
  timeout-Keeps c ctx connected e parts = by c.connection
    where
      by : (conn : Option (Session Rest)) → Keeps c (timeout_by peer c ctx conn).0
      by none = drained-Keeps c c.connection e parts
      by (some conn) = events-Keeps c (peer.on_timeout conn ctx).0 e parts
  timeout-Keeps c ctx (failed r) e parts = same c parts
  timeout-Keeps c ctx (closed r) e parts = same c parts

  datagram-Keeps :
      (c : Connector Key Rest) (ctx : Ctx) (from : ℕ) (buf : List ℕ) (len : ℕ) (out : List ℕ)
      → HasParts c
      → Keeps c (handle_datagram peer c ctx from buf len out).0
  unfolding handle_datagram
  datagram-Keeps c ctx from buf len out parts = elim (Bool-cases (from == c.server)) [
    | inl known ↦ rw known (kind-Keeps c ctx buf len out (kind_of buf len) parts)
    | inr unknown ↦ rw unknown (same c parts)
  ]

  close-Keeps :
      (c : Connector Key Rest) (conn : Option (Session Rest))
      → HasParts c
      → Keeps c (close_by c conn)
  close-Keeps c none parts = same c parts
  close-Keeps c (some conn) parts =
      replaced c (record conn { life = Lifecycle.close conn.life CloseReason.requested }) parts

  -- Whatever call is made, the state stays or follows an arrow of the handshake (a challenge answered, an
  -- acceptance, the end of the time allowed, a close), a connector that responds has a challenge, and one
  -- that is connected has a connection.
  pub called-Keeps :
      (c : Connector Key Rest) (ctx : Ctx) (call : Call)
      → HasParts c
      → Leads c.state (called c ctx call).state × HasParts (called c ctx call)
  unfolding called poll_transmit handle_timeout close
  called-Keeps c ctx (datagram from buf len out) parts =
      let keeps = datagram-Keeps c ctx from buf len out parts in (keeps.leads, keeps.parts)
  called-Keeps c ctx (transmit out) parts =
      let keeps = transmit-Keeps c ctx out c.state refl parts in (keeps.leads, keeps.parts)
  called-Keeps c ctx timeout parts =
      let keeps = timeout-Keeps c ctx c.state refl parts in (keeps.leads, keeps.parts)
  called-Keeps c ctx close_up parts =
      let keeps = close-Keeps c c.connection parts in (keeps.leads, keeps.parts)
