-- ===== src/Tests/Connector.antt =====
-- Examples for hex-net-core/src/connector.rs, and for the life and the path of connection.rs.
use hex_net.Common.{
  ℕ, ◌+◌, ◌≤◌, ◌<◌, ◌≡◌, ◌≢◌, ◌⊎◌, inr, refl, some, none, arith, List, [], ◌∷◌, ok, replicate, true,
  length-replicate,
}
use hex_net.Connector.{
  Connector, Session, State, drain_connection_events, Peer, responding, connected, failed,
  no_answer, done, ended, Challenge, Event, has_closed, handle_datagram, poll_transmit,
  handle_timeout, next_timeout, on_accepted, retry_interval, retry_at,
}
use hex_net.Connector.States.{Leads, HasParts}
use hex_net.Connector.Machine.{datagram, called, called-Keeps}
use hex_net.Connector.Accepted.{WasAccepted, handle_datagram-WasAccepted}
use hex_net.Connector.Writing.{CanWrite, Carries}
use hex_net.Connector.Retry.{IsLater, next_timeout_lem, attempts, attempts-AreSpaced}
use hex_net.Connector.Events.{
  events_of, with_events, NoClose, IsLastClose, drain_connection_events_lem,
}
use hex_net.Fixed.Ring.{RingQueue, IsValid}
use hex_net.Fixed.Ring.Refine.{view}
use hex_net.Connection.{AreSpaced}
use hex_net.Connection.Lifecycle.{
  Life, events_len, is_open, ticket_received, closed, close, after_sends, transmit_at,
  close-after_sends, next_timeout-quiet, IsBefore,
}
use hex_net.Connection.Lifecycle
use hex_net.Connection.Migration.{
  PathState, Happening, comes, answers, run, Validated, Waits, run-Validated, token_for, arrived,
  on_address_change, on_path_response,
}
use hex_net.Connection.Queue.{new_queue}
use hex_net.Stats.{Ctx, new_counters}
use hex_net.Time.Timestamp.{Timestamp, saturating_add}
use hex_net.Wire.Header.{decode}
use hex_net.Wire.Bytes.{read_array, slice?}
use hex_net.Wire.Kinds.{timed_out, requested, CloseReason}

abbrev life : Life
life = record {
  lifecycle = is_open;
  last_received = 100;
  liveness = record { idle_timeout = 5_000; keepalive = 1_000 };
  pending_probes = 0;
  events = record { items = replicate 16 ticket_received; head = 0; len = 0; dropped = 0 };
}

-- A connection whose rest is a number, and the part of it that the connector calls.
abbrev session : Session ℕ
session = record { life = life; rest = 2 }

abbrev peer : Peer ℕ ℕ
peer = record {
  for_connection = λ key id client server. key + id + client + server;
  start = λ now id key. session;
  receive = λ c ctx buf len. (c, ctx, ok tt);
  poll_transmit = λ c ctx. (c, ctx, none);
  on_timeout = λ c ctx. (c, ctx);
  next_due = λ c. none;
}

abbrev challenge : Challenge
challenge = record { cookie = record { items = 8 ∷ 9 ∷ []; len = 2 }; server_nonce = 44 }

abbrev responder : Connector ℕ ℕ
responder = record {
  server = 5;
  state = responding;
  ticket = 1 ∷ 2 ∷ [];
  challenge = some challenge;
  nonce = 33;
  keys = 7;
  started = 1_000;
  last_attempt = some 2_000;
  connection = none;
}

responder-HasParts : HasParts responder
unfolding HasParts
responder-HasParts = (λ e e'. absurd cc, λ e. absurd cc)

abbrev ctx : Ctx
ctx = record { now = 3_000; counters = new_counters }

-- A payload packet for connection 1.
abbrev acceptance : List ℕ
acceptance = 0 ∷ 1 ∷ 0 ∷ 0 ∷ 0 ∷ 2 ∷ 0 ∷ []

called-Keeps_example :
    Leads responding (called peer responder ctx (datagram 5 acceptance 7 [])).state
    × HasParts (called peer responder ctx (datagram 5 acceptance 7 []))
called-Keeps_example =
    called-Keeps peer responder ctx (datagram 5 acceptance 7 []) responder-HasParts

not_yet : responder.state ≢ connected
not_yet e = absurd cc

accepted_run : (handle_datagram peer responder ctx 5 acceptance 7 []).0.state ≡ connected
unfolding handle_datagram on_accepted decode read_array slice?
accepted_run = refl

handle_datagram-WasAccepted_example :
    WasAccepted peer responder
      (handle_datagram peer responder ctx 5 acceptance 7 []).0
      ctx
      5
      acceptance
      7
handle_datagram-WasAccepted_example =
    handle_datagram-WasAccepted peer responder ctx 5 acceptance 7 [] not_yet accepted_run

-- A retry is due.
abbrev due : Ctx
due = record { now = 400_000_000; counters = new_counters }

responder-IsLater : IsLater responder 400_000_000
responder-IsLater = record {
  since_start = omega arith;
  since_last = λ last e. (let same : 2_000 ≡ last = ground arith in omega arith);
  not_last = omega arith;
}

abbrev buffer : List ℕ
buffer = replicate 1200 0

responder-CanWrite : CanWrite responder buffer
responder-CanWrite = record {
  room = omega (arith, length-replicate {A = ℕ} 1200 0);
  nonce_fits = omega arith;
  ticket_fits = omega arith;
  cookie_fits = λ e. (challenge, refl, omega arith);
}

next_timeout_lem_example :
    (at : Timestamp) × (next_timeout peer responder ≡ some at)
    × (400_000_000 < at
        → (poll_transmit peer responder due buffer ≡ (responder, due, none))
          × (handle_timeout peer responder due ≡ (responder, due, done)))
    × (at ≤ 400_000_000
        → ((packet : List ℕ) × Carries responder packet
            × (poll_transmit peer responder due buffer
                ≡ (record responder { last_attempt = some 400_000_000 }, due, some packet)))
          ⊎ (handle_timeout peer responder due
              ≡ (record responder { state = failed no_answer }, due, ended)))
next_timeout_lem_example =
    next_timeout_lem peer responder due buffer (inr refl) responder-IsLater responder-CanWrite

attempts-AreSpaced_example :
    AreSpaced retry_interval
      (retry_at peer (some 2_000))
      (attempts peer responder (replicate 1200 0) (ctx ∷ ctx ∷ []))
attempts-AreSpaced_example =
    attempts-AreSpaced peer responder (replicate 1200 0) (ctx ∷ ctx ∷ []) (inr refl)

-- A ticket came, and the connection timed out behind it.
abbrev timed : Session ℕ
timed = record {
  life = record life {
    events = record {
      items = ticket_received ∷ has_closed timed_out ∷ replicate 14 ticket_received;
      head = 0;
      len = 2;
      dropped = 0;
    };
  };
  rest = 2;
}

timed-IsValid : IsValid events_len timed.life.events
timed-IsValid = record { storage = refl; head_in = omega arith; len_in = omega arith }

abbrev client : Connector ℕ ℕ
client = record responder { state = connected; connection = some timed }

drain_connection_events_lem_example :
    (q : RingQueue Event) × ((view events_len ticket_received q).queue ≡ [])
    × ((NoClose (events_of timed)
          × (drain_connection_events client
              ≡ (record client { connection = some (with_events timed q) }, done)))
        ⊎ ((reason : CloseReason) × IsLastClose reason (events_of timed)
            × (drain_connection_events client ≡ (
              record client {
                connection = some (with_events timed q);
                state = State.closed reason;
              },
              ended,
            ))))
drain_connection_events_lem_example = drain_connection_events_lem client timed refl timed-IsValid

close-after_sends_example :
    (3 < 3 → transmit_at (after_sends 3 (close life requested)) true none none ≡ some 0)
    × (3 ≤ 3
        → ((after_sends 3 (close life requested)).lifecycle ≡ closed)
          × (transmit_at (after_sends 3 (close life requested)) true none none ≡ none))
close-after_sends_example = close-after_sends 3 life requested true none none refl

life_next : Lifecycle.next_timeout life none (some 700) none 200 ≡ some 700
unfolding Lifecycle.next_timeout saturating_add
life_next = refl

next_timeout-quiet_example :
    IsBefore 600 none
    × IsBefore 600 (some 700)
    × IsBefore 600 none
    × (Lifecycle.handle_timeout life 600 none 200 ≡ life)
next_timeout-quiet_example =
    next_timeout-quiet life none (some 700) none 200 600 700 life_next (omega arith) (omega arith)
      (omega arith) (omega arith)

abbrev path : PathState
path = record { addr = 1; probe = none; control = new_queue 0 }

abbrev roaming : List Happening
roaming = comes 50 2 9 ∷ answers (token_for 9 50) ∷ []

-- The path moves once the token comes back.
roaming-run : (run path roaming).addr ≡ 2
unfolding run arrived on_address_change on_path_response token_for
roaming-run = refl

run-Validated_example :
    ((run path roaming).addr ≡ 1)
    ⊎ (Validated (run path roaming).addr roaming ⊎ Waits path (run path roaming).addr roaming)
run-Validated_example = run-Validated path roaming
