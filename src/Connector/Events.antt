-- ===== src/Connector/Events.antt =====
-- The loop over a connection's events in hex-net-core/src/connector.rs, against the list that the queue
-- of fixed.rs stands for.
use hex_net.Common.{
  ℕ, zero, suc, ◌<◌, ◌≡◌, ◌⊎◌, inl, inr, refl, ap, ◌∙◌, Option, none, some, List, [], ◌∷◌, ◌++◌,
  arith, length,
}
use hex_net.Fixed.Ring.{RingQueue, IsValid, pop}
use hex_net.Fixed.Ring.Refine.{view, take_oldest, Bounded, pop_refines, length-view}
use hex_net.Connection.Lifecycle.{events_len, poll_event}
use hex_net.Connector.{
  Connector, Session, Event, has_closed, migrated, ticket_received, poll_session, drain, on_event,
  reason_of, drained, after_events, drain_connection_events, done, ended, closed,
}
use hex_net.Wire.Kinds.{CloseReason}

-- The events that wait, oldest first.
abbrev pub events_of : {Rest : Type 0} → Session Rest → List Event
events_of conn = (view events_len ticket_received conn.life.events).queue

-- No event of the list is a close.
pub data NoClose : List Event → Type 0 where
  nothing : NoClose []
  moved : {address : ℕ} {events : List Event} → NoClose events → NoClose (migrated address ∷ events)
  ticketed : {events : List Event} → NoClose events → NoClose (ticket_received ∷ events)

-- A close with this reason is in the list, and none behind it.
abbrev pub IsLastClose : CloseReason → List Event → Type 0
IsLastClose reason events =
    (before : List Event) × (after : List Event) × NoClose after
    × (events ≡ before ++ (has_closed reason ∷ after))

-- What the loop finds in the list, from what it found before.
Finds : Option CloseReason → List Event → Option CloseReason → Type 0
Finds last events found =
    (NoClose events × (found ≡ last))
    ⊎ ((reason : CloseReason) × IsLastClose reason events × (found ≡ some reason))

Finds-later :
    (last found : Option CloseReason) (event : Event) (events : List Event)
    → Finds (reason_of last event) events found
    → Finds last (event ∷ events) found
unfolding Finds
Finds-later last found event events (inr (reason, (before, after, quiet, e), same)) =
    inr (reason, (event ∷ before, after, quiet, ap (λ l. event ∷ l) e), same)
Finds-later last found (migrated address) events (inl (quiet, same)) = inl (moved quiet, same)
Finds-later last found ticket_received events (inl (quiet, same)) = inl (ticketed quiet, same)
Finds-later last found (has_closed reason) events (inl (quiet, same)) =
    inr (reason, ([], events, quiet, refl), same)

-- What a valid ring gives, by the list that it stands for.
taken :
    (b : Bounded Event) (events : List Event)
    → b.queue ≡ events
    → take_oldest events_len b ≡ take_oldest events_len (record { queue = events; lost = b.lost })
taken b events e = ap (λ l. take_oldest events_len (record { queue = l; lost = b.lost })) e

pop_empty :
    (q : RingQueue Event)
    → IsValid events_len q
    → (view events_len ticket_received q).queue ≡ []
    → ((pop events_len q).0 ≡ none)
      × ((view events_len ticket_received (pop events_len q).1).queue ≡ [])
unfolding take_oldest
pop_empty q ok e =
    let (valid, front, rest) = pop_refines events_len ticket_received 4 q refl ok in
    let first = taken (view events_len ticket_received q) [] e in
    (
      front ∙ ap (λ (r : Option Event × Bounded Event). r.0) first,
      ap (λ (b : Bounded Event). b.queue)
          (rest ∙ ap (λ (r : Option Event × Bounded Event). r.1) first),
    )

pop_oldest :
    (q : RingQueue Event) (event : Event) (events : List Event)
    → IsValid events_len q
    → (view events_len ticket_received q).queue ≡ event ∷ events
    → IsValid events_len (pop events_len q).1
      × ((pop events_len q).0 ≡ some event)
      × ((view events_len ticket_received (pop events_len q).1).queue ≡ events)
unfolding take_oldest
pop_oldest q event events ok e =
    let (valid, front, rest) = pop_refines events_len ticket_received 4 q refl ok in
    let first = taken (view events_len ticket_received q) (event ∷ events) e in
    (
      valid,
      front ∙ ap (λ (r : Option Event × Bounded Event). r.0) first,
      ap (λ (b : Bounded Event). b.queue)
          (rest ∙ ap (λ (r : Option Event × Bounded Event). r.1) first),
    )

module _ {Rest : Type 0} where
  abbrev pub with_events : Session Rest → RingQueue Event → Session Rest
  with_events conn events = record conn { life = record conn.life { events = events } }

  -- One turn of the loop takes what the queue gives.
  turn :
      (fuel : ℕ) (conn : Session Rest) (last : Option CloseReason) (found : Option Event)
      → (pop events_len conn.life.events).0 ≡ found
      → drain (suc fuel) conn last
        ≡ on_event (drain fuel) last (with_events conn (pop events_len conn.life.events).1, found)
  unfolding drain poll_session poll_event
  turn fuel conn last found e =
      ap
        (λ (f : Option Event).
          on_event (drain fuel) last (with_events conn (pop events_len conn.life.events).1, f))
        e

  -- With more turns than events that wait, the loop leaves none of them.
  Drains : ℕ → Session Rest → Option CloseReason → List Event → Type 0
  Drains fuel conn last events =
      (q : RingQueue Event) × (found : Option CloseReason) × ((view events_len ticket_received
          q).queue
        ≡ [])
      × Finds last events found
      × (drain fuel conn last ≡ (with_events conn q, found))

  drain-Drains :
      (fuel : ℕ) (conn : Session Rest) (last : Option CloseReason) (events : List Event)
      → IsValid events_len conn.life.events
      → events_of conn ≡ events
      → length events < fuel
      → Drains fuel conn last events
  unfolding Drains Finds
  drain-Drains zero conn last events ok e enough = absurd (omega arith)
  drain-Drains (suc fuel) conn last [] ok e enough =
      let (front, rest) = pop_empty conn.life.events ok e in
      (
        (pop events_len conn.life.events).1,
        last,
        rest,
        inl (nothing, refl),
        turn fuel conn last none front,
      )
  drain-Drains (suc fuel) conn last (event ∷ events) ok e enough =
      let (valid, front, rest) = pop_oldest conn.life.events event events ok e in
      let (q, found, empty, finds, made) =
        drain-Drains fuel (with_events conn (pop events_len conn.life.events).1)
          (reason_of last event) events valid rest (omega arith) in
      (
        q,
        found,
        empty,
        Finds-later last found event events finds,
        turn fuel conn last (some event) front ∙ made,
      )

module _ {Key Rest : Type 0} where
  drained_by :
      (c : Connector Key Rest) (conn conn' : Session Rest) (found : Option CloseReason)
      → c.connection ≡ some conn
      → drain (suc conn.life.events.len) conn none ≡ (conn', found)
      → drain_connection_events c ≡ after_events c (conn', found)
  unfolding drain_connection_events
  drained_by c conn conn' found here made = ap (drained c) here ∙ ap (after_events c) made

  -- With a connection whose queue of events is valid, the loop over its events ends, with all of them
  -- taken and nothing else of the connection changed. If no close is among them, the connector stays in
  -- its state and nothing is to be done. Otherwise it is closed, for the reason of the last close.
  pub drain_connection_events_lem :
      (c : Connector Key Rest) (conn : Session Rest)
      → c.connection ≡ some conn
      → IsValid events_len conn.life.events
      → (q : RingQueue Event) × ((view events_len ticket_received q).queue ≡ [])
        × ((NoClose (events_of conn)
              × (drain_connection_events c
                  ≡ (record c { connection = some (with_events conn q) }, done)))
            ⊎ ((reason : CloseReason) × IsLastClose reason (events_of conn)
                × (drain_connection_events c ≡ (
                  record c { connection = some (with_events conn q); state = closed reason },
                  ended,
                ))))
  unfolding Drains Finds
  drain_connection_events_lem c conn here ok =
      let size = length-view events_len ticket_received conn.life.events in
      let (q, found, empty, finds, made) =
        drain-Drains (suc conn.life.events.len) conn none (events_of conn) ok refl (omega arith) in
      let whole = drained_by c conn (with_events conn q) found here made in
      (
        q,
        empty,
        elim finds [
          | inl (quiet, same) ↦
              inl (quiet, whole ∙ ap (λ f. after_events c (with_events conn q, f)) same)
          | inr (reason, last, same) ↦
              inr (reason, last, whole ∙ ap (λ f. after_events c (with_events conn q, f)) same)
        ],
      )
