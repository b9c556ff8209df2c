-- ===== src/Connection/Lifecycle.antt =====
-- The life of a connection in hex-net-core/src/connection.rs: open, closing, closed, its timers and when
-- it has something to send. What the ledger, the channels and the role answer are arguments.
use hex_net.Common.{
  ℕ, zero, suc, ◌+◌, ◌-◌, ◌≤◌, ◌<◌, ◌≡◌, refl, ap, ◌∙◌, Bool, true, false, not, ◌||◌, Option, none,
  some, leb, ltb, ◌==◌, if◌then◌else◌, arith, min, max, checked_sub,
}
use hex_net.Time.Timestamp.{Timestamp, origin, latest, since, saturating_add}
use hex_net.Wire.Kinds.{CloseReason, timed_out}
use hex_net.Fixed.Ring.{RingQueue, push, pop}
use hex_net.Config.{Liveness}

pub data RecvError : Type 0 where
  malformed duplicate unauthenticated bad_payload is_closed : RecvError

-- An address is a number.
pub data Event : Type 0 where
  migrated : ℕ → Event
  ticket_received : Event
  has_closed : CloseReason → Event

pub data Lifecycle : Type 0 where
  is_open : Lifecycle
  closing : CloseReason → ℕ → Lifecycle
  closed : Lifecycle

abbrev pub close_sends : ℕ
close_sends = 3

abbrev pub events_len : ℕ
events_len = 16

pub record Life : Type 0 where
  pub lifecycle : Lifecycle
  pub last_received : Timestamp
  pub liveness : Liveness
  pub pending_probes : ℕ
  pub events : RingQueue Event

abbrev pub closing_with : Lifecycle → CloseReason → Lifecycle
closing_with is_open reason = closing reason close_sends
closing_with (closing r remaining) reason = closing r remaining
closing_with closed reason = closed

unfoldable pub close : Life → CloseReason → Life
close c reason = record c { lifecycle = closing_with c.lifecycle reason }

abbrev pub ended : Life → CloseReason → Life
ended c reason = record c {
  lifecycle = closed;
  events = push events_len c.events (has_closed reason);
}

unfoldable pub poll_event : Life → Life × Option Event
poll_event c = (record c { events = (pop events_len c.events).1 }, (pop events_len c.events).0)

-- A close frame was read: the end of `read_control`.
unfoldable pub peer_closed : Life → CloseReason → Life
peer_closed c reason = ended c reason

abbrev pub notice_sent : Life → CloseReason → Option ℕ → Life
notice_sent c reason none = ended c reason
notice_sent c reason (some left) =
    if left == 0 then ended c reason else record c { lifecycle = closing reason left }

abbrev pub sent_in : Life → Lifecycle → Life
sent_in c is_open = c
sent_in c (closing reason remaining) = notice_sent c reason (checked_sub remaining 1)
sent_in c closed = c

-- The end of `poll_transmit`, behind a packet that went out.
unfoldable pub packet_sent : Life → Life
packet_sent c = sent_in c c.lifecycle

abbrev pub probes_for : ℕ → Option ℕ → ℕ
probes_for pending none = pending
probes_for pending (some packets) = max pending packets

abbrev pub kept_alive : Life → Timestamp → Timestamp → ℕ → ℕ
kept_alive c now last_eliciting pending =
    if leb c.liveness.keepalive (since now last_eliciting) then max pending 1 else pending

abbrev pub timeout_open : Life → Timestamp → Option ℕ → Timestamp → Life
timeout_open c now probe last_eliciting =
    if leb c.liveness.idle_timeout (since now c.last_received)
    then ended c timed_out
    else record c {
      pending_probes = kept_alive c now last_eliciting (probes_for c.pending_probes probe);
    }

abbrev pub timeout_in : Life → Timestamp → Option ℕ → Timestamp → Lifecycle → Life
timeout_in c now probe last_eliciting is_open = timeout_open c now probe last_eliciting
timeout_in c now probe last_eliciting (closing reason remaining) =
    timeout_open c now probe last_eliciting
timeout_in c now probe last_eliciting closed = c

-- `probe` is how many packets `Delivery::on_timeout` asks for.
unfoldable pub handle_timeout : Life → Timestamp → Option ℕ → Timestamp → Life
handle_timeout c now probe last_eliciting = timeout_in c now probe last_eliciting c.lifecycle

abbrev pub sooner : Option Timestamp → Option Timestamp → Option Timestamp
sooner none b = b
sooner (some a) none = some a
sooner (some a) (some b) = some (min a b)

abbrev pub owed_at :
    Life → Bool → Option Timestamp → Option Timestamp → Lifecycle → Option Timestamp
owed_at c control_empty ack ready is_open =
    if ltb 0 c.pending_probes || not control_empty then some origin else sooner ack ready
owed_at c control_empty ack ready (closing reason remaining) = some origin
owed_at c control_empty ack ready closed = none

-- `ack` is the deadline of the acknowledgements, `ready` when the budget allows the first message that
-- waits.
unfoldable pub transmit_at : Life → Bool → Option Timestamp → Option Timestamp → Option Timestamp
transmit_at c control_empty ack ready = owed_at c control_empty ack ready c.lifecycle

abbrev pub or_sooner : Timestamp → Option Timestamp → Timestamp
or_sooner at none = at
or_sooner at (some other) = min at other

abbrev pub next_in :
    Life
    → Option Timestamp
    → Option Timestamp
    → Option Timestamp
    → Timestamp
    → Lifecycle
    → Option Timestamp
next_in c transmit ledger role last_eliciting closed = none
next_in c transmit ledger role last_eliciting lifecycle = some (
    min
      (or_sooner
        (or_sooner (or_sooner (saturating_add c.last_received c.liveness.idle_timeout) transmit)
          ledger)
        role)
      (saturating_add last_eliciting c.liveness.keepalive))

-- `transmit` is `transmit_at`, the others the deadlines of the ledger and of the role.
unfoldable pub next_timeout :
    Life → Option Timestamp → Option Timestamp → Option Timestamp → Timestamp → Option Timestamp
next_timeout c transmit ledger role last_eliciting =
    next_in c transmit ledger role last_eliciting c.lifecycle

-- After a number of packets.
unfoldable pub after_sends : ℕ → Life → Life
after_sends zero c = c
after_sends (suc n) c = after_sends n (packet_sent c)

closed_stays : (n : ℕ) (c : Life) → c.lifecycle ≡ closed → (after_sends n c).lifecycle ≡ closed
unfolding after_sends packet_sent
closed_stays zero c e = e
closed_stays (suc n) c e =
    let same : packet_sent c ≡ c = ap (sent_in c) e in
    closed_stays n (packet_sent c) (ap (λ (x : Life). x.lifecycle) same ∙ e)

one_sent :
    (left : ℕ) (c : Life) (reason : CloseReason)
    → c.lifecycle ≡ closing reason (suc left)
    → packet_sent c ≡ notice_sent c reason (some left)
unfolding packet_sent
one_sent left c reason e =
    let real : leb 1 (suc left) ≡ true = ground arith in
    let less : suc left - 1 ≡ left = omega arith in ap (sent_in c) e ∙ rw (real, less) refl

closing_lem :
    (n left : ℕ) (c : Life) (reason : CloseReason) (control_empty : Bool)
    (ack ready : Option Timestamp)
    → c.lifecycle ≡ closing reason (suc left)
    → (n ≤ left → transmit_at (after_sends n c) control_empty ack ready ≡ some origin)
      × (left < n
          → ((after_sends n c).lifecycle ≡ closed)
            × (transmit_at (after_sends n c) control_empty ack ready ≡ none))
unfolding after_sends transmit_at
closing_lem zero left c reason control_empty ack ready e =
    (λ le. ap (owed_at c control_empty ack ready) e, λ lt. absurd (omega arith))
closing_lem (suc n) zero c reason control_empty ack ready e =
    let sent = one_sent zero c reason e in
    let over = closed_stays n (packet_sent c) (ap (λ (x : Life). x.lifecycle) sent) in
    (
      λ le. absurd (omega arith),
      λ lt. (over, ap (owed_at (after_sends n (packet_sent c)) control_empty ack ready) over),
    )
closing_lem (suc n) (suc left) c reason control_empty ack ready e =
    let sent = one_sent (suc left) c reason e in
    let more : (suc left == 0) ≡ false = ground arith in
    let still : (packet_sent c).lifecycle ≡ closing reason (suc left) =
      ap (λ (x : Life). x.lifecycle) sent ∙ rw more refl in
    let (due, over) = closing_lem n left (packet_sent c) reason control_empty ack ready still in
    (λ le. due (omega arith), λ lt. over (omega arith))

-- A connection that was open and is closed by this side owes a packet at once until three have gone out,
-- and from then on is closed and owes none, whatever else it had to send.
pub close-after_sends :
    (n : ℕ) (c : Life) (reason : CloseReason) (control_empty : Bool) (ack ready : Option Timestamp)
    → c.lifecycle ≡ is_open
    → (n < close_sends
        → transmit_at (after_sends n (close c reason)) control_empty ack ready ≡ some origin)
      × (close_sends ≤ n
          → ((after_sends n (close c reason)).lifecycle ≡ closed)
            × (transmit_at (after_sends n (close c reason)) control_empty ack ready ≡ none))
unfolding close
close-after_sends n c reason control_empty ack ready e =
    let (due, over) =
      closing_lem n 2 (record c { lifecycle = closing_with c.lifecycle reason }) reason
        control_empty ack ready (ap (λ l. closing_with l reason) e) in
    (λ lt. due (omega arith), λ le. over (omega arith))

some_inj : {a b : ℕ} → some a ≡ some b → a ≡ b
some_inj e = ground arith

or_sooner-le : (at : Timestamp) (other : Option Timestamp) → or_sooner at other ≤ at
or_sooner-le at none = omega arith
or_sooner-le at (some other) = omega arith

abbrev pub IsBefore : Timestamp → Option Timestamp → Type 0
IsBefore now none = Unit {0}
IsBefore now (some at) = now < at

or_sooner-IsBefore :
    (now at : Timestamp) (other : Option Timestamp) → now < or_sooner at other → IsBefore now other
or_sooner-IsBefore now at none lt = tt
or_sooner-IsBefore now at (some other) lt = omega arith

quiet_open :
    (c : Life) (transmit ledger role : Option Timestamp) (last_eliciting now : Timestamp)
    → now
      < min
          (or_sooner
            (or_sooner
              (or_sooner (saturating_add c.last_received c.liveness.idle_timeout) transmit)
              ledger)
            role)
          (saturating_add last_eliciting c.liveness.keepalive)
    → c.last_received ≤ now
    → last_eliciting ≤ now
    → now < latest
    → IsBefore now transmit
      × IsBefore now ledger
      × IsBefore now role
      × (timeout_open c now none last_eliciting ≡ c)
unfolding since saturating_add
quiet_open c transmit ledger role last_eliciting now early received elicited before_end =
    let base = min (c.last_received + c.liveness.idle_timeout) latest in
    let a = or_sooner base transmit in
    let b = or_sooner a ledger in
    let a_le = or_sooner-le base transmit in
    let b_le = or_sooner-le a ledger in
    let c_le = or_sooner-le b role in
    let patient : leb c.liveness.idle_timeout (now - c.last_received) ≡ false = ground arith in
    let lively : leb c.liveness.keepalive (now - last_eliciting) ≡ false = ground arith in
    (
      or_sooner-IsBefore now base transmit (omega arith),
      or_sooner-IsBefore now a ledger (omega arith),
      or_sooner-IsBefore now b role (omega arith),
      rw (patient, lively) refl,
    )

-- Before the instant that a connection names, on a clock that does not go back and is not at its end,
-- nothing is due: not the packet that it owes, not the ledger, not the role; and its own timers, when
-- the ledger asks for no probe, change nothing.
pub next_timeout-quiet :
    (c : Life) (transmit ledger role : Option Timestamp) (last_eliciting now at : Timestamp)
    → next_timeout c transmit ledger role last_eliciting ≡ some at
    → now < at
    → c.last_received ≤ now
    → last_eliciting ≤ now
    → now < latest
    → IsBefore now transmit
      × IsBefore now ledger
      × IsBefore now role
      × (handle_timeout c now none last_eliciting ≡ c)
unfolding next_timeout handle_timeout since saturating_add
next_timeout-quiet c transmit ledger role last_eliciting now at next early received elicited
      before_end =
    by c.lifecycle next
  where
    by :
        (l : Lifecycle)
        → next_in c transmit ledger role last_eliciting l ≡ some at
        → IsBefore now transmit
          × IsBefore now ledger
          × IsBefore now role
          × (timeout_in c now none last_eliciting l ≡ c)
    by closed e = absurd cc
    by is_open e =
        (let same = some_inj e in
          quiet_open c transmit ledger role last_eliciting now (omega (arith, same)) received
            elicited before_end)
    by (closing reason remaining) e =
        (let same = some_inj e in
          quiet_open c transmit ledger role last_eliciting now (omega (arith, same)) received
            elicited before_end)
