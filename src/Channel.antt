-- ===== src/Channel.antt =====
-- hex-net-core/src/channel.rs: message ids, channel sets, and what a channel decides about an arriving
-- message. A message id is the number that its newtype wraps. The payloads and
-- their arenas are left out.
pub mod Unordered
pub mod Flush
pub mod Ordered
pub mod Sending
use hex_net.Common.{
  ℕ, zero, suc, ◌+◌, ◌-◌, ◌*◌, ◌/◌, ◌%◌, ◌^◌, bit_and, bit_or, Bool, true, false, not, ◌&&◌, ◌||◌,
  Option, none, some, List, [], ◌∷◌, ◌++◌, ltb, leb, ◌==◌, if◌then◌else◌, ◌>>=◌, checked, u32_max,
  length, get_elem?, set, replicate,
}
use hex_net.Common.Slices.{erase_at}
use hex_net.Common.Int.{ℤ, pos, negsuc, signed}
use hex_net.Seq.{WireSequence, reconstruct, shl64}
use hex_net.Config.{max_channels}

abbrev pub MessageId : Type 0
MessageId = ℕ

abbrev pub first_id : MessageId
first_id = 0

unfoldable pub next_id : MessageId → MessageId
next_id id = (id + 1) % 2 ^ 32

unfoldable pub id_to_wire : MessageId → WireSequence
id_to_wire id = id % 2 ^ 16

unfoldable pub id_from_wire : MessageId → WireSequence → Option MessageId
id_from_wire reference wire = do full ← reconstruct reference wire; checked u32_max full

-- `distance_from`: how far ahead of `earlier` the id is.
unfoldable pub distance_from : MessageId → MessageId → ℤ
distance_from id earlier = signed 32 ((id + 2 ^ 32 - earlier) % 2 ^ 32)

pub data ChannelKind : Type 0 where
  unreliable unreliable_sequenced reliable_unordered reliable_ordered : ChannelKind

unfoldable pub is_reliable : ChannelKind → Bool
is_reliable reliable_unordered = true
is_reliable reliable_ordered = true
is_reliable unreliable = false
is_reliable unreliable_sequenced = false

unfoldable pub needs_id : ChannelKind → Bool
needs_id unreliable = false
needs_id unreliable_sequenced = true
needs_id reliable_unordered = true
needs_id reliable_ordered = true

pub record ChannelSet : Type 0 where
  pub set : List ChannelKind
  pub len : ℕ

-- The kinds, filled up to the array's length. More than that do not compile.
unfoldable pub new_set : List ChannelKind → ChannelSet
new_set kinds = record {
  set = kinds ++ replicate (max_channels - length kinds) unreliable;
  len = length kinds;
}

unfoldable pub kind_of : ChannelSet → ℕ → Option ChannelKind
kind_of s channel = if ltb channel s.len then get_elem? s.set channel else none

pub record Held : Type 0 where
  pub channel : ℕ
  pub id : MessageId

pub record ReceiverState : Type 0 where
  pub newest : MessageId
  pub has_newest : Bool
  pub seen_newest : MessageId
  pub seen_mask : ℕ
  pub seen_started : Bool
  pub expected : MessageId

unfoldable pub new_receiver : ReceiverState
new_receiver = record {
  newest = first_id;
  has_newest = false;
  seen_newest = first_id;
  seen_mask = 0;
  seen_started = false;
  expected = first_id;
}

-- An id `offset` behind the newest one that was seen.
unfoldable pub accept_behind : ReceiverState → ℕ → ReceiverState × Bool
accept_behind s offset =
    if leb 64 offset
    then (s, false)
    else (if not (bit_and s.seen_mask (2 ^ offset) == 0)
        then (s, false)
        else (record s { seen_mask = bit_or s.seen_mask (2 ^ offset) }, true))

unfoldable pub accept_at : ReceiverState → MessageId → ℤ → ReceiverState × Bool
accept_at s id (pos zero) = accept_behind s 0
accept_at s id (pos (suc n)) = (
  record s {
    seen_mask = bit_or (if leb 64 (suc n) then 0 else shl64 s.seen_mask (suc n)) 1;
    seen_newest = id;
  },
  true,
)
accept_at s id (negsuc n) = accept_behind s (suc n)

unfoldable pub accept_unordered : ReceiverState → MessageId → ReceiverState × Bool
accept_unordered s id =
    if not s.seen_started
    then (record s { seen_started = true; seen_newest = id; seen_mask = 1 }, true)
    else accept_at s id (distance_from id s.seen_newest)

pub data Accepted : Type 0 where
  deliver hold discard : Accepted

-- The receive side of a connection's channels.
pub record Channels : Type 0 where
  pub set : ChannelSet
  pub receivers : List ReceiverState
  pub held : List Held
  pub dropped_inbound : ℕ

unfoldable pub new_channels : ChannelSet → Channels
new_channels s = record {
  set = s;
  receivers = replicate max_channels new_receiver;
  held = [];
  dropped_inbound = 0;
}

-- The index is in bounds: it was read as a channel's. `none` is the panic.
unfoldable pub reference : Channels → ℕ → ChannelKind → Option MessageId
reference c channel kind = do
  state ← get_elem? c.receivers channel
  some (elim kind [
    | unreliable ↦ first_id
    | unreliable_sequenced ↦ state.newest
    | reliable_unordered ↦ state.seen_newest
    | reliable_ordered ↦ state.expected
  ])

abbrev pub is_ahead : ℤ → Bool
is_ahead (pos zero) = false
is_ahead (pos (suc n)) = true
is_ahead (negsuc n) = false

-- `self.held.iter().any(|e| e.channel == channel && e.id == id)`.
abbrev pub holds : List Held → ℕ → MessageId → Bool
holds [] channel id = false
holds (e ∷ held) channel id =
    let rest = holds held channel id in
    if (e.channel == channel) && (e.id == id) then true else rest

unfoldable pub classify_sequenced : ReceiverState → MessageId → ReceiverState × Accepted
classify_sequenced s id =
    if s.has_newest && not (is_ahead (distance_from id s.newest))
    then (s, discard)
    else (record s { newest = id; has_newest = true }, deliver)

abbrev verdict_of : Bool → Accepted
verdict_of true = deliver
verdict_of false = discard

unfoldable pub classify_unordered : ReceiverState → MessageId → ReceiverState × Accepted
classify_unordered s id = let (s', accepted) = accept_unordered s id in (s', verdict_of accepted)

unfoldable pub classify_ahead :
    List Held → ReceiverState → ℕ → MessageId → ℤ → ReceiverState × Accepted
classify_ahead held s channel id (negsuc n) = (s, discard)
classify_ahead held s channel id (pos zero) = (record s { expected = next_id s.expected }, deliver)
classify_ahead held s channel id (pos (suc n)) =
    (s, if holds held channel id then discard else hold)

unfoldable pub classify_state :
    List Held → ReceiverState → ℕ → ChannelKind → MessageId → ReceiverState × Accepted
classify_state held s channel unreliable id = (s, deliver)
classify_state held s channel unreliable_sequenced id = classify_sequenced s id
classify_state held s channel reliable_unordered id = classify_unordered s id
classify_state held s channel reliable_ordered id =
    classify_ahead held s channel id (distance_from id s.expected)

unfoldable pub classify : Channels → ℕ → ChannelKind → MessageId → Option (Channels × Accepted)
classify c channel kind id = do
  state ← get_elem? c.receivers channel
  (let (state', accepted) = classify_state c.held state channel kind id in
      some (record c { receivers = set c.receivers channel state' }, accepted))

-- `position` of the first entry with a channel and an id.
abbrev pub position_of : List Held → ℕ → MessageId → Option ℕ
position_of [] channel id = none
position_of (e ∷ held) channel id =
    let rest = position_of held channel id in
    if (e.channel == channel) && (e.id == id) then some 0 else (do at ← rest; some (suc at))

-- Where the held message that the channel expects next is.
unfoldable pub next_held : Channels → ℕ → Option (Option ℕ)
next_held c channel = do
  state ← get_elem? c.receivers channel
  some (position_of c.held channel state.expected)

abbrev pub max_held : ℕ
max_held = 64

-- `FixedVec::remove` on the held messages, and the id that is next after the one taken out.
abbrev pub take_held : Channels → ℕ → ℕ → Option (Channels × MessageId)
take_held c channel at = do
  entry ← get_elem? c.held at
  state ← get_elem? c.receivers channel
  some (
    record c {
      held = erase_at c.held at;
      receivers = set c.receivers channel (record state { expected = next_id entry.id });
    },
    entry.id,
  )

-- `flush_ordered`, on fuel: the ids of the held messages that are taken, in order. Each of them leaves
-- the list; its payload comes from the arena, which is left out.
unfoldable pub flush_ordered : ℕ → Channels → ℕ → Option (Channels × List MessageId)
flush_ordered zero c channel = some (c, [])
flush_ordered (suc fuel) c channel = do
  next ← next_held c channel
  elim next [
    | none ↦ some (c, [])
    | some at ↦ (do
      (c', id) ← take_held c channel at
      (c'', ids) ← flush_ordered fuel c' channel
      some (c'', id ∷ ids))
  ]

abbrev pub is_ordered : ChannelKind → Bool
is_ordered reliable_ordered = true
is_ordered unreliable = false
is_ordered unreliable_sequenced = false
is_ordered reliable_unordered = false

-- What `read_message` does with a decision: the ids whose messages go to the application, in order.
-- `stored` is whether the receive arena had room for the payload.
unfoldable pub settle :
    Channels → ℕ → ChannelKind → MessageId → Bool → Accepted → Option (Channels × List MessageId)
settle c channel kind id stored discard = some (c, [])
settle c channel kind id stored deliver =
    if is_ordered kind && not (length c.held == 0)
    then (do (c', ids) ← flush_ordered (length c.held) c channel; some (c', id ∷ ids))
    else some (c, id ∷ [])
settle c channel kind id stored hold =
    if leb max_held (length c.held) || not stored
    then some (record c { dropped_inbound = c.dropped_inbound + 1 }, [])
    else some (record c { held = c.held ++ (record { channel = channel; id = id } ∷ []) }, [])

unfoldable pub receive :
    Channels → ℕ → ChannelKind → MessageId → Bool → Option (Channels × List MessageId)
receive c channel kind id stored = do
  (c', accepted) ← classify c channel kind id
  settle c' channel kind id stored accepted
