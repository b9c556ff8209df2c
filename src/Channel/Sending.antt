-- ===== src/Channel/Sending.antt =====
-- The send side of hex-net-core/src/channel.rs: messages wait until their packet is acknowledged. Of a
-- payload only its length is kept.
use hex_net.Common.{
  ℕ, zero, suc, ◌+◌, ◌≡◌, refl, ap, ap₂, ◌∙◌, subst, min, Bool, true, false, not, ◌&&◌, ◌||◌,
  Option, none, some, List, [], ◌∷◌, ◌++◌, arith, ltb, leb, ◌==◌, if◌then◌else◌, ◌>>=◌, Result, ok,
  err, Bool-cases, inl, inr, length, get_elem?, set,
}
use hex_net.Config.{max_message}
use hex_net.Channel.{MessageId, ChannelKind, ChannelSet, kind_of, next_id}

abbrev pub max_pending : ℕ
max_pending = 64

pub data SendError : Type 0 where
  too_large no_such_channel would_block : SendError

pub record Pending : Type 0 where
  pub channel : ℕ
  pub id : MessageId
  pub len : ℕ
  pub in_flight : Bool

-- A message that rode in the packet.
pub record Staged : Type 0 where
  pub channel : ℕ
  pub id : MessageId
  pub reliable : Bool

pub record MessageKey : Type 0 where
  pub channel : ℕ
  pub id : MessageId

pub record Sender : Type 0 where
  pub set : ChannelSet
  pub next_ids : List MessageId
  pub pending : List Pending

-- `stored` is whether the send arena had room for the payload. `none` is a panic.
unfoldable pub send_to :
    Sender → ℕ → ℕ → Bool → Option ChannelKind → Option (Sender × Result (Unit {0}) SendError)
send_to s channel len stored none = some (s, err no_such_channel)
send_to s channel len stored (some kind) =
    if leb max_pending (length s.pending) || not stored then some (s, err would_block) else (do
      id ← get_elem? s.next_ids channel
      some (
        record s {
          pending =
              s.pending
              ++ (record { channel = channel; id = id; len = len; in_flight = false } ∷ []);
          next_ids = set s.next_ids channel (next_id id);
        },
        ok tt,
      ))

unfoldable pub send : Sender → ℕ → ℕ → Bool → Option (Sender × Result (Unit {0}) SendError)
send s channel len stored =
    if ltb max_message len
    then some (s, err too_large)
    else send_to s channel len stored (kind_of s.set channel)

abbrev pub is_for : Pending → MessageKey → Bool
is_for p key = (p.channel == key.channel) && (p.id == key.id)

-- The first message with the key is taken out.
unfoldable pub release_pending : List Pending → MessageKey → List Pending
release_pending [] key = []
release_pending (p ∷ pending) key =
    let rest = release_pending pending key in if is_for p key then pending else p ∷ rest

-- The first message with the key is to be sent again.
unfoldable pub mark_lost : List Pending → MessageKey → List Pending
mark_lost [] key = []
mark_lost (p ∷ pending) key =
    let rest = mark_lost pending key in
    if is_for p key then record p { in_flight = false } ∷ pending else p ∷ rest

unfoldable pub on_acked : List Pending → List MessageKey → List Pending
on_acked pending [] = pending
on_acked pending (key ∷ record_) = on_acked (release_pending pending key) record_

unfoldable pub on_lost : List Pending → List MessageKey → List Pending
on_lost pending [] = pending
on_lost pending (key ∷ record_) = on_lost (mark_lost pending key) record_

abbrev pub key_of : Staged → MessageKey
key_of m = record { channel = m.channel; id = m.id }

unfoldable pub on_packet_aborted : List Pending → List Staged → List Pending
on_packet_aborted pending [] = pending
on_packet_aborted pending (m ∷ staged) = on_packet_aborted (mark_lost pending (key_of m)) staged

-- The queue, and the record of the reliable messages.
unfoldable pub on_packet_sent : List Pending → List Staged → List Pending × List MessageKey
on_packet_sent pending [] = (pending, [])
on_packet_sent pending (m ∷ staged) =
    if m.reliable
    then (let (pending', keys) = on_packet_sent pending staged in (pending', key_of m ∷ keys))
    else on_packet_sent (release_pending pending (key_of m)) staged

-- At most so many messages, the oldest first, are to be sent again: the queue and how many.
unfoldable pub requeue_oldest : ℕ → List Pending → List Pending × ℕ
requeue_oldest most [] = ([], 0)
requeue_oldest zero (p ∷ pending) = (p ∷ pending, 0)
requeue_oldest (suc most) (p ∷ pending) =
    let (sent, n) = requeue_oldest most pending in
    let (kept, m) = requeue_oldest (suc most) pending in
    if p.in_flight then (record p { in_flight = false } ∷ sent, suc n) else (p ∷ kept, m)

unfoldable pub has_unsent : List Pending → Bool
has_unsent [] = false
has_unsent (p ∷ pending) = let rest = has_unsent pending in if not p.in_flight then true else rest

-- The message under a key.
abbrev pub find : List Pending → MessageKey → Option Pending
find [] key = none
find (p ∷ pending) key = let rest = find pending key in if is_for p key then some p else rest

-- One message per key.
abbrev pub AreApart : List Pending → Type 0
AreApart [] = Unit {0}
AreApart (p ∷ pending) =
    (find pending (record { channel = p.channel; id = p.id }) ≡ none) × AreApart pending

abbrev pub same_key : MessageKey → MessageKey → Bool
same_key a b = (a.channel == b.channel) && (a.id == b.id)

abbrev pub in_record : MessageKey → List MessageKey → Bool
in_record key [] = false
in_record key (k ∷ keys) = let rest = in_record key keys in if same_key key k then true else rest

abbrev pub unsent : Option Pending → Option Pending
unsent none = none
unsent (some p) = some (record p { in_flight = false })

find-mark_lost :
    (pending : List Pending) (key k : MessageKey)
    → find (mark_lost pending key) k
      ≡ (if same_key k key then unsent (find pending k) else find pending k)
unfolding mark_lost
find-mark_lost [] key k = elim (Bool-cases (same_key k key)) [
  | inl e ↦ rw e refl
  | inr e ↦ rw e refl
]
find-mark_lost (p ∷ pending) key k = elim (Bool-cases (is_for p key)) [
  | inl here ↦ elim (Bool-cases (is_for p k)) [
    | inl asked ↦ let same : same_key k key ≡ true = ground arith in rw (here, same, asked) refl
    | inr other ↦ let apart : same_key k key ≡ false = ground arith in rw (here, apart, other) refl
  ]
  | inr away ↦ elim (Bool-cases (is_for p k)) [
    | inl asked ↦ let apart : same_key k key ≡ false = ground arith in rw (away, apart, asked) refl
    | inr other ↦ rw (away, other) (find-mark_lost pending key k)
  ]
]

find-release :
    (pending : List Pending) (key k : MessageKey)
    → AreApart pending
    → find (release_pending pending key) k ≡ (if same_key k key then none else find pending k)
unfolding release_pending
find-release [] key k apart = elim (Bool-cases (same_key k key)) [
  | inl e ↦ rw e refl
  | inr e ↦ rw e refl
]
find-release (p ∷ pending) key k (fresh, apart) = elim (Bool-cases (is_for p key)) [
  | inl here ↦ elim (Bool-cases (is_for p k)) [
    | inl asked ↦
        let same : same_key k key ≡ true = ground arith in
        let k_of : record { channel = p.channel; id = p.id } ≡ k =
          ap₂ (λ c i. record { channel = c; id = i }) (ground arith) (ground arith) in
        rw (here, same) (subst (λ m. find pending m ≡ none) k_of fresh)
    | inr other ↦
        let differs : same_key k key ≡ false = ground arith in rw (here, differs, other) refl
  ]
  | inr away ↦ elim (Bool-cases (is_for p k)) [
    | inl asked ↦
        let differs : same_key k key ≡ false = ground arith in rw (away, differs, asked) refl
    | inr other ↦ rw (away, other) (find-release pending key k apart)
  ]
]

find-none :
    (pending : List Pending) (key k : MessageKey)
    → find pending k ≡ none
    → find (release_pending pending key) k ≡ none
unfolding release_pending
find-none [] key k e = refl
find-none (p ∷ pending) key k e = elim (Bool-cases (is_for p k)) [
  | inl asked ↦ let e' : some p ≡ none = rw asked at e in absurd cc
  | inr other ↦
      let e' : find pending k ≡ none = rw other at e in
      elim (Bool-cases (is_for p key)) [
        | inl here ↦ rw here e'
        | inr away ↦ rw (away, other) (find-none pending key k e')
      ]
]

release-AreApart :
    (pending : List Pending) (key : MessageKey)
    → AreApart pending
    → AreApart (release_pending pending key)
unfolding release_pending
release-AreApart [] key apart = tt
release-AreApart (p ∷ pending) key (fresh, apart) = elim (Bool-cases (is_for p key)) [
  | inl here ↦ rw here apart
  | inr away ↦ rw away (
    find-none pending key (record { channel = p.channel; id = p.id }) fresh,
    release-AreApart pending key apart,
  )
]

-- An acknowledgement takes the messages of its packet's record out of the queue, and no others; with one
-- message per key in the queue, each of the others is found as before.
find-on_acked :
    (pending : List Pending) (keys : List MessageKey) (k : MessageKey)
    → AreApart pending
    → find (on_acked pending keys) k ≡ (if in_record k keys then none else find pending k)
unfolding on_acked
find-on_acked pending [] k apart = refl
find-on_acked pending (key ∷ keys) k apart =
    find-on_acked (release_pending pending key) keys k (release-AreApart pending key apart)
    ∙ ap (λ o. if in_record k keys then none else o) (find-release pending key k apart)
    ∙ elim (Bool-cases (same_key k key)) [
      | inl same ↦ elim (Bool-cases (in_record k keys)) [
        | inl e ↦ rw (same, e) refl
        | inr e ↦ rw (same, e) refl
      ]
      | inr other ↦ rw other refl
    ]

-- A loss puts the messages of its packet's record back to be sent, under their keys, and changes no
-- others: no message leaves the queue.
find-on_lost :
    (pending : List Pending) (keys : List MessageKey) (k : MessageKey)
    → find (on_lost pending keys) k
      ≡ (if in_record k keys then unsent (find pending k) else find pending k)
unfolding on_lost
find-on_lost pending [] k = refl
find-on_lost pending (key ∷ keys) k =
    find-on_lost (mark_lost pending key) keys k
    ∙ ap (λ o. if in_record k keys then unsent o else o) (find-mark_lost pending key k)
    ∙ elim (Bool-cases (same_key k key)) [
      | inl same ↦ elim (Bool-cases (in_record k keys)) [
        | inl e ↦ rw (same, e) (twice (find pending k))
        | inr e ↦ rw (same, e) refl
      ]
      | inr other ↦ rw other refl
    ]
  where
    twice : (o : Option Pending) → unsent (unsent o) ≡ unsent o
    twice none = refl
    twice (some p) = refl

abbrev pub in_flight_of : Pending → ℕ
in_flight_of p = if p.in_flight then 1 else 0

-- How many messages are in flight.
unfoldable pub in_flight_count : List Pending → ℕ
in_flight_count [] = 0
in_flight_count (p ∷ pending) = in_flight_of p + in_flight_count pending

-- A probe takes as many messages back as it asks for, or all that are in flight, and keeps the
-- length of the queue.
requeue_oldest_lem :
    (most : ℕ) (pending : List Pending)
    → ((requeue_oldest most pending).1 ≡ min most (in_flight_count pending))
      × (in_flight_count (requeue_oldest most pending).0 + (requeue_oldest most pending).1
          ≡ in_flight_count pending)
      × (length (requeue_oldest most pending).0 ≡ length pending)
unfolding requeue_oldest in_flight_count
requeue_oldest_lem most [] = (omega arith, refl, refl)
requeue_oldest_lem zero (p ∷ pending) = (omega arith, omega arith, refl)
requeue_oldest_lem (suc most) (p ∷ pending) = elim (Bool-cases p.in_flight) [
  | inl flies ↦
      let (n, count, len) = requeue_oldest_lem most pending in
      rw flies (omega (arith, n), omega (arith, count), omega (arith, len))
  | inr waits ↦
      let (n, count, len) = requeue_oldest_lem (suc most) pending in
      rw waits (omega (arith, n), omega (arith, count), omega (arith, len))
]
