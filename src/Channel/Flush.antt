-- ===== src/Channel/Flush.antt =====
-- `Channels::flush_ordered` of hex-net-core/src/channel.rs: what is held is taken in the order of the ids.
use hex_net.Common.{
  ℕ, zero, suc, ◌+◌, ◌^◌, ◌≤◌, ◌<◌, ◌≡◌, ◌≢◌, refl, ap, ◌∙◌, subst, false, ◌&&◌, none, some, List,
  [], ◌∷◌, ◌++◌, arith, ◌==◌, Bool-cases, Option-cases, inl, inr, length, get_elem?, set,
  get_elem?-set_self,
}
use hex_net.Common.Slices.{erase_at}
use hex_net.Common.Int.{pos}
use hex_net.Slab.Valid.{get_lt}
use hex_net.Channel.{
  MessageId, next_id, distance_from, Channels, ReceiverState, Held, flush_ordered, next_held,
  position_of,
}

-- So many ids from one on.
unfoldable pub consecutive : MessageId → ℕ → List MessageId
consecutive id zero = []
consecutive id (suc n) = id ∷ consecutive (next_id id) n

unfoldable pub advanced : MessageId → ℕ → MessageId
advanced id zero = id
advanced id (suc n) = advanced (next_id id) n

pub consecutive_add :
    (id : MessageId) (n m : ℕ)
    → consecutive id (n + m) ≡ consecutive id n ++ consecutive (advanced id n) m
unfolding consecutive advanced
consecutive_add id zero m = ap (consecutive id) (omega arith)
consecutive_add id (suc n) m =
    let e : suc n + m ≡ suc (n + m) = omega arith in
    rw e (ap (◌∷◌ id) (consecutive_add (next_id id) n m))

pub advanced_add : (id : MessageId) (n m : ℕ) → advanced id (n + m) ≡ advanced (advanced id n) m
unfolding advanced
advanced_add id zero m = let e : zero + m ≡ m = omega arith in rw e refl
advanced_add id (suc n) m =
    let e : suc n + m ≡ suc (n + m) = omega arith in rw e (advanced_add (next_id id) n m)

-- An id is at no distance from another below 2^32 only if it is that id.
pub next_id-lt : (id : MessageId) → next_id id < 2 ^ 32
unfolding next_id
next_id-lt id = omega arith

pub distance-zero :
    (id expected : MessageId)
    → id < 2 ^ 32
    → expected < 2 ^ 32
    → distance_from id expected ≡ pos 0
    → id ≡ expected
unfolding distance_from
distance-zero id expected a b e = ground arith

advanced-lt : (id : MessageId) (n : ℕ) → id < 2 ^ 32 → advanced id n < 2 ^ 32
unfolding advanced next_id
advanced-lt id zero h = h
advanced-lt id (suc n) h = advanced-lt (next_id id) n (omega arith)

-- A held message that is found has the id that was asked for, and taking it out shortens the list.
position_of_lem :
    (held : List Held) (channel : ℕ) (id : MessageId) (at : ℕ)
    → position_of held channel id ≡ some at
    → (entry : Held) × (get_elem? held at ≡ some entry)
      × (entry.id ≡ id)
      × (suc (length (erase_at held at)) ≡ length held)
position_of_lem [] channel id at e = absurd cc
position_of_lem (x ∷ held) channel id at e =
    elim (Bool-cases ((x.channel == channel) && (x.id == id))) [
      | inl found ↦
          let e' : some 0 ≡ some at = rw found at e in
          let zero_at : 0 ≡ at = ground arith in
          (x, rw⁻¹ zero_at refl, ground arith, rw⁻¹ zero_at refl)
      | inr other ↦ elim (Option-cases (position_of held channel id)) [
        | inl nothing ↦ let e' : none ≡ some at = rw (other, nothing) at e in absurd cc
        | inr (k, found) ↦
            let e' : some (suc k) ≡ some at = rw (other, found) at e in
            let next : suc k ≡ at = ground arith in
            let (entry, here, same, len) = position_of_lem held channel id k found in
            (entry, rw⁻¹ next here, same, rw⁻¹ next (omega (arith, len)))
      ]
    ]

pub position_of-append :
    (held : List Held) (channel : ℕ) (id : MessageId) (x : Held)
    → position_of held channel id ≡ none
    → x.id ≢ id
    → position_of (held ++ (x ∷ [])) channel id ≡ none
position_of-append [] channel id x e ne =
    let other : ((x.channel == channel) && (x.id == id)) ≡ false = ground arith in rw other refl
position_of-append (y ∷ held) channel id x e ne =
    elim (Bool-cases ((y.channel == channel) && (y.id == id))) [
      | inl found ↦ let e' : some 0 ≡ none = rw found at e in absurd cc
      | inr other ↦ elim (Option-cases (position_of held channel id)) [
        | inl nothing ↦
            let ih = position_of-append held channel id x nothing ne in rw (other, ih) refl
        | inr (k, found) ↦ let e' : some (suc k) ≡ none = rw (other, found) at e in absurd cc
      ]
    ]

-- The channel's receiver expects an id, and no message that it could deliver is held back.
unfoldable pub IsReady : Channels → ℕ → MessageId → Type 0
IsReady c channel id =
    ((s : ReceiverState) × (get_elem? c.receivers channel ≡ some s) × (s.expected ≡ id))
    × (id < 2 ^ 32)
    × (next_held c channel ≡ some none)

pub next_held-eq :
    (c : Channels) (channel : ℕ) (s : ReceiverState)
    → get_elem? c.receivers channel ≡ some s
    → next_held c channel ≡ some (position_of c.held channel s.expected)
unfolding next_held
next_held-eq c channel s at = rw at refl

pub flush_ordered-IsReady :
    (fuel : ℕ) (c : Channels) (channel : ℕ) (s : ReceiverState)
    → get_elem? c.receivers channel ≡ some s
    → s.expected < 2 ^ 32
    → length c.held ≤ fuel
    → (c' : Channels) × (n : ℕ) × (flush_ordered fuel c channel
        ≡ some (c', consecutive s.expected n))
      × IsReady c' channel (advanced s.expected n)
unfolding flush_ordered IsReady consecutive advanced
flush_ordered-IsReady zero c channel s at word enough =
    elim (Option-cases (position_of c.held channel s.expected)) [
      | inl nothing ↦
          (c, 0, refl, ((s, at, refl), word, next_held-eq c channel s at ∙ ap some nothing))
      | inr (k, found) ↦
          let (entry, here, same, len) = position_of_lem c.held channel s.expected k found in
          absurd (omega arith)
    ]
flush_ordered-IsReady (suc fuel) c channel s at word enough =
    elim (Option-cases (position_of c.held channel s.expected)) [
      | inl nothing ↦
          let none_next : next_held c channel ≡ some none =
            next_held-eq c channel s at ∙ ap some nothing in
          (c, 0, rw none_next refl, ((s, at, refl), word, none_next))
      | inr (k, found) ↦
          let next : next_held c channel ≡ some (some k) =
            next_held-eq c channel s at ∙ ap some found in
          let (entry, here, same, len) = position_of_lem c.held channel s.expected k found in
          let s' : ReceiverState = record s { expected = next_id entry.id } in
          let c' : Channels = record c {
            held = erase_at c.held k;
            receivers = set c.receivers channel s';
          } in
          let at' : get_elem? c'.receivers channel ≡ some s' =
            get_elem?-set_self c.receivers channel s' (get_lt c.receivers channel at) in
          let (c'', n, made, ready) =
            flush_ordered-IsReady fuel c' channel s' at'
              (advanced-lt (next_id entry.id) 0 (next_id-lt entry.id)) (omega (arith, len)) in
          (
            c'',
            suc n,
            rw (next, here, at, made) (ap (λ id. some (c'', id ∷ consecutive (next_id id) n)) same),
            subst (λ id. IsReady c'' channel (advanced (next_id id) n)) same ready,
          )
    ]
