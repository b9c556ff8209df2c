-- ===== src/Channel/Ordered.antt =====
-- Delivery on an ordered channel of hex-net-core/src/channel.rs.
use hex_net.Common.{
  ℕ, zero, suc, ◌+◌, ◌^◌, ◌<◌, ◌≡◌, ◌≢◌, refl, ap, sym, ◌∙◌, subst, Bool, true, not, ◌||◌, Option,
  none, some, List, [], ◌∷◌, ◌++◌, arith, leb, ◌==◌, ◌>>=◌, Bool-cases, inl, inr, length, get_elem?,
  set, get_elem?-set_self,
}
use hex_net.Common.Int.{ℤ, pos, negsuc}
use hex_net.Channel.Flush.{
  consecutive, advanced, consecutive_add, advanced_add, distance-zero, next_id-lt,
  position_of-append, IsReady, next_held-eq, flush_ordered-IsReady,
}
use hex_net.Slab.Valid.{get_lt}
use hex_net.Channel.{
  MessageId, next_id, distance_from, Channels, ReceiverState, Held, reliable_ordered, classify,
  classify_state, classify_ahead, settle, receive, position_of, holds, max_held,
}

distance_self : (id : MessageId) → id < 2 ^ 32 → distance_from id id ≡ pos 0
unfolding distance_from
distance_self id h = ground arith

position_of_empty :
    (held : List Held) (channel : ℕ) (id : MessageId)
    → (length held == 0) ≡ true
    → position_of held channel id ≡ none
position_of_empty [] channel id e = refl
position_of_empty (x ∷ held) channel id e =
    let n : suc (length held) ≡ 0 = ground arith in absurd (omega arith)

-- What one arrival leads to.
Arrived : Channels → ℕ → MessageId → MessageId → Bool → Type 0
Arrived c channel expected id stored =
    (c' : Channels) × (n : ℕ) × (receive c channel reliable_ordered id stored
      ≡ some (c', consecutive expected n))
    × IsReady c' channel (advanced expected n)
    × (id ≡ expected → 0 < n)

-- The arrival of a message at a distance from the expected one.
classify-Arrived :
    (c : Channels) (channel : ℕ) (s : ReceiverState) (id : MessageId) (stored : Bool) (d : ℤ)
    → get_elem? c.receivers channel ≡ some s
    → s.expected < 2 ^ 32
    → id < 2 ^ 32
    → position_of c.held channel s.expected ≡ none
    → distance_from id s.expected ≡ d
    → Arrived c channel s.expected id stored
unfolding Arrived receive classify classify_state classify_ahead settle consecutive advanced IsReady
classify-Arrived c channel s id stored (negsuc k) at word small nothing e =
    let c' : Channels = record c { receivers = set c.receivers channel s } in
    let at' : get_elem? c'.receivers channel ≡ some s =
      get_elem?-set_self c.receivers channel s (get_lt c.receivers channel at) in
    (
      c',
      0,
      rw (at, e) refl,
      ((s, at', refl), word, next_held-eq c' channel s at' ∙ ap some nothing),
      λ same.
          (let d : negsuc k ≡ pos 0 =
              sym e ∙ ap (λ m. distance_from m s.expected) same ∙ distance_self s.expected word in
            absurd cc),
    )
classify-Arrived c channel s id stored (pos zero) at word small nothing e =
    let same = distance-zero id s.expected small word e in
    let s' : ReceiverState = record s { expected = next_id s.expected } in
    let c' : Channels = record c { receivers = set c.receivers channel s' } in
    let at' : get_elem? c'.receivers channel ≡ some s' =
      get_elem?-set_self c.receivers channel s' (get_lt c.receivers channel at) in
    elim (Bool-cases (length c.held == 0)) [
      | inl empty ↦ (
        c',
        1,
        rw (at, e, empty) (ap (λ m. some (c', m ∷ [])) same),
        (
          (s', at', refl),
          next_id-lt s.expected,
          next_held-eq c' channel s' at'
              ∙ ap some (position_of_empty c.held channel (next_id s.expected) empty),
        ),
        λ e'. omega arith,
      )
      | inr some_held ↦
          let (c'', n, made, ready) =
            flush_ordered-IsReady (length c.held) c' channel s' at' (next_id-lt s.expected)
              (omega arith) in
          (
            c'',
            suc n,
            rw (at, e, some_held, made)
                (ap (λ m. some (c'', m ∷ consecutive (next_id s.expected) n)) same),
            ready,
            λ e'. omega arith,
          )
    ]
classify-Arrived c channel s id stored (pos (suc k)) at word small nothing e =
    let c' : Channels = record c { receivers = set c.receivers channel s } in
    let at' : get_elem? c'.receivers channel ≡ some s =
      get_elem?-set_self c.receivers channel s (get_lt c.receivers channel at) in
    let apart : id ≢ s.expected = λ same.
      (let d : pos (suc k) ≡ pos 0 =
          sym e ∙ ap (λ m. distance_from m s.expected) same ∙ distance_self s.expected word in
        absurd cc) in
    elim (Bool-cases (holds c.held channel id)) [
      | inl again ↦ (
        c',
        0,
        rw (at, e, again) refl,
        ((s, at', refl), word, next_held-eq c' channel s at' ∙ ap some nothing),
        λ same. absurd (apart same),
      )
      | inr first ↦ elim (Bool-cases (leb max_held (length c.held) || not stored)) [
        | inl full ↦
            let c'' : Channels = record c' { dropped_inbound = c.dropped_inbound + 1 } in
            (
              c'',
              0,
              rw (at, e, first, full) refl,
              ((s, at', refl), word, next_held-eq c'' channel s at' ∙ ap some nothing),
              λ same. absurd (apart same),
            )
        | inr room ↦
            let x : Held = record { channel = channel; id = id } in
            let c'' : Channels = record c' { held = c.held ++ (x ∷ []) } in
            (
              c'',
              0,
              rw (at, e, first, room) refl,
              (
                (s, at', refl),
                word,
                next_held-eq c'' channel s at'
                    ∙ ap some (position_of-append c.held channel s.expected x nothing apart),
              ),
              λ same. absurd (apart same),
            )
      ]
    ]

receive-Arrived :
    (c : Channels) (channel : ℕ) (expected id : MessageId) (stored : Bool)
    → IsReady c channel expected
    → id < 2 ^ 32
    → Arrived c channel expected id stored
unfolding IsReady
receive-Arrived c channel expected id stored ((s, at, same), word, ready) small =
    let nothing : some (position_of c.held channel s.expected) ≡ some none =
      sym (next_held-eq c channel s at) ∙ ready in
    subst (λ m. Arrived c channel m id stored) same
      (classify-Arrived c channel s id stored (distance_from id s.expected) at (omega (arith, same))
        small (ground arith) refl)

-- Messages of one ordered channel as they arrive, each with whether the arena has room for it.
unfoldable pub receive_all :
    Channels → ℕ → List (MessageId × Bool) → Option (Channels × List MessageId)
receive_all c channel [] = some (c, [])
receive_all c channel ((id, stored) ∷ arrivals) = do
  (c', ids) ← receive c channel reliable_ordered id stored
  (c'', more) ← receive_all c' channel arrivals
  some (c'', ids ++ more)

abbrev pub AreIds : List (MessageId × Bool) → Type 0
AreIds [] = Unit {0}
AreIds ((id, stored) ∷ arrivals) = (id < 2 ^ 32) × AreIds arrivals

-- On an ordered channel that holds nothing deliverable, whatever ids arrive, in whatever order and
-- however often, and whether or not what is held finds room: nothing panics, what goes to the
-- application is consecutive from the expected id on, and in the end the channel expects the id after
-- the last of it and again holds nothing deliverable.
pub receive_all-consecutive :
    (c : Channels) (channel : ℕ) (expected : MessageId) (arrivals : List (MessageId × Bool))
    → IsReady c channel expected
    → AreIds arrivals
    → (c' : Channels) × (n : ℕ) × (receive_all c channel arrivals
        ≡ some (c', consecutive expected n))
      × IsReady c' channel (advanced expected n)
unfolding receive_all Arrived consecutive advanced
receive_all-consecutive c channel expected [] ready ids = (c, 0, refl, ready)
receive_all-consecutive c channel expected ((id, stored) ∷ arrivals) ready (small, ids) =
    let (c', n, made, ready', progress) =
      receive-Arrived c channel expected id stored ready small in
    let (c'', m, more, ready'') =
      receive_all-consecutive c' channel (advanced expected n) arrivals ready' ids in
    (
      c'',
      n + m,
      rw (made, more) (ap (λ l. some (c'', l)) (sym (consecutive_add expected n m))),
      subst (IsReady c'' channel) (sym (advanced_add expected n m)) ready'',
    )

-- The message that such a channel expects is delivered by the call that receives it.
pub receive_expected :
    (c : Channels) (channel : ℕ) (expected : MessageId) (stored : Bool)
    → IsReady c channel expected
    → (c' : Channels) × (rest : List MessageId) × (receive c channel reliable_ordered expected
          stored
        ≡ some (c', expected ∷ rest))
unfolding Arrived consecutive IsReady
receive_expected c channel expected stored (at, word, none_next) =
    first_of (receive-Arrived c channel expected expected stored (at, word, none_next) word)
  where
    first_of :
        Arrived c channel expected expected stored
        → (c' : Channels) × (rest : List MessageId) × (receive c channel reliable_ordered expected
              stored
            ≡ some (c', expected ∷ rest))
    first_of (c', zero, made, ready, progress) = let no_way = progress refl in absurd (omega arith)
    first_of (c', suc n, made, ready, progress) = (c', consecutive (next_id expected) n, made)
