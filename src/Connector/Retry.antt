-- ===== src/Connector/Retry.antt =====
-- The handshake's timing in hex-net-core/src/connector.rs: retries and the time allowed.
use hex_net.Common.{
  ℕ, ◌-◌, ◌≤◌, ◌<◌, ◌≡◌, ◌⊎◌, inl, inr, refl, ap, sym, subst, ◌∙◌, true, false, Option, none, some,
  List, [], ◌∷◌, arith, ltb, leb, Bool-cases, min,
}
use hex_net.Time.Timestamp.{Timestamp, latest, since, saturating_add}
use hex_net.Connector.{
  Connector, Peer, State, failed, no_answer, done, ended, retry_interval, handshake_timeout,
  write_handshake, too_soon, retried, poll_transmit, transmit_in, gave_up, handle_timeout,
  timeout_in, retry_at, next_timeout, timeout_of,
}
use hex_net.Connection.{AreSpaced}
use hex_net.Stats.{Ctx}
use hex_net.Connector.Writing.{IsShaking, CanWrite, Carries, again, write_handshake-Carries}

-- The clock is at or after what it read before, and not at its end.
pub record IsLater {Key Rest : Type 0} (c : Connector Key Rest) (now : Timestamp) : Type 0 where
  pub since_start : c.started ≤ now
  pub since_last : (last : Timestamp) → c.last_attempt ≡ some last → last ≤ now
  pub not_last : now < latest

module _ {Key Rest : Type 0} (peer : Peer Key Rest) where
  InHandshake : Connector Key Rest → Ctx → List ℕ → State → Type 0
  InHandshake c ctx out s =
      (transmit_in peer c ctx out s ≡ retried peer c ctx out)
      × (timeout_in peer c ctx s ≡ gave_up peer c ctx)
      × (timeout_of peer c s
          ≡ some (min (retry_at peer c.last_attempt) (saturating_add c.started handshake_timeout)))

  in_handshake :
      (c : Connector Key Rest) (ctx : Ctx) (out : List ℕ) (s : State)
      → IsShaking s
      → InHandshake c ctx out s
  unfolding InHandshake
  in_handshake c ctx out s shaking = elim shaking [
    | inl e ↦ subst (InHandshake c ctx out) (sym e) (refl, refl, refl)
    | inr e ↦ subst (InHandshake c ctx out) (sym e) (refl, refl, refl)
  ]

  soon_iff :
      (ctx : Ctx) (last : Option Timestamp)
      → ((at : Timestamp) → last ≡ some at → at ≤ ctx.now)
      → ctx.now < latest
      → ((ctx.now < retry_at peer last) × (too_soon peer ctx last ≡ true))
        ⊎ ((retry_at peer last ≤ ctx.now) × (too_soon peer ctx last ≡ false))
  unfolding since saturating_add
  soon_iff ctx none later before_end = inr (omega arith, refl)
  soon_iff ctx (some at) later before_end =
      let le : at ≤ ctx.now = later at refl in
      elim (Bool-cases (ltb (ctx.now - at) retry_interval)) [
        | inl soon ↦ inl (ground arith, soon)
        | inr ready ↦ inr (ground arith, ready)
      ]

  -- In the handshake there is a next instant. While the clock, which does not go back and is not at its
  -- end, is before it, neither polling nor a timeout does anything. From it on, if the packet of the
  -- handshake fits its buffer, polling gives it again: the request with the ticket and the nonce, or the
  -- response with the cookie of the challenge, and the attempt is noted. Or a timeout ends the attempt.
  pub next_timeout_lem :
      (c : Connector Key Rest) (ctx : Ctx) (out : List ℕ)
      → IsShaking c.state
      → IsLater c ctx.now
      → CanWrite c out
      → (at : Timestamp) × (next_timeout peer c ≡ some at)
        × (ctx.now < at
            → (poll_transmit peer c ctx out ≡ (c, ctx, none))
              × (handle_timeout peer c ctx ≡ (c, ctx, done)))
        × (at ≤ ctx.now
            → ((packet : List ℕ) × Carries c packet
                × (poll_transmit peer c ctx out
                    ≡ (record c { last_attempt = some ctx.now }, ctx, some packet)))
              ⊎ (handle_timeout peer c ctx ≡ (record c { state = failed no_answer }, ctx, ended)))
  unfolding next_timeout poll_transmit handle_timeout since saturating_add InHandshake
  next_timeout_lem c ctx out shaking later can =
      let (transmits, times, next) = in_handshake c ctx out c.state shaking in
      let before_end = later.not_last in
      let begun = later.since_start in
      (
        min (retry_at peer c.last_attempt) (saturating_add c.started handshake_timeout),
        next,
        λ early. elim (soon_iff ctx c.last_attempt later.since_last before_end) [
          | inl (not_yet, soon) ↦
              let patient : leb handshake_timeout (ctx.now - c.started) ≡ false = ground arith in
              (transmits ∙ rw soon refl, times ∙ rw patient refl)
          | inr (past, ready) ↦ absurd (omega arith)
        ],
        λ come. elim (soon_iff ctx c.last_attempt later.since_last before_end) [
          | inr (past, ready) ↦
              let c' = record c { last_attempt = some ctx.now } in
              let (packet, wrote, carries) =
                write_handshake-Carries c' out shaking (again c ctx out can) in
              inl (
                packet,
                carries,
                transmits ∙ rw ready refl ∙ ap (λ (p : Option (List ℕ)). (c', ctx, p)) wrote,
              )
          | inl (not_yet, soon) ↦
              let late : leb handshake_timeout (ctx.now - c.started) ≡ true = ground arith in
              inr (times ∙ rw late refl)
        ],
      )

  abbrev noted : Timestamp → Option (List ℕ) → List Timestamp → List Timestamp
  noted now none later = later
  noted now (some packet) later = now ∷ later

  -- The instants at which polling sent a handshake packet.
  unfoldable pub attempts : Connector Key Rest → List ℕ → List Ctx → List Timestamp
  attempts c out [] = []
  attempts c out (ctx ∷ rest) =
      let polled = poll_transmit peer c ctx out in
      noted ctx.now polled.2 (attempts polled.0 out rest)

  AreSpaced-sooner :
      (delay after after' : Timestamp) (times : List Timestamp)
      → after ≤ after'
      → AreSpaced delay after' times
      → AreSpaced delay after times
  AreSpaced-sooner delay after after' [] le spaced = tt
  AreSpaced-sooner delay after after' (t ∷ times) le (first, spaced) = (omega arith, spaced)

  ready_after :
      (ctx : Ctx) (last : Option Timestamp)
      → too_soon peer ctx last ≡ false
      → (retry_at peer last ≤ ctx.now) × (retry_at peer last ≤ latest)
  unfolding since saturating_add
  ready_after ctx none ready = (omega arith, omega arith)
  ready_after ctx (some at) ready = (ground arith, omega arith)

  attempts_step :
      (c c' : Connector Key Rest) (out : List ℕ) (ctx ctx' : Ctx) (rest : List Ctx)
      (packet : Option (List ℕ))
      → poll_transmit peer c ctx out ≡ (c', ctx', packet)
      → attempts c out (ctx ∷ rest) ≡ noted ctx.now packet (attempts c' out rest)
  unfolding attempts
  attempts_step c c' out ctx ctx' rest packet polled =
      ap
        (λ (r : Connector Key Rest × Ctx × Option (List ℕ)).
          noted ctx.now r.2 (attempts r.0 out rest))
        polled

  spaced_by :
      (after : Timestamp) (ctx : Ctx) (packet : Option (List ℕ)) (later : List Timestamp)
      → after ≤ ctx.now
      → after ≤ latest
      → AreSpaced retry_interval (retry_at peer (some ctx.now)) later
      → AreSpaced retry_interval after (noted ctx.now packet later)
  unfolding saturating_add
  spaced_by after ctx none later come bounded spaced =
      AreSpaced-sooner retry_interval after (retry_at peer (some ctx.now)) later (omega arith)
        spaced
  spaced_by after ctx (some packet) later come bounded spaced = (come, spaced)

  -- However often a connector in the handshake is polled, at whatever instants, the packets that
  -- polling sends are a retry interval apart, or at the end of the clock's range.
  pub attempts-AreSpaced :
      (c : Connector Key Rest) (out : List ℕ) (polls : List Ctx)
      → IsShaking c.state
      → AreSpaced retry_interval (retry_at peer c.last_attempt) (attempts c out polls)
  unfolding attempts InHandshake poll_transmit
  attempts-AreSpaced c out [] shaking = tt
  attempts-AreSpaced c out (ctx ∷ rest) shaking =
      let (transmits, times, next) = in_handshake c ctx out c.state shaking in
      elim (Bool-cases (too_soon peer ctx c.last_attempt)) [
        | inl soon ↦
            let polled : poll_transmit peer c ctx out ≡ (c, ctx, none) = transmits ∙ rw soon refl in
            subst (AreSpaced retry_interval (retry_at peer c.last_attempt))
              (sym (attempts_step c c out ctx ctx rest none polled))
              (attempts-AreSpaced c out rest shaking)
        | inr ready ↦
            let c' = record c { last_attempt = some ctx.now } in
            let polled : poll_transmit peer c ctx out ≡ (c', ctx, write_handshake c' out) =
              transmits ∙ rw ready refl in
            let (come, bounded) = ready_after ctx c.last_attempt ready in
            subst (AreSpaced retry_interval (retry_at peer c.last_attempt))
              (sym (attempts_step c c' out ctx ctx rest (write_handshake c' out) polled))
              (spaced_by (retry_at peer c.last_attempt) ctx (write_handshake c' out)
                (attempts c' out rest) come bounded (attempts-AreSpaced c' out rest shaking))
      ]
