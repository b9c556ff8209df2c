-- ===== src/Connection/Migration.antt =====
-- The server's path validation in hex-net-core/src/connection.rs: a new address is challenged before
-- the connection moves to it. An address is a number. `Delivery::on_path_change` and
-- `Budget::on_path_change`, which a move also calls, are in Ack and Budget.
use hex_net.Common.{
  ℕ, ◌*◌, ◌/◌, ◌%◌, ◌^◌, ◌≡◌, ◌⊎◌, inl, inr, refl, ap, sym, ◌∙◌, subst, Bool, false, Option, none,
  some, List, [], ◌∷◌, leb, ◌==◌, if◌then◌else◌, bit_or, arith, Bool-cases,
}
use Prim.Native.Nat.{bit_xor}
use hex_net.Time.Timestamp.{Timestamp, since, saturating_add}
use hex_net.Time.Span.{Span, from_secs}
use hex_net.Connection.Queue.{ControlQueue, queue_path_challenge}

abbrev pub path_timeout : Span
path_timeout = from_secs 3

pub record Probe : Type 0 where
  pub addr : ℕ
  pub token : ℕ
  pub started : Timestamp

-- The server's part of a connection that an address change touches.
pub record PathState : Type 0 where
  pub addr : ℕ
  pub probe : Option Probe
  pub control : ControlQueue

abbrev pub rotate_left17 : ℕ → ℕ
rotate_left17 n = bit_or ((n * 2 ^ 17) % 2 ^ 64) (n / 2 ^ 47)

unfoldable pub token_for : ℕ → Timestamp → ℕ
token_for sequence now = bit_xor ((sequence * 0x9E37_79B9_7F4A_7C15) % 2 ^ 64) (rotate_left17 now)

abbrev pub is_probed : Option Probe → ℕ → Bool
is_probed none from = false
is_probed (some pending) from = pending.addr == from

unfoldable pub on_address_change : PathState → Timestamp → ℕ → ℕ → PathState
on_address_change p now from sequence = if is_probed p.probe from then p else record p {
  probe = some (record { addr = from; token = token_for sequence now; started = now });
  control = queue_path_challenge p.control (token_for sequence now);
}

-- An authentic datagram arrived: the end of `handle_datagram`.
unfoldable pub arrived : PathState → Timestamp → ℕ → ℕ → PathState
arrived p now from sequence = if from == p.addr then p else on_address_change p now from sequence

-- The answer to a challenge, and the address that the connection moved to, if it did.
abbrev pub answered_by : PathState → ℕ → Option Probe → PathState × Option ℕ
answered_by p token none = (p, none)
answered_by p token (some pending) =
    if pending.token == token
    then (record p { probe = none; addr = pending.addr }, some pending.addr)
    else (p, none)

unfoldable pub on_path_response : PathState → ℕ → PathState × Option ℕ
on_path_response p token = answered_by p token p.probe

abbrev pub expired : Timestamp → Option Probe → Option Probe
expired now none = none
expired now (some pending) =
    if leb path_timeout (since now pending.started) then none else some pending

unfoldable pub on_timeout : PathState → Timestamp → PathState
on_timeout p now = record p { probe = expired now p.probe }

abbrev pub next_deadline : Option Probe → Option Timestamp
next_deadline none = none
next_deadline (some pending) = some (saturating_add pending.started path_timeout)

-- What happens to the path, after authentication.
pub data Happening : Type 0 where
  comes : Timestamp → ℕ → ℕ → Happening
  answers : ℕ → Happening
  ticks : Timestamp → Happening

abbrev pub step : PathState → Happening → PathState
step p (comes now from sequence) = arrived p now from sequence
step p (answers token) = (on_path_response p token).0
step p (ticks now) = on_timeout p now

unfoldable pub run : PathState → List Happening → PathState
run p [] = p
run p (h ∷ rest) = run (step p h) rest

-- The token is among the answers.
pub data Answered (token : ℕ) : List Happening → Type 0 where
  here : {rest : List Happening} → Answered token (answers token ∷ rest)
  later : {h : Happening} {rest : List Happening} → Answered token rest → Answered token (h ∷ rest)

-- A datagram comes from the address, and the token made for it is answered after that.
pub data Validated (addr : ℕ) : List Happening → Type 0 where
  begins :
      {now sequence : ℕ} {rest : List Happening}
      → Answered (token_for sequence now) rest
      → Validated addr (comes now addr sequence ∷ rest)
  goes_on :
      {h : Happening} {rest : List Happening} → Validated addr rest → Validated addr (h ∷ rest)

-- A probe that waits, and is answered.
pub record Waits (p : PathState) (addr : ℕ) (h : List Happening) : Type 0 where
  pub pending : Probe
  pub probed : p.probe ≡ some pending
  pub for_addr : pending.addr ≡ addr
  pub answer : Answered pending.token h

abbrev addr_of : ℕ → Option Probe → ℕ
addr_of default none = default
addr_of default (some probe) = probe.addr

abbrev token_of : ℕ → Option Probe → ℕ
token_of default none = default
token_of default (some probe) = probe.token

abbrev Outcome : PathState → ℕ → List Happening → Type 0
Outcome p addr h = (addr ≡ p.addr) ⊎ (Validated addr h ⊎ Waits p addr h)

-- A step that leaves the path as it was.
outcome_same :
    (p : PathState) (addr : ℕ) (h : Happening) (rest : List Happening)
    → Outcome p addr rest
    → Outcome p addr (h ∷ rest)
outcome_same p addr h rest o = elim o [
  | inl stayed ↦ inl stayed
  | inr moved ↦ elim moved [
    | inl valid ↦ inr (inl (goes_on valid))
    | inr waits ↦ inr (
        inr (record {
          pending = waits.pending;
          probed = waits.probed;
          for_addr = waits.for_addr;
          answer = later waits.answer;
        }))
  ]
]

-- A step that drops the probe, or keeps it.
outcome_dropped :
    (p : PathState) (addr : ℕ) (h : Happening) (rest : List Happening) (probe : Option Probe)
    → (probe ≡ none) ⊎ (probe ≡ p.probe)
    → Outcome (record p { probe = probe }) addr rest
    → Outcome p addr (h ∷ rest)
outcome_dropped p addr h rest probe less o = elim o [
  | inl stayed ↦ inl stayed
  | inr moved ↦ elim moved [
    | inl valid ↦ inr (inl (goes_on valid))
    | inr waits ↦ elim less [
      | inl gone ↦ let clash : none ≡ some waits.pending = sym gone ∙ waits.probed in absurd cc
      | inr kept ↦ inr (
          inr (record {
            pending = waits.pending;
            probed = sym kept ∙ waits.probed;
            for_addr = waits.for_addr;
            answer = later waits.answer;
          }))
    ]
  ]
]

expired_less :
    (now : Timestamp) (probe : Option Probe)
    → (expired now probe ≡ none) ⊎ (expired now probe ≡ probe)
expired_less now none = inl refl
expired_less now (some pending) = elim (Bool-cases (leb path_timeout (since now pending.started))) [
  | inl old ↦ inl (rw old refl)
  | inr young ↦ inr (rw young refl)
]

-- A datagram from an address that is not probed.
outcome_challenged :
    (p : PathState) (addr now from sequence : ℕ) (rest : List Happening)
    → Outcome
        (record p {
          probe = some (record { addr = from; token = token_for sequence now; started = now });
          control = queue_path_challenge p.control (token_for sequence now);
        })
        addr
        rest
    → Outcome p addr (comes now from sequence ∷ rest)
outcome_challenged p addr now from sequence rest o = elim o [
  | inl stayed ↦ inl stayed
  | inr moved ↦ elim moved [
    | inl valid ↦ inr (inl (goes_on valid))
    | inr waits ↦
        let probe : Probe = record { addr = from; token = token_for sequence now; started = now } in
        let same : some probe ≡ some waits.pending = waits.probed in
        let same_addr : from ≡ addr =
          ap (λ (o : Option Probe). addr_of from o) same ∙ waits.for_addr in
        let same_token : waits.pending.token ≡ token_for sequence now =
          ap (λ (o : Option Probe). token_of 0 o) (sym same) in
        inr (
          inl (
            subst (λ a. Validated a (comes now from sequence ∷ rest)) same_addr
              (begins (subst (λ t. Answered t rest) same_token waits.answer))))
  ]
]

outcome_answered :
    (p : PathState) (addr token : ℕ) (rest : List Happening) (probe : Option Probe)
    → p.probe ≡ probe
    → Outcome (answered_by p token probe).0 addr rest
    → Outcome p addr (answers token ∷ rest)
outcome_answered p addr token rest none e o = outcome_same p addr (answers token) rest o
outcome_answered p addr token rest (some pending) e o = elim (Bool-cases (pending.token == token)) [
  | inr other ↦ outcome_same p addr (answers token) rest (rw other at o)
  | inl right ↦
      let same : token ≡ pending.token = ground arith in
      elim (rw right at o) [
        | inl moved_to ↦ inr (
            inr (record {
              pending = pending;
              probed = e;
              for_addr = sym moved_to;
              answer = subst (λ t. Answered pending.token (answers t ∷ rest)) (sym same) here;
            }))
        | inr moved ↦ elim moved [
          | inl valid ↦ inr (inl (goes_on valid))
          | inr waits ↦ let clash : none ≡ some waits.pending = waits.probed in absurd cc
        ]
      ]
]

outcome_arrived :
    (p : PathState) (addr now from sequence : ℕ) (rest : List Happening)
    → Outcome (arrived p now from sequence) addr rest
    → Outcome p addr (comes now from sequence ∷ rest)
unfolding arrived on_address_change
outcome_arrived p addr now from sequence rest o = elim (Bool-cases (from == p.addr)) [
  | inl known ↦ outcome_same p addr (comes now from sequence) rest (rw known at o)
  | inr new ↦ elim (Bool-cases (is_probed p.probe from)) [
    | inl probed ↦ outcome_same p addr (comes now from sequence) rest (rw (new, probed) at o)
    | inr fresh ↦ outcome_challenged p addr now from sequence rest (rw (new, fresh) at o)
  ]
]

-- From any state and through any happenings, the address at the end is the one at the start; or a
-- datagram came from it and the token made for that datagram was answered afterwards; or it is the
-- address that was probed at the start, and that probe's token was answered.
pub run-Validated :
    (p : PathState) (h : List Happening)
    → ((run p h).addr ≡ p.addr) ⊎ (Validated (run p h).addr h ⊎ Waits p (run p h).addr h)
unfolding run on_path_response on_timeout
run-Validated p [] = inl refl
run-Validated p (comes now from sequence ∷ rest) =
    outcome_arrived p (run (arrived p now from sequence) rest).addr now from sequence rest
      (run-Validated (arrived p now from sequence) rest)
run-Validated p (answers token ∷ rest) =
    outcome_answered p (run (on_path_response p token).0 rest).addr token rest p.probe refl
      (run-Validated (on_path_response p token).0 rest)
run-Validated p (ticks now ∷ rest) =
    outcome_dropped p (run (on_timeout p now) rest).addr (ticks now) rest (expired now p.probe)
      (expired_less now p.probe) (run-Validated (on_timeout p now) rest)
