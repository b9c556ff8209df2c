-- ===== src/Budget/Ready.antt =====
-- `ready_for` of hex-net-core/src/budget.rs is when `available` covers the datagram.
use native.Mathlib.Nat.{div-add-mod', mod-lt, mul-le-mul_right}
use native.Mathlib.Decide.{dec_lt}
use hex_net.Common.{ℕ, ◌+◌, ◌-◌, ◌*◌, ◌/◌, ◌^◌, ◌≤◌, ◌<◌, ◌≡◌, ◌↔◌, ap, arith}
use hex_net.Time.Timestamp.{Timestamp, latest, since, saturating_add}
use hex_net.Config.{BudgetConfig}
use hex_net.Budget.{
  Budget, advance, available, capacity_for, earned, needed_for, ready_for, refill_of, time_for,
  tokens, whole_bytes,
}
use hex_net.Budget.Invariant.{IsValid}

-- The time to earn a deficit is the least that earns it.
time_for_iff :
    (refill deficit elapsed : ℕ)
    → 0 < refill
    → (time_for refill deficit ≤ elapsed) ↔ (deficit ≤ elapsed * refill)
unfolding time_for
time_for_iff refill deficit elapsed pos =
    let e = div-add-mod' deficit refill in
    let r = mod-lt deficit pos in
    elim (dec_lt (deficit / refill) elapsed) [
      | yes p ↦ let m = mul-le-mul_right refill p in ground (arith, m)
      | no p ↦
          let m = mul-le-mul_right refill (not_below p) in
          elim (dec_lt elapsed (deficit / refill)) [
            | yes q ↦ let m' = mul-le-mul_right refill q in ground (arith, m, m')
            | no q ↦
                let same : deficit / refill ≡ elapsed = omega arith in
                let m' : deficit / refill * refill ≡ elapsed * refill = ap (λ n. n * refill) same in
                ground (arith, m, m')
          ]
    ]
  where
    not_below : ¬ (deficit / refill < elapsed) → elapsed ≤ deficit / refill
    not_below p = omega arith

refill_of_pos : (rate : ℕ) → 2000 ≤ rate → rate < 2 ^ 32 → 0 < refill_of rate
unfolding refill_of
refill_of_pos rate low high = omega arith

-- An admitted capacity is within a word, and a full one covers the largest packet.
capacity_lem :
    (rate : ℕ) (config : BudgetConfig)
    → rate < 2 ^ 32
    → config.max_packet ≤ 1200
    → (capacity_for rate config < 2 ^ 64) × (config.max_packet * 2 ^ 32 ≤ capacity_for rate config)
unfolding capacity_for tokens
capacity_lem rate config word packet = omega arith

-- `available` reports a number of bytes exactly when the level, refilled, holds them.
pub available_iff :
    (b : Budget) (now : Timestamp) (n : ℕ)
    → IsValid b
    → n ≤ b.config.max_packet
    → (n ≤ (available b now).1) ↔ (n * 2 ^ 32 ≤ b.tokens + since now b.last_refill * b.refill)
unfolding available advance whole_bytes earned since
available_iff b now n v le =
    let word = v.config_word in
    let low = v.rate_high in
    let packet = v.config_ok.packet_high in
    let (bound, cover) = capacity_lem b.rate b.config (omega arith) packet in
    let cap = v.capacity_eq in let full = v.tokens_high in ground arith

needed_for_le :
    (b : Budget) (payload_len : ℕ)
    → IsValid b
    → (needed_for b payload_len ≤ b.config.max_packet)
      × (tokens (needed_for b payload_len) ≡ needed_for b payload_len * 2 ^ 32)
unfolding needed_for tokens
needed_for_le b payload_len v = let packet = v.config_ok.packet_high in (omega arith, omega arith)

-- For a valid budget, at any moment from the last refill on and before the last instant of the
-- clock, the budget covers a message's datagram exactly when the time that `ready_for` gives has
-- come.
pub ready_for_iff :
    (b : Budget) (now : Timestamp) (payload_len : ℕ)
    → IsValid b
    → b.last_refill ≤ now
    → now < latest
    → (ready_for b payload_len ≤ now) ↔ (needed_for b payload_len ≤ (available b now).1)
unfolding ready_for saturating_add since
ready_for_iff b now payload_len v from before =
    let (small, exact) = needed_for_le b payload_len v in
    let iff = available_iff b now (needed_for b payload_len) v small in
    let pos = refill_of_pos b.rate v.rate_low (omega (arith, v.config_word, v.rate_high)) in
    let pos' : 0 < b.refill = omega (arith, v.refill_eq) in
    let t =
      time_for_iff b.refill (tokens (needed_for b payload_len) - b.tokens) (now - b.last_refill)
        pos' in
    ground arith
