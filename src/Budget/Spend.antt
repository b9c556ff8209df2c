-- ===== src/Budget/Spend.antt =====
-- What a budget of hex-net-core/src/budget.rs lets through in a stretch of time.
use hex_net.Common.{
  ℕ, ◌+◌, ◌-◌, ◌*◌, ◌^◌, ◌≤◌, ◌≡◌, sym, ◌∙◌, ap, true, List, [], ◌∷◌, arith, min, max,
}
use native.Mathlib.Nat.{add-mul}
use hex_net.Time.Timestamp.{Timestamp, since}
use hex_net.Budget.{Budget, advance, available, earned, on_sent, tokens, whole_bytes}
use hex_net.Budget.Invariant.{IsValid, advance-IsValid}

-- A sender that asks at a time for what it may spend and spends what it wants of that.
pub record Attempt : Type 0 where
  pub at : Timestamp
  pub want : ℕ

-- The bytes of one attempt.
unfoldable pub granted : Budget → Attempt → ℕ
granted b a = min a.want (available b a.at).1

unfoldable pub spend : Budget → Attempt → Budget
spend b a = on_sent (available b a.at).0 (granted b a) true

-- The bytes of all attempts, one after another.
unfoldable pub total : Budget → List Attempt → ℕ
total b [] = 0
total b (a ∷ rest) = granted b a + total (spend b a) rest

abbrev pub Before : Timestamp → List Attempt → Type 0
Before stop [] = Unit {0}
Before stop (a ∷ rest) = (a.at ≤ stop) × Before stop rest

spend-IsValid : (b : Budget) (a : Attempt) → IsValid b → IsValid (spend b a)
unfolding spend on_sent available
spend-IsValid b a v = let v' = advance-IsValid b a.at v in ground arith

-- One attempt takes its bytes from the level and from what the elapsed time earned.
spend_lem :
    (b : Budget) (a : Attempt)
    → IsValid b
    → ((spend b a).refill ≡ b.refill)
      × ((spend b a).last_refill ≡ max b.last_refill a.at)
      × (granted b a * 2 ^ 32 + (spend b a).tokens ≤ b.tokens + (a.at - b.last_refill) * b.refill)
unfolding spend granted on_sent available advance earned since tokens whole_bytes
spend_lem b a v = let packet = v.config_ok.packet_high in ground arith

-- Elapsed time earns the same in two parts.
earned_split :
    (last at stop refill : ℕ)
    → last ≤ stop
    → at ≤ stop
    → (at - last) * refill + (stop - max last at) * refill ≡ (stop - last) * refill
earned_split last at stop refill h h' =
    sym (add-mul (at - last) (stop - max last at) refill) ∙ ap (λ n. n * refill) (omega arith)

-- The cost of one attempt and the bound on the others add up.
combine :
    (n rest now_level level last last' at stop refill refill' : ℕ)
    → last ≤ stop
    → at ≤ stop
    → refill' ≡ refill
    → last' ≡ max last at
    → n * 2 ^ 32 + now_level ≤ level + (at - last) * refill
    → rest * 2 ^ 32 ≤ now_level + (stop - last') * refill'
    → (n + rest) * 2 ^ 32 ≤ level + (stop - last) * refill
combine n rest now_level level last last' at stop refill refill' h le same later cost ih =
    let ih' : rest * 2 ^ 32 ≤ now_level + (stop - max last at) * refill = rw (same, later) at ih in
    let split = earned_split last at stop refill h le in omega arith

-- From a valid budget, however the attempts up to `stop` are timed and whatever they ask for,
-- together they get at most the level at the start and what the time from the last refill to
-- `stop` earns, where `stop` is not before the last refill.
pub total_bounded :
    (b : Budget) (attempts : List Attempt) (stop : Timestamp)
    → IsValid b
    → b.last_refill ≤ stop
    → Before stop attempts
    → total b attempts * 2 ^ 32 ≤ b.tokens + (stop - b.last_refill) * b.refill
unfolding total
total_bounded b [] stop v h u = omega arith
total_bounded b (a ∷ rest) stop v h (le, u) =
    let (same, later, cost) = spend_lem b a v in
    let ih = total_bounded (spend b a) rest stop (spend-IsValid b a v) (omega arith) u in
    combine (granted b a) (total (spend b a) rest) (spend b a).tokens b.tokens b.last_refill
      (spend b a).last_refill a.at stop b.refill (spend b a).refill h le same later cost ih
