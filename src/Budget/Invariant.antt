-- ===== src/Budget/Invariant.antt =====
-- What holds of every budget of hex-net-core/src/budget.rs, through all its operations.
use hex_net.Common.{
  ℕ, ◌+◌, ◌*◌, ◌/◌, ◌%◌, ◌^◌, ◌≤◌, ◌<◌, ◌≡◌, Bool, ◌||◌, arith, min, max, ltb, leb, if◌then◌else◌,
  sat_add32, Bool-cases, inl, inr,
}
use hex_net.Time.Timestamp.{Timestamp, since}
use hex_net.Ack.Rtt.{Rtt}
use hex_net.Config.{BudgetConfig, IsAdmitted, min_rate}
use hex_net.Budget.{
  Budget, new, advance, available, on_sent, on_lost, on_spurious, set_rate, on_path_change,
  decrease, increase, judge, assess, capacity_for, refill_of, is_queueing, is_lossy,
  assess_interval,
}

-- The rate is between the floor and the configured one, and the refill, the capacity and the level
-- agree with it.
pub record IsValid (b : Budget) : Type 0 where
  pub config_ok : IsAdmitted b.config
  pub config_word : b.config.rate < 2 ^ 32
  pub rate_low : min_rate ≤ b.rate
  pub rate_high : b.rate ≤ b.config.rate
  pub refill_eq : b.refill ≡ refill_of b.rate
  pub capacity_eq : b.capacity ≡ capacity_for b.rate b.config
  pub tokens_high : b.tokens ≤ b.capacity

-- One call of one operation.
pub data Step : Budget → Budget → Type 0 where
  step_available : (b : Budget) (now : Timestamp) → Step b (available b now).0
  step_sent : (b : Budget) (len : ℕ) (eliciting : Bool) → Step b (on_sent b len eliciting)
  step_lost : (b : Budget) → Step b (on_lost b)
  step_spurious : (b : Budget) → Step b (on_spurious b)
  step_path : (b : Budget) (now : Timestamp) → Step b (on_path_change b now)
  step_assess : (b : Budget) (now : Timestamp) (rtt : Rtt) → Step b (assess b now rtt)

pub data Reachable (config : BudgetConfig) : Budget → Type 0 where
  start : (now : Timestamp) → Reachable config (new now config)
  next : (b b' : Budget) → Reachable config b → Step b b' → Reachable config b'

new-IsValid :
    (now : Timestamp) (config : BudgetConfig)
    → IsAdmitted config
    → config.rate < 2 ^ 32
    → IsValid (new now config)
unfolding new
new-IsValid now config ok word = ground arith

pub advance-IsValid : (b : Budget) (now : Timestamp) → IsValid b → IsValid (advance b now)
unfolding advance
advance-IsValid b now v = ground arith

set_rate-IsValid :
    (b : Budget) (rate : ℕ)
    → min_rate ≤ rate
    → rate ≤ b.config.rate
    → IsValid b
    → IsValid (set_rate b rate)
unfolding set_rate
set_rate-IsValid b rate low high v = ground arith

pub decrease-IsValid : (b : Budget) → IsValid b → IsValid (decrease b)
unfolding decrease
decrease-IsValid b v =
    set_rate-IsValid b (max (b.rate / 4 * 3 % 2 ^ 32) min_rate) (omega arith) (ground arith) v

pub increase-IsValid : (b : Budget) → IsValid b → IsValid (increase b)
unfolding increase
increase-IsValid b v =
    set_rate-IsValid b (min (sat_add32 b.rate (max (b.config.rate / 16) 1)) b.config.rate)
      (ground arith) (omega arith) v

judge-IsValid : (b : Budget) (queueing : Bool) → IsValid b → IsValid (judge b queueing)
unfolding judge
judge-IsValid b queueing v =
    elim (Bool-cases
      (is_lossy b || leb 2 (if queueing then min (b.queue_signals + 1) 255 else 0))) [
        | inl p ↦ rw p (
            decrease-IsValid (record b { window_sent = 0; window_lost = 0; queue_signals = 0 })
              (ground arith))
        | inr p ↦ rw p (
            increase-IsValid
              (record b {
                window_sent = 0;
                window_lost = 0;
                queue_signals = if queueing then min (b.queue_signals + 1) 255 else 0;
              })
              (ground arith))
      ]

assess-IsValid : (b : Budget) (now : Timestamp) (rtt : Rtt) → IsValid b → IsValid (assess b now rtt)
unfolding assess
assess-IsValid b now rtt v =
    elim (Bool-cases (ltb (since now b.last_assessed) (assess_interval rtt))) [
      | inl p ↦ rw p v
      | inr p ↦ elim (Bool-cases (ltb b.window_sent 20)) [
        | inl q ↦ rw (p, q) (ground arith)
        | inr q ↦
            rw (p, q)
              (judge-IsValid (record b { last_assessed = now }) (is_queueing rtt) (ground arith))
      ]
    ]

Step-IsValid : (b b' : Budget) → Step b b' → IsValid b → IsValid b'
unfolding available on_sent on_lost on_spurious on_path_change
Step-IsValid b b' (step_available _ now) v = advance-IsValid b now v
Step-IsValid b b' (step_sent _ len eliciting) v = ground arith
Step-IsValid b b' (step_lost _) v = ground arith
Step-IsValid b b' (step_spurious _) v = ground arith
Step-IsValid b b' (step_path _ now) v =
    let r = set_rate-IsValid b b.config.rate v.config_ok.rate_low (omega arith) v in ground arith
Step-IsValid b b' (step_assess _ now rtt) v = assess-IsValid b now rtt v

-- A budget made from an admitted configuration whose rate fits in 32 bits keeps, through any calls
-- of its operations, a rate between the floor and the configured one, a refill and a capacity that
-- are those of the rate, and a level within the capacity.
pub reachable-IsValid :
    (config : BudgetConfig) (b : Budget)
    → IsAdmitted config
    → config.rate < 2 ^ 32
    → Reachable config b
    → IsValid b
reachable-IsValid config b ok word (start now) = new-IsValid now config ok word
reachable-IsValid config b ok word (next b₀ _ r s) =
    Step-IsValid b₀ b s (reachable-IsValid config b₀ ok word r)
