-- ===== src/Tests/Budget.antt =====
-- Examples for hex-net-core/src/budget.rs and config.rs.
use hex_net.Common.{◌+◌, ◌-◌, ◌*◌, ◌^◌, ◌≤◌, ◌↔◌, true, List, [], ◌∷◌, arith}
use hex_net.Ack.Rtt.{default}
use hex_net.Config.{BudgetConfig, Liveness, IsAdmitted, min_packet_lem}
use hex_net.Budget.{Budget, new, on_sent, on_lost, assess, available, needed_for, ready_for}
use hex_net.Budget.Invariant.{
  IsValid, Reachable, start, next, step_sent, step_lost, step_assess, reachable-IsValid,
}
use hex_net.Budget.Ready.{ready_for_iff}
use hex_net.Budget.Spend.{Attempt, total, total_bounded}

abbrev config : BudgetConfig
config = record { rate = 8000; max_packet = 1200 }

config_ok : IsAdmitted config
config_ok = record {
  rate_low = omega arith;
  packet_low = omega (arith, min_packet_lem);
  packet_high = omega arith;
}

abbrev budget : Budget
budget = assess (on_lost (on_sent (new 0 config) 1200 true)) 200_000_000 default

reached : Reachable config budget
reached =
    let sent = on_sent (new 0 config) 1200 true in
    next (on_lost sent) budget
      (next sent (on_lost sent)
        (next (new 0 config) sent (start 0) (step_sent (new 0 config) 1200 true)) (step_lost sent))
      (step_assess (on_lost sent) 200_000_000 default)

reachable-IsValid_example : IsValid budget
reachable-IsValid_example = reachable-IsValid config budget config_ok (omega arith) reached

budget-IsValid : IsValid (new 5 config)
budget-IsValid = reachable-IsValid config (new 5 config) config_ok (omega arith) (start 5)

abbrev fresh : Budget
fresh = new 5 config

ready_for_iff_example :
    (ready_for fresh 100 ≤ 1_000_000) ↔ (needed_for fresh 100 ≤ (available fresh 1_000_000).1)
unfolding new
ready_for_iff_example = ready_for_iff fresh 1_000_000 100 budget-IsValid (omega arith) (omega arith)

abbrev attempts : List Attempt
attempts =
    record { at = 10; want = 1200 }
    ∷ record { at = 1_000_000; want = 50 }
    ∷ record { at = 900; want = 9 }
    ∷ []

total_bounded_example :
    total fresh attempts * 2 ^ 32 ≤ fresh.tokens + (2_000_000 - fresh.last_refill) * fresh.refill
unfolding new
total_bounded_example =
    total_bounded fresh attempts 2_000_000 budget-IsValid (omega arith)
      (omega arith, (omega arith, (omega arith, tt)))

abbrev timings : Liveness
timings = record { idle_timeout = 10_000_000_000; keepalive = 1_000_000_000 }
