-- ===== src/Tests/Guards.antt =====
-- Runs of the circuit breaker, the rate limiter and the anomaly detector.
use ambit.Common.{
  ℕ, ◌+◌, ◌-◌, ◌≡◌, refl, ◌⊎◌, inl, inr, false, true, List, [], ◌∷◌, ◌++◌, arith, min, ltb,
  if◌then◌else◌, lookup,
}
use ambit.Breaker.{CircuitBreaker, closed, open_circuit, failure_threshold_reached}
use ambit.Breaker.Trace.{run_calls, run_calls-refused, run_calls-trips}
use ambit.Limiter.{RateLimiter}
use ambit.Limiter.Windows.{passes, passes-window, passes-fresh}
use ambit.Anomaly.{AnomalyDetector, default_anomaly_config}
use ambit.Anomaly.History.{Submission, replay, recent_count, check_signals}

-- Appends a mark to the state, and does not throw.
abbrev mark : List ℕ → (ℕ ⊎ ℕ) × List ℕ
mark s = (inr 0, 1 ∷ s)

abbrev failing : CircuitBreaker
failing = record {
  state = closed;
  consecutive_failures = 1;
  opened_at = 0;
  simulating_outage = true;
  config = record { failure_threshold = 3; cooldown_ms = 5000 };
}

abbrev opened : CircuitBreaker
opened = record failing { state = open_circuit; consecutive_failures = 3; opened_at = 20 }

-- The same without the outage, over operations that throw.
abbrev failing_up : CircuitBreaker
failing_up = record failing { simulating_outage = false }

abbrev crash : List ℕ → (ℕ ⊎ ℕ) × List ℕ
crash s = (inl 0, 2 ∷ s)

run_calls-trips_example :
    ((run_calls ((10, crash) ∷ []) failing_up []).0.state ≡ closed)
    × (run_calls ((10, crash) ∷ (20, crash) ∷ []) failing_up [] ≡ (
      record opened { simulating_outage = false },
      record { from = closed; to = open_circuit; reason = failure_threshold_reached } ∷ [],
      2 ∷ 2 ∷ [],
    ))
unfolding ambit.Breaker.Trace.touched
run_calls-trips_example =
    run_calls-trips ((10, crash) ∷ []) (20, crash) failing_up [] refl (λ v. refl, (λ v. refl, tt))
      refl

run_calls-refused_example : run_calls ((21, mark) ∷ (5019, mark) ∷ []) opened [] ≡ (opened, [], [])
run_calls-refused_example =
    run_calls-refused ((21, mark) ∷ (5019, mark) ∷ []) opened [] refl
      (omega arith, (omega arith, tt))

abbrev limiter : RateLimiter
limiter = record {
  window_ms = 1000;
  max_requests = 2;
  windows = ("k", record { count = 1; window_started_at = 0 }) ∷ [];
}

passes-window_example : passes "k" (10 ∷ 20 ∷ 30 ∷ []) limiter ≡ min 3 (2 - 1)
unfolding lookup
passes-window_example =
    passes-window "k" (10 ∷ 20 ∷ 30 ∷ []) limiter (record { count = 1; window_started_at = 0 }) refl
      (omega arith, (omega arith, (omega arith, tt)))

passes-fresh_example : passes "j" (10 ∷ 20 ∷ 30 ∷ []) limiter ≡ 1 + (min 2 (2 - 1))
unfolding lookup
passes-fresh_example =
    passes-fresh "j" 10 (20 ∷ 30 ∷ []) limiter refl (omega arith, (omega arith, tt))

abbrev detector : AnomalyDetector
detector = record { config = default_anomaly_config; recent_by_subject = [] }

abbrev past : List Submission
past =
    record { subject = "a"; scope = []; time = 5 }
    ∷ record { subject = "a"; scope = []; time = 7 }
    ∷ record { subject = "b"; scope = []; time = 8 }
    ∷ record { subject = "a"; scope = []; time = 9 }
    ∷ []

check_signals_example :
    (ambit.Anomaly.check "a" ("x" ∷ []) 10 (replay past detector)).1.signals
    ≡ (if ltb 3 1 then "scope_too_broad" ∷ [] else [])
      ++ (if ltb 3 (recent_count 60000 "a" 10 past) then "high_velocity" ∷ [] else [])
check_signals_example =
    check_signals detector past "a" ("x" ∷ []) 10 refl
      (omega arith, (omega arith, (omega arith, (omega arith, omega arith))))
