-- ===== src/Breaker/Trace.antt =====
-- Sequences of calls through the circuit breaker of src/circuitBreaker.ts: a failing store trips it
-- at the threshold, and while it is open nothing reaches the store.
use ambit.Common.{
  ℕ, ◌+◌, ◌<◌, ◌≡◌, refl, sym, subst, ◌⊎◌, inl, inr, Bool, true, false, if◌then◌else◌, List, [],
  ◌∷◌, arith, All, length, ◌++◌,
}
use ambit.Breaker.{
  closed, open_circuit, CircuitStateChange, CircuitBreaker, CircuitBreakerConfig,
  failure_threshold_reached, execute, admit, settle, on_failure,
}
use ambit.Breaker.Machine.{IsValid, execute-IsValid, execute-refused}

-- A call: its time and its operation.
abbrev pub Call {ℓ κ μ} : Type ℓ → Type κ → Type μ → Type (ℓ ⊔ κ ⊔ μ)
Call S E A = ℕ × (S → (E ⊎ A) × S)

-- A call fails: its operation threw, or an outage is simulated.
abbrev pub fails {ℓ κ} : {E : Type ℓ} {A : Type κ} → Bool → E ⊎ A → Bool
fails down (inl e) = true
fails down (inr a) = down

on_failure-counts :
    (now : ℕ) (b : CircuitBreaker)
    → b.state ≡ closed
    → b.consecutive_failures + 1 < b.config.failure_threshold
    → on_failure now b ≡ (record b { consecutive_failures = b.consecutive_failures + 1 }, [])
unfolding on_failure
on_failure-counts now b o h = ground arith

on_failure-trips :
    (now : ℕ) (b : CircuitBreaker)
    → b.state ≡ closed
    → b.consecutive_failures + 1 ≡ b.config.failure_threshold
    → on_failure now b ≡ (
      record b {
        state = open_circuit;
        consecutive_failures = b.config.failure_threshold;
        opened_at = now;
      },
      record { from = closed; to = open_circuit; reason = failure_threshold_reached } ∷ [],
    )
unfolding on_failure
on_failure-trips now b o h = ground arith

settle-fails {κ μ} :
    {E : Type κ} {A : Type μ} (now : ℕ) (r : E ⊎ A) (b : CircuitBreaker)
    → fails false r ≡ true
    → ((settle now r b).1 ≡ (on_failure now b).0) × ((settle now r b).2 ≡ (on_failure now b).1)
unfolding settle
settle-fails now (inl e) b h = (refl, refl)
settle-fails now (inr a) b h = absurd (cc)

module _ {ℓ κ μ} {S : Type ℓ} {E : Type κ} {A : Type μ} where
  -- The calls one after another: the breaker, the notifications and the state at the end.
  unfoldable pub run_calls :
      List (Call S E A) → CircuitBreaker → S → CircuitBreaker × List CircuitStateChange × S
  run_calls [] b s = (b, [], s)
  run_calls (c ∷ calls) b s =
      let (_, b', changes, s') = execute c.0 c.1 b s in
      let (b'', later, s'') = run_calls calls b' s' in (b'', changes ++ later, s'')

  -- Fail closed: from the moment the circuit opens until its cooldown has elapsed, no sequence of
  -- calls changes the store, closes the circuit or notifies anyone.
  pub run_calls-refused :
      (calls : List (Call S E A)) (b : CircuitBreaker) (s : S)
      → b.state ≡ open_circuit
      → All (λ c. c.0 < b.opened_at + b.config.cooldown_ms) calls
      → run_calls calls b s ≡ (b, [], s)
  unfolding run_calls
  run_calls-refused [] b s o h = refl
  run_calls-refused (c ∷ calls) b s o h =
      ground (arith, execute-refused c.0 c.1 b s o h.0, run_calls-refused calls b s o h.1)

  -- The invariant holds after any sequence of calls.
  pub run_calls-IsValid :
      (calls : List (Call S E A)) (b : CircuitBreaker) (s : S)
      → IsValid b
      → IsValid (run_calls calls b s).0
  unfolding run_calls
  run_calls-IsValid [] b s v = v
  run_calls-IsValid (c ∷ calls) b s v =
      let (_, b', _, s') = execute c.0 c.1 b s in
      run_calls-IsValid calls b' s' (execute-IsValid c.0 c.1 b s v).0

  -- What the operation of a failing call leaves: a simulated outage keeps it from running.
  unfoldable pub touch : Bool → Call S E A → S → S
  touch down c s = if down then s else (c.1 s).1

  -- The state after failing calls.
  unfoldable pub touched : Bool → List (Call S E A) → S → S
  unfolding touch
  touched down [] s = s
  touched down (c ∷ calls) s = touched down calls (touch down c s)

  -- The call counts as a failure, and the state is what it touched.
  Counts : Call S E A → CircuitBreaker → S → Type ℓ
  Counts c b s =
      let (out, b', changes, s') = execute c.0 c.1 b s in
      (b' ≡ (on_failure c.0 b).0)
      × (changes ≡ (on_failure c.0 b).1)
      × (s' ≡ touch b.simulating_outage c s)

  closed-Counts :
      (c : Call S E A) (failures opened_at : ℕ) (down : Bool) (config : CircuitBreakerConfig)
      (s : S)
      → fails down (c.1 s).0 ≡ true
      → Counts c
          (record {
            state = closed;
            consecutive_failures = failures;
            opened_at = opened_at;
            simulating_outage = down;
            config = config;
          })
          s
  unfolding Counts execute admit touch
  closed-Counts c failures opened_at true config s h = (refl, refl, refl)
  closed-Counts c failures opened_at false config s h =
      let (same, told) = settle-fails c.0 (c.1 s).0 _ h in (same, told, refl)

  -- A failing call of a closed circuit counts as a failure.
  execute-Counts :
      (c : Call S E A) (b : CircuitBreaker) (s : S)
      → b.state ≡ closed
      → fails b.simulating_outage (c.1 s).0 ≡ true
      → Counts c b s
  execute-Counts c b s o h =
      subst (λ x. Counts c (record b { state = x }) s) (sym o)
        (closed-Counts c b.consecutive_failures b.opened_at b.simulating_outage b.config s h)

  -- A closed circuit over failing calls opens at the one that brings the count to the threshold, not
  -- before and not later. The calls fail if each of their operations throws in every state, or an
  -- outage is simulated. After `calls` and `last`, which together with the failures counted so far
  -- make up the threshold, the circuit has opened at the time of `last`, with one notification; the
  -- operations have each run once, in an outage none.
  pub run_calls-trips :
      (calls : List (Call S E A)) (last : Call S E A) (b : CircuitBreaker) (s : S)
      → b.state ≡ closed
      → All (λ c. (v : S) → fails b.simulating_outage (c.1 v).0 ≡ true) (calls ++ last ∷ [])
      → b.consecutive_failures + length calls + 1 ≡ b.config.failure_threshold
      → ((run_calls calls b s).0.state ≡ closed)
        × (run_calls (calls ++ last ∷ []) b s ≡ (
          record b {
            state = open_circuit;
            consecutive_failures = b.config.failure_threshold;
            opened_at = last.0;
          },
          record { from = closed; to = open_circuit; reason = failure_threshold_reached } ∷ [],
          touched b.simulating_outage (calls ++ last ∷ []) s,
        ))
  unfolding run_calls touched Counts
  run_calls-trips [] last b s o q h =
      let (trips, told, left) = execute-Counts last b s o (q.0 s) in
      (o, rw (trips, told, left, on_failure-trips last.0 b o (omega arith)) refl)
  run_calls-trips (c ∷ calls) last b s o q h =
      let b' : CircuitBreaker = record b { consecutive_failures = b.consecutive_failures + 1 } in
      let s' : S = touch b.simulating_outage c s in
      let (before, after) = run_calls-trips calls last b' s' o q.1 (omega arith) in
      let (counts, told, left) = execute-Counts c b s o (q.0 s) in
      let counted = on_failure-counts c.0 b o (omega arith) in
      rw (counts, told, left, counted) (before, after)
