-- ===== src/Breaker/Machine.antt =====
-- What one call through the circuit breaker of src/circuitBreaker.ts does, on every branch.
use ambit.Common.{
  refl, Bool-cases, ℕ, ◌+◌, ◌≤◌, ◌<◌, ◌≡◌, ◌≢◌, ◌⊎◌, inl, inr, true, false, [], ◌∷◌, arith,
}
use ambit.Breaker.{
  closed, open_circuit, half_open, CircuitBreaker, ran, threw, refused, outage, probe_succeeded,
  probe_failed, is_cooling, execute,
}

-- Between calls the circuit is closed or open, never half open, and a closed circuit has counted
-- fewer failures than the threshold, which is not 0.
pub record IsValid (b : CircuitBreaker) : Type 0 where
  pub positive : 0 < b.config.failure_threshold
  pub settled : b.state ≢ half_open
  pub below : b.state ≡ closed → b.consecutive_failures < b.config.failure_threshold

module _ {ℓ κ μ} {S : Type ℓ} {E : Type κ} {A : Type μ} (now : ℕ) (fn : S → (E ⊎ A) × S) where
  -- Every call keeps the invariant, the configuration and the outage switch, whatever the operation
  -- does.
  pub execute-IsValid :
      (b : CircuitBreaker) (s : S)
      → IsValid b
      → let (_, b', _, _) = execute now fn b s in
        IsValid b' × (b'.config ≡ b.config) × (b'.simulating_outage ≡ b.simulating_outage)
  unfolding execute
  execute-IsValid b s v = ground (arith, fn s)

  -- While the circuit is open and cooling the call is refused, the operation is not run, and
  -- neither the breaker nor the operation's state changes.
  pub execute-refused :
      (b : CircuitBreaker) (s : S)
      → b.state ≡ open_circuit
      → now < b.opened_at + b.config.cooldown_ms
      → execute now fn b s ≡ (refused, b, [], s)
  unfolding execute
  execute-refused b s o h = ground arith

  -- In every other case the operation runs, unless an outage is simulated.
  pub execute-outage :
      (b : CircuitBreaker) (s : S)
      → b.simulating_outage ≡ true
      → is_cooling now b ≡ false
      → let (out, _, _, s') = execute now fn b s in (out ≡ outage) × (s' ≡ s)
  unfolding execute
  execute-outage b s o h = ground arith

  pub execute-runs :
      (b : CircuitBreaker) (s : S)
      → b.simulating_outage ≡ false
      → is_cooling now b ≡ false
      → (execute now fn b s).3 ≡ (fn s).1
  unfolding execute
  execute-runs b s o h = ground (arith, fn s)

  -- The first call after the cooldown is the probe. If the operation returns, the circuit closes
  -- with its count cleared; if it throws, the circuit opens again and the cooldown restarts at the
  -- call. The callback hears of it once, and the operation's own result reaches the caller.
  pub execute-probe :
      (b : CircuitBreaker) (s : S)
      → b.state ≡ open_circuit
      → b.opened_at + b.config.cooldown_ms ≤ now
      → b.simulating_outage ≡ false
      → ((a : A)
          → (fn s).0 ≡ inr a
          → execute now fn b s ≡ (
            ran a,
            record b { state = closed; consecutive_failures = 0 },
            record { from = half_open; to = closed; reason = probe_succeeded } ∷ [],
            (fn s).1,
          ))
        × ((e : E)
            → (fn s).0 ≡ inl e
            → execute now fn b s ≡ (
              threw e,
              record b {
                state = open_circuit;
                consecutive_failures = b.consecutive_failures + 1;
                opened_at = now;
              },
              record { from = half_open; to = open_circuit; reason = probe_failed } ∷ [],
              (fn s).1,
            ))
  unfolding execute
  execute-probe b s o h q = (λ a e. ground arith, λ x e. ground arith)

  -- Whatever the breaker does, the operation runs on the state at most once.
  pub execute-keeps {ν} :
      (P : S → Type ν) (b : CircuitBreaker) (s : S) → P s → P (fn s).1 → P (execute now fn b s).3
  unfolding execute
  execute-keeps P b s before after = elim (Bool-cases (is_cooling now b)) [
    | inl cooling ↦ rw cooling before
    | inr warm ↦ elim (Bool-cases b.simulating_outage) [
      | inl down ↦ rw (warm, down) before
      | inr up ↦ rw (warm, up) after
    ]
  ]

-- A call of an operation that does not throw gives its result, or one of the two refusals and leaves
-- the state alone.
pub execute-cases {ℓ κ μ} :
    {S : Type ℓ} {E : Type κ} {A : Type μ} (now : ℕ) (fn : S → A × S) (b : CircuitBreaker) (s : S)
    → let (out, _, _, s') = execute {E = E} now (λ v. let (a, v') = fn v in (inr a, v')) b s in
      ((out ≡ ran (fn s).0) × (s' ≡ (fn s).1)) ⊎ (((out ≡ refused) ⊎ (out ≡ outage)) × (s' ≡ s))
unfolding execute
execute-cases now fn b s = elim (Bool-cases (is_cooling now b)) [
  | inl cooling ↦ rw cooling (inr (inl refl, refl))
  | inr warm ↦ elim (Bool-cases b.simulating_outage) [
    | inl down ↦ rw (warm, down) (inr (inr refl, refl))
    | inr up ↦ rw (warm, up) (inl (refl, refl))
  ]
]
