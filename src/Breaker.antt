-- ===== src/Breaker.antt =====
-- src/circuitBreaker.ts: the circuit breaker of the policy and token store. The times are
-- milliseconds since the epoch. A call is made through `execute`, which takes the operation as a
-- function on the state that it changes; the notifications of `onStateChange` come back as a list,
-- in the order in which the callback is called.
pub mod Machine
pub mod Trace
use ambit.Common.{
  ℕ, ◌+◌, Bool, true, false, ◌&&◌, Option, none, some, List, [], ◌∷◌, ◌⊎◌, inl, inr, ltb, leb,
  if◌then◌else◌,
}

pub data CircuitState : Type 0 where
  closed open_circuit half_open : CircuitState

pub record CircuitBreakerConfig : Type 0 where
  pub failure_threshold : ℕ
  pub cooldown_ms : ℕ

-- A value that the caller may leave out, and its default: `a ?? b`.
abbrev pub or_default : Option ℕ → ℕ → ℕ
or_default none d = d
or_default (some n) d = n

abbrev pub default_circuit_breaker_config : CircuitBreakerConfig
default_circuit_breaker_config = record { failure_threshold = 3; cooldown_ms = 5000 }

pub data CircuitTransitionReason : Type 0 where
  failure_threshold_reached probe_succeeded probe_failed : CircuitTransitionReason

pub record CircuitStateChange : Type 0 where
  pub from : CircuitState
  pub to : CircuitState
  pub reason : CircuitTransitionReason

pub record CircuitBreaker : Type 0 where
  pub state : CircuitState
  pub consecutive_failures : ℕ
  pub opened_at : ℕ
  pub simulating_outage : Bool
  pub config : CircuitBreakerConfig

-- The constructor, over the two optional thresholds.
unfoldable pub init : Option ℕ → Option ℕ → CircuitBreaker
init threshold cooldown = record {
  state = closed;
  consecutive_failures = 0;
  opened_at = 0;
  simulating_outage = false;
  config = record {
    failure_threshold = or_default threshold default_circuit_breaker_config.failure_threshold;
    cooldown_ms = or_default cooldown default_circuit_breaker_config.cooldown_ms;
  };
}

unfoldable pub simulate_outage : Bool → CircuitBreaker → CircuitBreaker
simulate_outage down b = record b { simulating_outage = down }

-- `#transition`: the new state, and the call of the callback.
unfoldable pub transition :
    CircuitState
    → CircuitTransitionReason
    → CircuitBreaker
    → CircuitBreaker × List CircuitStateChange
transition to reason b =
    (record b { state = to }, record { from = b.state; to = to; reason = reason } ∷ [])

abbrev is_half_open : CircuitState → Bool
is_half_open half_open = true
is_half_open _ = false

abbrev is_closed : CircuitState → Bool
is_closed closed = true
is_closed _ = false

abbrev is_open : CircuitState → Bool
is_open open_circuit = true
is_open _ = false

unfoldable pub on_success : CircuitBreaker → CircuitBreaker × List CircuitStateChange
unfolding transition
on_success b =
    let reset : CircuitBreaker = record b { consecutive_failures = 0 } in
    if is_half_open b.state then transition closed probe_succeeded reset else (reset, [])

unfoldable pub on_failure : ℕ → CircuitBreaker → CircuitBreaker × List CircuitStateChange
unfolding transition
on_failure now b =
    let failures = b.consecutive_failures + 1 in
    let counted : CircuitBreaker = record b { consecutive_failures = failures } in
    let tripped : CircuitBreaker = record counted { opened_at = now } in
    if is_half_open b.state
    then transition open_circuit probe_failed tripped
    else (if is_closed b.state
        then (if leb b.config.failure_threshold failures
            then transition open_circuit failure_threshold_reached tripped
            else (counted, []))
        else (counted, []))

-- What a call through the breaker gives: what the operation returned or threw, a refusal while the
-- circuit is open (the operation is not run), or the simulated outage.
pub data Outcome {ℓ κ} (E : Type ℓ) (A : Type κ) : Type (ℓ ⊔ κ) where
  ran : A → Outcome E A
  threw : E → Outcome E A
  refused : Outcome E A
  outage : Outcome E A

-- The circuit is open and its cooldown has not elapsed: `now - openedAt < cooldownMs`.
abbrev pub is_cooling : ℕ → CircuitBreaker → Bool
is_cooling now b = is_open b.state && ltb now (b.opened_at + b.config.cooldown_ms)

-- The first `if` of `execute`: past the cooldown the call is a probe.
unfoldable pub admit : CircuitBreaker → CircuitBreaker
admit b = if is_open b.state then record b { state = half_open } else b

-- The `try` and `catch` of `execute`, by what the operation did.
unfoldable pub settle {ℓ κ} :
    {E : Type ℓ} {A : Type κ}
    → ℕ
    → E ⊎ A
    → CircuitBreaker
    → Outcome E A × CircuitBreaker × List CircuitStateChange
unfolding on_success on_failure
settle now (inr a) b = let (b', changes) = on_success b in (ran a, b', changes)
settle now (inl e) b = let (b', changes) = on_failure now b in (threw e, b', changes)

-- `execute` for an operation `fn` on a state `S`, which returns (`inr`) or throws (`inl`); `now` is
-- the time of the call.
unfoldable pub execute {ℓ κ μ} :
    {S : Type ℓ} {E : Type κ} {A : Type μ}
    → ℕ
    → (S → (E ⊎ A) × S)
    → CircuitBreaker
    → S
    → Outcome E A × CircuitBreaker × List CircuitStateChange × S
unfolding admit settle on_failure
execute now fn b s =
    if is_cooling now b
    then (refused, b, [], s)
    else (if b.simulating_outage
        then (let (b', changes) = on_failure now (admit b) in (outage, b', changes, s))
        else (let (r, s') = fn s in
            let (out, b', changes) = settle now r (admit b) in (out, b', changes, s')))
