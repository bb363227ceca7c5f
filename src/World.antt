-- ===== src/World.antt =====
-- The state that the parts of the program share, as src/server.ts wires it: one circuit breaker (or
-- none, as in the callers that build a store without one) for the token store and the policy store,
-- one audit log, and the draws taken from the platform so far. A method is an action: it returns or
-- throws, and what it wrote before a throw stays written.
pub mod Sound
pub mod Frame
use ambit.Common.{
  ℕ, ◌+◌, Bool, true, false, ◌&&◌, Option, none, some, List, [], ◌∷◌, String, ◌⊎◌, inl, inr,
  if◌then◌else◌, lookup, insert, template,
}
use ambit.Breaker.{
  CircuitBreaker, CircuitState, closed, open_circuit, half_open, CircuitStateChange,
  CircuitTransitionReason, failure_threshold_reached, probe_succeeded, probe_failed, Outcome, ran,
  threw, refused, outage, execute,
}
use ambit.Records.{
  AuditFields, Decision, decision_text, fields, circuit_opened, circuit_closed, Token, Policy,
  PendingRequest, AgentIdentity, RedactionRule,
}
use ambit.Platform.{Platform}
use ambit.Audit.{AuditLog, is_denial, lacks_reason, new_entry, append_entry}
use ambit.Anomaly.{AnomalyDetector}
use ambit.Store.{Store}

-- The error classes, each with its message.
pub data Error : Type 0 where
  circuit_open missing_reason_code invalid_scope policy_violation unknown_token : String → Error
  unknown_request request_not_pending wrong_subject request_not_approved : String → Error
  token_secret_already_claimed unauthorized_decider invalid_policy unknown_policy : String → Error
  invalid_agent_identity duplicate_agent_identity invalid_redaction_rule : String → Error
  -- `RangeError: Maximum call stack size exceeded`, which a recursion without end would raise
  stack_overflow : Error

-- `err.message`
abbrev pub error_message : Error → String
error_message (circuit_open m) = m
error_message (missing_reason_code m) = m
error_message (invalid_scope m) = m
error_message (policy_violation m) = m
error_message (unknown_token m) = m
error_message (unknown_request m) = m
error_message (request_not_pending m) = m
error_message (wrong_subject m) = m
error_message (request_not_approved m) = m
error_message (token_secret_already_claimed m) = m
error_message (unauthorized_decider m) = m
error_message (invalid_policy m) = m
error_message (unknown_policy m) = m
error_message (invalid_agent_identity m) = m
error_message (duplicate_agent_identity m) = m
error_message (invalid_redaction_rule m) = m
error_message stack_overflow = "Maximum call stack size exceeded"

pub data Result {ℓ} (A : Type ℓ) : Type ℓ where
  ok : A → Result A
  throw : Error → Result A

pub record World : Type 0 where
  pub clock_reads : ℕ
  pub uuids_drawn : ℕ
  pub bytes_drawn : ℕ
  pub breaker : Option CircuitBreaker
  pub tokens : Store Token
  pub policies : Store Policy
  pub requests : Store PendingRequest
  pub identities : Store AgentIdentity
  pub rules : Store RedactionRule
  pub detector : AnomalyDetector
  pub audit : AuditLog

abbrev pub Action {ℓ} : Type ℓ → Type ℓ
Action A = World → Result A × World

abbrev pub pure {ℓ} : {A : Type ℓ} → A → Action A
pure a w = (ok a, w)

abbrev pub raise {ℓ} : {A : Type ℓ} → Error → Action A
raise e w = (throw e, w)

infixl 5 ◌>>=◌ ◌>>◌
abbrev pub ◌>>=◌ {ℓ κ} : {A : Type ℓ} {B : Type κ} → Action A → (A → Action B) → Action B
◌>>=◌ m f w = let (r, w') = m w in elim r [ ok a ↦ f a w' | throw e ↦ (throw e, w') ]

abbrev pub ◌>>◌ {ℓ κ} : {A : Type ℓ} {B : Type κ} → Action A → Action B → Action B
m >> k = m >>= λ _. k

-- `try { m } catch (err)` where only a `CircuitOpenError` is handled, as an absent value.
unfoldable pub try_open {ℓ} : {A : Type ℓ} → Action A → Action (Option A)
try_open m w =
    let (r, w') = m w in
    elim r [
      | ok a ↦ (ok (some a), w')
      | throw e ↦ elim e [ circuit_open _ ↦ (ok none, w') | other ↦ (throw other, w') ]
    ]

abbrev pub gets {ℓ} : {A : Type ℓ} → (World → A) → Action A
gets f w = (ok (f w), w)

abbrev pub transition_text : CircuitTransitionReason → String
transition_text failure_threshold_reached = "failure_threshold_reached"
transition_text probe_succeeded = "probe_succeeded"
transition_text probe_failed = "probe_failed"

-- What `execute` throws.
abbrev pub outcome_result {ℓ} : {A : Type ℓ} → Outcome Error A → Result A
outcome_result (ran a) = ok a
outcome_result (threw e) = throw e
outcome_result refused =
    throw (circuit_open "circuit breaker is open — the store is currently unreachable")
outcome_result outage = throw (circuit_open "simulated outage")

-- An operation of a store, which does not throw by itself, as `execute` takes it.
abbrev pub as_operation {ℓ} : {A : Type ℓ} → (World → A × World) → World → (Error ⊎ A) × World
as_operation fn w = let (a, w') = fn w in (inr a, w')

pub missing_reason_message : Decision → String
missing_reason_message decision = template (
    "a \""
    ∷ decision_text decision
    ∷ "\" audit entry must include a reasonCode — REQ-010 requires every denied action to record a distinct reason, not just be logged as denied"
    ∷ [])

module _ (pf : Platform) where
  -- `new Date()`
  unfoldable pub read_clock : Action ℕ
  read_clock w = (ok (pf.clock w.clock_reads), record w { clock_reads = w.clock_reads + 1 })

  -- `crypto.randomUUID()`
  unfoldable pub draw_uuid : Action String
  draw_uuid w = (ok (pf.random_uuid w.uuids_drawn), record w { uuids_drawn = w.uuids_drawn + 1 })

  -- `randomBytes(size)`
  unfoldable pub draw_bytes : ℕ → Action (List ℕ)
  draw_bytes size w =
      (ok (pf.random_bytes w.bytes_drawn size), record w { bytes_drawn = w.bytes_drawn + 1 })

  -- `AuditLog.record` past its guard.
  unfoldable pub write_entry : AuditFields → ℕ → World → World
  write_entry content now w =
      let entry = new_entry pf (pf.random_uuid w.uuids_drawn) content now w.audit in
      record w { uuids_drawn = w.uuids_drawn + 1; audit = append_entry pf entry w.audit }

  -- `AuditLog.record`: a denial with no reason is refused.
  unfoldable pub record_entry : AuditFields → ℕ → Action (Unit {0})
  record_entry content now w =
      if is_denial content.decision && lacks_reason content.reason_code
      then (throw (missing_reason_code (missing_reason_message content.decision)), w)
      else (ok tt, write_entry content now w)

  -- The audit entry of a transition, whose time is read from the clock.
  unfoldable pub log_transition : Decision → CircuitTransitionReason → World → World
  unfolding write_entry
  log_transition decision reason w =
      write_entry
        (record (fields "system" "policy_token_store" decision) {
          reason_code = some (transition_text reason);
        })
        (pf.clock w.clock_reads) (record w { clock_reads = w.clock_reads + 1 })

  -- The callback that src/server.ts gives to the breaker.
  unfoldable pub announce : CircuitState → CircuitTransitionReason → World → World
  unfolding log_transition
  announce open_circuit reason w = log_transition circuit_opened reason w
  announce closed reason w = log_transition circuit_closed reason w
  announce half_open reason w = w

  unfoldable pub on_state_change : CircuitStateChange → World → World
  unfolding announce
  on_state_change change w = announce change.to change.reason w

  unfoldable pub on_state_changes : List CircuitStateChange → World → World
  on_state_changes [] w = w
  on_state_changes (c ∷ cs) w = on_state_changes cs (on_state_change c w)

  -- `#guarded` of a store: through the breaker, if there is one. `execute` reads the clock when it
  -- is called, and its notifications are written to the audit log.
  unfoldable pub guarded_by {ℓ} :
      {A : Type ℓ} → Option CircuitBreaker → (World → A × World) → Action A
  unfolding on_state_changes
  guarded_by none fn w = let (a, w') = fn w in (ok a, w')
  guarded_by (some b) fn w =
      let now = pf.clock w.clock_reads in
      let read : World = record w { clock_reads = w.clock_reads + 1 } in
      let (out, b', changes, w') = execute now (as_operation fn) b read in
      (outcome_result out, on_state_changes changes (record w' { breaker = some b' }))

  unfoldable pub guarded {ℓ} : {A : Type ℓ} → (World → A × World) → Action A
  unfolding guarded_by
  guarded fn w = guarded_by w.breaker fn w
