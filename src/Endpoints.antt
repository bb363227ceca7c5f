-- ===== src/Endpoints.antt =====
-- src/mockEndpoints.ts and src/mockEndpointAccess.ts: calls of the mock endpoints through the
-- Enforcement Gateway, with a timeout and capped retries.
pub mod Attempts
use ambit.Common.{
  ℕ, zero, suc, ◌+◌, Bool, true, false, Option, none, some, List, [], ◌∷◌, String, template,
  if◌then◌else◌,
}
use ambit.Records.{Token, AuditFields, AccessOutcome, success, unreachable, fields, allowed}
use ambit.Platform.{Platform}
use ambit.Breaker.{or_default}
use ambit.World.{World, Action, pure, ◌>>=◌, ◌>>◌, record_entry}
use ambit.Token.Access.{token_get}
use ambit.Token.Enforce.{EnforcementDecision, allow, deny, deny_text, enforce_token}
use ambit.Customers.{subject_of}

pub data MockSystem : Type 0 where
  email code_hosting payment crm : MockSystem

abbrev pub system_text : MockSystem → String
system_text email = "email"
system_text code_hosting = "code-hosting"
system_text payment = "payment"
system_text crm = "crm"

abbrev pub same_system : MockSystem → MockSystem → Bool
same_system email email = true
same_system code_hosting code_hosting = true
same_system payment payment = true
same_system crm crm = true
same_system _ _ = false

pub record MockEndpointResult : Type 0 where
  pub system : MockSystem
  pub verb : String
  pub detail : String

-- `#down`, as its membership test.
pub record MockEndpointRegistry : Type 0 where
  pub down : MockSystem → Bool

-- `setDown`
unfoldable pub set_down : MockSystem → Bool → MockEndpointRegistry → MockEndpointRegistry
set_down system down r = record { down = λ s. if same_system system s then down else r.down s }

-- `call`; `none` is an `EndpointUnreachableError`.
unfoldable pub call : MockSystem → String → MockEndpointRegistry → Option MockEndpointResult
unfolding template
call system verb r =
    if r.down system
    then none
    else some (record {
      system = system;
      verb = verb;
      detail = template (system_text system ∷ ":" ∷ verb ∷ " succeeded" ∷ []);
    })

-- `withTimeout`: the call's outcome, unless the timer was first.
unfoldable pub with_timeout : Bool → Option MockEndpointResult → Option MockEndpointResult
with_timeout timed_out outcome = if timed_out then none else outcome

-- How the loop ended; `untried` leaves `lastError` undefined.
pub data LoopEnd : Type 0 where
  succeeded : MockEndpointResult → LoopEnd
  gave_up untried : LoopEnd

-- The loop, with `left` attempts left, over the outcome of each attempt.
unfoldable pub run_attempts : (ℕ → Option MockEndpointResult) → ℕ → ℕ → LoopEnd → LoopEnd
run_attempts outcome zero attempt end = end
run_attempts outcome (suc left) attempt end =
    let rest = run_attempts outcome left (attempt + 1) gave_up in
    elim (outcome attempt) [ none ↦ rest | some r ↦ succeeded r ]

pub data AccessResult : Type 0 where
  reached : MockEndpointResult → AccessResult
  not_reached : AccessResult
  not_allowed : String → AccessResult

abbrev pub default_max_attempts : ℕ
default_max_attempts = 2

-- What the environment settles for each attempt: whether its timer fires first, and the registry that
-- its call meets.
pub record Surroundings : Type 0 where
  pub timed_out : ℕ → Bool
  pub registry : ℕ → MockEndpointRegistry

module _ (system : MockSystem) (verb : String) where
  unfoldable pub action_text : String
  unfolding template
  action_text = template (system_text system ∷ ":" ∷ verb ∷ [])

  -- The outcome of one attempt.
  unfoldable pub attempt_at : Surroundings → ℕ → Option MockEndpointResult
  unfolding with_timeout call
  attempt_at env i = with_timeout (env.timed_out i) (call system verb (env.registry i))

module _ (pf : Platform) (token_id : String) (now : ℕ) (system : MockSystem) (verb : String) where
  -- The audit entry of the call.
  unfoldable pub log_outcome : String → AccessOutcome → Action (Unit {0})
  unfolding record_entry action_text
  log_outcome subject outcome =
      record_entry pf
        (record (fields subject (action_text system verb) allowed) {
          token_id = some token_id;
          outcome = some outcome;
        })
        now

  -- What follows the loop; `none` if `undefined` is thrown.
  unfoldable pub settle : String → LoopEnd → Action (Option AccessResult)
  unfolding log_outcome
  settle subject (succeeded r) = log_outcome subject success >> pure (some (reached r))
  settle subject gave_up = log_outcome subject unreachable >> pure (some not_reached)
  settle subject untried = pure none

  -- What follows the gateway's decision.
  unfoldable pub after_gate :
      Surroundings → Option ℕ → EnforcementDecision → Action (Option AccessResult)
  unfolding token_get settle run_attempts attempt_at
  after_gate env max_attempts (deny code message) = pure (some (not_allowed (deny_text code)))
  after_gate env max_attempts allow = do
    token ← token_get pf token_id
    settle (subject_of token) (
        run_attempts (attempt_at system verb env) (or_default max_attempts default_max_attempts) 0
          untried)

  -- `accessMockEndpoint`
  unfoldable pub access_mock_endpoint :
      Surroundings → Option ℕ → String → Action (Option AccessResult)
  unfolding enforce_token after_gate action_text
  access_mock_endpoint env max_attempts secret =
      enforce_token pf token_id secret (action_text system verb) now >>= after_gate env max_attempts
