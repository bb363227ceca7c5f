-- ===== src/Routes/Calls.antt =====
-- The routes of src/server.ts behind the guards, and the gateway's, each over the fields of its body.
use ambit.Common.{ℕ, ◌*◌, Bool, true, Option, none, some, List, String, if◌then◌else◌, map}
use ambit.Common.Int.{ℤ}
use ambit.Records.{Token, RevocationReason, PendingRequest, circuit_opened, circuit_closed, fields}
use ambit.Platform.{Platform}
use ambit.Breaker.{simulate_outage, or_default}
use ambit.World.{Action, ok, pure, ◌>>=◌, ◌>>◌, gets, read_clock, record_entry}
use ambit.Token.Access.{token_list}
use ambit.Token.Enforce.{EnforcementDecision, enforce_token}
use ambit.Token.Revoke.{revoke_token}
use ambit.Agents.{RegisteredAgentIdentity, register_agent_identity}
use ambit.Sessions.{SessionTokenConfig}
use ambit.Requests.Submit.{Submission, request_token}
use ambit.Requests.Decide.{DenialReason, approve_request, deny_request, check_request_timeout}
use ambit.Requests.Claim.{claim_token_secret}
use ambit.Routes.{
  failed, sent, Handler, bearer_token, answer_errors, PublicToken, without_secret_hash,
  valid_revocation, valid_denial, claim_statuses, decision_statuses, revocation_statuses,
  registration_statuses, require_session, require_agent_credential, require_admin_toggle_key,
}

-- What the environment configures: the sessions, the two approvers, the decision window and the key of
-- the fault injection.
pub record Environment : Type 0 where
  pub session : Option SessionTokenConfig
  pub admin_username : Option String
  pub backup_username : Option String
  pub decision_window_ms : Option ℕ
  pub admin_toggle_key : Option String

-- The body of `POST /requests`, past its type tests.
pub record RequestBody : Type 0 where
  pub scope : List String
  pub ttl_seconds : ℤ
  pub idempotency_key : Option String

abbrev pub submission_of : String → RequestBody → Submission
submission_of subject body = record {
  subject = subject;
  scope = body.scope;
  ttl_seconds = body.ttl_seconds;
  parent_token_id = none;
  idempotency_key = body.idempotency_key;
}

-- `storeCircuitBreaker.simulateOutage(down)`
unfoldable pub set_outage : Bool → Action (Unit {0})
set_outage down w = (
  ok tt,
  record w { breaker = elim w.breaker [ none ↦ none | some b ↦ some (simulate_outage down b) ] },
)

module _ (pf : Platform) (env : Environment) (header : Option String) where
  -- `POST /agent-identities`, past the guard.
  unfoldable pub register_route : Option String → String → Handler RegisteredAgentIdentity
  unfolding answer_errors register_agent_identity read_clock
  register_route none username = pure (failed 400 "subject (string) is required")
  register_route (some subject) username = answer_errors registration_statuses (do
    now ← read_clock pf
    registered ← register_agent_identity pf subject username now
    pure (sent 201 registered))

  -- `POST /agent-identities`
  unfoldable pub post_agent_identity : Option String → Handler RegisteredAgentIdentity
  unfolding require_session register_route
  post_agent_identity subject = require_session pf env.session header (register_route subject)

  unfoldable pub request_route : Option RequestBody → String → Handler PendingRequest
  unfolding request_token read_clock
  request_route none subject =
      pure (failed 400 "scope (string[]) and ttlSeconds (number) are required")
  request_route (some body) subject = do
    now ← read_clock pf
    pending ← request_token pf env.admin_username now (submission_of subject body)
    pure (sent 201 pending)

  -- `POST /requests`
  unfoldable pub post_request : Option RequestBody → Handler PendingRequest
  unfolding require_agent_credential request_route
  post_request body = require_agent_credential pf header (request_route body)

  unfoldable pub claim_route : String → String → Handler (String × String)
  unfolding answer_errors claim_token_secret read_clock
  claim_route id subject = answer_errors claim_statuses (do
    now ← read_clock pf
    claimed ← claim_token_secret pf id subject now
    pure (sent 200 claimed))

  -- `POST /requests/:id/token-secret`
  unfoldable pub post_token_secret : String → Handler (String × String)
  unfolding require_agent_credential claim_route
  post_token_secret id = require_agent_credential pf header (claim_route id)

  -- `checkThisRequestTimeout`
  unfoldable pub check_this_request_timeout : String → Action (Unit {0})
  unfolding check_request_timeout read_clock
  check_this_request_timeout id = do
    now ← read_clock pf
    check_request_timeout pf id (or_default env.decision_window_ms (15 * 60000)) now
        env.backup_username

  unfoldable pub approve_route : String → Option String → String → Handler Token
  unfolding answer_errors check_this_request_timeout approve_request read_clock
  approve_route id policy approver = answer_errors decision_statuses (do
    check_this_request_timeout id
    now ← read_clock pf
    token ← approve_request pf id approver now true policy
    pure (sent 200 token))

  -- `POST /requests/:id/approve`
  unfoldable pub post_approve : String → Option String → Handler Token
  unfolding require_session approve_route
  post_approve id policy = require_session pf env.session header (approve_route id policy)

  unfoldable pub deny_route : String → Option DenialReason → String → Handler (Unit {0})
  unfolding answer_errors check_this_request_timeout deny_request read_clock
  deny_route id none approver = pure (
      failed 400
        "reasonCode must be one of: scope_too_broad, policy_violation, unverified_subject, duplicate_request, other")
  deny_route id (some reason) approver = answer_errors decision_statuses (do
    check_this_request_timeout id
    now ← read_clock pf
    deny_request pf id approver now reason
    pure (sent 204 tt))

  -- `POST /requests/:id/deny`
  unfoldable pub post_deny : String → String → Handler (Unit {0})
  unfolding require_session deny_route valid_denial
  post_deny id reason = require_session pf env.session header (deny_route id (valid_denial reason))

  -- `POST /tokens/:id/enforce`
  unfoldable pub post_enforce : String → Option String → Handler EnforcementDecision
  unfolding enforce_token bearer_token read_clock
  post_enforce id none = pure (failed 400 "action (string) is required")
  post_enforce id (some action) = do
    now ← read_clock pf
    decision ← enforce_token pf id (bearer_token header) action now
    pure (sent 200 decision)

  unfoldable pub revoke_route : String → Option RevocationReason → String → Handler PublicToken
  unfolding answer_errors revoke_token read_clock
  revoke_route id none username = pure (
      failed 400
        "reasonCode must be one of: compromised, no_longer_needed, policy_violation, superseded")
  revoke_route id (some reason) username = answer_errors revocation_statuses (do
    now ← read_clock pf
    token ← revoke_token pf now (some username) id reason
    pure (sent 200 (without_secret_hash token)))

  -- `POST /tokens/:id/revoke`
  unfoldable pub post_revoke : String → String → Handler PublicToken
  unfolding require_session revoke_route valid_revocation
  post_revoke id reason =
      require_session pf env.session header (revoke_route id (valid_revocation reason))

  unfoldable pub outage_route : Bool → Handler Bool
  unfolding set_outage record_entry read_clock
  outage_route down = do
    set_outage down
    now ← read_clock pf
    record_entry pf
        (record (fields "system" "circuit_breaker_simulate_outage"
          (if down then circuit_opened else circuit_closed)) {
            actor = some "admin-toggle";
            reason_code = some "manual_fault_injection";
          })
        now
    pure (sent 200 down)

  -- `POST /circuit-breaker/simulate-outage`, under the key's header.
  unfoldable pub post_simulate_outage : Bool → Handler Bool
  unfolding require_admin_toggle_key outage_route
  post_simulate_outage down =
      require_admin_toggle_key pf env.admin_toggle_key header (outage_route down)

-- `GET /tokens`
unfoldable pub get_tokens : Handler (List PublicToken)
unfolding token_list
get_tokens = gets (λ w. sent 200 (map without_secret_hash (token_list w)))
