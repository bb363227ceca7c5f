-- ===== src/Routes/Data.antt =====
-- The routes of src/server.ts for delegation, policies, redaction rules, customer data and the mock
-- endpoints, each over the fields of its body, and the handler that answers what they throw.
use ambit.Common.{ℕ, Bool, Option, none, some, List, String, Dict, if◌then◌else◌, str_eq}
use ambit.Common.Int.{ℤ}
use ambit.Records.{Policy, PolicyInput, RedactionRule, RedactionRuleInput, AuditLogEntry}
use ambit.Platform.{Platform}
use ambit.Audit.{ChainVerification, verify_audit_chain}
use ambit.World.{
  Error, pure, ◌>>=◌, gets, read_clock, circuit_open, invalid_scope, policy_violation,
  invalid_policy, unknown_policy, invalid_redaction_rule,
}
use ambit.Delegation.{DelegationDecision, approved, DelegationDenialReason, delegate_token}
use ambit.Policies.{PolicyChanges, create_policy, modify_policy, policy_list}
use ambit.Redaction.{create_redaction_rule, rule_list}
use ambit.Customers.{CustomerRecord, CustomerDataAccessResult, access_customer_data}
use ambit.Endpoints.{MockSystem, email, code_hosting, payment, crm, MockEndpointRegistry, set_down}
use ambit.Routes.{
  Response, failed, sent, Handler, bearer_token, answer_errors, PublicToken, without_secret_hash,
  require_session,
}
use ambit.Routes.Calls.{Environment}

-- The body of `POST /tokens/:id/delegate`, past its type tests.
pub record DelegationBody : Type 0 where
  pub subject : String
  pub scope : List String
  pub ttl_seconds : ℤ

-- A decision as it is sent: the token without the hash of its secret.
pub data PublicDecision : Type 0 where
  handed_out : PublicToken → String → PublicDecision
  turned_down : DelegationDenialReason → PublicDecision

abbrev pub public_decision : DelegationDecision → PublicDecision
public_decision (approved t secret) = handed_out (without_secret_hash t) secret
public_decision (DelegationDecision.refused reason) = turned_down reason

-- `MOCK_SYSTEMS`
unfoldable pub valid_system : String → Option MockSystem
valid_system text =
    if str_eq text "email"
    then some email
    else if str_eq text "code-hosting"
    then some code_hosting
    else if str_eq text "payment"
    then some payment
    else if str_eq text "crm"
    then some crm
    else none

abbrev pub policy_statuses : Error → Option ℕ
policy_statuses (unknown_policy m) = some 404
policy_statuses (invalid_policy m) = some 400
policy_statuses _ = none

abbrev pub creation_statuses : Error → Option ℕ
creation_statuses (invalid_policy m) = some 400
creation_statuses _ = none

abbrev pub rule_statuses : Error → Option ℕ
rule_statuses (invalid_redaction_rule m) = some 400
rule_statuses _ = none

-- The last error handler.
unfoldable pub handle_error : {A : Type 0} → Error → Response A
handle_error (invalid_scope m) = failed 400 m
handle_error (policy_violation m) = failed 400 m
handle_error (circuit_open m) = failed 503 m
handle_error _ = failed 500 "internal error"

-- `POST /mock-endpoints/:system/down`, over the registry.
unfoldable pub post_down :
    Option MockSystem → Bool → MockEndpointRegistry → Response Bool × MockEndpointRegistry
unfolding set_down
post_down none down r = (failed 400 "system must be one of: email, code-hosting, payment, crm", r)
post_down (some system) down r = (sent 200 down, set_down system down r)

module _ (pf : Platform) (env : Environment) (header : Option String) where
  -- `POST /tokens/:id/delegate`
  unfoldable pub post_delegate : String → Option DelegationBody → Handler PublicDecision
  unfolding delegate_token bearer_token read_clock
  post_delegate id none =
      pure (failed 400 "subject (string), scope (string[]), and ttlSeconds (number) are required")
  post_delegate id (some body) = do
    now ← read_clock pf
    decision ←
        delegate_token pf
          (record {
            parent_id = id;
            parent_secret = bearer_token header;
            child_subject = body.subject;
            requested_scope = body.scope;
            ttl_seconds = body.ttl_seconds;
          })
          now
    pure (sent 200 (public_decision decision))

  unfoldable pub create_policy_route : Option PolicyInput → String → Handler Policy
  unfolding answer_errors create_policy read_clock
  create_policy_route none username =
      pure (
        failed 400
          "name (string), allowedScope (string[]), and maxTtlSeconds (number) are required")
  create_policy_route (some input) username =
      answer_errors creation_statuses (do
        now ← read_clock pf
        policy ← create_policy pf username now input
        pure (sent 201 policy))

  -- `POST /policies`
  unfoldable pub post_policy : Option PolicyInput → Handler Policy
  unfolding require_session create_policy_route
  post_policy input = require_session pf env.session header (create_policy_route input)

  unfoldable pub modify_policy_route : String → PolicyChanges → String → Handler Policy
  unfolding answer_errors modify_policy read_clock
  modify_policy_route id changes username = answer_errors policy_statuses (do
    now ← read_clock pf
    policy ← modify_policy pf username now id changes
    pure (sent 200 policy))

  -- `PATCH /policies/:id`
  unfoldable pub patch_policy : String → PolicyChanges → Handler Policy
  unfolding require_session modify_policy_route
  patch_policy id changes = require_session pf env.session header (modify_policy_route id changes)

  unfoldable pub create_rule_route : Option RedactionRuleInput → String → Handler RedactionRule
  unfolding answer_errors create_redaction_rule read_clock
  create_rule_route none username = pure (
      failed 400
        "name (string) and sensitiveFields (object mapping field name to required scope) are required")
  create_rule_route (some input) username = answer_errors rule_statuses (do
    now ← read_clock pf
    rule ← create_redaction_rule pf input username now
    pure (sent 201 rule))

  -- `POST /redaction-rules`
  unfoldable pub post_rule : Option RedactionRuleInput → Handler RedactionRule
  unfolding require_session create_rule_route
  post_rule input = require_session pf env.session header (create_rule_route input)

  -- `POST /tokens/:id/customer-data/:customerId`, under the default rule's id.
  unfoldable pub post_customer_data :
      Dict CustomerRecord → String → String → String → Handler CustomerDataAccessResult
  unfolding access_customer_data bearer_token read_clock
  post_customer_data customers rule_id id customer_id = do
    now ← read_clock pf
    result ← access_customer_data pf id now customers (bearer_token header) customer_id rule_id
    pure (sent 200 result)

-- `GET /policies`, `GET /redaction-rules` and `GET /audit-log`
unfoldable pub get_policies : Handler (List Policy)
unfolding policy_list
get_policies = gets (λ w. sent 200 (policy_list w))

unfoldable pub get_rules : Handler (List RedactionRule)
unfolding rule_list
get_rules = gets (λ w. sent 200 (rule_list w))

unfoldable pub get_audit_log : Handler (List AuditLogEntry)
get_audit_log = gets (λ w. sent 200 w.audit.entries)

-- `GET /audit-log/verify`
unfoldable pub get_verification : Platform → Handler ChainVerification
unfolding verify_audit_chain
get_verification pf = gets (λ w. sent 200 (verify_audit_chain pf w.audit.entries))
