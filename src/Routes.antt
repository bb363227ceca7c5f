-- ===== src/Routes.antt =====
-- The guarded routes of src/server.ts, as express runs them: a guard answers or hands over to the route.
-- A body's field is what `typeof` or a list of valid values lets through. Other thrown errors stay
-- thrown, and an environment variable is a parameter, read for each request. A route that awaits runs
-- without another one in between.
pub mod Guards
pub mod Calls
pub mod Attributes
pub mod Login
pub mod Data
use ambit.Common.{
  ℕ, zero, suc, ◌*◌, Bool, true, false, Option, none, some, List, [], ◌∷◌, String, ◌==◌,
  if◌then◌else◌, str_eq, given, template, map,
}
use Prim.Native.Char.{code}
use Prim.Native.String
use ambit.Common.Int.{ℤ}
use ambit.Records.{
  Token, TokenStatus, RevocationReason, compromised, no_longer_needed, policy_violation, superseded,
  AgentIdentity, PendingRequest, Decision, circuit_opened, circuit_closed, fields,
}
use ambit.Platform.{Platform}
use ambit.Breaker.{CircuitState, simulate_outage, or_default, CircuitBreaker}
use ambit.World.{
  World, Action, Result, Error, ok, throw, pure, raise, ◌>>=◌, ◌>>◌, gets, read_clock, record_entry,
  error_message, unknown_token, unknown_request, request_not_pending, wrong_subject,
  request_not_approved, token_secret_already_claimed, unauthorized_decider, invalid_agent_identity,
  duplicate_agent_identity,
}
use ambit.Token.Issue.{text_or_empty}
use ambit.Token.Access.{token_list}
use ambit.Token.Enforce.{EnforcementDecision, enforce_token}
use ambit.Token.Revoke.{revoke_token}
use ambit.Agents.{RegisteredAgentIdentity, register_agent_identity, authenticate_agent}
use ambit.Sessions.{
  SessionTokenConfig, SessionVerifyResult, valid, invalid, InvalidReason, malformed,
  invalid_signature, expired, timing_safe_string_equal, verify_session_token,
}
use ambit.Requests.Submit.{Submission, request_token}
use ambit.Requests.Decide.{
  DenialReason, scope_too_broad, unverified_subject, duplicate_request, other, approve_request,
  deny_request, check_request_timeout,
}
use ambit.Requests.Claim.{claim_token_secret}

-- `res.status(n).json({ error })`, or `res.status(n)` with what the route sends.
pub data Response (A : Type 0) : Type 0 where
  failed : ℕ → String → Response A
  sent : ℕ → A → Response A

abbrev pub Handler : Type 0 → Type 0
Handler A = Action (Response A)

-- What follows the prefix, if the text starts with it.
unfoldable pub after_prefix : String → String → Option String
after_prefix String.[] text = some text
after_prefix (String.◌∷◌ p prefix) String.[] = none
after_prefix (String.◌∷◌ p prefix) (String.◌∷◌ c text) =
    if code p == code c then after_prefix prefix text else none

-- `bearerToken`, of the authorization header.
unfoldable pub bearer_token : Option String → String
unfolding after_prefix
bearer_token header = text_or_empty (after_prefix "Bearer " (text_or_empty header))

-- `catch (err)`: the errors that have a status of their own are answered.
unfoldable pub answer_errors : {A : Type 0} → (Error → Option ℕ) → Handler A → Handler A
answer_errors statuses m w =
    let (r, w') = m w in
    elim r [
      | ok a ↦ (ok a, w')
      | throw e ↦ elim (statuses e) [
        | none ↦ (throw e, w')
        | some n ↦ (ok (failed n (error_message e)), w')
      ]
    ]

abbrev pub reason_name : InvalidReason → String
reason_name malformed = "malformed"
reason_name invalid_signature = "invalid_signature"
reason_name expired = "expired"

-- `withoutSecretHash`: the fields of a token that may leave the server.
pub record PublicToken : Type 0 where
  pub id : String
  pub subject : String
  pub scope : List String
  pub issued_at : ℕ
  pub expires_at : ℕ
  pub status : TokenStatus
  pub parent_token_id : Option String
  pub revoked_at : Option ℕ
  pub revocation_reason : Option RevocationReason

abbrev pub without_secret_hash : Token → PublicToken
without_secret_hash t = record {
  id = t.id;
  subject = t.subject;
  scope = t.scope;
  issued_at = t.issued_at;
  expires_at = t.expires_at;
  status = t.status;
  parent_token_id = t.parent_token_id;
  revoked_at = t.revoked_at;
  revocation_reason = t.revocation_reason;
}

-- The reasons that a caller may give for a revocation.
unfoldable pub valid_revocation : String → Option RevocationReason
valid_revocation text =
    if str_eq text "compromised"
    then some compromised
    else if str_eq text "no_longer_needed"
    then some no_longer_needed
    else if str_eq text "policy_violation"
    then some policy_violation
    else if str_eq text "superseded"
    then some superseded
    else none

-- `VALID_DENIAL_REASONS`
unfoldable pub valid_denial : String → Option DenialReason
valid_denial text =
    if str_eq text "scope_too_broad"
    then some scope_too_broad
    else if str_eq text "policy_violation"
    then some DenialReason.policy_violation
    else if str_eq text "unverified_subject"
    then some unverified_subject
    else if str_eq text "duplicate_request"
    then some duplicate_request
    else if str_eq text "other"
    then some other
    else none

-- The statuses of the errors of `claimTokenSecret`, of a decision, of a revocation and of a
-- registration.
abbrev pub claim_statuses : Error → Option ℕ
claim_statuses (unknown_request m) = some 404
claim_statuses (wrong_subject m) = some 403
claim_statuses (request_not_approved m) = some 409
claim_statuses (token_secret_already_claimed m) = some 410
claim_statuses _ = none

abbrev pub decision_statuses : Error → Option ℕ
decision_statuses (unknown_request m) = some 404
decision_statuses (request_not_pending m) = some 409
decision_statuses (unauthorized_decider m) = some 403
decision_statuses _ = none

abbrev pub revocation_statuses : Error → Option ℕ
revocation_statuses (unknown_token m) = some 404
revocation_statuses _ = none

abbrev pub registration_statuses : Error → Option ℕ
registration_statuses (invalid_agent_identity m) = some 400
registration_statuses (duplicate_agent_identity m) = some 400
registration_statuses _ = none

module _ (pf : Platform) where
  -- `requireSession`, from the verification on.
  unfoldable pub with_session :
      {A : Type 0} → (String → Handler A) → SessionVerifyResult → Handler A
  with_session route (invalid reason) =
      pure (failed 401 (template ("invalid session: " ∷ reason_name reason ∷ [])))
  with_session route (valid username) = route username

  -- `requireSession`
  unfoldable pub require_session :
      {A : Type 0} → Option SessionTokenConfig → Option String → (String → Handler A) → Handler A
  unfolding with_session bearer_token read_clock
  require_session none header route = pure (failed 503 "authentication is not configured")
  require_session (some config) header route =
      if str_eq (bearer_token header) ""
      then pure (failed 401 "missing Authorization: Bearer <token> header")
      else (read_clock pf >>= λ now.
          with_session route (verify_session_token pf (bearer_token header) config now))

  -- `requireAgentCredential`, from the authentication on.
  unfoldable pub with_agent : {A : Type 0} → (String → Handler A) → Option AgentIdentity → Handler A
  with_agent route none = pure (failed 401 "invalid agent credential")
  with_agent route (some identity) = route identity.subject

  -- `requireAgentCredential`
  unfoldable pub require_agent_credential :
      {A : Type 0} → Option String → (String → Handler A) → Handler A
  unfolding with_agent bearer_token
  require_agent_credential header route =
      if str_eq (bearer_token header) ""
      then pure (failed 401 "missing Authorization: Bearer <agentId>.<secret> header")
      else (gets (authenticate_agent pf (bearer_token header)) >>= with_agent route)

  -- `requireAdminToggleKey`
  unfoldable pub require_admin_toggle_key :
      {A : Type 0} → Option String → Option String → Handler A → Handler A
  unfolding timing_safe_string_equal
  require_admin_toggle_key key header route =
      if given key
      then if timing_safe_string_equal pf (text_or_empty header) (text_or_empty key)
        then route
        else pure (failed 403 "missing or invalid x-ambit-admin-key header")
      else pure
          (failed 403 "fault-injection routes are disabled — set ADMIN_TOGGLE_KEY to enable them")
