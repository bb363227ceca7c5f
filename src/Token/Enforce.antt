-- ===== src/Token/Enforce.antt =====
-- The Enforcement Gateway: `enforceToken` and `decide` of src/token.ts, as one action: what other
-- requests do during the `await` of the possession check is not interleaved.
pub mod Decides
use ambit.Common.{
  ℕ, ◌+◌, ◌-◌, ◌/◌, Bool, true, false, Option, none, some, List, [], ◌∷◌, String, includes,
  if◌then◌else◌, leb, template, join,
}
use ambit.Common.Int.{ℤ, pos, negsuc}
use ambit.Records.{
  Token, TokenStatus, reason_text, RevocationReason, parent_revoked, AuditFields, Decision, allowed,
  denied, fields,
}
use ambit.Platform.{Platform}
use ambit.Password.{verify_password}
use ambit.World.{World, Action, pure, ◌>>=◌, ◌>>◌, try_open, record_entry}
use ambit.Token.Access.{token_get}

pub data DenyCode : Type 0 where
  revoked expired out_of_scope unknown_token store_unavailable invalid_credential : DenyCode

abbrev pub deny_text : DenyCode → String
deny_text revoked = "revoked"
deny_text expired = "expired"
deny_text out_of_scope = "out_of_scope"
deny_text unknown_token = "unknown_token"
deny_text store_unavailable = "store_unavailable"
deny_text invalid_credential = "invalid_credential"

pub data EnforcementDecision : Type 0 where
  allow : EnforcementDecision
  deny : DenyCode → String → EnforcementDecision

abbrev pub is_active : TokenStatus → Bool
is_active TokenStatus.active = true
is_active TokenStatus.revoked = false

-- `Math.round((to - from) / 1000)`, which rounds halves up.
round_seconds : ℕ → ℕ → ℤ
round_seconds from to =
    if leb from to
    then pos ((to - from + 500) / 1000)
    else (let k = (from - to + 499) / 1000 in if leb k 0 then pos 0 else negsuc (k - 1))

because : Option RevocationReason → String
because none = ""
because (some r) = template (
    " with reason \""
    ∷ reason_text r
    ∷ "\""
    ∷ elim r [ parent_revoked ↦ " (a token it was delegated from was revoked)" | _ ↦ "" ]
    ∷ [])

pub unavailable_message : String → String
unavailable_message id = template (
    "The Policy & Token Store is currently unreachable (circuit breaker open) — token \"" ∷ id
    ∷ "\" could not be validated, so the request was denied by default rather than allowed on unconfirmed data."
    ∷ [])

pub unknown_message : String → String
unknown_message id = template (
    "No token found with id \"" ∷ id
    ∷ "\" — either it was never issued, the id is incorrect, or this process has restarted since it was issued (state is in-memory and does not persist across restarts — see ADR-006)."
    ∷ [])

pub credential_message : String → String
credential_message id = template (
    "The credential provided does not match token \"" ∷ id
    ∷ "\" — either it is wrong or missing, or the caller is not this token's rightful holder. No further detail about this token is disclosed to an unverified caller."
    ∷ [])

-- The audit entry of a denial, under the id that the caller gave.
abbrev pub denial_fields : String → String → String → DenyCode → String → AuditFields
denial_fields id subject action code message = record (fields subject action denied) {
  token_id = some id;
  reason_code = some (deny_text code);
  message = some message;
}

module _ (pf : Platform) where
  pub revoked_message : Token → String
  revoked_message t = template (
      "Token \""
      ∷ t.id
      ∷ "\" (subject \""
      ∷ t.subject
      ∷ "\") was revoked at "
      ∷ elim t.revoked_at [ none ↦ "an unknown time" | some at_ms ↦ pf.iso_string at_ms ]
      ∷ because t.revocation_reason
      ∷ " and can no longer be used."
      ∷ [])

  pub expired_message : Token → ℕ → String
  expired_message t now = template (
      "Token \""
      ∷ t.id
      ∷ "\" (subject \""
      ∷ t.subject
      ∷ "\") expired at "
      ∷ pf.iso_string t.expires_at
      ∷ " — it was issued at "
      ∷ pf.iso_string t.issued_at
      ∷ " with a "
      ∷ pf.show_number (round_seconds t.issued_at t.expires_at)
      ∷ "s TTL. The current time is "
      ∷ pf.iso_string now
      ∷ ". Request a new token to continue."
      ∷ [])

  pub scope_message : Token → String → String
  scope_message t action = template (
      "Token \""
      ∷ t.id
      ∷ "\" (subject \""
      ∷ t.subject
      ∷ "\") is scoped to ["
      ∷ join ", " t.scope
      ∷ "] and does not include \""
      ∷ action
      ∷ "\". Request a token with broader scope, or delegate from a token that has it."
      ∷ [])

  unfoldable pub decide : Token → String → ℕ → EnforcementDecision
  decide t action now =
      if is_active t.status
      then (if leb t.expires_at now
          then deny expired (expired_message t now)
          else (if includes t.scope action
              then allow
              else deny out_of_scope (scope_message t action)))
      else deny revoked (revoked_message t)

  -- The audit entry of a decision about a token that was found.
  unfoldable pub decision_fields : Token → String → EnforcementDecision → AuditFields
  decision_fields t action allow = record (fields t.subject action allowed) { token_id = some t.id }
  decision_fields t action (deny code message) = record (fields t.subject action denied) {
    token_id = some t.id;
    reason_code = some (deny_text code);
    message = some message;
  }

  -- A denial that is logged under the id that the caller gave.
  unfoldable pub log_denial :
      String → String → String → DenyCode → String → ℕ → Action EnforcementDecision
  unfolding record_entry
  log_denial id subject action code message now =
      record_entry pf (denial_fields id subject action code message) now >> pure (deny code message)

  -- From the possession check on, for the token that was found before the `await`.
  unfoldable pub enforce_found : String → String → String → ℕ → Token → Action EnforcementDecision
  unfolding decide decision_fields log_denial
  enforce_found id secret action now t =
      if verify_password pf secret t.secret_hash
      then (do
        record_entry pf (decision_fields t action (decide t action now)) now
        pure (decide t action now))
      else log_denial id t.subject action invalid_credential (credential_message id) now

  -- What follows the lookup, by what it found: `none` if the store was unreachable.
  unfoldable pub enforce_lookup :
      String → String → String → ℕ → Option (Option Token) → Action EnforcementDecision
  unfolding enforce_found
  enforce_lookup id secret action now none =
      log_denial id "unknown" action store_unavailable (unavailable_message id) now
  enforce_lookup id secret action now (some none) =
      log_denial id "unknown" action unknown_token (unknown_message id) now
  enforce_lookup id secret action now (some (some t)) = enforce_found id secret action now t

  -- `enforceToken`
  unfoldable pub enforce_token : String → String → String → ℕ → Action EnforcementDecision
  unfolding enforce_lookup try_open token_get
  enforce_token id secret action now =
      try_open (token_get pf id) >>= enforce_lookup id secret action now
