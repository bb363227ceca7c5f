-- ===== src/Routes/Login.antt =====
-- `POST /auth/login` of src/server.ts behind its rate limit, with the cache of the verifiers. The clock is
-- read once for each configured identity, whether its verifier is asked or not. An error that a
-- verifier throws is an absent response.
pub mod Success
use ambit.Common.{
  ℕ, ◌+◌, ◌/◌, Bool, true, false, Option, none, some, List, [], ◌∷◌, String, Dict, lookup, insert,
  length, if◌then◌else◌, template,
}
use ambit.Common.Int.{pos}
use ambit.Records.{Decision, allowed, denied, fields}
use ambit.Platform.{Platform}
use ambit.World.{World, Action, record_entry, write_entry}
use ambit.Limiter.{RateLimiter, RateLimitResult, check}
use ambit.Totp.{TotpVerifier}
use ambit.Sessions.{SessionTokenConfig, create_session_token}
use ambit.Operators.{OperatorIdentity, Found, find_authenticated_operator}
use ambit.Routes.{Response, failed, sent}

-- The state that a login works on, beside the shared one.
pub record LoginState : Type 0 where
  pub world : World
  pub limiter : RateLimiter
  pub verifiers : Dict TotpVerifier

-- One operator's three environment variables.
pub record OperatorSettings : Type 0 where
  pub username : Option String
  pub password_hash : Option String
  pub totp_secret : Option String

pub data Resolved : Type 0 where
  absent misconfigured : Resolved
  configured : OperatorIdentity → Resolved

-- `getTotpVerifier`, by what the cache holds.
abbrev pub cached :
    String → Option TotpVerifier → Dict TotpVerifier → TotpVerifier × Dict TotpVerifier
cached secret (some v) cache = (v, cache)
cached secret none cache =
    let v = ambit.Totp.init secret none none none in (v, insert secret v cache)

-- `getTotpVerifier`
unfoldable pub get_totp_verifier : String → Dict TotpVerifier → TotpVerifier × Dict TotpVerifier
unfolding lookup insert
get_totp_verifier secret cache = cached secret (lookup secret cache) cache

-- `resolveOperatorIdentity`, over the three variables.
unfoldable pub resolve :
    Option String → Option String → Option String → Dict TotpVerifier → Resolved × Dict TotpVerifier
unfolding get_totp_verifier
resolve none none none cache = (absent, cache)
resolve (some username) (some password_hash) (some secret) cache =
    let (v, cache') = get_totp_verifier secret cache in
    (
      configured (record { username = username; password_hash = password_hash; totp_verifier = v }),
      cache',
    )
resolve _ _ _ cache = (misconfigured, cache)

unfoldable pub resolve_operator_identity :
    OperatorSettings → Dict TotpVerifier → Resolved × Dict TotpVerifier
unfolding resolve
resolve_operator_identity s cache = resolve s.username s.password_hash s.totp_secret cache

-- The identities to match, if the configuration is complete.
unfoldable pub identities_of : Resolved → Resolved → Option (List OperatorIdentity)
identities_of (configured primary) (configured backup) = some (primary ∷ backup ∷ [])
identities_of (configured primary) absent = some (primary ∷ [])
identities_of _ _ = none

-- The body, past its type tests.
pub record Credentials : Type 0 where
  pub username : String
  pub password : String
  pub totp_code : String

-- The verifier that accepted has moved on, in the cache too.
abbrev pub keep_verifier : OperatorIdentity → Dict TotpVerifier → Dict TotpVerifier
keep_verifier o cache = insert o.totp_verifier.secret o.totp_verifier cache

module _ (pf : Platform) where
  -- An audit entry at the clock's next reading.
  unfoldable pub log_login : String → Decision → Option String → World → World
  unfolding record_entry
  log_login subject decision reason w =
      (record_entry pf (record (fields subject "login" decision) { reason_code = reason })
        (pf.clock w.clock_reads) (record w { clock_reads = w.clock_reads + 1 })).1

  -- What follows the match.
  unfoldable pub answer_login :
      SessionTokenConfig
      → String
      → LoginState
      → Option Found
      → Option (Response String) × LoginState
  unfolding log_login create_session_token
  answer_login config username s none = (none, s)
  answer_login config username s (some (after, none)) = (
    some (failed 401 "invalid username, password, or authentication code"),
    record s { world = log_login username denied (some "invalid_credentials") s.world },
  )
  answer_login config username s (some (after, some matched)) =
      let w = log_login matched.username allowed none s.world in
      (
        some (sent 200 (create_session_token pf matched.username config (pf.clock w.clock_reads))),
        record s {
          world = record w { clock_reads = w.clock_reads + 1 };
          verifiers = keep_verifier matched s.verifiers;
        },
      )

  -- The match of the credentials against the identities.
  unfoldable pub match_login :
      SessionTokenConfig
      → Credentials
      → List OperatorIdentity
      → LoginState
      → Option (Response String) × LoginState
  unfolding answer_login find_authenticated_operator
  match_login config c identities s =
      let reads = s.world.clock_reads in
      answer_login config c.username
        (record s { world = record s.world { clock_reads = reads + length identities } })
        (find_authenticated_operator pf c.username c.password c.totp_code
          (λ i. pf.clock (reads + i)) identities)

  -- From the configuration on.
  unfoldable pub with_identities :
      Option SessionTokenConfig
      → Option (List OperatorIdentity)
      → Option Credentials
      → LoginState
      → Option (Response String) × LoginState
  unfolding match_login
  with_identities (some config) (some identities) (some c) s = match_login config c identities s
  with_identities (some config) (some identities) none s = (
    some (failed 400 "username (string), password (string), and totpCode (string) are required"),
    s,
  )
  with_identities _ _ _ s = (
    some (
        failed 503
          "authentication is not configured — set ADMIN_USERNAME, ADMIN_PASSWORD_HASH, ADMIN_TOTP_SECRET, and SESSION_SIGNING_SECRET (BACKUP_APPROVER_USERNAME/_PASSWORD_HASH/_TOTP_SECRET are optional, but must be all set together if used)"),
    s,
  )

  -- The route, past the rate limit.
  unfoldable pub login_route :
      Option SessionTokenConfig
      → OperatorSettings
      → OperatorSettings
      → Option Credentials
      → LoginState
      → Option (Response String) × LoginState
  unfolding with_identities identities_of resolve_operator_identity
  login_route config primary backup body s =
      let (p, cache) = resolve_operator_identity primary s.verifiers in
      let (b, cache') = resolve_operator_identity backup cache in
      with_identities config (identities_of p b) body (record s { verifiers = cache' })

  -- `requireLoginRateLimit`, by the limiter's answer.
  unfoldable pub limit_login :
      RateLimiter × RateLimitResult
      → LoginState
      → (LoginState → Option (Response String) × LoginState)
      → Option (Response String) × LoginState
  limit_login (limiter, result) s route =
      if result.allowed then route (record s { limiter = limiter }) else (
        some (failed 429 "rate limit exceeded — try again shortly"),
        record s { limiter = limiter },
      )

  -- `POST /auth/login`, from the address `client`.
  unfoldable pub post_login :
      String
      → Option SessionTokenConfig
      → OperatorSettings
      → OperatorSettings
      → Option Credentials
      → LoginState
      → Option (Response String) × LoginState
  unfolding limit_login login_route check
  post_login client config primary backup body s =
      let read : LoginState = record s {
        world = record s.world { clock_reads = s.world.clock_reads + 1 };
      } in
      limit_login (check client (pf.clock s.world.clock_reads) s.limiter) read
        (login_route config primary backup body)
