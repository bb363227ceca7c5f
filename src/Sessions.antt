-- ===== src/Sessions.antt =====
-- src/sessionToken.ts and src/timingSafeCompare.ts: the signed session of an operator. A number of
-- milliseconds is a natural one.
pub mod Trust
use ambit.Common.{
  ℕ, ◌+◌, Bool, true, false, Option, none, some, List, [], ◌∷◌, String, leb, cut, template,
  if◌then◌else◌,
}
use ambit.Records.{SessionPayload, ParsedPayload}
use ambit.Platform.{Platform}
use ambit.Password.{same_bytes}
use ambit.Breaker.{or_default}

pub record SessionTokenConfig : Type 0 where
  pub signing_secret : String
  pub ttl_ms : Option ℕ

abbrev pub default_session_ttl_ms : ℕ
default_session_ttl_ms = 3600000

pub data InvalidReason : Type 0 where
  malformed invalid_signature expired : InvalidReason

pub data SessionVerifyResult : Type 0 where
  valid : String → SessionVerifyResult
  invalid : InvalidReason → SessionVerifyResult

-- `config.ttlMs ?? DEFAULT_SESSION_TTL_MS`
abbrev pub ttl_of : SessionTokenConfig → ℕ
ttl_of config = or_default config.ttl_ms default_session_ttl_ms

-- What follows the first dot, if there is no second one.
abbrev pub second_part : String → String × Option String → Option (String × String)
second_part first (second, none) = some (first, second)
second_part first (second, some more) = none

abbrev pub both_parts : String × Option String → Option (String × String)
both_parts (first, none) = none
both_parts (first, some rest) = second_part first (cut b'.' rest)

-- `token.split(".")`, where it has two parts.
unfoldable pub two_parts : String → Option (String × String)
two_parts token = both_parts (cut b'.' token)

-- `payload`, from the tests of its two fields on.
unfoldable pub check_fields : ℕ → Option String → Option ℕ → SessionVerifyResult
check_fields now none expires_at = invalid malformed
check_fields now (some username) none = invalid malformed
check_fields now (some username) (some expires_at) =
    if leb expires_at now then invalid expired else valid username

-- What follows `JSON.parse`, which may throw.
unfoldable pub check_payload : ℕ → Option ParsedPayload → SessionVerifyResult
unfolding check_fields
check_payload now none = invalid malformed
check_payload now (some p) = check_fields now p.username p.expires_at

module _ (pf : Platform) where
  -- `timingSafeStringEqual`
  unfoldable pub timing_safe_string_equal : String → String → Bool
  unfolding same_bytes
  timing_safe_string_equal a b = same_bytes (pf.sha256 a) (pf.sha256 b)

  -- `sign`
  unfoldable pub sign : String → String → String
  sign payload secret = pf.hmac_sha256 secret payload

  -- The payload in base64url.
  unfoldable pub encoded_payload : String → SessionTokenConfig → ℕ → String
  encoded_payload username config now = pf.to_base64url (
      pf.json_session
        (record { username = username; issued_at = now; expires_at = now + ttl_of config }))

  -- `createSessionToken`
  unfoldable pub create_session_token : String → SessionTokenConfig → ℕ → String
  unfolding encoded_payload sign template
  create_session_token username config now =
      let payload = encoded_payload username config now in
      template (payload ∷ "." ∷ sign payload config.signing_secret ∷ [])

  -- `verifySessionToken`, from the two parts on.
  unfoldable pub verify_parts :
      SessionTokenConfig → ℕ → Option (String × String) → SessionVerifyResult
  unfolding timing_safe_string_equal sign check_payload
  verify_parts config now none = invalid malformed
  verify_parts config now (some (payload, signature)) =
      if timing_safe_string_equal signature (sign payload config.signing_secret)
      then check_payload now (pf.parse_session (pf.from_base64url payload))
      else invalid invalid_signature

  -- `verifySessionToken`
  unfoldable pub verify_session_token : String → SessionTokenConfig → ℕ → SessionVerifyResult
  unfolding verify_parts two_parts
  verify_session_token token config now = verify_parts config now (two_parts token)
