-- ===== src/Platform.antt =====
-- What the program takes from outside its own code: Node's `crypto` and `Buffer`, the clock, and
-- the language's JSON, date and number printing. Each is a function; the readings of the clock and
-- the random draws are numbered, and the state counts how many were taken.
use ambit.Common.Int.{ℤ}
use ambit.Common.{ℕ, Option, List, String}
use ambit.Records.{
  UnhashedEntry, AuditLogEntry, Token, Policy, PendingRequest, AgentIdentity, RedactionRule,
  SessionPayload, ParsedPayload,
}

pub record Platform : Type 0 where
  -- `new Date().getTime()`, the n-th reading
  pub clock : ℕ → ℕ
  -- `crypto.randomUUID()`, the n-th draw
  pub random_uuid : ℕ → String
  -- `randomBytes(size)`, the n-th draw
  pub random_bytes : ℕ → ℕ → List ℕ
  -- `buf.toString("hex")` and `Buffer.from(text, "hex")`
  pub to_hex : List ℕ → String
  pub from_hex : String → List ℕ
  -- `scrypt(password, salt, keylen)`
  pub scrypt : String → List ℕ → ℕ → List ℕ
  -- `createHash("sha256").update(text).digest("hex")`
  pub sha256_hex : String → String
  -- `date.toISOString()`, and a number in a template literal
  pub iso_string : ℕ → String
  pub show_number : ℤ → String
  -- `JSON.stringify`, and `JSON.parse` with the store's `revive` function (`none` if either throws)
  pub json_unhashed : UnhashedEntry → String
  pub json_entry : AuditLogEntry → String
  pub parse_entry : String → Option AuditLogEntry
  pub json_token : Token → String
  pub parse_token : String → Option Token
  pub json_policy : Policy → String
  pub parse_policy : String → Option Policy
  pub json_request : PendingRequest → String
  pub parse_request : String → Option PendingRequest
  pub json_identity : AgentIdentity → String
  pub parse_identity : String → Option AgentIdentity
  pub json_rule : RedactionRule → String
  pub parse_rule : String → Option RedactionRule
  pub json_session : SessionPayload → String
  pub parse_session : String → Option ParsedPayload
  -- `createHash("sha256").update(text, "utf8").digest()` and `Buffer.from(text, "utf-8")`
  pub sha256 : String → List ℕ
  pub utf8 : String → List ℕ
  -- `Buffer.from(text, "utf8").toString("base64url")`, and back
  pub to_base64url : String → String
  pub from_base64url : String → String
  -- `createHmac("sha256", secret).update(text).digest("base64url")`
  pub hmac_sha256 : String → String → String
  -- `createHmac("sha1", key).update(buffer).digest()`
  pub hmac_sha1 : List ℕ → List ℕ → List ℕ
  -- `text.toUpperCase()`
  pub to_upper_case : String → String
