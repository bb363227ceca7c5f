-- ===== src/Records/Tokens.antt =====
-- src/token.ts: tokens and the request for one.
use ambit.Common.{ℕ, Option, List, String}
use ambit.Common.Int.{ℤ}

pub data TokenStatus : Type 0 where
  active revoked : TokenStatus

pub data RevocationReason : Type 0 where
  compromised no_longer_needed policy_violation superseded parent_revoked : RevocationReason

-- The reason's text, as the audit log records it.
abbrev pub reason_text : RevocationReason → String
reason_text compromised = "compromised"
reason_text no_longer_needed = "no_longer_needed"
reason_text policy_violation = "policy_violation"
reason_text superseded = "superseded"
reason_text parent_revoked = "parent_revoked"

pub record TokenRequest : Type 0 where
  pub subject : String
  pub scope : List String
  pub ttl_seconds : ℤ
  pub parent_token_id : Option String
  pub policy_id : Option String

pub record Token : Type 0 where
  pub id : String
  pub subject : String
  pub scope : List String
  pub issued_at : ℕ
  pub expires_at : ℕ
  pub status : TokenStatus
  pub parent_token_id : Option String
  pub revoked_at : Option ℕ
  pub revocation_reason : Option RevocationReason
  pub secret_hash : String

pub record IssuedToken : Type 0 where
  pub token : Token
  pub secret : String
