-- ===== src/Records/Sessions.antt =====
-- src/sessionToken.ts: the payload of an operator's session, and what is read back of one.
use ambit.Common.{ℕ, Option, String}

pub record SessionPayload : Type 0 where
  pub username : String
  pub issued_at : ℕ
  pub expires_at : ℕ

-- A parsed payload that is an object: `username` if it is a string, `expiresAt` if it is a number, and
-- neither for any other JSON value.
pub record ParsedPayload : Type 0 where
  pub username : Option String
  pub expires_at : Option ℕ
