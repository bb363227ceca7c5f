-- ===== src/Records/Requests.antt =====
-- src/tokenRequest.ts: a token request on its way through human approval.
use ambit.Common.{ℕ, Option, List, String}
use ambit.Common.Int.{ℤ}

pub data RequestStatus : Type 0 where
  pending approved denied : RequestStatus

-- `PendingRequest` extends `TokenRequest`. A requester gives no policy (ADR-010), so `policyId` is
-- never set and is left out.
pub record PendingRequest : Type 0 where
  pub subject : String
  pub scope : List String
  pub ttl_seconds : ℤ
  pub parent_token_id : Option String
  pub id : String
  pub status : RequestStatus
  pub requested_at : ℕ
  pub token_id : Option String
  pub token_secret : Option String
  pub idempotency_key : Option String
  pub assigned_approver : Option String
