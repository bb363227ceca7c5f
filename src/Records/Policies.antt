-- ===== src/Records/Policies.antt =====
-- src/policy.ts: the policies that limit what may be issued.
use ambit.Common.{ℕ, List, String}
use ambit.Common.Int.{ℤ}

pub record Policy : Type 0 where
  pub id : String
  pub name : String
  pub allowed_scope : List String
  pub max_ttl_seconds : ℤ
  pub authored_by : String
  pub created_at : ℕ
  pub updated_at : ℕ

pub record PolicyInput : Type 0 where
  pub name : String
  pub allowed_scope : List String
  pub max_ttl_seconds : ℤ
