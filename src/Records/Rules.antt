-- ===== src/Records/Rules.antt =====
-- src/redaction.ts: which scope shows which field. `Object.entries` of the sensitive fields, in order.
use ambit.Common.{ℕ, String, Dict}

pub record RedactionRule : Type 0 where
  pub id : String
  pub name : String
  pub sensitive_fields : Dict String
  pub authored_by : String
  pub created_at : ℕ

pub record RedactionRuleInput : Type 0 where
  pub name : String
  pub sensitive_fields : Dict String
