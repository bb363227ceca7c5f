-- ===== src/Records/Agents.antt =====
-- src/agentIdentity.ts: the agents that an operator has registered.
use ambit.Common.{ℕ, String}

pub record AgentIdentity : Type 0 where
  pub id : String
  pub subject : String
  pub secret_hash : String
  pub created_by : String
  pub created_at : ℕ
