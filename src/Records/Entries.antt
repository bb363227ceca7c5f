-- ===== src/Records/Entries.antt =====
-- src/auditLog.ts: the entries of the audit log.
use ambit.Common.{ℕ, Option, none, List, String}

pub data Decision : Type 0 where
  allowed denied revoked request_submitted request_approved request_denied : Decision
  request_escalated request_decision_rejected anomaly_detected policy_created : Decision
  policy_modified circuit_opened circuit_closed redaction_rule_created data_accessed : Decision
  agent_identity_registered token_secret_claimed : Decision

-- The decision's text.
abbrev pub decision_text : Decision → String
decision_text allowed = "allowed"
decision_text denied = "denied"
decision_text revoked = "revoked"
decision_text request_submitted = "request_submitted"
decision_text request_approved = "request_approved"
decision_text request_denied = "request_denied"
decision_text request_escalated = "request_escalated"
decision_text request_decision_rejected = "request_decision_rejected"
decision_text anomaly_detected = "anomaly_detected"
decision_text policy_created = "policy_created"
decision_text policy_modified = "policy_modified"
decision_text circuit_opened = "circuit_opened"
decision_text circuit_closed = "circuit_closed"
decision_text redaction_rule_created = "redaction_rule_created"
decision_text data_accessed = "data_accessed"
decision_text agent_identity_registered = "agent_identity_registered"
decision_text token_secret_claimed = "token_secret_claimed"

pub data AccessOutcome : Type 0 where
  success unreachable : AccessOutcome

-- What a caller of `record` gives: the entry without `id`, `occurredAt`, `previousHash` and `hash`.
pub record AuditFields : Type 0 where
  pub token_id : Option String
  pub request_id : Option String
  pub policy_id : Option String
  pub subject : String
  pub action : String
  pub decision : Decision
  pub reason_code : Option String
  pub message : Option String
  pub actor : Option String
  pub outcome : Option AccessOutcome
  pub redacted_fields : Option (List String)

-- The fields that every caller gives, the optional ones left out.
abbrev pub fields : String → String → Decision → AuditFields
fields subject action decision = record {
  token_id = none;
  request_id = none;
  policy_id = none;
  subject = subject;
  action = action;
  decision = decision;
  reason_code = none;
  message = none;
  actor = none;
  outcome = none;
  redacted_fields = none;
}

-- An entry without its hash: what the hash covers.
pub record UnhashedEntry : Type 0 where
  pub id : String
  pub occurred_at : ℕ
  pub previous_hash : Option String
  pub content : AuditFields

pub record AuditLogEntry : Type 0 where
  pub covered : UnhashedEntry
  pub hash : String
