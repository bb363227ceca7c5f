-- ===== src/Tests.antt =====
-- Concrete data for the runs of the model: a platform, tokens, and the state that src/server.ts starts
-- with.
mod Lawful
mod Accounts
mod Access
mod Routes
mod Logs
mod Tokens
mod Guards
mod Approvals
use ambit.Common.{
  ℕ, zero, suc, ◌*◌, codes, Bool, Option, none, some, List, [], ◌∷◌, String, str_eq, if◌then◌else◌,
}
use ambit.Common.Int.{ℤ, pos}
use ambit.Records.{
  UnhashedEntry, AuditLogEntry, Token, TokenStatus, TokenRequest, Policy, PendingRequest,
  RequestStatus, fields, Decision,
}
use ambit.Platform.{Platform}
use ambit.Breaker.{CircuitBreaker, CircuitBreakerConfig, closed}
use ambit.Anomaly.{AnomalyDetector, default_anomaly_config}
use ambit.Audit.{AuditLog}
use ambit.World.{World}

abbrev uuid : ℕ → String
uuid zero = "u0"
uuid (suc zero) = "u1"
uuid (suc (suc zero)) = "u2"
uuid (suc (suc (suc zero))) = "u3"
uuid (suc (suc (suc (suc n)))) = "u4"

-- The secret "aa" is the only one that a hash "aa:aa" admits.
abbrev pub platform : Platform
platform = record {
  clock = λ n. 1000 * n;
  random_uuid = uuid;
  random_bytes = λ n size. [];
  to_hex = λ bytes. "aa";
  from_hex = λ text. 1 ∷ [];
  scrypt = λ password salt size. if str_eq password "aa" then 1 ∷ [] else 2 ∷ [];
  sha256_hex = λ text. text;
  iso_string = λ n. "t";
  show_number = λ n. "n";
  json_unhashed = λ e. e.id;
  json_entry = λ e. e.covered.id;
  parse_entry = λ line. none;
  json_token = λ t. t.id;
  parse_token = λ line. none;
  json_policy = λ p. p.id;
  parse_policy = λ line. none;
  json_request = λ r. r.id;
  parse_request = λ line. none;
  json_identity = λ i. i.id;
  parse_identity = λ line. none;
  json_rule = λ r. r.id;
  parse_rule = λ line. none;
  json_session = λ p. p.username;
  parse_session = λ text. some (record { username = some text; expires_at = some 60000 });
  sha256 = codes;
  utf8 = codes;
  to_base64url = λ text. text;
  from_base64url = λ text. text;
  hmac_sha256 = λ secret text. secret;
  hmac_sha1 = λ key buffer. 0 ∷ 0 ∷ 0 ∷ 0 ∷ 0 ∷ [];
  to_upper_case = λ text. text;
}

abbrev pub token : String → List String → ℕ → Option String → Token
token id scope expires parent = record {
  id = id;
  subject = "agent";
  scope = scope;
  issued_at = 0;
  expires_at = expires;
  status = TokenStatus.active;
  parent_token_id = parent;
  revoked_at = none;
  revocation_reason = none;
  secret_hash = "aa:aa";
}

abbrev pub root : Token
root = token "p" ("read" ∷ "write" ∷ []) 60000 none

abbrev pub child : Token
child = token "c" ("read" ∷ []) 50000 (some "p")

abbrev pub policy : Policy
policy = record {
  id = "q";
  name = "readers";
  allowed_scope = "read" ∷ [];
  max_ttl_seconds = pos 60;
  authored_by = "admin";
  created_at = 0;
  updated_at = 0;
}

abbrev pub breaker : CircuitBreaker
breaker = record {
  state = closed;
  consecutive_failures = 0;
  opened_at = 0;
  simulating_outage = Bool.false;
  config = record { failure_threshold = 3; cooldown_ms = 5000 };
}

abbrev pub request : PendingRequest
request = record {
  subject = "agent";
  scope = "read" ∷ [];
  ttl_seconds = pos 60;
  parent_token_id = none;
  id = "r";
  status = RequestStatus.pending;
  requested_at = 0;
  token_id = none;
  token_secret = none;
  idempotency_key = none;
  assigned_approver = none;
}

-- One root token with one delegated from it, one policy, one pending request, an empty log.
abbrev pub world : World
world = record {
  clock_reads = 0;
  uuids_drawn = 0;
  bytes_drawn = 0;
  breaker = some breaker;
  tokens = record { items = ("p", root) ∷ ("c", child) ∷ []; file = none };
  policies = record { items = ("q", policy) ∷ []; file = none };
  requests = record { items = ("r", request) ∷ []; file = none };
  identities = record { items = []; file = none };
  rules = record { items = []; file = none };
  detector = record { config = default_anomaly_config; recent_by_subject = [] };
  audit = record {
    entries = [];
    files = none;
    max_lines_per_segment = 5000;
    current_segment_lines = 0;
  };
}

abbrev pub entry : String → Option String → AuditLogEntry
entry id previous = record {
  covered = record {
    id = id;
    occurred_at = 0;
    previous_hash = previous;
    content = fields "agent" "read" Decision.allowed;
  };
  hash = id;
}

-- Two entries that are linked, under `platform`.
abbrev pub entries : List AuditLogEntry
entries = entry "e0" none ∷ entry "e1" (some "e0") ∷ []
