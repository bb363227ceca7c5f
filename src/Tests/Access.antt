-- ===== src/Tests/Access.antt =====
-- Runs of the redaction, the access to customer data, the mock endpoints and the client.
use ambit.Common.{
  ℕ, zero, suc, ◌<◌, ◌≤◌, ◌≡◌, refl, true, false, Option, none, some, List, [], ◌∷◌, String, Dict,
  ◌⊎◌, inl, inr, lookup, length, arith,
}
use ambit.Common.Int.{pos}
use ambit.Records.{RedactionRule, RedactionRuleInput, Token}
use ambit.World.{World, throw, invalid_redaction_rule}
use ambit.Redaction.{apply_redaction, create_redaction_rule}
use ambit.Redaction.Masks.{apply_redaction-exact, is_hidden}
use ambit.Redaction.Rules.{is_protective, Makes, create_redaction_rule-decides}
use ambit.Customers.{default_seed_customers, init_registry, access_customer_data}
use ambit.Customers.Access.{Passed, access_customer_data-redacts}
use ambit.Endpoints.{email, MockEndpointResult, Surroundings, reached, access_mock_endpoint}
use ambit.Endpoints.Attempts.{Allowed, Told, access_mock_endpoint-tells}
use ambit.Sdk.{
  AmbitClient, RequestTokenParams, FetchOutcome, aborted, responded, send, lacks_credential,
  missing_credential_message, settle, request_token, claim_token_secret,
}
use ambit.Sdk.Retries.{Run, send-tries, request_token-once}
use ambit.Tests.{platform, world, root}

abbrev rule : RedactionRule
rule = record {
  id = "s";
  name = "pii";
  sensitive_fields = ("ssn", "pii:read") ∷ ("email", "customer:read") ∷ ("toString", "x") ∷ [];
  authored_by = "admin";
  created_at = 0;
}

abbrev shown : Dict String
shown = ("id", "c") ∷ ("ssn", "1") ∷ []

apply_redaction-exact_example :
    lookup "ssn" (apply_redaction shown rule ("customer:read" ∷ [])).0 ≡ some "[REDACTED]"
unfolding lookup is_hidden
apply_redaction-exact_example = apply_redaction-exact "ssn" shown rule ("customer:read" ∷ []) refl

abbrev nothing : RedactionRuleInput
nothing = record { name = "pii"; sensitive_fields = [] }

create_redaction_rule-decides_example :
    ((is_protective nothing ≡ true) × Makes platform nothing "admin" 0 world)
    ⊎ ((is_protective nothing ≡ false)
        × (message : String) × (create_redaction_rule platform nothing "admin" 0 world
            ≡ (throw (invalid_redaction_rule message), world)))
create_redaction_rule-decides_example =
    create_redaction_rule-decides platform nothing "admin" 0 world

abbrev reader : Token
reader = record root { scope = "customer:read" ∷ "email:send" ∷ [] }

abbrev open_world : World
open_world = record world {
  tokens = record { items = ("p", reader) ∷ []; file = none };
  rules = record { items = ("s", rule) ∷ []; file = none };
}

abbrev visible : Dict String
visible =
    ("id", "cust-001")
    ∷ ("name", "Jordan Ellis")
    ∷ ("email", "jordan.ellis@example.com")
    ∷ ("phone", "555-0101")
    ∷ ("ssn", "[REDACTED]")
    ∷ ("address", "12 Birch Street, Springfield")
    ∷ ("toString", "[REDACTED]")
    ∷ []

access_customer_data-redacts_example :
    Passed platform "p" 0
      (init_registry default_seed_customers)
      "aa"
      "cust-001"
      "s"
      open_world
      visible
      ("ssn" ∷ "toString" ∷ [])
unfolding access_customer_data init_registry ambit.World.guarded ambit.Breaker.execute
    ambit.Store.get lookup ambit.Password.verify_password ambit.Common.insert
    ambit.World.write_entry
access_customer_data-redacts_example =
    access_customer_data-redacts platform "p" 0 (init_registry default_seed_customers) "aa"
      "cust-001" "s" open_world visible ("ssn" ∷ "toString" ∷ []) refl

-- The endpoints are up, and the timer of the first attempt fires first.
abbrev slow : Surroundings
slow = record {
  timed_out = λ i. elim i [ zero ↦ true | _ ↦ false ];
  registry = λ i. record { down = λ s. false };
}

abbrev sent_mail : MockEndpointResult
sent_mail = record { system = email; verb = "send"; detail = "email:send succeeded" }

access_mock_endpoint-tells_example :
    Allowed platform "p" 0 email "send" "aa" open_world (reached sent_mail)
    × Told platform "p" 0 email "send" slow 2 (reached sent_mail)
unfolding access_mock_endpoint ambit.World.guarded ambit.Breaker.execute ambit.Store.get lookup
    ambit.Password.verify_password ambit.World.write_entry
access_mock_endpoint-tells_example =
    access_mock_endpoint-tells platform "p" 0 email "send" slow none "aa" open_world
      (reached sent_mail) refl

abbrev client : AmbitClient
client = record {
  base_url = "http://localhost:4000";
  agent_credential = some "i.aa";
  timeout_ms = 5000;
  max_attempts = 3;
  retry_delay_ms = 100;
}

-- The first attempt times out, the second is refused.
abbrev fetched : ℕ → FetchOutcome String
fetched zero = aborted
fetched (suc i) = responded 400 (some "bad scope")

send-tries_example :
    ((lacks_credential true client.agent_credential ≡ true)
      × (send platform some client "GET" "/requests/r" none 3 true fetched ≡ (
        [],
        inl (record { message = missing_credential_message "GET" "/requests/r"; status = 0 }),
      )))
    ⊎ ((lacks_credential true client.agent_credential ≡ false)
        × Run
            (λ i. settle platform some client "GET" "/requests/r" (fetched i))
            3
            (send platform some client "GET" "/requests/r" none 3 true fetched))
send-tries_example = send-tries platform some client "GET" "/requests/r" none 3 true fetched

abbrev params : RequestTokenParams
params = record {
  scope = "read" ∷ [];
  ttl_seconds = pos 60;
  policy_id = none;
  idempotency_key = none;
}

request_token-once_example :
    (length (request_token platform some (λ p. "{}") (λ t. t) client params fetched).0 ≤ 1)
    × (length (claim_token_secret platform some (λ p. "{}") (λ t. t) client "r" fetched).0 ≤ 1)
request_token-once_example =
    request_token-once platform some (λ p. "{}") (λ t. t) client params "r" fetched refl
